-- ===== src/Buddy/Chain.antt =====
-- The doubly linked free lists: what a write to one link leaves of a chain of blocks.
use mikrokernellib.Common.{
  ℕ, ◌≡◌, ◌≢◌, refl, true, false, List, [], ◌∷◌, arith, ◌==◌, if◌then◌else◌, update,
}
use mathlib.Core.Path.{subst, sym, ◌∙◌}
use native.Mathlib.Decide.{ℕ_discrete}
use mikrokernellib.Buddy.Cover.{has, Distinct}

-- From `p` the `next` links lead through `xs` to NULL, and each `prev` link leads back.
abbrev pub Chain : (ℕ → ℕ) → (ℕ → ℕ) → List ℕ → ℕ → ℕ → Type 0
Chain next prev [] back p = p ≡ 0
Chain next prev (x ∷ xs) back p =
    (p ≡ x) × (x ≢ 0) × (prev x ≡ back) × Chain next prev xs x (next x)

module _ (next prev : ℕ → ℕ) where
  pub Chain-update_next :
      (a v : ℕ) (xs : List ℕ) (back p : ℕ)
      → Chain next prev xs back p
      → has a xs ≡ false
      → Chain (update next a v) prev xs back p
  Chain-update_next a v [] back p c out = c
  Chain-update_next a v (x ∷ xs) back p c out =
      (c.0, c.1, c.2, ground (arith, Chain-update_next a v xs x (next x) c.3))

  pub Chain-update_prev :
      (a v : ℕ) (xs : List ℕ) (back p : ℕ)
      → Chain next prev xs back p
      → has a xs ≡ false
      → Chain next (update prev a v) xs back p
  Chain-update_prev a v [] back p c out = c
  Chain-update_prev a v (x ∷ xs) back p c out =
      (c.0, c.1, ground arith, Chain-update_prev a v xs x (next x) c.3 (ground arith))

  -- A non-empty chain begins at its first block.
  pub Chain-head : (xs : List ℕ) (back p : ℕ) → Chain next prev xs back p → p ≢ 0 → has p xs ≡ true
  Chain-head [] back p c ne = absurd (ne c)
  Chain-head (x ∷ xs) back p c ne = ground arith

  pub not-mem_null : (xs : List ℕ) (back p : ℕ) → Chain next prev xs back p → has 0 xs ≡ false
  not-mem_null [] back p c = refl
  not-mem_null (x ∷ xs) back p c = ground (arith, not-mem_null xs x (next x) c.3)

-- `if (head != NULL) head->prev = b;`
abbrev pub set_back : (ℕ → ℕ) → ℕ → ℕ → ℕ → ℕ
set_back prev p b = if p == 0 then prev else update prev p b

pub set_back-pos : (prev : ℕ → ℕ) (p x b : ℕ) → p ≡ x → x ≢ 0 → set_back prev p b ≡ update prev x b
set_back-pos prev p x b same ne = rw same (let e : (x == 0) ≡ false = ground arith in rw e)

module _ (next prev : ℕ → ℕ) where
  pub Chain-set_back :
      (b : ℕ) (xs : List ℕ) (back p : ℕ)
      → Distinct xs
      → Chain next prev xs back p
      → Chain next (set_back prev p b) xs b p
  Chain-set_back b [] back p d c = c
  Chain-set_back b (x ∷ xs) back p d c =
      subst (λ f. Chain next f (x ∷ xs) b p) (sym (set_back-pos prev p x b c.0 c.1))
        (c.0, c.1, ground arith, Chain-update_prev next prev x b xs x (next x) c.3 d.0)

  -- A chain that the first block of another is not in.
  pub Chain-set_back_ne :
      (q b : ℕ) (xs : List ℕ) (back p : ℕ)
      → Chain next prev xs back p
      → (q ≢ 0 → has q xs ≡ false)
      → Chain next (set_back prev q b) xs back p
  Chain-set_back_ne q b xs back p c out = elim (ℕ_discrete q 0) [
    | yes e ↦ rw e c
    | no ne ↦
        subst (λ f. Chain next f xs back p) (sym (set_back-pos prev q q b refl ne))
          (Chain-update_prev next prev q b xs back p c (out ne))
  ]

module _ (next prev : ℕ → ℕ) where
  pub Chain-nil : (xs : List ℕ) (back p : ℕ) → Chain next prev xs back p → p ≡ 0 → xs ≡ []
  Chain-nil [] back p c e = refl
  Chain-nil (x ∷ xs) back p c e = absurd (c.1 (sym c.0 ∙ e))

  pub Chain-cons :
      (xs : List ℕ) (back p : ℕ) → Chain next prev xs back p → p ≢ 0 → (ys : List ℕ) × (xs ≡ p ∷ ys)
  Chain-cons [] back p c ne = absurd (ne c)
  Chain-cons (x ∷ xs) back p c ne = (xs, rw c.0)
