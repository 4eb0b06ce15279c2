-- ===== src/Buddy/Unlink.antt =====
-- A block taken out of the middle of a chain.
use mathlib.Core.Path.{subst, subst₂}
use native.Mathlib.Decide.{ℕ_discrete}
use mikrokernellib.Common.{
  ℕ, ◌≡◌, ◌≢◌, ◌⊎◌, inl, inr, refl, sym, ◌∙◌, true, false, List, [], ◌∷◌, arith, ◌==◌,
  if◌then◌else◌, update,
}
use mikrokernellib.Buddy.Cover.{has, Distinct}
use mikrokernellib.Buddy.Chain.{
  Chain, Chain-update_next, Chain-update_prev, Chain-head, not-mem_null, set_back, set_back-pos,
  Chain-set_back,
}

abbrev pub erase : ℕ → List ℕ → List ℕ
erase b [] = []
erase b (x ∷ xs) = if b == x then xs else x ∷ erase b xs

module _ (next prev : ℕ → ℕ) where
  pub Chain-set_next :
      (q b : ℕ) (xs : List ℕ) (back p : ℕ)
      → Chain next prev xs back p
      → (q ≢ 0 → has q xs ≡ false)
      → Chain (set_back next q b) prev xs back p
  Chain-set_next q b xs back p c out = elim (ℕ_discrete q 0) [
    | yes e ↦ rw e c
    | no ne ↦
        subst (λ f. Chain f prev xs back p) (sym (set_back-pos next q q b refl ne))
          (Chain-update_next next prev q b xs back p c (out ne))
  ]

  -- Where the links of a block in the chain lead.
  pub next_listed :
      (b : ℕ) (xs : List ℕ) (back p : ℕ)
      → Chain next prev xs back p
      → has b xs ≡ true
      → next b ≢ 0
      → has (next b) xs ≡ true
  next_listed b [] back p c m ne = absurd (ground arith)
  next_listed b (x ∷ xs) back p c m ne = elim (ℕ_discrete b x) [
    | yes e ↦ ground (arith, Chain-head next prev xs x (next x) c.3)
    | no other ↦ ground (arith, next_listed b xs x (next x) c.3)
  ]

  pub prev_listed :
      (b : ℕ) (xs : List ℕ) (back p : ℕ)
      → Chain next prev xs back p
      → Distinct xs
      → has b xs ≡ true
      → ((p ≡ b) × (prev b ≡ back)) ⊎ ((p ≢ b) × (has (prev b) xs ≡ true) × (prev b ≢ b))
  prev_listed b [] back p c d m = absurd (ground arith)
  prev_listed b (x ∷ xs) back p c d m = elim (ℕ_discrete b x) [
    | yes e ↦ inl (c.0 ∙ sym e, rw e c.2)
    | no other ↦ elim (prev_listed b xs x (next x) c.3 d.1 (ground arith)) [
      | inl (first, behind) ↦ inr (ground arith, ground arith, ground arith)
      | inr (later, mem, ne) ↦ inr (ground arith, ground arith, ne)
    ]
  ]

-- The links once `b` is taken out.
module _ (next prev : ℕ → ℕ) (b : ℕ) where
  abbrev pub next_without : ℕ → ℕ
  next_without = update (set_back next (prev b) (next b)) b 0

  abbrev pub prev_without : ℕ → ℕ
  prev_without = update (set_back prev (next b) (prev b)) b 0

  -- The head of a chain: it moves on if `b` was the first block.
  abbrev pub head_without : ℕ → ℕ
  head_without p = if p == b then next b else p

  tail_Chain :
      (xs : List ℕ)
      → Chain next prev xs b (next b)
      → Distinct xs
      → has b xs ≡ false
      → (prev b ≢ 0 → has (prev b) xs ≡ false)
      → Chain next_without prev_without xs (prev b) (next b)
  tail_Chain xs c d out behind =
      let backed = Chain-set_back next prev (prev b) xs b (next b) d c in
      let P = set_back prev (next b) (prev b) in
      let linked = Chain-set_next next P (prev b) (next b) xs (prev b) (next b) backed behind in
      let N = set_back next (prev b) (next b) in
      Chain-update_prev next_without P b 0 xs (prev b) (next b)
        (Chain-update_next N P b 0 xs (prev b) (next b) linked out) out

  module _ (x : ℕ) (xs : List ℕ) (c : Chain next prev xs x (next x)) (d : Distinct xs)
      (alone : has x xs ≡ false) (ne : x ≢ 0) (m : has b xs ≡ true) where
    -- A block before `b` keeps its way back, and leads past `b` if `b` came next.
    prev_without_before : prev_without x ≡ prev x
    prev_without_before = elim (ℕ_discrete (next b) 0) [
      | yes e ↦ ground arith
      | no after ↦ ground (arith, next_listed next prev b xs x (next x) c m after)
    ]

    next_without_before : next_without x ≡ head_without (next x)
    next_without_before = elim (prev_listed next prev b xs x (next x) c d m) [
      | inl (first, behind) ↦ ground arith
      | inr (later, mem, other) ↦ ground (arith, not-mem_null next prev xs x (next x) c)
    ]

  pub unlink-Chain :
      (xs : List ℕ) (back p : ℕ)
      → Chain next prev xs back p
      → Distinct xs
      → (back ≢ 0 → has back xs ≡ false)
      → has b xs ≡ true
      → Chain next_without prev_without (erase b xs) back (head_without p)
  unlink-Chain [] back p c d out m = absurd (ground arith)
  unlink-Chain (x ∷ xs) back p c d out m = elim (ℕ_discrete b x) [
    | yes e ↦
        let rest : xs ≡ erase b (x ∷ xs) = ground arith in
        let moved : next b ≡ head_without p = ground arith in
        subst₂ (λ ys q. Chain next_without prev_without ys back q) rest moved
          (subst (λ k. Chain next_without prev_without xs k (next b)) (rw e c.2)
            (tail_Chain xs (subst (λ k. Chain next prev xs k (next k)) (sym e) c.3) d.1 (rw e d.0)
              (λ ne. ground arith)))
    | no other ↦
        let in_tail : has b xs ≡ true = ground arith in
        let past = next_without_before x xs c.3 d.1 d.0 c.1 in_tail in
        let rest : x ∷ erase b xs ≡ erase b (x ∷ xs) = ground arith in
        let kept : p ≡ head_without p = ground arith in
        subst₂ (λ ys q. Chain next_without prev_without ys back q) rest kept
          (
            c.0,
            c.1,
            prev_without_before x xs c.3 d.1 d.0 c.1 in_tail ∙ c.2,
            subst (λ q. Chain next_without prev_without (erase b xs) x q) (sym past)
                (unlink-Chain xs x (next x) c.3 d.1 (λ ne. d.0) in_tail),
          )
  ]
