-- ===== src/Pmap/Copy.antt =====
-- `memcpy` and `__init_pmap` of src/mikroKernellib/pmap.c.
use mathlib.Core.Path.{subst}
use mikrokernellib.Common.{
  ℕ, zero, suc, ◌+◌, ◌*◌, ◌≤◌, ◌<◌, ◌≡◌, ◌≢◌, ◌⊎◌, inl, inr, refl, ap, ◌∙◌, update, update_self,
  update-ne, arith,
}
use mikrokernellib.Pmap.{entry_bytes, pmap_bytes, memcpy, init_pmap}

memcpy_out : (n d s : ℕ) (mem : ℕ → ℕ) (a : ℕ) → (a < d) ⊎ (d + n ≤ a) → memcpy d s n mem a ≡ mem a
unfolding memcpy
memcpy_out zero d s mem a out = refl
memcpy_out (suc n) d s mem a out =
    let side : ((a < d + 1) ⊎ (d + 1 + n ≤ a)) × (a ≢ d) = elim out [
      | inl lt ↦ (inl (omega (arith, lt)), omega (arith, lt))
      | inr ge ↦ (inr (omega (arith, ge)), omega (arith, ge))
    ] in
    memcpy_out n (d + 1) (s + 1) (update mem d (mem s)) a side.0 ∙ update-ne mem d (mem s) a side.1

memcpy_in :
    (n d s : ℕ) (mem : ℕ → ℕ)
    → ((i j : ℕ) → i < n → j < n → s + i ≢ d + j)
    → (i : ℕ) → i < n
    → memcpy d s n mem (d + i) ≡ mem (s + i)
unfolding memcpy
memcpy_in zero d s mem apart i lt = absurd (omega (arith, lt))
memcpy_in (suc n) d s mem apart zero lt =
    let here : d ≡ d + 0 = omega arith in
    let there : s ≡ s + 0 = omega arith in
    subst (λ z. memcpy (d + 1) (s + 1) n (update mem d (mem s)) z ≡ mem (s + 0)) here
      (memcpy_out n (d + 1) (s + 1) (update mem d (mem s)) d (inl (omega arith))
        ∙ update_self mem d (mem s)
        ∙ ap mem there)
memcpy_in (suc n) d s mem apart (suc i) lt =
    let dest : d + 1 + i ≡ d + suc i = omega arith in
    let source : s + 1 + i ≡ s + suc i = omega arith in
    let far : (m j : ℕ) → m < n → j < n → s + 1 + m ≢ d + 1 + j =
      λ m j p q. omega (arith, apart m j (omega (arith, p)) (omega (arith, q))) in
    subst (λ z. memcpy (d + 1) (s + 1) n (update mem d (mem s)) z ≡ mem (s + suc i)) dest
      (memcpy_in n (d + 1) (s + 1) (update mem d (mem s)) far i (omega (arith, lt))
        ∙ update-ne mem d (mem s) (s + 1 + i)
            (let away = apart (suc i) 0 (omega (arith, lt)) (omega arith) in omega (arith, away))
        ∙ ap mem source)

-- For at most 85 entries that do not overlap the buffer, `init_pmap` copies every byte of the entries
-- and writes no byte outside the buffer.
pub init_pmap_lem :
    (pmap_buf entries count : ℕ) (mem : ℕ → ℕ)
    → count ≤ 85
    → ((i j : ℕ) → i < count * entry_bytes → j < count * entry_bytes → entries + i ≢ pmap_buf + j)
    → ((i : ℕ)
        → i < count * entry_bytes
        → init_pmap pmap_buf entries count mem (pmap_buf + i) ≡ mem (entries + i))
      × ((a : ℕ)
          → (a < pmap_buf) ⊎ (pmap_buf + pmap_bytes ≤ a)
          → init_pmap pmap_buf entries count mem a ≡ mem a)
unfolding init_pmap
init_pmap_lem pmap_buf entries count mem few apart = (
  λ i lt. memcpy_in (count * entry_bytes) pmap_buf entries mem apart i lt,
  λ a out.
      memcpy_out (count * entry_bytes) pmap_buf entries mem a
        (elim out [ inl lt ↦ inl lt | inr ge ↦ inr (omega (arith, ge, few)) ]),
)
