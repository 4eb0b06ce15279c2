-- ===== src/Kstrings/Copy.antt =====
-- `kstring_strcpy` of src/mikroKernellib/kstrings.c.
use mathlib.Core.Path.{subst}
use mikrokernellib.Common.{
  ℕ, zero, suc, ◌+◌, ◌-◌, ◌≤◌, ◌<◌, ◌≡◌, ◌≢◌, ◌⊎◌, inl, inr, refl, sym, ◌∙◌, false, ◌==◌, update,
  update_self, update-ne, Bool-cases, arith,
}
use mikrokernellib.Kstrings.{strcpy_loop, kstring_strcpy}

-- What the loop leaves from `i` on: it stops at `k`, at the NUL or at the end of its rounds.
abbrev pub Copied : ℕ → ℕ → ℕ → ℕ → (ℕ → ℕ) → ℕ × (ℕ → ℕ) → Type 0
Copied rounds i s1 dst mem result =
    (i ≤ result.0)
    × (result.0 ≤ i + rounds)
    × ((j : ℕ) → i ≤ j → j < result.0 → (mem (s1 + j) ≢ 0) × (result.1 (dst + j) ≡ mem (s1 + j)))
    × ((result.0 ≡ i + rounds) ⊎ (mem (s1 + result.0) ≡ 0))
    × ((a : ℕ) → (a < dst + i) ⊎ (dst + result.0 ≤ a) → result.1 a ≡ mem a)

-- The two strings do not overlap.
abbrev pub Disjoint : ℕ → ℕ → ℕ → Type 0
Disjoint s1 dst size = (i j : ℕ) → i < size → j < size → s1 + i ≢ dst + j

strcpy_loop_lem :
    (rounds i s1 dst : ℕ) (mem : ℕ → ℕ)
    → Disjoint s1 dst (i + rounds + 1)
    → Copied rounds i s1 dst mem (strcpy_loop rounds i s1 dst mem)
unfolding strcpy_loop
strcpy_loop_lem zero i s1 dst mem apart = (
  omega arith,
  omega arith,
  λ j low high. absurd (omega (arith, low, high)),
  inl (omega arith),
  λ a out. refl,
)
strcpy_loop_lem (suc rounds) i s1 dst mem apart = elim (Bool-cases (mem (s1 + i) == 0)) [
  | inl e ↦
      rw (strcpy_loop, e)
        (
          omega arith,
          omega arith,
          λ j low high. absurd (omega (arith, low, high)),
          inr (ground (arith, e)),
          λ a out. refl,
        )
  | inr e ↦
      let next = update mem (dst + i) (mem (s1 + i)) in
      let far : Disjoint s1 dst (i + 1 + rounds + 1) =
        λ m n p q. apart m n (omega (arith, p)) (omega (arith, q)) in
      let (low, high, bytes, stops, outside) = strcpy_loop_lem rounds (i + 1) s1 dst next far in
      let k = (strcpy_loop rounds (i + 1) s1 dst next).0 in
      let source : (j : ℕ) → j < i + rounds + 2 → next (s1 + j) ≡ mem (s1 + j) = λ j lt.
        update-ne mem (dst + i) (mem (s1 + i)) (s1 + j)
          (apart j i (omega (arith, lt)) (omega arith)) in
      let copied_here : (strcpy_loop rounds (i + 1) s1 dst next).1 (dst + i) ≡ mem (s1 + i) =
        outside (dst + i) (inl (omega arith)) ∙ update_self mem (dst + i) (mem (s1 + i)) in
      rw (strcpy_loop, e)
        (
          omega (arith, low),
          omega (arith, high),
          λ j from below. elim (Bool-cases (j == i)) [
            | inl here ↦
                let same : i ≡ j = ground (arith, here) in
                subst
                  (λ z.
                    (mem (s1 + z) ≢ 0)
                    × ((strcpy_loop rounds (i + 1) s1 dst next).1 (dst + z) ≡ mem (s1 + z)))
                  same (ground (arith, e), copied_here)
            | inr there ↦
                let (nz, byte) = bytes j (ground (arith, from, there)) below in
                let at_j = source j (omega (arith, below, high)) in
                (λ z. nz (at_j ∙ z), byte ∙ at_j)
          ],
          elim stops [
            | inl full ↦ inl (omega (arith, full))
            | inr z ↦ inr (sym (source k (omega (arith, high))) ∙ z)
          ],
          λ a out.
              let side : ((a < dst + (i + 1)) ⊎ (dst + k ≤ a)) × (a ≢ dst + i) = elim out [
                | inl lt ↦ (inl (omega (arith, lt)), omega (arith, lt))
                | inr ge ↦ (inr ge, omega (arith, ge, low))
              ] in
              outside a side.0 ∙ update-ne mem (dst + i) (mem (s1 + i)) a side.1,
        )
]

strcpy_runs :
    (s1 dst dst_size : ℕ) (mem : ℕ → ℕ)
    → s1 ≢ 0
    → dst ≢ 0
    → dst_size ≢ 0
    → kstring_strcpy s1 dst dst_size mem
      ≡ update
          (strcpy_loop (dst_size - 1) 0 s1 dst mem).1
          (dst + (strcpy_loop (dst_size - 1) 0 s1 dst mem).0)
          0
unfolding kstring_strcpy
strcpy_runs s1 dst dst_size mem z1 z2 z3 =
    let e1 : (s1 == 0) ≡ false = ground (arith, z1) in
    let e2 : (dst == 0) ≡ false = ground (arith, z2) in
    let e3 : (dst_size == 0) ≡ false = ground (arith, z3) in rw (e1, e2, e3) refl

-- With pointers that are not NULL, a size that is not 0 and a source that does not overlap the
-- destination, `kstring_strcpy` copies the bytes of the source before its NUL, at most one less than
-- the size, puts a NUL behind them, and writes no byte outside the destination.
pub kstring_strcpy_lem :
    (s1 dst dst_size : ℕ) (mem : ℕ → ℕ)
    → s1 ≢ 0
    → dst ≢ 0
    → dst_size ≢ 0
    → Disjoint s1 dst dst_size
    → (k : ℕ) × (k < dst_size)
      × ((j : ℕ)
          → j < k
          → (mem (s1 + j) ≢ 0) × (kstring_strcpy s1 dst dst_size mem (dst + j) ≡ mem (s1 + j)))
      × (kstring_strcpy s1 dst dst_size mem (dst + k) ≡ 0)
      × ((k + 1 ≡ dst_size) ⊎ (mem (s1 + k) ≡ 0))
      × ((a : ℕ) → (a < dst) ⊎ (dst + dst_size ≤ a) → kstring_strcpy s1 dst dst_size mem a ≡ mem a)
kstring_strcpy_lem s1 dst dst_size mem z1 z2 z3 apart =
    let result = strcpy_loop (dst_size - 1) 0 s1 dst mem in
    let (low, high, bytes, stops, outside) =
      strcpy_loop_lem (dst_size - 1) 0 s1 dst mem
        (λ m n p q. apart m n (omega (arith, p, z3)) (omega (arith, q, z3))) in
    rw (strcpy_runs s1 dst dst_size mem z1 z2 z3) (
      result.0,
      omega (arith, high, z3),
      λ j below.
          let (nz, byte) = bytes j (omega arith) below in
          (nz, update-ne result.1 (dst + result.0) 0 (dst + j) (omega (arith, below)) ∙ byte),
      update_self result.1 (dst + result.0) 0,
      elim stops [ inl full ↦ inl (omega (arith, full, z3)) | inr z ↦ inr z ],
      λ a out.
          let side : ((a < dst + 0) ⊎ (dst + result.0 ≤ a)) × (a ≢ dst + result.0) = elim out [
            | inl lt ↦ (inl (omega (arith, lt)), omega (arith, lt))
            | inr ge ↦ (inr (omega (arith, ge, high, z3)), omega (arith, ge, high, z3))
          ] in
          update-ne result.1 (dst + result.0) 0 a side.1 ∙ outside a side.0,
    )
