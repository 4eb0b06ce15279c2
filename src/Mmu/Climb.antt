-- ===== src/Mmu/Climb.antt =====
-- The tables that the unmapping functions of src/mikroKernellib/mmu.c free on their way up.
use mikrokernellib.Common.{
  ℕ, zero, suc, ◌+◌, ◌*◌, ◌<◌, ◌≡◌, ◌≢◌, ◌⊎◌, inl, inr, refl, sym, ==→ne, ◌-◌, true, false, ◌||◌,
  Option, some, List, [], ◌∷◌, ltb, ◌==◌, if◌then◌else◌, update, if_some, Bool-cases, arith,
}
use native.Mathlib.Decide.{ℕ_discrete}
use mathlib.Core.Path.{subst}
use mikrokernellib.Layout.{page_size}
use mikrokernellib.Buddy.{buddy_kfree, order_loop, free_order, Buddy}
use mikrokernellib.Mmu.{Mmu, entry_at, is_empty, is_empty_loop, phys_free_page, free_if_empty}
use mikrokernellib.Mmu.Walk.{Cleared, Cleared-trans, Cleared-update}

-- The 512 entries of a table are zero.
abbrev pub AllZero : ℕ → (ℕ → ℕ) → Type 0
AllZero table mem = (i : ℕ) → i < 512 → mem (table + 8 * i) ≡ 0

-- One of them is not.
abbrev pub SomeUsed : ℕ → (ℕ → ℕ) → Type 0
SomeUsed table mem = (i : ℕ) × (i < 512) × (mem (table + 8 * i) ≢ 0)

empty_from :
    (rounds i table : ℕ) (mem : ℕ → ℕ)
    → ((is_empty_loop rounds i table mem ≡ true)
        × ((j : ℕ) → j < rounds → mem (table + 8 * (i + j)) ≡ 0))
      ⊎ ((is_empty_loop rounds i table mem ≡ false)
          × (j : ℕ) × (j < rounds)
          × (mem (table + 8 * (i + j)) ≢ 0))
unfolding is_empty_loop entry_at
empty_from zero i table mem = inl (refl, λ j h. let no : ⊥ = omega (arith, h) in elim no [ ])
empty_from (suc rounds) i table mem = elim (Bool-cases (mem (table + 8 * i) == 0)) [
  | inr e ↦
      let here : i + 0 ≡ i = omega arith in
      inr (
        rw e refl,
        0,
        omega arith,
        subst (λ n. mem (table + 8 * n) ≢ 0) (sym here) (==→ne (mem (table + 8 * i)) 0 e),
      )
  | inl e ↦ elim (empty_from rounds (i + 1) table mem) [
    | inr (f, j, h, ne) ↦
        let there : i + 1 + j ≡ i + (j + 1) = omega arith in
        inr (rw e f, j + 1, omega (arith, h), subst (λ n. mem (table + 8 * n) ≢ 0) there ne)
    | inl (f, rest) ↦ inl (
      rw e f,
      λ j h. elim (ℕ_discrete j 0) [
        | yes z ↦
            let here : i + j ≡ i = omega (arith, z) in
            subst (λ n. mem (table + 8 * n) ≡ 0) (sym here) (ground (arith, e))
        | no ne ↦
            let there : i + 1 + (j - 1) ≡ i + j = omega (arith, ne) in
            subst (λ n. mem (table + 8 * n) ≡ 0) there (rest (j - 1) (omega (arith, ne, h)))
      ],
    )
  ]
]

is_empty_lem :
    (table : ℕ) (mem : ℕ → ℕ)
    → ((is_empty table mem ≡ true) × AllZero table mem)
      ⊎ ((is_empty table mem ≡ false) × SomeUsed table mem)
unfolding is_empty
is_empty_lem table mem = elim (empty_from 512 0 table mem) [
  | inl (e, h) ↦ inl (
    e,
    λ j small.
        let here : 0 + j ≡ j = omega arith in subst (λ n. mem (table + 8 * n) ≡ 0) here (h j small),
  )
  | inr (e, j, small, ne) ↦
      let here : 0 + j ≡ j = omega arith in
      inr (e, (j, small, subst (λ n. mem (table + 8 * n) ≢ 0) here ne))
]

kfree_total : (page : ℕ) (b : Buddy) → (b' : Buddy) × (buddy_kfree page page_size b ≡ some b')
unfolding buddy_kfree order_loop
kfree_total page b =
    if_some (page == 0 || false) b
      (free_order page (if ltb b.max_order 0 then b.max_order else 0) b)

-- The way from `s` to `s'` over tables, each with the cell of its entry, from the lowest one up: it
-- ends at the first table that is in use, and before that each table goes to the allocator and its
-- entry is zeroed.
abbrev pub Climb : List (ℕ × ℕ) → Mmu → Mmu → Type 0
Climb [] s s' = s' ≡ s
Climb ((table, at) ∷ up) s s' =
    (SomeUsed table s.mem × (s' ≡ s))
    ⊎ (AllZero table s.mem
        × (b : Buddy) × (buddy_kfree table page_size s.buddy ≡ some b)
        × Climb up (record s { mem = update s.mem at 0; buddy = b }) s')

-- The same as nested calls.
abbrev pub climb : List (ℕ × ℕ) → Mmu → Option Mmu
climb [] s = some s
climb ((table, at) ∷ up) s = free_if_empty table at (climb up) s

pub climb_lem : (up : List (ℕ × ℕ)) (s : Mmu) → (s' : Mmu) × (climb up s ≡ some s') × Climb up s s'
unfolding free_if_empty phys_free_page
climb_lem [] s = (s, refl, refl)
climb_lem ((table, at) ∷ up) s = elim (is_empty_lem table s.mem) [
  | inr (e, used) ↦ (s, rw (e, free_if_empty) refl, inl (used, refl))
  | inl (e, zeros) ↦
      let (b, h) = kfree_total table s.buddy in
      let (s', g, way) = climb_lem up (record s { mem = update s.mem at 0; buddy = b }) in
      (s', rw (e, h, free_if_empty, phys_free_page) g, inr (zeros, b, h, way))
]

pub Climb-Cleared :
    (up : List (ℕ × ℕ)) (s s' : Mmu)
    → Climb up s s'
    → Cleared s.mem s'.mem × (s'.flushed ≡ s.flushed)
Climb-Cleared [] s s' e =
    subst (λ (r : Mmu). Cleared s.mem r.mem × (r.flushed ≡ s.flushed)) (sym e) (λ a. inl refl, refl)
Climb-Cleared ((table, at) ∷ up) s s' (inl (used, e)) =
    subst (λ (r : Mmu). Cleared s.mem r.mem × (r.flushed ≡ s.flushed)) (sym e) (λ a. inl refl, refl)
Climb-Cleared ((table, at) ∷ up) s s' (inr (zeros, b, h, way)) =
    let (cleared, kept) =
      Climb-Cleared up (record s { mem = update s.mem at 0; buddy = b }) s' way in
    (Cleared-trans s.mem (update s.mem at 0) s'.mem (Cleared-update s.mem at) cleared, kept)
