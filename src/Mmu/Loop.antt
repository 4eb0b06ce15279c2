-- ===== src/Mmu/Loop.antt =====
-- The loop of `unmap_pages` of src/mikroKernellib/mmu.c, for any step that unmaps one page.
use mikrokernellib.Common.{
  ℕ, zero, suc, ◌+◌, ◌-◌, ◌<◌, ◌≡◌, ◌⊎◌, inl, inr, refl, sym, Option, none, some, arith,
}
use mathlib.Core.Path.{subst}
use native.Mathlib.Decide.{ℕ_discrete}
use mikrokernellib.Mmu.{Mmu}
use mikrokernellib.Mmu.Pages.{unmap_loop}
use mikrokernellib.Mmu.Walk.{Cleared, Cleared-trans}

-- `count` pages from `i` on, one after the other.
abbrev pub Passed : (ℕ → Mmu → Mmu → Type 0) → ℕ → ℕ → Mmu → Mmu → Type 0
Passed Done zero i s s' = s' ≡ s
Passed Done (suc count) i s s' =
    (middle : Mmu) × Done i s middle × Passed Done count (i + 1) middle s'

-- A page among `count` from `i` on that is wrong in the memory of `s`, and still so when the pages
-- before it are done.
pub record Panic (Wrong : (ℕ → ℕ) → ℕ → Type 0) (Done : ℕ → Mmu → Mmu → Type 0) (s : Mmu)
    (i count : ℕ) : Type 0 where
  pub before : ℕ
  pub below : before < count
  pub wrong : Wrong s.mem (i + before)
  pub reached : Mmu
  pub passed : Passed Done before i s reached
  pub still : Wrong reached.mem (i + before)

-- A step that panics on a wrong page, or only zeroes entries and leaves page `i` unmapped.
abbrev pub Unmaps :
    (ℕ → Mmu → Option Mmu)
    → ((ℕ → ℕ) → ℕ → Type 0)
    → (ℕ → Mmu → Mmu → Type 0)
    → ((ℕ → ℕ) → ℕ → Type 0)
    → Type 0
Unmaps step Wrong Done Gone =
    (i : ℕ) (s : Mmu)
    → ((step i s ≡ none) × Wrong s.mem i)
      ⊎ ((s' : Mmu) × (step i s ≡ some s') × Done i s s' × Cleared s.mem s'.mem × Gone s'.mem i)

module _ (step : ℕ → Mmu → Option Mmu) (Wrong Gone : (ℕ → ℕ) → ℕ → Type 0)
    (Done : ℕ → Mmu → Mmu → Type 0)
    (stays : (mem after : ℕ → ℕ) (i : ℕ) → Cleared mem after → Gone mem i → Gone after i)
    (back : (mem after : ℕ → ℕ) (i : ℕ) → Cleared mem after → Wrong after i → Wrong mem i)
    (unmaps : Unmaps step Wrong Done Gone) where
  later_page :
      (i count : ℕ) (s s1 : Mmu)
      → Done i s s1
      → Cleared s.mem s1.mem
      → Panic Wrong Done s1 (i + 1) count
      → Panic Wrong Done s i (suc count)
  later_page i count s s1 done cleared panic =
      let there : i + 1 + panic.before ≡ i + suc panic.before = omega arith in
      record {
        before = suc panic.before;
        below = omega (arith, panic.below);
        wrong =
            subst (Wrong s.mem) there
              (back s.mem s1.mem (i + 1 + panic.before) cleared panic.wrong);
        reached = panic.reached;
        passed = (s1, done, panic.passed);
        still = subst (Wrong panic.reached.mem) there panic.still;
      }

  pub unmap_loop_lem :
      (count i : ℕ) (s : Mmu)
      → ((unmap_loop count i step s ≡ none) × Panic Wrong Done s i count)
        ⊎ ((s' : Mmu) × (unmap_loop count i step s ≡ some s')
            × Passed Done count i s s'
            × Cleared s.mem s'.mem
            × ((j : ℕ) → j < count → Gone s'.mem (i + j)))
  unfolding unmap_loop
  unmap_loop_lem zero i s =
      inr (s, refl, refl, λ a. inl refl, λ j h. let no : ⊥ = omega (arith, h) in elim no [ ])
  unmap_loop_lem (suc count) i s = elim (unmaps i s) [
    | inl (e, wrong) ↦
        let here : i ≡ i + 0 = omega arith in
        inl (
          rw (e, unmap_loop) refl,
          record {
            before = 0;
            below = omega arith;
            wrong = subst (Wrong s.mem) here wrong;
            reached = s;
            passed = refl;
            still = subst (Wrong s.mem) here wrong;
          },
        )
    | inr (s1, e, done, cleared, gone) ↦ elim (unmap_loop_lem count (i + 1) s1) [
      | inl (f, panic) ↦ inl (rw (e, unmap_loop) f, later_page i count s s1 done cleared panic)
      | inr (s', f, passed, more, rest) ↦ inr (
        s',
        rw (e, unmap_loop) f,
        (s1, done, passed),
        Cleared-trans s.mem s1.mem s'.mem cleared more,
        λ j h. elim (ℕ_discrete j 0) [
          | yes z ↦
              let here : i + j ≡ i = omega (arith, z) in
              subst (λ n. Gone s'.mem n) (sym here) (stays s1.mem s'.mem i more gone)
          | no ne ↦
              let there : i + 1 + (j - 1) ≡ i + j = omega (arith, ne) in
              subst (λ n. Gone s'.mem n) there (rest (j - 1) (omega (arith, ne, h)))
        ],
      )
    ]
  ]
