-- ===== src/Buddy/Init/Lay.antt =====
-- All free lists as `__init_buddy` lays them out, the blocks of the largest order first.
use mathlib.Core.Path.{subst, subst₂}
use native.Mathlib.Decide.{ℕ_discrete}
use mikrokernellib.Common.{
  ℕ, zero, suc, ◌+◌, ◌-◌, ◌*◌, ◌≤◌, ◌<◌, ◌≡◌, ◌≢◌, inl, inr, refl, sym, ap, ◌∙◌, List, arith, ◌==◌,
  if◌then◌else◌, update, update_self, update-ne, Bool-cases,
}
use mikrokernellib.Buddy.{Buddy}
use mikrokernellib.Buddy.Order.{block_bytes}
use mikrokernellib.Buddy.Chain.{Chain}
use mikrokernellib.Buddy.Wf.{Aligned}
use mikrokernellib.Buddy.Alloc.{Aligned-half}
use mikrokernellib.Buddy.Init.{link_loop, lay_order, lay_orders}
use mikrokernellib.Buddy.Init.Counts.{extent}
use mikrokernellib.Buddy.Init.Lists.{run, run_bounds, Chain-agree, link_loop-Linked}

-- The list of order `k` in a region that ends at `end`.
abbrev pub list_of : (ℕ → ℕ) → ℕ → ℕ → List ℕ
list_of counts end k = run k (end - extent counts (suc k)) (counts k)

-- One order laid out from `current`.
record LaidOrder (counts : ℕ → ℕ) (k current : ℕ) (s : Buddy) (r : ℕ × Buddy) : Type 0 where
  after : r.0 ≡ current + counts k * block_bytes k
  chain : Chain r.1.next r.1.prev (run k current (counts k)) 0 (r.1.free_lists_ptr k)
  below : (a : ℕ) → a < current → (r.1.next a ≡ s.next a) × (r.1.prev a ≡ s.prev a)
  others : (j : ℕ) → j ≢ k → r.1.free_lists_ptr j ≡ s.free_lists_ptr j
  top : r.1.max_order ≡ s.max_order

lay_order-LaidOrder :
    (counts : ℕ → ℕ) (k current : ℕ) (s : Buddy)
    → k ≤ 10
    → current ≢ 0
    → s.free_lists_ptr k ≡ 0
    → LaidOrder counts k current s (lay_order counts k (current, s))
unfolding lay_order
lay_order-LaidOrder counts k current s hk ne empty = elim (Bool-cases (counts k == 0)) [
  | inl e ↦
      let nothing : 0 ≡ counts k = ground arith in
      rw (e, lay_order)
        (record {
          after = ground arith;
          chain =
              subst (λ n. Chain s.next s.prev (run k current n) 0 (s.free_lists_ptr k)) nothing
                empty;
          below = λ a h. (refl, refl);
          others = λ j other. refl;
          top = refl;
        })
  | inr e ↦
      let l = link_loop-Linked (counts k) 0 (counts k) k current s hk (omega arith) ne in
      let r = link_loop (counts k) 0 (counts k) k current s in
      let first : (if counts k == 0 then 0 else current) ≡ update r.1.free_lists_ptr k current k =
        rw e (sym (update_self r.1.free_lists_ptr k current)) in
      rw (e, lay_order)
        (record {
          after = l.after;
          chain = subst (λ p. Chain r.1.next r.1.prev (run k current (counts k)) 0 p) first l.chain;
          below = l.below;
          others =
              λ j other. update-ne r.1.free_lists_ptr k current j other ∙ ap (λ f. f j) l.heads;
          top = l.top;
        })
]

-- The orders below `n` laid out from `current` to `end`.
pub record Laid (counts : ℕ → ℕ) (n current end : ℕ) (s r : Buddy) : Type 0 where
  pub chains : (k : ℕ) → k < n → Chain r.next r.prev (list_of counts end k) 0 (r.free_lists_ptr k)
  pub below : (a : ℕ) → a < current → (r.next a ≡ s.next a) × (r.prev a ≡ s.prev a)
  pub others : (j : ℕ) → n ≤ j → r.free_lists_ptr j ≡ s.free_lists_ptr j
  pub top : r.max_order ≡ s.max_order
  pub starts : (k : ℕ) → k < n → Aligned k (end - extent counts (suc k))

-- What the place of the next block is a multiple of.
abbrev pub AlignedBelow : ℕ → ℕ → Type 0
AlignedBelow zero x = Unit
AlignedBelow (suc k) x = Aligned k x

AlignedBelow-add : (k x c : ℕ) → Aligned k x → AlignedBelow k (x + c * block_bytes k)
AlignedBelow-add zero x c al = tt
AlignedBelow-add (suc k) x c (q, e) =
    Aligned-half k (x + c * block_bytes (suc k)) (q + c, omega arith)

pub lay_orders-Laid :
    (counts : ℕ → ℕ) (n current end : ℕ) (s : Buddy)
    → n ≤ 11
    → current ≢ 0
    → current + extent counts n ≡ end
    → AlignedBelow n current
    → ((k : ℕ) → k < n → s.free_lists_ptr k ≡ 0)
    → Laid counts n current end s (lay_orders counts n (current, s)).1
unfolding lay_orders
lay_orders-Laid counts zero current end s hn ne e al empty = record {
  chains = λ k h. absurd (omega arith);
  below = λ a h. (refl, refl);
  others = λ j h. refl;
  top = refl;
  starts = λ k h. absurd (omega arith);
}
lay_orders-Laid counts (suc k) current end s hn ne e al empty =
    let r = lay_order counts k (current, s) in
    let one = lay_order-LaidOrder counts k current s (omega arith) ne (empty k (omega arith)) in
    let place : current ≡ end - extent counts (suc k) = omega arith in
    let further : AlignedBelow k r.0 =
      subst (AlignedBelow k) (sym one.after) (AlignedBelow-add k current (counts k) al) in
    let rest =
      lay_orders-Laid counts k r.0 end r.1 (omega arith) (omega (arith, ne, one.after))
        (omega (arith, one.after)) further
        (λ j h. one.others j (omega arith) ∙ empty j (omega arith)) in
    let res : Buddy = (lay_orders counts k r).1 in
    let c =
      Chain-agree r.1.next r.1.prev res.next res.prev (run k current (counts k)) 0
        (r.1.free_lists_ptr k) one.chain
        (λ a m. rest.below a (omega (arith, one.after, run_bounds k current (counts k) a m))) in
    record {
      chains = λ j h. elim (ℕ_discrete j k) [
        | yes same ↦ rw same (
            subst₂ (λ x p. Chain res.next res.prev (run k x (counts k)) 0 p) place
              (sym (rest.others k (omega arith))) c)
        | no other ↦ rest.chains j (omega arith)
      ];
      below = λ a h. (
        (rest.below a (omega (arith, one.after))).0 ∙ (one.below a h).0,
        (rest.below a (omega (arith, one.after))).1 ∙ (one.below a h).1,
      );
      others = λ j h. rest.others j (omega arith) ∙ one.others j (omega arith);
      top = rest.top ∙ one.top;
      starts = λ j h. elim (ℕ_discrete j k) [
        | yes same ↦ rw same (subst (Aligned k) place al)
        | no other ↦ rest.starts j (omega arith)
      ];
    }
