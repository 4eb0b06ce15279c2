-- ===== src/Buddy/Free.antt =====
-- `buddy_kfree`: the merging loop and the return of the block to a free list.
use mathlib.Core.Path.{subst}
use native.Mathlib.Decide.{ℕ_discrete}
use native.Mathlib.Nat.{pow-suc}
use mikrokernellib.Common.{
  ℕ, zero, suc, ◌+◌, ◌-◌, ◌*◌, ◌/◌, ◌%◌, ◌^◌, ◌≤◌, ◌<◌, ◌≡◌, ◌≢◌, ◌⊎◌, inl, inr, refl, sym, ap, ◌∙◌,
  true, false, some, List, ◌∷◌, arith, bit_xor, ltb, ◌==◌, if◌then◌else◌, update, Bool-cases,
}
use mikrokernellib.Common.Xor.{bit_xor_pow_even, bit_xor_pow_odd}
use mikrokernellib.Buddy.{
  Buddy, chunk_bytes, toggle_bitmap, unlink_block, merge_loop, free_order, buddy_kfree,
}
use mikrokernellib.Buddy.Order.{block_bytes, chunk_bytes_lem, IsOrder, order_loop-eq}
use mikrokernellib.Buddy.Cover.{
  inside, covered, has, inside-halves, inside_self, block_bytes-suc, block_bytes-pos,
}
use mikrokernellib.Buddy.Wf.{Aligned, Wf, push-Wf, covered-push}
use mikrokernellib.Buddy.Alloc.{toggle-Wf}
use mikrokernellib.Buddy.Unlink.{erase}
use mikrokernellib.Buddy.Remove.{removed_ne_null, covered-remove, remove-Wf}

abbrev pub buddy_of : ℕ → ℕ → ℕ
buddy_of order chunk = bit_xor chunk (chunk_bytes order)

abbrev pub lower_of : ℕ → ℕ → ℕ
lower_of order chunk = let b = buddy_of order chunk in if ltb b chunk then b else chunk

-- On the way up from `chunk` each bit that becomes 0 says that the buddy is on the free list of
-- its order.
abbrev pub Truthful : ℕ → ℕ → ℕ → Buddy → (ℕ → List ℕ) → Type 0
Truthful zero chunk order s fl = Unit
Truthful (suc rounds) chunk order s fl =
    let t = toggle_bitmap s chunk order in
    let b = buddy_of order chunk in
    t.1 ≡ 0
    → (has b (fl order) ≡ true)
      × Truthful rounds (lower_of order chunk) (order + 1) (unlink_block order b t.0)
          (update fl order (erase b (fl order)))

block_bytes-pow : (k : ℕ) → block_bytes k ≡ 2 ^ (k + 12)
block_bytes-pow zero = refl
block_bytes-pow (suc k) =
    let e : suc k + 12 ≡ suc (k + 12) = omega arith in
    rw e (omega (arith, block_bytes-suc k, block_bytes-pow k, pow-suc 2 (k + 12)))

-- The two halves of the block of the next order.
record Pair (order chunk : ℕ) : Type 0 where
  low : Aligned (suc order) (lower_of order chunk)
  whole :
      (a : ℕ)
      → inside (suc order) (lower_of order chunk) a
        ≡ inside order chunk a + inside order (buddy_of order chunk) a
  same : (lower_of order chunk ≡ chunk) ⊎ (lower_of order chunk ≡ buddy_of order chunk)

module _ (order m : ℕ) (h : order < 52) where
  bytes : chunk_bytes order ≡ 2 ^ (order + 12)
  bytes = chunk_bytes_lem order h ∙ block_bytes-pow order

  pub buddy_of_even :
      buddy_of order (2 * m * block_bytes order) ≡ 2 * m * block_bytes order + block_bytes order
  buddy_of_even = rw (bytes, block_bytes-pow order) (bit_xor_pow_even (order + 12) m)

  buddy_of_odd : buddy_of order ((2 * m + 1) * block_bytes order) ≡ 2 * m * block_bytes order
  buddy_of_odd = rw (bytes, block_bytes-pow order) (bit_xor_pow_odd (order + 12) m)

  twice : 2 * m * block_bytes order ≡ m * block_bytes (suc order)
  twice = omega (arith, ap (λ (t : ℕ). m * t) (block_bytes-suc order))

  Pair-even : Pair order (2 * m * block_bytes order)
  Pair-even =
      let chunk : ℕ = 2 * m * block_bytes order in
      let lower : lower_of order chunk ≡ chunk = ground (arith, buddy_of_even) in
      record {
        low = (m, lower ∙ twice);
        whole = λ a. ground (arith, lower, buddy_of_even, inside-halves order chunk a);
        same = inl lower;
      }

  Pair-odd : Pair order ((2 * m + 1) * block_bytes order)
  Pair-odd =
      let chunk : ℕ = (2 * m + 1) * block_bytes order in
      let b : ℕ = 2 * m * block_bytes order in
      let upper : chunk ≡ b + block_bytes order = omega arith in
      let lower : lower_of order chunk ≡ b = ground (arith, buddy_of_odd, block_bytes-pos order) in
      record {
        low = (m, lower ∙ twice);
        whole = λ a.
            ap (λ x. inside (suc order) x a) lower
            ∙ omega (
              arith,
              inside-halves order b a,
              ap (λ x. inside order x a) upper,
              ap (λ x. inside order x a) buddy_of_odd,
            );
        same = inr (lower ∙ sym buddy_of_odd);
      }

pair : (order chunk : ℕ) → order < 52 → Aligned order chunk → Pair order chunk
pair order chunk h (q, e) = elim (ℕ_discrete (q % 2) 0) [
  | yes even ↦
      let half : q ≡ 2 * (q / 2) = omega arith in
      subst (Pair order) (sym (e ∙ ap (λ t. t * block_bytes order) half))
        (Pair-even order (q / 2) h)
  | no odd ↦
      let half : q ≡ 2 * (q / 2) + 1 = omega arith in
      subst (Pair order) (sym (e ∙ ap (λ t. t * block_bytes order) half)) (Pair-odd order (q / 2) h)
]

-- The block that the merging loop ends with, and the free blocks that are left.
record Merged (fl : ℕ → List ℕ) (order chunk : ℕ) (r : ℕ × ℕ × Buddy) : Type 0 where
  ne_null : r.0 ≢ 0
  in_range : r.1 ≤ 10
  aligned : Aligned r.1 r.0
  left : ℕ → List ℕ
  wf : Wf r.2 left
  kept : (a : ℕ) → covered left a + inside r.1 r.0 a ≡ covered fl a + inside order chunk a

merge_loop-Merged :
    (rounds chunk order : ℕ) {s : Buddy} {fl : ℕ → List ℕ}
    → Wf s fl
    → order + rounds ≤ 10
    → chunk ≢ 0
    → Aligned order chunk
    → Truthful rounds chunk order s fl
    → Merged fl order chunk (merge_loop rounds chunk order s)
unfolding merge_loop
merge_loop-Merged zero chunk order {s} {fl} w h ne al told = record {
  ne_null = ne;
  in_range = omega arith;
  aligned = al;
  left = fl;
  wf = w;
  kept = λ a. refl;
}
merge_loop-Merged (suc rounds) chunk order {s} {fl} w h ne al told =
    let t = toggle_bitmap s chunk order in
    let b = buddy_of order chunk in
    let w' = toggle-Wf {s = s} chunk order w in
    elim (ℕ_discrete t.1 0) [
      | yes zero_bit ↦
          let e : (t.1 == 0) ≡ true = ground arith in
          let (mem, told') = told zero_bit in
          let p = pair order chunk (omega arith) al in
          let r =
            merge_loop-Merged rounds (lower_of order chunk) (order + 1)
              (remove-Wf w' order b (omega arith) mem) (omega arith) (lower_ne_null p mem)
              (subst (λ k. Aligned k (lower_of order chunk)) next_order p.low) told' in
          rw e record {
            ne_null = r.ne_null;
            in_range = r.in_range;
            aligned = r.aligned;
            left = r.left;
            wf = r.wf;
            kept = λ a. omega (
              arith,
              r.kept a,
              p.whole a,
              ap (λ k. inside k (lower_of order chunk) a) next_order,
              covered-remove w' order b (omega arith) mem a,
            );
          }
      | no one_bit ↦
          let e : (t.1 == 0) ≡ false = ground arith in
          rw e record {
            ne_null = ne;
            in_range = omega arith;
            aligned = al;
            left = fl;
            wf = w';
            kept = λ a. refl;
          }
    ]
  where
    next_order : suc order ≡ order + 1
    next_order = omega arith

    lower_ne_null :
        Pair order chunk → has (buddy_of order chunk) (fl order) ≡ true → lower_of order chunk ≢ 0
    lower_ne_null p mem = elim p.same [
      | inl e ↦ λ null. ne (sym e ∙ null)
      | inr e ↦
          λ null. removed_ne_null w order (buddy_of order chunk) (omega arith) mem (sym e ∙ null)
    ]

-- The free blocks after a call are those of before and the one that was handed back.
pub record Freed (fl : ℕ → List ℕ) (order chunk : ℕ) (s' : Buddy) : Type 0 where
  pub left : ℕ → List ℕ
  pub wf : Wf s' left
  pub given_back : (a : ℕ) → covered left a ≡ covered fl a + inside order chunk a

module _ {s : Buddy} {fl : ℕ → List ℕ} (w : Wf s fl) (order chunk : ℕ) (h : order ≤ 10)
    (ne : chunk ≢ 0) (al : Aligned order chunk)
    (room : (a : ℕ) → covered fl a + inside order chunk a ≤ 1)
    (told : Truthful (10 - order) chunk order s fl) where
  -- A block of the highest order has its bit toggled before the loop, which then has no rounds.
  start : Buddy
  start = if order == s.max_order then (toggle_bitmap s chunk order).0 else s

  merged : Merged fl order chunk (merge_loop (s.max_order - order) chunk order start)
  unfolding start
  merged = elim (Bool-cases (order == s.max_order)) [
    | inl top ↦
        let none_left : 0 ≡ s.max_order - order = ground arith in
        rw top (
          subst
            (λ n. Merged fl order chunk (merge_loop n chunk order (toggle_bitmap s chunk order).0))
            none_left
            (merge_loop-Merged 0 chunk order (toggle-Wf {s = s} chunk order w) (omega arith) ne al
              tt))
    | inr lower ↦
        let rounds : 10 - order ≡ s.max_order - order = omega (arith, w.top) in
        rw lower (
          subst (λ n. Merged fl order chunk (merge_loop n chunk order s)) rounds
            (merge_loop-Merged (10 - order) chunk order w (omega arith) ne al told))
  ]

  free_order-Freed : Freed fl order chunk (free_order chunk order s)
  unfolding free_order start
  free_order-Freed =
      let m = merged in
      let r = merge_loop (s.max_order - order) chunk order start in
      let fits : (a : ℕ) → covered m.left a + inside r.1 r.0 a ≤ 1 =
        λ a. omega (arith, m.kept a, room a) in
      let out : covered m.left r.0 ≡ 0 = omega (arith, fits r.0, inside_self r.1 r.0) in
      record {
        left = update m.left r.1 (r.0 ∷ m.left r.1);
        wf = push-Wf m.wf r.1 r.0 m.in_range m.ne_null m.aligned fits;
        given_back = λ a. covered-push m.wf r.1 r.0 m.in_range m.ne_null out a ∙ m.kept a;
      }

  -- A block of `order` that no free block meets, of the address `chunk` that is a multiple of
  -- its size, is handed back to a well-formed allocator with a size of which this is the order. If each
  -- bit that becomes 0 on the way up tells the truth, that is, the buddy is on the free list of
  -- its order, then `buddy_kfree` returns, leaves a well-formed allocator, and every address is
  -- covered by as many free blocks as before and by the block that was handed back.
  pub buddy_kfree_lem :
      (size : ℕ)
      → size ≢ 0
      → size ≤ 2 ^ 63
      → IsOrder size order
      → (s' : Buddy) × (buddy_kfree chunk size s ≡ some s') × Freed fl order chunk s'
  unfolding buddy_kfree
  buddy_kfree_lem size some_size small is =
      let found = order_loop-eq size order small is in
      let a : (chunk == 0) ≡ false = ground arith in
      let b : (size == 0) ≡ false = ground arith in
      let c : ltb s.max_order order ≡ false = ground (arith, w.top) in
      (free_order chunk order s, rw (a, b) (rw (found, buddy_kfree) (rw c)), free_order-Freed)
