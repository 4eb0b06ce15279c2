-- ===== src/Buddy/Tests.antt =====
-- Runs of the buddy allocator, and its theorems at concrete states.
use mathlib.Core.Option
use native.Mathlib.Nat.{pow-le-pow_right}
use native.Mathlib.Decide.{ℕ_discrete}
use mikrokernellib.Common.{
  ℕ, ◌+◌, ◌-◌, ◌/◌, ◌^◌, ◌≤◌, ◌<◌, ◌≡◌, refl, Option, none, some, List, [], ◌∷◌, false, arith, ◌==◌,
  if◌then◌else◌,
}
use mikrokernellib.Buddy.{
  Buddy, chunk_bytes, bit_position, toggle_bitmap, order_loop, pop_block, push_block, split_loop,
  take_block, search_loop, buddy_kalloc, unlink_block, merge_loop, free_order, buddy_kfree,
}
use mikrokernellib.Buddy.Order.{IsOrder, order_loop-IsOrder}
use mikrokernellib.Buddy.Cover.{inside, covered}
use mikrokernellib.Buddy.Wf.{Wf}
use mikrokernellib.Buddy.Search.{KallocOutcome, buddy_kalloc_lem}
use mikrokernellib.Buddy.Free.{Freed, Truthful, buddy_kfree_lem}
use mikrokernellib.Buddy.Bitmap.{IsBytes, bit_at, bit_at-toggle}

-- One free block of 4 MB at 4 MB, all bits 0.
abbrev base : ℕ
base = 0x400000

-- The bits of the orders below `k`, for 1024 pages.
abbrev offset : ℕ → ℕ
offset k = 1024 - 1024 / 2 ^ k

abbrev one_block : Buddy
one_block = record {
  base_address = base;
  size = 0x400000;
  min_order = 0;
  max_order = 10;
  free_lists_ptr = λ k. if k == 10 then base else 0;
  bitmap = λ i. 0;
  order_offsets = offset;
  next = λ a. 0;
  prev = λ a. 0;
}

abbrev one_list : ℕ → List ℕ
one_list k = if k == 10 then base ∷ [] else []

-- The lower half of it taken; the bit of the two halves, the last but one, is 1.
abbrev half_block : Buddy
half_block = record one_block {
  free_lists_ptr = λ k. if k == 9 then 0x600000 else 0;
  bitmap = λ i. if i == 127 then 64 else 0;
}

abbrev half_list : ℕ → List ℕ
half_list k = if k == 9 then 0x600000 ∷ [] else []

one_block-Wf : Wf one_block one_list
unfolding covered
one_block-Wf = record {
  top = refl;
  chains = λ k h. elim (ℕ_discrete k 10) [
    | yes e ↦ rw e (refl, omega arith, refl, refl)
    | no ne ↦ let e : (k == 10) ≡ false = ground arith in rw e refl
  ];
  once = λ a. ground arith;
  aligned = λ k h. elim (ℕ_discrete k 10) [
    | yes e ↦ rw e ((1, refl), tt)
    | no ne ↦ let e : (k == 10) ≡ false = ground arith in rw e tt
  ];
}

half_block-Wf : Wf half_block half_list
unfolding covered
half_block-Wf = record {
  top = refl;
  chains = λ k h. elim (ℕ_discrete k 9) [
    | yes e ↦ rw e (refl, omega arith, refl, refl)
    | no ne ↦ let e : (k == 9) ≡ false = ground arith in rw e refl
  ];
  once = λ a. ground arith;
  aligned = λ k h. elim (ℕ_discrete k 9) [
    | yes e ↦ rw e ((3, refl), tt)
    | no ne ↦ let e : (k == 9) ≡ false = ground arith in rw e tt
  ];
}

page_pointer : Option (ℕ × Buddy) → ℕ
page_pointer none = 1
page_pointer (some (p, s)) = p

kalloc_page : page_pointer (buddy_kalloc 4096 one_block) ≡ base
unfolding page_pointer buddy_kalloc order_loop chunk_bytes search_loop take_block toggle_bitmap
    split_loop push_block pop_block bit_position
kalloc_page = refl

buddy_kalloc_lem_example :
    (order : ℕ) × (p : ℕ) × (s' : Buddy) × (buddy_kalloc 5000 one_block ≡ some (p, s'))
    × IsOrder 5000 order
    × KallocOutcome one_block one_list order p s'
buddy_kalloc_lem_example = buddy_kalloc_lem one_block-Wf 5000 (omega arith)

IsOrder-of_half : IsOrder 0x200000 9
IsOrder-of_half = record {
  fits = omega arith;
  least =
      λ k h. omega (arith, pow-le-pow_right {n = 2} (omega arith) {i = k} {j = 8} (omega arith));
}

half_room : (a : ℕ) → covered half_list a + inside 9 base a ≤ 1
unfolding covered
half_room a = ground arith

half_told : Truthful 1 base 9 half_block half_list
unfolding chunk_bytes
half_told zero_bit = (refl, tt)

-- The two halves are merged.
buddy_kfree_lem_example :
    (s' : Buddy) × (buddy_kfree base 0x200000 half_block ≡ some s') × Freed half_list 9 base s'
buddy_kfree_lem_example =
    buddy_kfree_lem half_block-Wf 9 base (omega arith) (omega arith) (2, refl) half_room half_told
      0x200000 (omega arith) (omega arith) IsOrder-of_half

half_kfree :
    Option.map (λ s. s.free_lists_ptr 10) (buddy_kfree base 0x200000 half_block) ≡ some base
unfolding buddy_kfree order_loop chunk_bytes free_order merge_loop toggle_bitmap bit_position
    unlink_block push_block
half_kfree = refl

half_IsBytes : IsBytes half_block
half_IsBytes i = ground arith

bit_at-toggle_example :
    ((p : ℕ)
      → bit_at (toggle_bitmap half_block 0x600000 9).0 p
        ≡ (if p == offset 9 + 0 then 1 - bit_at half_block p else bit_at half_block p))
    × ((toggle_bitmap half_block 0x600000 9).1 ≡ 1 - bit_at half_block (offset 9 + 0))
bit_at-toggle_example =
    bit_at-toggle half_block 9 0 1 0 half_IsBytes (omega arith) (omega arith) (omega arith)
      (omega arith) 0x600000 refl (omega arith)

order_loop-IsOrder_example : (k : ℕ) × (order_loop 64 0 5000 ≡ some k) × (k < 52) × IsOrder 5000 k
order_loop-IsOrder_example = order_loop-IsOrder 5000 (omega arith)
