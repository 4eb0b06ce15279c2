-- ===== src/Buddy.antt =====
-- The buddy allocator of src/mikroKernellib/phys_kmalloc.c: `buddy_metadata`, the links that
-- live at the head of each free block, `toggle_bitmap`, `buddy_kalloc` and `buddy_kfree`.
-- A pointer is a number and 0 is NULL. Each field of `buddy_chunk` is a function from the stored
-- pointer: `directmap_p2v` at a dereference is taken to tell stored pointers apart.
-- The two orders of a `while` loop that the source leaves unbounded run on 64 rounds of fuel.
pub mod Alloc
pub mod Bitmap
pub mod Chain
pub mod Cover
pub mod Free
pub mod Init
pub mod Order
pub mod Pop
pub mod Remove
pub mod Search
mod Tests
pub mod Unlink
pub mod Wf
use mikrokernellib.Common.{
  ℕ, zero, suc, ◌+◌, ◌-◌, ◌*◌, ◌/◌, ◌%◌, ◌^◌, bit_and, bit_xor, Bool, ◌||◌, Option, none, some, ltb,
  ◌==◌, if◌then◌else◌, update, u8, u32, u64, sub64, ◌<<◌, ◌>>◌,
}
use mikrokernellib.Layout.{page_size}

pub record Buddy : Type 0 where
  pub base_address : ℕ
  pub size : ℕ
  pub min_order : ℕ
  pub max_order : ℕ
  pub free_lists_ptr : ℕ → ℕ
  pub bitmap : ℕ → ℕ
  pub order_offsets : ℕ → ℕ
  pub next : ℕ → ℕ
  pub prev : ℕ → ℕ

-- (1ULL << order) * PAGE_SIZE
unfoldable pub chunk_bytes : ℕ → ℕ
chunk_bytes order = u64 (u64 (1 << order) * page_size)

-- The bit that belongs to the pair of blocks that holds `addr` at `order`.
unfoldable pub bit_position : Buddy → ℕ → ℕ → ℕ
bit_position s addr order =
    let block_idx = u32 (sub64 addr s.base_address >> (12 + order)) in
    u32 (s.order_offsets order + (block_idx >> 1))

-- The new state, and the new value of the bit.
unfoldable pub toggle_bitmap : Buddy → ℕ → ℕ → Buddy × ℕ
toggle_bitmap s addr order =
    let bit_pos = bit_position s addr order in
    let byte_idx = bit_pos / 8 in
    let bit_offset = bit_pos % 8 in
    let byte = u8 (bit_xor (s.bitmap byte_idx) (1 << bit_offset)) in
    (record s { bitmap = update s.bitmap byte_idx byte }, bit_and (byte >> bit_offset) 1)

-- `while (size > (1ULL << order) * PAGE_SIZE) order++;`
unfoldable pub order_loop : ℕ → ℕ → ℕ → Option ℕ
unfolding chunk_bytes
order_loop zero order size = none
order_loop (suc rounds) order size =
    let rest = order_loop rounds (order + 1) size in
    if ltb (chunk_bytes order) size then rest else some order

-- Takes the first block off the free list of `idx`.
unfoldable pub pop_block : ℕ → Buddy → Buddy
pop_block idx s =
    let chunk = s.free_lists_ptr idx in
    let after = s.next chunk in
    record s {
      free_lists_ptr = update s.free_lists_ptr idx after;
      next = update s.next chunk 0;
      prev = if after == 0 then s.prev else update s.prev after 0;
    }

-- Puts a block at the head of the free list of `order`.
unfoldable pub push_block : ℕ → ℕ → Buddy → Buddy
push_block order block s =
    let head = s.free_lists_ptr order in
    let prev = update s.prev block 0 in
    record s {
      free_lists_ptr = update s.free_lists_ptr order block;
      next = update s.next block head;
      prev = if head == 0 then prev else update prev head block;
    }

-- The splits of a block from level `order + rounds` down to `order`: the upper half of each
-- level goes to the list below.
unfoldable pub split_loop : ℕ → ℕ → ℕ → Buddy → Buddy
split_loop zero chunk order s = s
split_loop (suc rounds) chunk order s =
    split_loop rounds chunk order
      (push_block (order + rounds) (chunk + chunk_bytes (order + rounds)) s)

-- The block at the head of the list of `idx`, cut down to `order`.
unfoldable pub take_block : ℕ → ℕ → Buddy → Buddy
take_block idx order s =
    let chunk = s.free_lists_ptr idx in
    (toggle_bitmap (split_loop (idx - order) chunk order (pop_block idx s)) chunk order).0

-- The loop over `idx` of `buddy_kalloc`, with `rounds` lists left to look at.
unfoldable pub search_loop : ℕ → ℕ → ℕ → Buddy → ℕ × Buddy
search_loop zero idx order s = (0, s)
search_loop (suc rounds) idx order s =
    let rest = search_loop rounds (idx + 1) order s in
    if s.free_lists_ptr idx == 0 then rest else (s.free_lists_ptr idx, take_block idx order s)

-- `none` is a loop over `order` that never ends.
unfoldable pub buddy_kalloc : ℕ → Buddy → Option (ℕ × Buddy)
buddy_kalloc size s = elim (order_loop 64 0 size) [
  | none ↦ none
  | some order ↦
      if ltb s.max_order order
      then some (0, s)
      else some (search_loop (s.max_order + 1 - order) order order s)
]

-- Takes a block out of the middle of the free list of `order`.
unfoldable pub unlink_block : ℕ → ℕ → Buddy → Buddy
unlink_block order b s =
    let before = s.prev b in
    let heads =
      if before == 0 then update s.free_lists_ptr order (s.next b) else s.free_lists_ptr in
    let next = if before == 0 then s.next else update s.next before (s.next b) in
    let after = next b in
    let prev = if after == 0 then s.prev else update s.prev after (s.prev b) in
    record s { free_lists_ptr = heads; next = update next b 0; prev = update prev b 0 }

-- The merging loop of `buddy_kfree`: the block and the order that are left, and the state.
unfoldable pub merge_loop : ℕ → ℕ → ℕ → Buddy → ℕ × ℕ × Buddy
merge_loop zero chunk order s = (chunk, order, s)
merge_loop (suc rounds) chunk order s =
    let toggled = toggle_bitmap s chunk order in
    let buddy = bit_xor chunk (chunk_bytes order) in
    let lower = if ltb buddy chunk then buddy else chunk in
    let rest = merge_loop rounds lower (order + 1) (unlink_block order buddy toggled.0) in
    if toggled.1 == 0 then rest else (chunk, order, toggled.0)

-- `buddy_kfree` once the order is known and clamped to `max_order`.
unfoldable pub free_order : ℕ → ℕ → Buddy → Buddy
free_order chunk order s =
    let start = if order == s.max_order then (toggle_bitmap s chunk order).0 else s in
    let (block, final, merged) = merge_loop (s.max_order - order) chunk order start in
    push_block final block merged

unfoldable pub buddy_kfree : ℕ → ℕ → Buddy → Option Buddy
buddy_kfree chunk size s = if chunk == 0 || size == 0 then some s else elim (order_loop 64 0 size) [
  | none ↦ none
  | some order ↦ some (free_order chunk (if ltb s.max_order order then s.max_order else order) s)
]
