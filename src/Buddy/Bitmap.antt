-- ===== src/Buddy/Bitmap.antt =====
-- `toggle_bitmap`: it changes one bit of the bitmap and returns its new value.
use native.Mathlib.Decide.{ℕ_discrete}
use native.Mathlib.Nat.{div-eq_of_lt-le}
use mathlib.Core.Path.{subst}
use mikrokernellib.Common.{
  ℕ, ◌+◌, ◌*◌, sym, sub64, ◌-◌, ◌/◌, ◌%◌, ◌^◌, ◌<◌, ◌≡◌, refl, ◌∙◌, arith, bit_xor, ◌==◌,
  if◌then◌else◌, u8, ◌<<◌,
}
use mikrokernellib.Common.Bits.{bit_and_low}
use mikrokernellib.Common.Xor.{bit-bit_xor, bit_xor-lt}
use mikrokernellib.Buddy.{Buddy, bit_position, toggle_bitmap}

-- The bitmap is an array of bytes.
abbrev pub IsBytes : Buddy → Type 0
IsBytes s = (i : ℕ) → s.bitmap i < 256

abbrev pub bit_at : Buddy → ℕ → ℕ
bit_at s pos = s.bitmap (pos / 8) / 2 ^ (pos % 8) % 2

module _ (s : Buddy) (addr order : ℕ) (bytes : IsBytes s) where
  abbrev pos : ℕ
  pos = bit_position s addr order

  written : ℕ
  written = u8 (bit_xor (s.bitmap (pos / 8)) (1 << (pos % 8)))

  written_bit :
      (p : ℕ)
      → p < 8
      → written / 2 ^ p % 2 ≡ (
          if pos % 8 == p
          then 1 - s.bitmap (pos / 8) / 2 ^ p % 2
          else s.bitmap (pos / 8) / 2 ^ p % 2)
  unfolding written
  written_bit p h = ground (
    arith,
    bit_xor-lt (s.bitmap (pos / 8)) (pos % 8) (bytes (pos / 8)),
    bit-bit_xor (s.bitmap (pos / 8)) (pos % 8) p (bytes (pos / 8)),
  )

  toggled :
      (i : ℕ)
      → (toggle_bitmap s addr order).0.bitmap i ≡ (if i == pos / 8 then written else s.bitmap i)
  unfolding toggle_bitmap written
  toggled i = refl

  flipped :
      (p : ℕ)
      → bit_at (toggle_bitmap s addr order).0 p
        ≡ (if p == bit_position s addr order then 1 - bit_at s p else bit_at s p)
  flipped p = elim (ℕ_discrete (p / 8) (pos / 8)) [
    | yes same ↦ ground (arith, toggled (p / 8), written_bit (p % 8))
    | no other ↦ ground (arith, toggled (p / 8))
  ]

  -- The new value of the bit is returned.
  pub toggle_result : (toggle_bitmap s addr order).1 ≡ 1 - bit_at s (bit_position s addr order)
  unfolding toggle_bitmap written
  toggle_result = bit_and_low 1 (written / 2 ^ (pos % 8)) ∙ ground (arith, written_bit (pos % 8))

  pub toggle-IsBytes : IsBytes (toggle_bitmap s addr order).0
  unfolding written
  toggle-IsBytes i =
      ground
        (arith, toggled i, bytes i, bit_xor-lt (s.bitmap (pos / 8)) (pos % 8) (bytes (pos / 8)))

-- The number of the block that holds an address.
block_number : (bytes block within : ℕ) → within < bytes → (block * bytes + within) / bytes ≡ block
block_number bytes block within inside = div-eq_of_lt-le bytes (omega arith) (omega (arith, inside))

-- The bit of the pair with number `pair` at an order.
bit_position_lem :
    (s : Buddy) (order pair half within : ℕ)
    → half < 2
    → within < 2 ^ (12 + order)
    → 2 * pair + half < 2 ^ 32
    → s.order_offsets order + pair < 2 ^ 32
    → s.base_address + ((2 * pair + half) * 2 ^ (12 + order) + within) < 2 ^ 64
    → bit_position s (s.base_address + ((2 * pair + half) * 2 ^ (12 + order) + within)) order
      ≡ s.order_offsets order + pair
unfolding bit_position
bit_position_lem s order pair half within two inside few fits top =
    let from = (2 * pair + half) * 2 ^ (12 + order) + within in
    let moved : sub64 (s.base_address + from) s.base_address ≡ from = ground (arith, top) in
    rw (moved, block_number (2 ^ (12 + order)) (2 * pair + half) within inside)
      (ground (arith, two, few, fits))

-- For an address in either half of the pair of blocks with number `pair` of 4096 * 2 ^ `order` bytes
-- from the base on, `toggle_bitmap` in a map of bytes flips the bit behind the offset of the order by
-- the number of the pair, and no other bit, and returns its new value. The address is taken to be
-- below 2^64, and the numbers of the block and of the bit below 2^32.
pub bit_at-toggle :
    (s : Buddy) (order pair half within : ℕ)
    → IsBytes s
    → half < 2
    → within < 2 ^ (12 + order)
    → 2 * pair + half < 2 ^ 32
    → s.order_offsets order + pair < 2 ^ 32
    → (addr : ℕ) → addr ≡ s.base_address + ((2 * pair + half) * 2 ^ (12 + order) + within)
    → addr < 2 ^ 64
    → ((p : ℕ)
        → bit_at (toggle_bitmap s addr order).0 p
          ≡ (if p == s.order_offsets order + pair then 1 - bit_at s p else bit_at s p))
      × ((toggle_bitmap s addr order).1 ≡ 1 - bit_at s (s.order_offsets order + pair))
bit_at-toggle s order pair half within bytes two inside few fits addr e top =
    let at : bit_position s addr order ≡ s.order_offsets order + pair =
      subst (λ a. bit_position s a order ≡ s.order_offsets order + pair) (sym e)
        (bit_position_lem s order pair half within two inside few fits
          (subst (λ a. a < 2 ^ 64) e top)) in
    subst
      (λ b.
        ((p : ℕ)
          → bit_at (toggle_bitmap s addr order).0 p
            ≡ (if p == b then 1 - bit_at s p else bit_at s p))
        × ((toggle_bitmap s addr order).1 ≡ 1 - bit_at s b))
      at (flipped s addr order bytes, toggle_result s addr order bytes)
