-- ===== src/Vesa/Hex.antt =====
-- The hexadecimal texts of src/mikroKernellib/vesa_graphics_lib.c.
use native.Mathlib.Nat.{pow-suc, div-div-eq-div-mul}
use mikrokernellib.Common.{
  ℕ, zero, suc, ◌+◌, ◌-◌, ◌*◌, ◌/◌, ◌%◌, ◌^◌, ◌<◌, bit_and, ◌≡◌, refl, sym, ap, ◌∙◌, List, [], ◌∷◌,
  ◌==◌, leb, if◌then◌else◌, ◌>>◌, all_below-true, ==_iff, arith,
}
use mikrokernellib.Common.Bits.{bit_and_low}
use mikrokernellib.Vesa.{hex, hex_digits, uint64_to_hex}

-- The number that a text of hexadecimal digits stands for.
abbrev pub digit_value : ℕ → ℕ
digit_value c = if leb c b'9' then c - b'0' else c - b'A' + 10

abbrev pub number_from : ℕ → List ℕ → ℕ
number_from acc [] = acc
number_from acc (c ∷ s) = number_from (acc * 16 + digit_value c) s

-- The number behind the prefix of two characters.
abbrev pub parse_hex : List ℕ → ℕ
parse_hex [] = 0
parse_hex (c ∷ []) = 0
parse_hex (c ∷ d ∷ s) = number_from 0 s

digit-value : (n : ℕ) → n < 16 → digit_value (hex n) ≡ n
digit-value n lt =
    (==_iff (digit_value (hex n)) n).0 (all_below-true 16 (λ k. digit_value (hex k) == k) refl n lt)

digits-number :
    (rounds i val : ℕ)
    → i + rounds ≡ 16
    → number_from (val / 2 ^ (rounds * 4)) (hex_digits rounds i val) ≡ val
unfolding hex_digits
digits-number zero i val e = ground arith
digits-number (suc rounds) i val e =
    let p = 2 ^ (rounds * 4) in
    let shift : 60 - i * 4 ≡ rounds * 4 = omega (arith, e) in
    let nibble : bit_and (val >> (60 - i * 4)) 0xF ≡ val / p % 16 =
      rw shift (bit_and_low 4 (val / p)) in
    let digit : digit_value (hex (bit_and (val >> (60 - i * 4)) 0xF)) ≡ val / p % 16 =
      rw nibble (digit-value (val / p % 16) (omega arith)) in
    let grows : 2 ^ (suc rounds * 4) ≡ p * 16 =
      ap (λ k. 2 ^ k) {y = rounds * 4 + 4} (omega arith)
      ∙ ground (
        arith,
        pow-suc 2 (rounds * 4 + 3),
        pow-suc 2 (rounds * 4 + 2),
        pow-suc 2 (rounds * 4 + 1),
        pow-suc 2 (rounds * 4),
      ) in
    let above : val / 2 ^ (suc rounds * 4) ≡ val / p / 16 =
      rw (grows, div-div-eq-div-mul val p 16) refl in
    let next : val / 2 ^ (suc rounds * 4) * 16
          + digit_value (hex (bit_and (val >> (60 - i * 4)) 0xF))
        ≡ val / p =
      omega (arith, above, digit) in
    ap (λ k. number_from k (hex_digits rounds (i + 1) val)) next
    ∙ digits-number rounds (i + 1) val (omega (arith, e))

-- The text of a 64-bit number reads back as the number.
pub parse-uint64_to_hex : (val : ℕ) → val < 2 ^ 64 → parse_hex (uint64_to_hex val) ≡ val
unfolding uint64_to_hex
parse-uint64_to_hex val small =
    let none_above : val / 2 ^ 64 ≡ 0 = omega (arith, small) in
    ap (λ k. number_from k (hex_digits 16 0 val)) (sym none_above) ∙ digits-number 16 0 val refl
