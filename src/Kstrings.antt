-- ===== src/Kstrings.antt =====
-- The strings of src/mikroKernellib/kstrings.c. A pointer is an address, 0 is NULL, and `mem` is the
-- memory of bytes. A loop runs on `rounds`, and `none` is a run out of rounds. `char` is taken as
-- unsigned, as the last line of `kstring_strcmp` reads it.
pub mod Copy
pub mod Compare
use mikrokernellib.Common.{
  ℕ, zero, suc, ◌+◌, ◌-◌, Bool, true, false, ◌&&◌, ◌||◌, not, Option, none, some, ltb, ◌==◌,
  if◌then◌else◌, ◌>>=◌, update, leb, u8,
}

unfoldable pub length_loop : ℕ → ℕ → ℕ → (ℕ → ℕ) → Option ℕ
length_loop zero s len mem = none
length_loop (suc rounds) s len mem = elim (mem (s + len) == 0) [
  | true ↦ some len
  | false ↦ length_loop rounds s (len + 1) mem
]

unfoldable pub kstring_length : ℕ → ℕ → (ℕ → ℕ) → Option ℕ
kstring_length rounds s mem = if s == 0 then some 0 else length_loop rounds s 0 mem

-- The copied bytes, and the index at which the loop ends.
unfoldable pub strcpy_loop : ℕ → ℕ → ℕ → ℕ → (ℕ → ℕ) → ℕ × (ℕ → ℕ)
strcpy_loop zero i s1 dst mem = (i, mem)
strcpy_loop (suc rounds) i s1 dst mem =
    let rest = strcpy_loop rounds (i + 1) s1 dst (update mem (dst + i) (mem (s1 + i))) in
    if mem (s1 + i) == 0 then (i, mem) else rest

-- At most `dst_size - 1` rounds, and the NUL.
unfoldable pub kstring_strcpy : ℕ → ℕ → ℕ → (ℕ → ℕ) → ℕ → ℕ
kstring_strcpy s1 dst dst_size mem =
    if (s1 == 0) || ((dst == 0) || (dst_size == 0))
    then mem
    else (let (i, copied) = strcpy_loop (dst_size - 1) 0 s1 dst mem in update copied (dst + i) 0)

-- The bytes at which the loop stops.
unfoldable pub strcmp_loop : ℕ → ℕ → ℕ → (ℕ → ℕ) → Option (ℕ × ℕ)
strcmp_loop zero s1 s2 mem = none
strcmp_loop (suc rounds) s1 s2 mem = elim (not (mem s1 == 0) && (mem s1 == mem s2)) [
  | true ↦ strcmp_loop rounds (s1 + 1) (s2 + 1) mem
  | false ↦ some (mem s1, mem s2)
]

-- The sign of an `int`.
pub data Sign : Type 0 where
  negative equal positive : Sign

abbrev pub sign_of_difference : ℕ → ℕ → Sign
sign_of_difference a b =
    if ltb a b then Sign.negative else (if a == b then Sign.equal else Sign.positive)

unfoldable pub kstring_strcmp : ℕ → ℕ → ℕ → (ℕ → ℕ) → Option Sign
kstring_strcmp rounds s1 s2 mem =
    if s1 == s2
    then some Sign.equal
    else (if s1 == 0
        then some Sign.negative
        else (if s2 == 0
            then some Sign.positive
            else (do (a, b) ← strcmp_loop rounds s1 s2 mem; some (sign_of_difference a b))))

-- `rep stosb`.
unfoldable pub memset : ℕ → ℕ → ℕ → (ℕ → ℕ) → ℕ → ℕ
memset ptr value num mem a = if leb ptr a && ltb a (ptr + num) then u8 value else mem a
