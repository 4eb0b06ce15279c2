-- ===== src/Common/Text.antt =====
-- C strings as lists of bytes, without the NUL that ends them.
use Prim.Native.Char.{code}
use Prim.Native.Nat.{ℕ, zero, suc}
use Prim.Native.String.{String}
use mathlib.Core.List.{List, [], ◌∷◌}

-- The bytes of an ASCII literal.
abbrev pub codes : String → List ℕ
codes String.[] = []
codes (String.◌∷◌ c s) = code c ∷ codes s

-- A byte of a string, with the NUL past its end.
abbrev pub byte_at : List ℕ → ℕ → ℕ
byte_at [] i = 0
byte_at (c ∷ s) zero = c
byte_at (c ∷ s) (suc i) = byte_at s i

-- The library's `length` counts in another ℕ.
abbrev pub length : List ℕ → ℕ
length [] = 0
length (c ∷ s) = suc (length s)
