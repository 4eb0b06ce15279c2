-- ===== src/Kstrings/Compare.antt =====
-- Lengths and comparisons of src/mikroKernellib/kstrings.c.
use mathlib.Core.Path.{subst}
use mikrokernellib.Common.{
  ℕ, zero, suc, ◌+◌, ◌<◌, ◌≡◌, ◌≢◌, inl, inr, refl, sym, ap, ◌∙◌, List, [], ◌∷◌, true, false, ◌&&◌,
  not, Option, none, some, ◌==◌, if◌then◌else◌, Bool-cases, Option-cases, length, arith,
}
use mikrokernellib.Kstrings.{
  length_loop, kstring_length, strcmp_loop, Sign, sign_of_difference, kstring_strcmp,
}

-- The bytes from `s` on are those of the text, and a NUL.
abbrev pub StringAt : (ℕ → ℕ) → ℕ → List ℕ → Type 0
StringAt mem s [] = mem s ≡ 0
StringAt mem s (c ∷ text) = (mem s ≡ c) × (c ≢ 0) × StringAt mem (s + 1) text

-- The order of a dictionary.
abbrev pub lexicographic : List ℕ → List ℕ → Sign
lexicographic [] [] = Sign.equal
lexicographic [] (d ∷ more) = Sign.negative
lexicographic (c ∷ text) [] = Sign.positive
lexicographic (c ∷ text) (d ∷ more) =
    if c == d then lexicographic text more else sign_of_difference c d

length-loop :
    (mem : ℕ → ℕ) (text : List ℕ) (rounds s len : ℕ)
    → StringAt mem (s + len) text
    → length text < rounds
    → length_loop rounds s len mem ≡ some (len + length text)
unfolding length_loop
length-loop mem text zero s len h few = absurd (omega (arith, few))
length-loop mem [] (suc rounds) s len h few =
    let e : (mem (s + len) == 0) ≡ true = ground (arith, h) in
    rw (length_loop, e) (ap some (omega arith))
length-loop mem (c ∷ text) (suc rounds) s len (at, nz, h) few =
    let e : (mem (s + len) == 0) ≡ false = ground (arith, at, nz) in
    let next : s + len + 1 ≡ s + (len + 1) = omega arith in
    let ih =
      length-loop mem text rounds s (len + 1) (subst (λ k. StringAt mem k text) next h)
        (omega (arith, few)) in
    rw (length_loop, e) (ih ∙ ap some (omega arith))

-- At a string, with more rounds than it is long, `kstring_length` returns its length.
pub kstring_length_lem :
    (mem : ℕ → ℕ) (text : List ℕ) (rounds s : ℕ)
    → s ≢ 0
    → StringAt mem s text
    → length text < rounds
    → kstring_length rounds s mem ≡ some (length text)
unfolding kstring_length
kstring_length_lem mem text rounds s nz h few =
    let e : (s == 0) ≡ false = ground (arith, nz) in
    let from_start : s ≡ s + 0 = omega arith in
    rw e (
      length-loop mem text rounds s 0 (subst (λ k. StringAt mem k text) from_start h) few
      ∙ ap some (omega arith))

lexicographic_self : (text : List ℕ) → lexicographic text text ≡ Sign.equal
lexicographic_self [] = refl
lexicographic_self (c ∷ text) =
    let e : (c == c) ≡ true = ground arith in rw e (lexicographic_self text)

StringAt-unique :
    (mem : ℕ → ℕ) (s : ℕ) (text more : List ℕ)
    → StringAt mem s text
    → StringAt mem s more
    → text ≡ more
StringAt-unique mem s [] [] h k = refl
StringAt-unique mem s [] (d ∷ more) h (at, nz, k) = absurd (nz (sym at ∙ h))
StringAt-unique mem s (c ∷ text) [] (at, nz, h) k = absurd (nz (sym at ∙ k))
StringAt-unique mem s (c ∷ text) (d ∷ more) (at, nz, h) (there, nz', k) =
    rw (sym at ∙ there, StringAt-unique mem (s + 1) text more h k) refl

abbrev strcmp_result : Option (ℕ × ℕ) → Option Sign
strcmp_result none = none
strcmp_result (some (a, b)) = some (sign_of_difference a b)

strcmp-stops :
    (rounds s1 s2 : ℕ) (mem : ℕ → ℕ)
    → (not (mem s1 == 0) && (mem s1 == mem s2)) ≡ false
    → strcmp_result (strcmp_loop (suc rounds) s1 s2 mem)
      ≡ some (sign_of_difference (mem s1) (mem s2))
unfolding strcmp_loop
strcmp-stops rounds s1 s2 mem e = rw (strcmp_loop, e) refl

strcmp-goes_on :
    (rounds s1 s2 : ℕ) (mem : ℕ → ℕ)
    → (not (mem s1 == 0) && (mem s1 == mem s2)) ≡ true
    → strcmp_result (strcmp_loop (suc rounds) s1 s2 mem)
      ≡ strcmp_result (strcmp_loop rounds (s1 + 1) (s2 + 1) mem)
unfolding strcmp_loop
strcmp-goes_on rounds s1 s2 mem e = rw (strcmp_loop, e) refl

strcmp-loop :
    (mem : ℕ → ℕ) (text more : List ℕ) (rounds s1 s2 : ℕ)
    → StringAt mem s1 text
    → StringAt mem s2 more
    → length text < rounds
    → strcmp_result (strcmp_loop rounds s1 s2 mem) ≡ some (lexicographic text more)
strcmp-loop mem text more zero s1 s2 h k few = absurd (omega (arith, few))
strcmp-loop mem [] [] (suc rounds) s1 s2 h k few =
    strcmp-stops rounds s1 s2 mem (ground (arith, h, k)) ∙ ap some (ground (arith, h, k))
strcmp-loop mem [] (d ∷ more) (suc rounds) s1 s2 h (there, nz, k) few =
    strcmp-stops rounds s1 s2 mem (ground (arith, h)) ∙ ap some (ground (arith, h, there, nz))
strcmp-loop mem (c ∷ text) [] (suc rounds) s1 s2 (at, nz, h) k few =
    strcmp-stops rounds s1 s2 mem (ground (arith, at, nz, k)) ∙ ap some (ground (arith, at, nz, k))
strcmp-loop mem (c ∷ text) (d ∷ more) (suc rounds) s1 s2 (at, nz, h) (there, nz', k) few =
    elim (Bool-cases (c == d)) [
      | inl e ↦
          strcmp-goes_on rounds s1 s2 mem (ground (arith, at, there, nz, e))
          ∙ strcmp-loop mem text more rounds (s1 + 1) (s2 + 1) h k (omega (arith, few))
          ∙ rw e refl
      | inr e ↦
          strcmp-stops rounds s1 s2 mem (ground (arith, at, there, e))
          ∙ ap some (rw (at, there, e) refl)
    ]

strcmp_finds :
    (rounds s1 s2 : ℕ) (mem : ℕ → ℕ)
    → s1 ≢ s2
    → s1 ≢ 0
    → s2 ≢ 0
    → kstring_strcmp rounds s1 s2 mem ≡ strcmp_result (strcmp_loop rounds s1 s2 mem)
unfolding kstring_strcmp
strcmp_finds rounds s1 s2 mem ne z1 z2 =
    let e : (s1 == s2) ≡ false = ground (arith, ne) in
    let e1 : (s1 == 0) ≡ false = ground (arith, z1) in
    let e2 : (s2 == 0) ≡ false = ground (arith, z2) in
    rw (e, e1, e2)
      (elim (Option-cases (strcmp_loop rounds s1 s2 mem)) [
        | inl o ↦ rw o refl
        | inr (a, o) ↦ rw o refl
      ])

-- On two strings that are not NULL, and with more rounds than the first is long, `kstring_strcmp`
-- returns the order of a dictionary, equality for one string with itself included.
pub kstring_strcmp_lem :
    (mem : ℕ → ℕ) (text more : List ℕ) (rounds s1 s2 : ℕ)
    → s1 ≢ 0
    → s2 ≢ 0
    → StringAt mem s1 text
    → StringAt mem s2 more
    → length text < rounds
    → kstring_strcmp rounds s1 s2 mem ≡ some (lexicographic text more)
unfolding kstring_strcmp
kstring_strcmp_lem mem text more rounds s1 s2 z1 z2 h k few = elim (Bool-cases (s1 == s2)) [
  | inl e ↦
      let same : s2 ≡ s1 = ground (arith, e) in
      let one = StringAt-unique mem s1 text more h (subst (λ z. StringAt mem z more) same k) in
      rw e (ap some (sym (lexicographic_self text) ∙ ap (lexicographic text) one))
  | inr e ↦
      strcmp_finds rounds s1 s2 mem (ground (arith, e)) z1 z2
      ∙ strcmp-loop mem text more rounds s1 s2 h k few
]
