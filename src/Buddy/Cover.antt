-- ===== src/Buddy/Cover.antt =====
-- The abstract view of the free lists: how many free blocks cover an address. The order of the
-- lists and the levels of the blocks are forgotten, so that a split leaves the view alone.
use mikrokernellib.Common.{
  ℕ, zero, suc, ◌+◌, ◌≤◌, ◌<◌, ◌≡◌, ◌≢◌, refl, Bool, true, false, ◌&&◌, ◌||◌, List, [], ◌∷◌, arith,
  ltb, leb, ◌==◌, if◌then◌else◌, update, inl, inr, Bool-cases,
}
use native.Mathlib.Nat.{pow-suc, one-le-pow}
use native.Mathlib.Decide.{ℕ_discrete}
use mikrokernellib.Buddy.Order.{block_bytes}

-- 1 if `a` lies in the block of order `k` at `x`, else 0.
abbrev pub inside : ℕ → ℕ → ℕ → ℕ
inside k x a = if leb x a && ltb a (x + block_bytes k) then 1 else 0

abbrev pub hits : ℕ → ℕ → List ℕ → ℕ
hits k a [] = 0
hits k a (x ∷ xs) = inside k x a + hits k a xs

-- The free blocks of the orders below `n` that cover `a`.
abbrev pub cover : ℕ → (ℕ → List ℕ) → ℕ → ℕ
cover zero fl a = 0
cover (suc n) fl a = hits n a (fl n) + cover n fl a

abbrev pub has : ℕ → List ℕ → Bool
has a [] = false
has a (x ∷ xs) = a == x || has a xs

abbrev pub Distinct : List ℕ → Type 0
Distinct [] = Unit
Distinct (x ∷ xs) = (has x xs ≡ false) × Distinct xs

pub block_bytes-suc : (k : ℕ) → block_bytes (suc k) ≡ block_bytes k + block_bytes k
block_bytes-suc k = omega (arith, pow-suc 2 k)

pub block_bytes-pos : (k : ℕ) → 0 < block_bytes k
block_bytes-pos k = omega (arith, one-le-pow k 2)

pub inside_self : (k x : ℕ) → inside k x x ≡ 1
inside_self k x = ground (arith, block_bytes-pos k)

-- A block is its two halves.
pub inside-halves : (k x a : ℕ) → inside (suc k) x a ≡ inside k x a + inside k (x + block_bytes k) a
inside-halves k x a = ground (arith, block_bytes-suc k)

pub hits-pos : (k a : ℕ) (xs : List ℕ) → has a xs ≡ true → 1 ≤ hits k a xs
hits-pos k a [] h = absurd (ground arith)
hits-pos k a (x ∷ xs) h = ground (arith, inside_self k a, hits-pos k a xs)

pub has_of_hits : (k a : ℕ) (xs : List ℕ) → hits k a xs ≡ 0 → has a xs ≡ false
has_of_hits k a xs h = elim (Bool-cases (has a xs)) [
  | inl m ↦ absurd (omega (arith, hits-pos k a xs m))
  | inr out ↦ out
]

pub Distinct-of_hits : (k : ℕ) (xs : List ℕ) → ((a : ℕ) → hits k a xs ≤ 1) → Distinct xs
Distinct-of_hits k [] h = tt
Distinct-of_hits k (x ∷ xs) h = (
  has_of_hits k x xs (omega (arith, h x, inside_self k x)),
  Distinct-of_hits k xs (λ a. omega (arith, h a)),
)

cover-update_out :
    (n k : ℕ) (fl : ℕ → List ℕ) (ys : List ℕ) (a : ℕ)
    → n ≤ k
    → cover n (update fl k ys) a ≡ cover n fl a
cover-update_out zero k fl ys a h = refl
cover-update_out (suc n) k fl ys a h = ground (arith, cover-update_out n k fl ys a)

-- One list replaced.
cover-update :
    (n k : ℕ) (fl : ℕ → List ℕ) (ys : List ℕ) (a : ℕ)
    → k < n
    → cover n (update fl k ys) a + hits k a (fl k) ≡ cover n fl a + hits k a ys
cover-update zero k fl ys a h = absurd (omega arith)
cover-update (suc n) k fl ys a h = elim (ℕ_discrete n k) [
  | yes e ↦ ground (arith, cover-update_out n k fl ys a)
  | no ne ↦ ground (arith, cover-update n k fl ys a)
]

hits-le-cover : (n k : ℕ) (fl : ℕ → List ℕ) (a : ℕ) → k < n → hits k a (fl k) ≤ cover n fl a
hits-le-cover n k fl a h = omega (arith, cover-update n k fl [] a h)

two_hits-le-cover :
    (n j k : ℕ) (fl : ℕ → List ℕ) (a : ℕ)
    → j < n
    → k < n
    → j ≢ k
    → hits j a (fl j) + hits k a (fl k) ≤ cover n fl a
two_hits-le-cover n j k fl a hj hk ne =
    ground (arith, cover-update n k fl [] a, hits-le-cover n j (update fl k []) a)

-- The free blocks of the eleven orders that cover `a`.
unfoldable pub covered : (ℕ → List ℕ) → ℕ → ℕ
covered fl a = cover 11 fl a

pub covered-update :
    (k : ℕ) (fl : ℕ → List ℕ) (ys : List ℕ) (a : ℕ)
    → k < 11
    → covered (update fl k ys) a + hits k a (fl k) ≡ covered fl a + hits k a ys
unfolding covered
covered-update k fl ys a h = cover-update 11 k fl ys a h

pub hits-le-covered : (k : ℕ) (fl : ℕ → List ℕ) (a : ℕ) → k < 11 → hits k a (fl k) ≤ covered fl a
unfolding covered
hits-le-covered k fl a h = hits-le-cover 11 k fl a h

pub two_hits-le-covered :
    (j k : ℕ) (fl : ℕ → List ℕ) (a : ℕ)
    → j < 11
    → k < 11
    → j ≢ k
    → hits j a (fl j) + hits k a (fl k) ≤ covered fl a
unfolding covered
two_hits-le-covered j k fl a hj hk ne = two_hits-le-cover 11 j k fl a hj hk ne
