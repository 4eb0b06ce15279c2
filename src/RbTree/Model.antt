-- ===== src/RbTree/Model.antt =====
-- What a red-black tree of the kernel represents: a binary tree of node pointers.
use mikrokernellib.Common.{ℕ, suc, ◌≤◌, ◌<◌, max, ◌≡◌, ◌≢◌, ◌⊎◌, List, [], ◌∷◌, ◌++◌}
use mikrokernellib.RbTree.{RbTree}

pub data Tree : Type 0 where
  leaf : Tree
  branch : Tree → ℕ → Tree → Tree

abbrev pub height : Tree → ℕ
height leaf = 0
height (branch l p r) = suc (max (height l) (height r))

-- The links from `p` on spell `tree`.
abbrev pub Shape : RbTree → ℕ → Tree → Type 0
Shape t p leaf = p ≡ 0
Shape t p (branch l q r) = (p ≡ q) × (q ≢ 0) × Shape t (t.left q) l × Shape t (t.right q) r

abbrev pub In : ℕ → Tree → Type 0
In m leaf = ⊥
In m (branch l q r) = In m l ⊎ ((m ≡ q) ⊎ In m r)

-- Every area lies below the areas to its right.
abbrev pub Ordered : (ℕ → ℕ) → (ℕ → ℕ) → Tree → Type 0
Ordered start last leaf = Unit
Ordered start last (branch l q r) =
    (start q < last q)
    × ((m : ℕ) → In m l → last m ≤ start q)
    × ((m : ℕ) → In m r → last q ≤ start m)
    × Ordered start last l
    × Ordered start last r

-- The starting addresses grow from left to right.
abbrev pub Sorted : (ℕ → ℕ) → Tree → Type 0
Sorted start leaf = Unit
Sorted start (branch l q r) =
    ((m : ℕ) → In m l → start m < start q)
    × ((m : ℕ) → In m r → start q < start m)
    × Sorted start l
    × Sorted start r

abbrev pub inorder : Tree → List ℕ
inorder leaf = []
inorder (branch l p r) = inorder l ++ p ∷ inorder r
