-- ===== src/RbTree/Validate.antt =====
-- `rb_validate` of include/rb_tree.h, the check of a DEBUG build. There a node is
-- read without `directmap_p2v`, and `start` is `vma_start` of the area that contains a node.
use mikrokernellib.Common.{
  ℕ, zero, suc, ◌+◌, Bool, true, false, ◌&&◌, ◌||◌, not, Option, none, some, leb, ◌==◌,
  if◌then◌else◌, ◌>>=◌,
}
use mikrokernellib.RbTree.{RbTree, rb_red, rb_black}

-- The checks of a node that do not go on to its children.
unfoldable pub validate_node : ℕ → (ℕ → ℕ) → RbTree → Bool
validate_node node start t =
    let l = t.left node in
    let r = t.right node in
    not (t.color node == rb_red && not (l == 0) && t.color l == rb_red)
    && not (t.color node == rb_red && not (r == 0) && t.color r == rb_red)
    && not (not (l == 0) && not (t.parent l == node))
    && not (not (r == 0) && not (t.parent r == node))
    && not (not (l == 0) && leb (start node) (start l))
    && not (not (r == 0) && leb (start r) (start node))

-- A path ends: `path_black_count` is fixed by the first one (`none` is its -1).
unfoldable pub validate_path : ℕ → Option ℕ → Bool × Option ℕ
validate_path black_count none = (true, some black_count)
validate_path black_count (some expected) = (black_count == expected, some expected)

unfoldable pub rb_validate_helper :
    ℕ → ℕ → ℕ → Option ℕ → (ℕ → ℕ) → RbTree → Option (Bool × Option ℕ)
rb_validate_helper zero node black_count path start t = none
rb_validate_helper (suc rounds) node black_count path start t = elim (node == 0) [
  | true ↦ some (validate_path black_count path)
  | false ↦ elim (validate_node node start t) [
    | false ↦ some (false, path)
    | true ↦
        let count = if t.color node == rb_black then black_count + 1 else black_count in
        elim (rb_validate_helper rounds (t.left node) count path start t) [
          | none ↦ none
          | some (false, seen) ↦ some (false, seen)
          | some (true, seen) ↦ rb_validate_helper rounds (t.right node) count seen start t
        ]
  ]
]

unfoldable pub rb_validate : ℕ → (ℕ → ℕ) → RbTree → Option Bool
rb_validate rounds start t =
    if t.root == 0
    then some true
    else (if not (t.color t.root == rb_black) || not (t.parent t.root == 0)
        then some false
        else (do result ← rb_validate_helper rounds t.root 0 none start t; some result.0))
