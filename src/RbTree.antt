-- ===== src/RbTree.antt =====
-- The red-black tree of src/mikroKernellib/rb_tree.c, with `struct rb_node` of include/rb_tree.h. A
-- node is the pointer that is stored in the tree, 0 is NULL, and each field of `rb_node` is a
-- function from the stored pointer (`directmap_p2v` at a dereference is taken to tell them apart).
-- `cmp` is a parameter, and of its `int` only the sign is kept. Each `while` loop and each recursion
-- runs on `rounds`, and `none` is a run out of rounds.
pub mod Find
pub mod Insert
pub mod Links
pub mod Colours
pub mod Repainted
pub mod Painted
pub mod Stepped
pub mod Recoloured
pub mod Ends
pub mod Depth
pub mod Raise
pub mod Step
pub mod Fixup
pub mod Place
pub mod Walk
pub mod Inserted
pub mod Rotate
pub mod Rotated
pub mod Turn
pub mod Turned
pub mod Mirror
pub mod Model
pub mod Delete
pub mod Validate
use Prim.Native.Nat.{Ordering}
use mikrokernellib.Common.{
  ℕ, zero, suc, Bool, true, false, ◌&&◌, ◌||◌, not, Option, none, some, List, [], ◌∷◌, ◌++◌, ◌==◌,
  if◌then◌else◌, ◌>>=◌, update,
}

abbrev pub rb_red : ℕ
rb_red = 0

abbrev pub rb_black : ℕ
rb_black = 1

pub record RbTree : Type 0 where
  pub root : ℕ
  pub right : ℕ → ℕ
  pub left : ℕ → ℕ
  pub parent : ℕ → ℕ
  pub color : ℕ → ℕ

unfoldable pub set_color : ℕ → ℕ → RbTree → RbTree
set_color node c t = record t { color = update t.color node c }

-- `tmp` in the place of `node` under the parent of `node`.
unfoldable pub replace_child : ℕ → ℕ → RbTree → RbTree
replace_child node tmp t =
    let above = t.parent node in
    if above == 0
    then record t { root = tmp }
    else (if node == t.left above
        then record t { left = update t.left above tmp }
        else record t { right = update t.right above tmp })

unfoldable pub rb_rotate_left : ℕ → RbTree → RbTree
rb_rotate_left node t =
    let tmp = t.right node in
    let right = update t.right node (t.left tmp) in
    let parent = if t.left tmp == 0 then t.parent else update t.parent (right node) node in
    let linked =
      replace_child node tmp
        (record t { right = right; parent = update parent tmp (parent node) }) in
    record linked { left = update linked.left tmp node; parent = update linked.parent node tmp }

-- The mirror image, which tests for a right child first.
unfoldable pub replace_child_right : ℕ → ℕ → RbTree → RbTree
replace_child_right node tmp t =
    let above = t.parent node in
    if above == 0
    then record t { root = tmp }
    else (if node == t.right above
        then record t { right = update t.right above tmp }
        else record t { left = update t.left above tmp })

unfoldable pub rb_rotate_right : ℕ → RbTree → RbTree
rb_rotate_right node t =
    let tmp = t.left node in
    let left = update t.left node (t.right tmp) in
    let parent = if t.right tmp == 0 then t.parent else update t.parent (left node) node in
    let linked =
      replace_child_right node tmp
        (record t { left = left; parent = update parent tmp (parent node) }) in
    record linked { right = update linked.right tmp node; parent = update linked.parent node tmp }

-- One step of a search: the child that `cmp` points to, if it does not find equality.
unfoldable pub rb_child : Ordering → ℕ → RbTree → Option ℕ
rb_child Ordering.lt current t = some (t.left current)
rb_child Ordering.gt current t = some (t.right current)
rb_child Ordering.eq current t = none

unfoldable pub rb_find_loop : ℕ → ℕ → ℕ → (ℕ → ℕ → Ordering) → RbTree → Option ℕ
rb_find_loop zero current key cmp t = none
rb_find_loop (suc rounds) current key cmp t = elim (current == 0) [
  | true ↦ some 0
  | false ↦ elim (rb_child (cmp key current) current t) [
    | some child ↦ rb_find_loop rounds child key cmp t
    | none ↦ some current
  ]
]

unfoldable pub rb_find_exact : ℕ → ℕ → (ℕ → ℕ → Ordering) → RbTree → Option ℕ
rb_find_exact rounds key cmp t = rb_find_loop rounds t.root key cmp t

unfoldable pub rb_minimum : ℕ → ℕ → RbTree → Option ℕ
rb_minimum zero node t = none
rb_minimum (suc rounds) node t = elim (t.left node == 0) [
  | true ↦ some node
  | false ↦ rb_minimum rounds (t.left node) t
]

unfoldable pub rb_transplant : ℕ → ℕ → RbTree → RbTree
rb_transplant node replacement t =
    let linked = replace_child node replacement t in
    if replacement == 0
    then linked
    else record linked { parent = update linked.parent replacement (linked.parent node) }

-- The callbacks of `rb_traverse_inorder`, in the order in which they are made.
unfoldable pub rb_traverse_inorder : ℕ → ℕ → RbTree → Option (List ℕ)
rb_traverse_inorder zero node t = none
rb_traverse_inorder (suc rounds) node t = elim (node == 0) [
  | true ↦ some []
  | false ↦ do
    lower ← rb_traverse_inorder rounds (t.left node) t
    upper ← rb_traverse_inorder rounds (t.right node) t
    some (lower ++ node ∷ upper)
]
