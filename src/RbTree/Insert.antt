-- ===== src/RbTree/Insert.antt =====
-- `rb_insert` and `rb_insert_fixup` of src/mikroKernellib/rb_tree.c.
use Prim.Native.Nat.{Ordering}
use mikrokernellib.Common.{
  ℕ, zero, suc, Bool, true, false, ◌&&◌, not, Option, none, some, ◌==◌, if◌then◌else◌, update,
}
use mikrokernellib.RbTree.{
  RbTree, rb_red, rb_black, set_color, rb_rotate_left, rb_rotate_right, rb_child,
}

-- Case 1: the parent and the uncle turn black, the grandparent red, and `x` goes up to it.
unfoldable pub recolor_step : ℕ → ℕ → RbTree → ℕ × RbTree
recolor_step x uncle t =
    let p = t.parent x in
    let g = t.parent p in
    (g, set_color g rb_red (set_color uncle rb_black (set_color p rb_black t)))

-- Cases 2 and 3 under a left child.
unfoldable pub rotate_step_left : ℕ → RbTree → ℕ × RbTree
rotate_step_left x t =
    let inner = x == t.right (t.parent x) in
    let y = if inner then t.parent x else x in
    let t1 = if inner then rb_rotate_left y t else t in
    let t2 = set_color (t1.parent y) rb_black t1 in
    let t3 = set_color (t2.parent (t2.parent y)) rb_red t2 in
    (y, rb_rotate_right (t3.parent (t3.parent y)) t3)

-- Their mirror image under a right child.
unfoldable pub rotate_step_right : ℕ → RbTree → ℕ × RbTree
rotate_step_right x t =
    let inner = x == t.left (t.parent x) in
    let y = if inner then t.parent x else x in
    let t1 = if inner then rb_rotate_right y t else t in
    let t2 = set_color (t1.parent y) rb_black t1 in
    let t3 = set_color (t2.parent (t2.parent y)) rb_red t2 in
    (y, rb_rotate_left (t3.parent (t3.parent y)) t3)

-- The body of the loop.
unfoldable pub insert_fixup_step : ℕ → RbTree → ℕ × RbTree
insert_fixup_step x t =
    let g = t.parent (t.parent x) in
    let is_left = t.parent x == t.left g in
    let uncle = if is_left then t.right g else t.left g in
    if not (uncle == 0) && (t.color uncle == rb_red)
    then recolor_step x uncle t
    else (if is_left then rotate_step_left x t else rotate_step_right x t)

-- The loop goes on while there is a red parent that has a parent.
unfoldable pub insert_fixup_goes_on : ℕ → RbTree → Bool
insert_fixup_goes_on x t =
    not (t.parent x == 0) && (t.color (t.parent x) == rb_red) && not (t.parent (t.parent x) == 0)

unfoldable pub rb_insert_fixup : ℕ → ℕ → RbTree → Option RbTree
rb_insert_fixup zero x t = none
rb_insert_fixup (suc rounds) x t = elim (insert_fixup_goes_on x t) [
  | true ↦ rb_insert_fixup rounds (insert_fixup_step x t).0 (insert_fixup_step x t).1
  | false ↦ some (set_color t.root rb_black t)
]

-- The walk to the place of `node`: `some none` is a duplicate, else the parent-to-be.
unfoldable pub insert_walk : ℕ → ℕ → ℕ → ℕ → (ℕ → ℕ → Ordering) → RbTree → Option (Option ℕ)
insert_walk zero node current parent cmp t = none
insert_walk (suc rounds) node current parent cmp t = elim (current == 0) [
  | true ↦ some (some parent)
  | false ↦ elim (rb_child (cmp node current) current t) [
    | some child ↦ insert_walk rounds node child current cmp t
    | none ↦ some none
  ]
]

-- `node` under `parent`, before the fixup.
unfoldable pub attach_node : ℕ → ℕ → Ordering → RbTree → Option RbTree
attach_node node parent Ordering.lt t = some (record t {
  left = update t.left parent node;
  parent = update t.parent node parent;
  color = update t.color node rb_red;
})
attach_node node parent Ordering.gt t = some (record t {
  right = update t.right parent node;
  parent = update t.parent node parent;
  color = update t.color node rb_red;
})
attach_node node parent Ordering.eq t = none

-- The pointer returned and the tree that is left.
unfoldable pub rb_insert : ℕ → ℕ → (ℕ → ℕ → Ordering) → RbTree → Option (ℕ × RbTree)
rb_insert rounds node cmp t =
    let s = record t { left = update t.left node 0; right = update t.right node 0 } in
    elim (insert_walk rounds node s.root 0 cmp s) [
      | none ↦ none
      | some none ↦ some (0, s)
      | some (some parent) ↦ elim (parent == 0) [
        | true ↦ some (
          node,
          record s {
            root = node;
            parent = update s.parent node 0;
            color = update s.color node rb_black;
          },
        )
        | false ↦ elim (attach_node node parent (cmp node parent) s) [
          | none ↦ some (0, s)
          | some attached ↦ elim (rb_insert_fixup rounds node attached) [
            | none ↦ none
            | some fixed ↦ some (node, fixed)
          ]
        ]
      ]
    ]
