-- ===== src/RbTree/Delete.antt =====
-- `rb_delete` and `rb_delete_fixup` of src/mikroKernellib/rb_tree.c.
use Prim.Native.Nat.{Ordering}
use mikrokernellib.Common.{
  ℕ, zero, suc, Bool, true, false, ◌&&◌, ◌||◌, not, Option, none, some, ◌==◌, if◌then◌else◌, ◌>>=◌,
  update,
}
use mikrokernellib.RbTree.{
  RbTree, rb_red, rb_black, set_color, rb_rotate_left, rb_rotate_right, rb_find_exact, rb_minimum,
  rb_transplant,
}

unfoldable pub is_black : ℕ → RbTree → Bool
is_black node t = node == 0 || t.color node == rb_black

-- A child that is not NULL turns black.
unfoldable pub blacken : ℕ → RbTree → RbTree
blacken node t = if node == 0 then t else set_color node rb_black t

-- Case 1: a red sibling is rotated away.
unfoldable pub red_sibling_left : ℕ → RbTree → RbTree
red_sibling_left x_parent t =
    let sibling = t.right x_parent in
    if not (sibling == 0) && (t.color sibling == rb_red)
    then rb_rotate_left x_parent (set_color x_parent rb_red (set_color sibling rb_black t))
    else t

unfoldable pub red_sibling_right : ℕ → RbTree → RbTree
red_sibling_right x_parent t =
    let sibling = t.left x_parent in
    if not (sibling == 0) && (t.color sibling == rb_red)
    then rb_rotate_right x_parent (set_color x_parent rb_red (set_color sibling rb_black t))
    else t

-- Case 3: the outer nephew is black.
unfoldable pub inner_nephew_left : ℕ → RbTree → RbTree
inner_nephew_left x_parent t =
    let sibling = t.right x_parent in
    if is_black (t.right sibling) t
    then rb_rotate_right sibling (set_color sibling rb_red (blacken (t.left sibling) t))
    else t

unfoldable pub inner_nephew_right : ℕ → RbTree → RbTree
inner_nephew_right x_parent t =
    let sibling = t.left x_parent in
    if is_black (t.left sibling) t
    then rb_rotate_left sibling (set_color sibling rb_red (blacken (t.right sibling) t))
    else t

-- Case 4: the outer nephew is red.
unfoldable pub outer_nephew_left : ℕ → RbTree → RbTree
outer_nephew_left x_parent t =
    let sibling = t.right x_parent in
    let t1 = set_color x_parent rb_black (set_color sibling (t.color x_parent) t) in
    rb_rotate_left x_parent (blacken (t1.right sibling) t1)

unfoldable pub outer_nephew_right : ℕ → RbTree → RbTree
outer_nephew_right x_parent t =
    let sibling = t.left x_parent in
    let t1 = set_color x_parent rb_black (set_color sibling (t.color x_parent) t) in
    rb_rotate_right x_parent (blacken (t1.left sibling) t1)

-- The body of the loop: the new `x` and `x_parent`, and the tree.
unfoldable pub delete_fixup_step : ℕ → ℕ → RbTree → ℕ × ℕ × RbTree
delete_fixup_step x x_parent t =
    let is_left = x == t.left x_parent in
    let t1 = if is_left then red_sibling_left x_parent t else red_sibling_right x_parent t in
    let sibling = if is_left then t1.right x_parent else t1.left x_parent in
    if is_black (t1.left sibling) t1 && is_black (t1.right sibling) t1
    then (x_parent, t1.parent x_parent, set_color sibling rb_red t1)
    else (let t2 =
          if is_left
          then outer_nephew_left x_parent (inner_nephew_left x_parent t1)
          else outer_nephew_right x_parent (inner_nephew_right x_parent t1) in
        (t2.root, x_parent, t2))

unfoldable pub rb_delete_fixup : ℕ → ℕ → ℕ → RbTree → Option RbTree
rb_delete_fixup zero x x_parent t = none
rb_delete_fixup (suc rounds) x x_parent t = elim (not (x == t.root) && is_black x t) [
  | true ↦
      let (y, y_parent, after) = delete_fixup_step x x_parent t in
      rb_delete_fixup rounds y y_parent after
  | false ↦ some (blacken x t)
]

-- What the removal of `node` leaves: `x`, `x_parent`, the colour that went and the tree.
pub record Spliced : Type 0 where
  pub x : ℕ
  pub x_parent : ℕ
  pub original_color : ℕ
  pub tree : RbTree

-- `y`, the successor of `node`, out of its place and over the right subtree of `node`.
unfoldable pub detach_successor : ℕ → ℕ → RbTree → ℕ × RbTree
detach_successor node y t =
    let x = t.right y in
    if t.parent y == node
    then (y, if x == 0 then t else record t { parent = update t.parent x y })
    else (let t1 = rb_transplant y (t.right y) t in
        let right = update t1.right y (t1.right node) in
        let parent = update t1.parent (right y) y in
        (parent y, record t1 { right = right; parent = parent }))

unfoldable pub splice_both : ℕ → ℕ → RbTree → Spliced
splice_both node y t =
    let detached = detach_successor node y t in
    let t2 = rb_transplant node y detached.1 in
    let left = update t2.left y (t2.left node) in
    record {
      x = t.right y;
      x_parent = detached.0;
      original_color = t.color y;
      tree = record t2 {
        left = left;
        parent = update t2.parent (left y) y;
        color = update t2.color y (t2.color node);
      };
    }

unfoldable pub splice_node : ℕ → ℕ → RbTree → Option Spliced
splice_node rounds node t = elim (t.left node == 0) [
  | true ↦ some (record {
    x = t.right node;
    x_parent = t.parent node;
    original_color = t.color node;
    tree = rb_transplant node (t.right node) t;
  })
  | false ↦ elim (t.right node == 0) [
    | true ↦ some (record {
      x = t.left node;
      x_parent = t.parent node;
      original_color = t.color node;
      tree = rb_transplant node (t.left node) t;
    })
    | false ↦ elim (rb_minimum rounds (t.right node) t) [
      | none ↦ none
      | some y ↦ some (splice_both node y t)
    ]
  ]
]

unfoldable pub finish_delete : ℕ → Spliced → Option RbTree
finish_delete rounds s =
    if s.original_color == rb_black
    then rb_delete_fixup rounds s.x s.x_parent s.tree
    else some s.tree

unfoldable pub rb_delete : ℕ → ℕ → (ℕ → ℕ → Ordering) → RbTree → Option (Bool × RbTree)
rb_delete rounds key cmp t = do
  node ← rb_find_exact rounds key cmp t
  if node == 0 then some (false, t) else (do
    spliced ← splice_node rounds node t
    after ← finish_delete rounds spliced
    some (true, after))
