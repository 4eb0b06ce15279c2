-- ===== src/RbTree/Rotate.antt =====
-- `rb_rotate_left` of src/mikroKernellib/rb_tree.c: the fields that it writes.
use mikrokernellib.Common.{ℕ, ◌≡◌, ◌≢◌, arith, ◌==◌, if◌then◌else◌}
use mikrokernellib.RbTree.{RbTree, rb_rotate_left, replace_child}

-- The nodes about `x` are different ones.
pub record Apart (t : RbTree) (x : ℕ) : Type 0 where
  pub child : t.right x ≢ x
  pub above : t.parent x ≢ x
  pub above_child : t.parent x ≢ t.right x
  pub inner : t.left (t.right x) ≢ x
  pub inner_child : t.left (t.right x) ≢ t.right x

module _ (t : RbTree) (x : ℕ) (a : Apart t x) where
  abbrev pub y : ℕ
  y = t.right x

  abbrev pub b : ℕ
  b = t.left y

  abbrev pub g : ℕ
  g = t.parent x

  abbrev pub s : RbTree
  s = rb_rotate_left x t

  pub rotated_left :
      (m : ℕ)
      → s.left m ≡ (
          if m == y
          then x
          else (if m == g
              then (if g == 0 then t.left m else (if x == t.left g then y else t.left m))
              else t.left m))
  unfolding rb_rotate_left replace_child
  rotated_left m = ground (arith, a.child, a.above, a.above_child, a.inner, a.inner_child)

  pub rotated_right :
      (m : ℕ)
      → s.right m ≡ (
          if m == x
          then b
          else (if m == g
              then (if g == 0 then t.right m else (if x == t.left g then t.right m else y))
              else t.right m))
  unfolding rb_rotate_left replace_child
  rotated_right m = ground (arith, a.child, a.above, a.above_child, a.inner, a.inner_child)

  pub rotated_parent :
      (m : ℕ)
      → s.parent m ≡ (
          if m == x
          then y
          else (if m == y
              then g
              else (if b == 0 then t.parent m else (if m == b then x else t.parent m))))
  unfolding rb_rotate_left replace_child
  rotated_parent m = ground (arith, a.child, a.above, a.above_child, a.inner, a.inner_child)

  pub rotated_root : s.root ≡ (if g == 0 then y else t.root)
  unfolding rb_rotate_left replace_child
  rotated_root = ground (arith, a.child, a.above, a.above_child, a.inner, a.inner_child)
