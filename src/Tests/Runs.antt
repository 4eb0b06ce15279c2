-- ===== src/Tests/Runs.antt =====
-- Runs of the red-black tree of src/mikroKernellib/rb_tree.c.
use Prim.Native.Nat.{compare}
use mikrokernellib.Common.{ℕ, ◌≡◌, refl, true, Option, some, List, [], ◌∷◌, ◌>>=◌}
use mikrokernellib.RbTree.{
  RbTree, set_color, replace_child, replace_child_right, rb_rotate_left, rb_rotate_right, rb_child,
  rb_find_loop, rb_find_exact, rb_minimum, rb_transplant, rb_traverse_inorder,
}
use mikrokernellib.RbTree.Insert.{
  recolor_step, rotate_step_left, rotate_step_right, insert_fixup_step, insert_fixup_goes_on,
  rb_insert_fixup, insert_walk, attach_node, rb_insert,
}
use mikrokernellib.RbTree.Delete.{
  is_black, blacken, red_sibling_left, red_sibling_right, inner_nephew_left, inner_nephew_right,
  outer_nephew_left, outer_nephew_right, delete_fixup_step, rb_delete_fixup, detach_successor,
  splice_both, splice_node, finish_delete, rb_delete,
}
use mikrokernellib.RbTree.Validate.{validate_node, validate_path, rb_validate_helper, rb_validate}

abbrev empty : RbTree
empty = record { root = 0; left = λ p. 0; right = λ p. 0; parent = λ p. 0; color = λ p. 0 }

abbrev insert_all : List ℕ → RbTree → Option RbTree
insert_all [] t = some t
insert_all (n ∷ ns) t = do r ← rb_insert 9 n compare t; insert_all ns r.1

abbrev built : Option RbTree
built = insert_all (1 ∷ 2 ∷ 3 ∷ 4 ∷ 5 ∷ 6 ∷ []) empty

insert_run : (built >>= (λ t. rb_traverse_inorder 9 t.root t)) ≡ some (1 ∷ 2 ∷ 3 ∷ 4 ∷ 5 ∷ 6 ∷ [])
unfolding set_color replace_child replace_child_right rb_rotate_left rb_rotate_right rb_child
    rb_traverse_inorder recolor_step rotate_step_left rotate_step_right insert_fixup_step
    insert_fixup_goes_on rb_insert_fixup insert_walk attach_node rb_insert
insert_run = refl

validate_run : (built >>= (λ t. rb_validate 9 (λ p. p) t)) ≡ some true
unfolding set_color replace_child replace_child_right rb_rotate_left rb_rotate_right rb_child
    recolor_step rotate_step_left rotate_step_right insert_fixup_step insert_fixup_goes_on
    rb_insert_fixup insert_walk attach_node rb_insert validate_node validate_path rb_validate_helper
    rb_validate
validate_run = refl

delete_run :
    (built >>= (λ t. rb_delete 9 2 compare t >>= (λ r. rb_traverse_inorder 9 r.1.root r.1)))
    ≡ some (1 ∷ 3 ∷ 4 ∷ 5 ∷ 6 ∷ [])
unfolding set_color replace_child replace_child_right rb_rotate_left rb_rotate_right rb_child
    rb_traverse_inorder recolor_step rotate_step_left rotate_step_right insert_fixup_step
    insert_fixup_goes_on rb_insert_fixup insert_walk attach_node rb_insert rb_find_loop
    rb_find_exact rb_minimum rb_transplant is_black blacken red_sibling_left red_sibling_right
    inner_nephew_left inner_nephew_right outer_nephew_left outer_nephew_right delete_fixup_step
    rb_delete_fixup detach_successor splice_both splice_node finish_delete rb_delete
delete_run = refl

delete_validate_run :
    (built >>= (λ t. rb_delete 9 2 compare t >>= (λ r. rb_validate 9 (λ p. p) r.1))) ≡ some true
unfolding set_color replace_child replace_child_right rb_rotate_left rb_rotate_right rb_child
    recolor_step rotate_step_left rotate_step_right insert_fixup_step insert_fixup_goes_on
    rb_insert_fixup insert_walk attach_node rb_insert rb_find_loop rb_find_exact rb_minimum
    rb_transplant is_black blacken red_sibling_left red_sibling_right inner_nephew_left
    inner_nephew_right outer_nephew_left outer_nephew_right delete_fixup_step rb_delete_fixup
    detach_successor splice_both splice_node finish_delete rb_delete validate_node validate_path
    rb_validate_helper rb_validate
delete_validate_run = refl
