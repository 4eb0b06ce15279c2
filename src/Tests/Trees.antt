-- ===== src/Tests/Trees.antt =====
-- The theorems about the changes of a red-black tree of src/mikroKernellib/rb_tree.c at the tree of
-- three areas.
use mikrokernellib.Common.{◌≡◌, ◌⊎◌, inl, inr, refl, arith, false, ◌==◌, if◌then◌else◌}
use mikrokernellib.RbTree.{RbTree, rb_rotate_left, rb_rotate_right}
use mikrokernellib.RbTree.Insert.{rb_insert, rotate_step_right, insert_fixup_goes_on}
use mikrokernellib.RbTree.Model.{Tree, leaf, branch, In, Sorted}
use mikrokernellib.RbTree.Mirror.{Spells, rot_right}
use mikrokernellib.RbTree.Turn.{rot_left}
use mikrokernellib.RbTree.Links.{Sorted-Distinct}
use mikrokernellib.RbTree.Painted.{Coloured}
use mikrokernellib.RbTree.Stepped.{step_right-Coloured}
use mikrokernellib.RbTree.Rotated.{Kept, rotate_lem}
use mikrokernellib.RbTree.Inserted.{Inserted, rb_insert_lem}
use mikrokernellib.Vm.{vma_cmp}
use mikrokernellib.Tests.{three, three_tree, three-Sorted, start_of}

pub three-Spells : Spells three three_tree
three-Spells = (
  refl,
  omega arith,
  refl,
  (refl, omega arith, refl, refl, refl),
  (refl, omega arith, refl, refl, refl),
)

not_25 : In 25 three_tree → ⊥
not_25 i = elim i [
  | inl (inl a) ↦ elim a [ ]
  | inl (inr (inl e)) ↦ omega (arith, e)
  | inl (inr (inr a)) ↦ elim a [ ]
  | inr (inl e) ↦ omega (arith, e)
  | inr (inr (inl a)) ↦ elim a [ ]
  | inr (inr (inr (inl e))) ↦ omega (arith, e)
  | inr (inr (inr (inr a))) ↦ elim a [ ]
]

rb_insert_lem_example : Inserted start_of 25 three_tree (rb_insert 3 25 (vma_cmp start_of) three)
rb_insert_lem_example =
    rb_insert_lem start_of 25 (omega arith) three three_tree three-Spells three-Sorted not_25 3
      (omega arith)

rotate_lem_example :
    ((three.right 20 ≡ 0)
      ⊎ ((after : Tree) × Spells (rb_rotate_left 20 three) after × Kept start_of three_tree after))
    × ((three.left 20 ≡ 0)
        ⊎ ((after : Tree) × Spells (rb_rotate_right 20 three) after
            × Kept start_of three_tree after))
rotate_lem_example =
    rotate_lem start_of three three_tree three-Spells three-Sorted 20 (inr (inl refl))

-- A chain of 20, 30 and 40 to the right, of which 20 is black.
abbrev chain : RbTree
chain = record {
  root = 20;
  left = λ p. 0;
  right = λ p. if p == 20 then 30 else (if p == 30 then 40 else 0);
  parent = λ p. if p == 40 then 30 else (if p == 30 then 20 else 0);
  color = λ p. if p == 20 then 1 else 0;
}

abbrev chain_tree : Tree
chain_tree = branch leaf 20 (branch leaf 30 (branch leaf 40 leaf))

chain-Spells : Spells chain chain_tree
chain-Spells = (
  refl,
  omega arith,
  refl,
  refl,
  (refl, omega arith, refl, refl, (refl, omega arith, refl, refl, refl)),
)

chain-Sorted : Sorted start_of chain_tree
chain-Sorted = (
  λ m i. elim i [ ],
  λ m i. elim i [
    | inl a ↦ elim a [ ]
    | inr (inl e) ↦ omega (arith, e)
    | inr (inr (inl a)) ↦ elim a [ ]
    | inr (inr (inr (inl e))) ↦ omega (arith, e)
    | inr (inr (inr (inr a))) ↦ elim a [ ]
  ],
  tt,
  (
    λ m i. elim i [ ],
    λ m i. elim i [
      | inl a ↦ elim a [ ]
      | inr (inl e) ↦ omega (arith, e)
      | inr (inr a) ↦ elim a [ ]
    ],
    tt,
    (λ m i. elim i [ ], λ m i. elim i [ ], tt, tt),
  ),
)

chain-Coloured : Coloured chain.color 1 40 chain_tree
chain-Coloured = (
  (0, refl, refl, (0, refl, refl, (0, refl, refl, refl))),
  (
    λ e. absurd (omega (arith, e)),
    tt,
    (λ e. (λ i. elim i [ ], λ i. refl), tt, (λ e. (λ i. elim i [ ], λ i. elim i [ ]), tt, tt)),
  ),
)

step_right-Coloured_example :
    Spells
      (rotate_step_right 40 chain).1
      (rot_left 20 (if 40 == chain.left 30 then rot_right 30 chain_tree else chain_tree))
    × Coloured
        (rotate_step_right 40 chain).1.color
        1
        0
        (rot_left 20 (if 40 == chain.left 30 then rot_right 30 chain_tree else chain_tree))
    × (insert_fixup_goes_on (rotate_step_right 40 chain).0 (rotate_step_right 40 chain).1 ≡ false)
step_right-Coloured_example =
    step_right-Coloured chain chain_tree chain-Spells
      (Sorted-Distinct start_of chain_tree chain-Sorted) 40 (inr (inr (inr (inr (inr (inl refl))))))
      (omega arith) (omega arith) refl refl refl (omega arith) (inl refl) 1 0 chain-Coloured
