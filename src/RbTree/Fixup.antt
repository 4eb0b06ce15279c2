-- ===== src/RbTree/Fixup.antt =====
-- The loop of `rb_insert_fixup` of src/mikroKernellib/rb_tree.c.
use mathlib.Core.Path.{subst}
use mikrokernellib.Common.{
  ℕ, zero, suc, ◌<◌, ◌≡◌, ◌≢◌, ◌⊎◌, inl, inr, refl, sym, ap, ◌∙◌, arith, true, false, ◌==◌, ◌&&◌,
  not, if◌then◌else◌, update, Bool-cases, Option, some,
}
use mikrokernellib.RbTree.{RbTree, rb_red, rb_black, set_color, rb_rotate_left}
use mikrokernellib.RbTree.Insert.{
  insert_fixup_goes_on, rotate_step_left, rotate_step_right, recolor_step, insert_fixup_step,
  rb_insert_fixup,
}
use mikrokernellib.RbTree.Model.{Tree, In, Sorted}
use mikrokernellib.RbTree.Links.{Distinct, Sorted-Distinct, In-parent}
use mikrokernellib.RbTree.Turn.{rot_left}
use mikrokernellib.RbTree.Rotated.{Kept, Kept-refl, Kept-trans, rot_left-Kept, rot_right-Kept}
use mikrokernellib.RbTree.Raise.{recolored}
use mikrokernellib.RbTree.Step.{step_right_lem}
use mikrokernellib.RbTree.Depth.{Depth, Depth-In, Depth-first, Depth-parent, Linked-color}
use mikrokernellib.RbTree.Mirror.{
  mirror, flip, flip-flip, flip-rot_left, Spells, In-flip, Distinct-flip, Linked-flip,
  rotate_mirror, rot_right,
}

step_mirror :
    (x : ℕ) (t : RbTree)
    → rotate_step_left x t
      ≡ ((rotate_step_right x (mirror t)).0, mirror (rotate_step_right x (mirror t)).1)
unfolding rotate_step_left rotate_step_right set_color
step_mirror x t =
    let p = t.parent x in
    let w = rb_rotate_left p t in
    elim (Bool-cases (x == t.right p)) [
      | inl e ↦ rw e (
          ap (λ (z : RbTree). (p, z))
            (sym (rotate_mirror (w.parent (w.parent p)) (recolored p w))
              ∙ ap (λ (k : RbTree). mirror (rb_rotate_left (k.parent (k.parent p)) (recolored p k)))
                  (rotate_mirror p (mirror t))))
      | inr e ↦
          rw e (ap (λ (z : RbTree). (x, z)) (sym (rotate_mirror (t.parent p) (recolored x t))))
    ]

flip-rot_right : (x : ℕ) (tree : Tree) → flip (rot_right x (flip tree)) ≡ rot_left x tree
flip-rot_right x tree =
    ap flip (sym (flip-rot_left x (flip tree)) ∙ ap (λ z. flip (rot_left x z)) (flip-flip tree))
    ∙ flip-flip (rot_left x tree)

-- The tree that the rotations leave.
abbrev stepped_right : ℕ → RbTree → Tree → Tree
stepped_right x t tree =
    rot_left (t.parent (t.parent x))
      (if x == t.left (t.parent x) then rot_right (t.parent x) tree else tree)

abbrev stepped_left : ℕ → RbTree → Tree → Tree
stepped_left x t tree =
    rot_right (t.parent (t.parent x))
      (if x == t.right (t.parent x) then rot_left (t.parent x) tree else tree)

flip-stepped :
    (x : ℕ) (t : RbTree) (tree : Tree)
    → flip (stepped_right x (mirror t) (flip tree)) ≡ stepped_left x t tree
flip-stepped x t tree =
    let p = t.parent x in
    elim (Bool-cases (x == t.right p)) [
      | inl e ↦ rw e (
          ap (λ z. flip (rot_left (t.parent p) z))
            (sym (flip-flip (rot_right p (flip tree))) ∙ ap flip (flip-rot_right p tree))
          ∙ flip-rot_left (t.parent p) (rot_left p tree))
      | inr e ↦ rw e (flip-rot_left (t.parent p) tree)
    ]

module _ (t : RbTree) (tree : Tree) (h : Spells t tree) (d : Distinct tree) (x : ℕ) (i : In x tree)
    (pz : t.parent x ≢ 0) (gz : t.parent (t.parent x) ≢ 0) where
  step_left_lem :
      t.left (t.parent (t.parent x)) ≡ t.parent x
      → Spells (rotate_step_left x t).1 (stepped_left x t tree)
        × (insert_fixup_goes_on (rotate_step_left x t).0 (rotate_step_left x t).1 ≡ false)
  unfolding insert_fixup_goes_on
  step_left_lem at_g =
      let (links, ends) =
        step_right_lem (mirror t) (flip tree) (Linked-flip t 0 t.root tree h) (Distinct-flip tree d)
          x (In-flip x tree i) pz gz at_g in
      let s = (rotate_step_right x (mirror t)).1 in
      let after = stepped_right x (mirror t) (flip tree) in
      subst
        (λ (z : ℕ × RbTree).
          Spells z.1 (stepped_left x t tree) × (insert_fixup_goes_on z.0 z.1 ≡ false))
        (sym (step_mirror x t))
        (
          subst (Spells (mirror s)) (flip-stepped x t tree) (Linked-flip s 0 s.root after links),
          ends,
        )

right_child :
    (t : RbTree) (tree : Tree)
    → Spells t tree
    → (x : ℕ) → In x tree
    → t.parent x ≢ 0
    → t.parent (t.parent x) ≢ 0
    → t.parent x ≢ t.left (t.parent (t.parent x))
    → t.right (t.parent (t.parent x)) ≡ t.parent x
right_child t tree h x i pz gz f = elim (In-parent t 0 t.root tree h x i) [
  | inl (e, up) ↦ absurd (pz up)
  | inr (j, c) ↦ elim (In-parent t 0 t.root tree h (t.parent x) j) [
    | inl (e, up) ↦ absurd (gz up)
    | inr (k, inl a) ↦ absurd (f (sym a))
    | inr (k, inr a) ↦ a
  ]
]

-- The three bodies of a turn.
step-cases :
    (x : ℕ) (t : RbTree)
    → ((uncle : ℕ) × (insert_fixup_step x t ≡ recolor_step x uncle t))
      ⊎ (((t.parent x ≡ t.left (t.parent (t.parent x)))
            × (insert_fixup_step x t ≡ rotate_step_left x t))
          ⊎ ((t.parent x ≢ t.left (t.parent (t.parent x)))
              × (insert_fixup_step x t ≡ rotate_step_right x t)))
unfolding insert_fixup_step
step-cases x t =
    let is_left = t.parent x == t.left (t.parent (t.parent x)) in
    let uncle =
      if is_left then t.right (t.parent (t.parent x)) else t.left (t.parent (t.parent x)) in
    elim (Bool-cases (not (uncle == 0) && (t.color uncle == rb_red))) [
      | inl e ↦ inl (uncle, rw e refl)
      | inr e ↦ elim (Bool-cases is_left) [
        | inl f ↦ inr (inl (ground (arith, f), rw e (rw f refl)))
        | inr f ↦ inr (inr (ground (arith, f), rw e (rw f refl)))
      ]
    ]

recolored-Spells :
    (x uncle : ℕ) (t : RbTree) (tree : Tree)
    → Spells t tree
    → ((recolor_step x uncle t).0 ≡ t.parent (t.parent x)) × Spells (recolor_step x uncle t).1 tree
unfolding recolor_step set_color
recolored-Spells x uncle t tree h =
    (refl, Linked-color t (recolor_step x uncle t).1.color 0 t.root tree h)

goes_on-parents :
    (x : ℕ) (t : RbTree)
    → insert_fixup_goes_on x t ≡ true
    → (t.parent x ≢ 0) × (t.parent (t.parent x) ≢ 0)
unfolding insert_fixup_goes_on
goes_on-parents x t e = (ground (arith, e), ground (arith, e))

grandparent-Depth :
    (t : RbTree) (tree : Tree)
    → Spells t tree
    → (x d : ℕ) → Depth x d tree
    → t.parent x ≢ 0
    → t.parent (t.parent x) ≢ 0
    → (e : ℕ) × (d ≡ suc (suc e)) × Depth (t.parent (t.parent x)) e tree
grandparent-Depth t tree h x zero dx pz gz = absurd (pz (Depth-first t 0 t.root tree h x dx).1)
grandparent-Depth t tree h x (suc zero) dx pz gz =
    absurd
      (gz (Depth-first t 0 t.root tree h (t.parent x) (Depth-parent t 0 t.root tree h x 0 dx)).1)
grandparent-Depth t tree h x (suc (suc e)) dx pz gz = (
  e,
  refl,
  Depth-parent t 0 t.root tree h (t.parent x) e (Depth-parent t 0 t.root tree h x (suc e) dx),
)

fixup_stops :
    (rounds x : ℕ) (t : RbTree)
    → insert_fixup_goes_on x t ≡ false
    → rb_insert_fixup (suc rounds) x t ≡ some (set_color t.root rb_black t)
unfolding rb_insert_fixup
fixup_stops rounds x t e = rw (rb_insert_fixup, e) refl

fixup_goes_on :
    (rounds x : ℕ) (t : RbTree)
    → insert_fixup_goes_on x t ≡ true
    → rb_insert_fixup (suc rounds) x t
      ≡ rb_insert_fixup rounds (insert_fixup_step x t).0 (insert_fixup_step x t).1
unfolding rb_insert_fixup
fixup_goes_on rounds x t e = rw (rb_insert_fixup, e) refl

module _ (start : ℕ → ℕ) where
  stepped_right-Kept : (x : ℕ) (t : RbTree) (tree : Tree) → Kept start tree (stepped_right x t tree)
  stepped_right-Kept x t tree = elim (Bool-cases (x == t.left (t.parent x))) [
    | inl e ↦ rw e (
        Kept-trans start tree (rot_right (t.parent x) tree)
          (rot_left (t.parent (t.parent x)) (rot_right (t.parent x) tree))
          (rot_right-Kept start (t.parent x) tree)
          (rot_left-Kept start (t.parent (t.parent x)) (rot_right (t.parent x) tree)))
    | inr e ↦ rw e (rot_left-Kept start (t.parent (t.parent x)) tree)
  ]

  stepped_left-Kept : (x : ℕ) (t : RbTree) (tree : Tree) → Kept start tree (stepped_left x t tree)
  stepped_left-Kept x t tree = elim (Bool-cases (x == t.right (t.parent x))) [
    | inl e ↦ rw e (
        Kept-trans start tree (rot_left (t.parent x) tree)
          (rot_right (t.parent (t.parent x)) (rot_left (t.parent x) tree))
          (rot_left-Kept start (t.parent x) tree)
          (rot_right-Kept start (t.parent (t.parent x)) (rot_left (t.parent x) tree)))
    | inr e ↦ rw e (rot_right-Kept start (t.parent (t.parent x)) tree)
  ]

  -- What the loop leaves.
  pub record Fixed (result : Option RbTree) (tree : Tree) : Type 0 where
    pub fixed : RbTree
    pub after : Tree
    pub returned : result ≡ some fixed
    pub links : Spells fixed after
    pub kept : Kept start tree after
    pub black : fixed.color fixed.root ≡ rb_black

  fixup-ends :
      (rounds x : ℕ) (t : RbTree) (tree : Tree)
      → 0 < rounds
      → Spells t tree
      → insert_fixup_goes_on x t ≡ false
      → Fixed (rb_insert_fixup rounds x t) tree
  unfolding set_color
  fixup-ends zero x t tree few h e = absurd (omega (arith, few))
  fixup-ends (suc rounds) x t tree few h e = record {
    fixed = set_color t.root rb_black t;
    after = tree;
    returned = fixup_stops rounds x t e;
    links = Linked-color t (update t.color t.root rb_black) 0 t.root tree h;
    kept = Kept-refl start tree;
    black = ground arith;
  }

  -- The recoloured tree with the grandparent, or the end with new links.
  abbrev Turned : ℕ → RbTree → Tree → ℕ × RbTree → Type 0
  Turned x t tree z =
      ((z.0 ≡ t.parent (t.parent x)) × Spells z.1 tree)
      ⊎ ((after : Tree) × Spells z.1 after
          × Kept start tree after
          × (insert_fixup_goes_on z.0 z.1 ≡ false))

  fixup-turn :
      (x : ℕ) (t : RbTree) (tree : Tree)
      → Spells t tree
      → Distinct tree
      → In x tree
      → t.parent x ≢ 0
      → t.parent (t.parent x) ≢ 0
      → Turned x t tree (insert_fixup_step x t)
  fixup-turn x t tree h d i pz gz = elim (step-cases x t) [
    | inl (uncle, e) ↦ subst (Turned x t tree) (sym e) (inl (recolored-Spells x uncle t tree h))
    | inr (inl (f, e)) ↦
        let (links, ends) = step_left_lem t tree h d x i pz gz (sym f) in
        subst (Turned x t tree) (sym e)
          (inr (stepped_left x t tree, links, stepped_left-Kept x t tree, ends))
    | inr (inr (f, e)) ↦
        let (links, ends) =
          step_right_lem t tree h d x i pz gz (right_child t tree h x i pz gz f) in
        subst (Turned x t tree) (sym e)
          (inr (stepped_right x t tree, links, stepped_right-Kept x t tree, ends))
  ]

  -- `rb_insert_fixup` at a node of a search tree with right links ends in more rounds than the node is
  -- deep, and leaves right links, parents included, of a search tree of the same nodes whose root is
  -- black.
  pub fixup_lem :
      (rounds d x : ℕ) (t : RbTree) (tree : Tree)
      → Spells t tree
      → Sorted start tree
      → Depth x d tree
      → d < rounds
      → Fixed (rb_insert_fixup rounds x t) tree
  fixup_lem zero d x t tree h s dx few = absurd (omega (arith, few))
  fixup_lem (suc rounds) d x t tree h s dx few = elim (Bool-cases (insert_fixup_goes_on x t)) [
    | inr e ↦ fixup-ends (suc rounds) x t tree (omega arith) h e
    | inl e ↦
        let (pz, gz) = goes_on-parents x t e in
        let (above, deep, dg) = grandparent-Depth t tree h x d dx pz gz in
        let step = insert_fixup_step x t in
        subst (λ r. Fixed r tree) (sym (fixup_goes_on rounds x t e))
          (elim (fixup-turn x t tree h (Sorted-Distinct start tree s) (Depth-In x d tree dx) pz
            gz) [
              | inl (up, links) ↦
                  fixup_lem rounds above step.0 step.1 tree links s
                    (subst (λ z. Depth z above tree) (sym up) dg) (omega (arith, deep, few))
              | inr (after, links, kept, ends) ↦
                  let last =
                    fixup-ends rounds step.0 step.1 after (omega (arith, deep, few)) links ends in
                  record {
                    fixed = last.fixed;
                    after = last.after;
                    returned = last.returned;
                    links = last.links;
                    kept = Kept-trans start tree after last.after kept last.kept;
                    black = last.black;
                  }
            ])
  ]
