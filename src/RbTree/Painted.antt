-- ===== src/RbTree/Painted.antt =====
-- The colours that a turn of `rb_insert_fixup` of src/mikroKernellib/rb_tree.c leaves.
use mathlib.Core.Path.{subst}
use mikrokernellib.Common.{
  ℕ, ◌≡◌, ◌≢◌, ◌⊎◌, inl, inr, refl, sym, ap, ◌∙◌, false, ◌==◌, update, ==_iff, arith,
}
use mikrokernellib.RbTree.{RbTree, rb_red, rb_black}
use mikrokernellib.RbTree.Model.{Tree, leaf, branch, In}
use mikrokernellib.RbTree.Links.{Linked, Distinct, top, Linked-top, In-top}
use mikrokernellib.RbTree.Mirror.{Spells, turn_right, rot_right}
use mikrokernellib.RbTree.Turn.{turn_left, rot_left, rot_left-out}
use mikrokernellib.RbTree.Colours.{
  Red, Balanced, Reds, At, At-In, At-off, At-whole, put, put-out, put-Balanced, put-Reds,
}
use mikrokernellib.RbTree.Repainted.{raise-Balanced, raise-Reds, inner-Balanced, inner-Reds}

-- Both rules, but for `x`.
abbrev pub Coloured : (ℕ → ℕ) → ℕ → ℕ → Tree → Type 0
Coloured c n x tree = Balanced c n tree × Reds c x tree

pub In-At : (g : ℕ) (tree : Tree) → In g tree → (l : Tree) × (r : Tree) × At g l r tree
In-At g leaf i = elim i [ ]
In-At g (branch a q b) (inr (inl e)) = (a, b, inl (e, refl, refl))
In-At g (branch a q b) (inl i) = let (l, r, h) = In-At g a i in (l, r, inr (inl h))
In-At g (branch a q b) (inr (inr i)) = let (l, r, h) = In-At g b i in (l, r, inr (inr h))

pub Linked-At :
    (t : RbTree) (par p : ℕ) (tree : Tree)
    → Linked t par p tree
    → (g : ℕ) (l r : Tree) → At g l r tree
    → (above : ℕ) × Linked t above g (branch l g r)
Linked-At t par p leaf h g l r at = elim at [ ]
Linked-At t par p (branch a q b) (e, nz, up, ha, hb) g l r (inl (same, el, er)) = (
  par,
  subst (λ k. Linked t par k (branch l k r)) (sym same)
      (subst (λ k. Linked t par q (branch k q r)) el
        (subst (λ k. Linked t par q (branch a q k)) er (refl, nz, up, ha, hb))),
)
Linked-At t par p (branch a q b) (e, nz, up, ha, hb) g l r (inr (inl at)) =
    Linked-At t q (t.left q) a ha g l r at
Linked-At t par p (branch a q b) (e, nz, up, ha, hb) g l r (inr (inr at)) =
    Linked-At t q (t.right q) b hb g l r at

pub Distinct-At :
    (g : ℕ) (l r tree : Tree) → At g l r tree → Distinct tree → Distinct (branch l g r)
Distinct-At g l r leaf h d = elim h [ ]
Distinct-At g l r (branch a q b) (inl (e, el, er)) d =
    subst Distinct (At-whole g l r a q b e el er) d
Distinct-At g l r (branch a q b) (inr (inl h)) (qa, qb, ab, da, db) = Distinct-At g l r a h da
Distinct-At g l r (branch a q b) (inr (inr h)) (qa, qb, ab, da, db) = Distinct-At g l r b h db

pub rot_left-put :
    (g : ℕ) (l r tree : Tree)
    → At g l r tree
    → Distinct tree
    → rot_left g tree ≡ put g (turn_left l g r) tree
rot_left-put g l r leaf h d = elim h [ ]
rot_left-put g l r (branch a q b) (inl (e, el, er)) d =
    let here = (==_iff q g).1 (sym e) in rw (here, el, er, e) refl
rot_left-put g l r (branch a q b) (inr (inl h)) (qa, qb, ab, da, db) =
    let out : In g b → ⊥ = ab g (At-In g l r a h g (inr (inl refl))) in
    rw
      (
        At-off g l r a q h qa,
        rot_left-out g b out,
        put-out g (turn_left l g r) b out,
        rot_left-put g l r a h da,
      )
      refl
rot_left-put g l r (branch a q b) (inr (inr h)) (qa, qb, ab, da, db) =
    let out : In g a → ⊥ = λ i. ab g i (At-In g l r b h g (inr (inl refl))) in
    rw
      (
        At-off g l r b q h qb,
        rot_left-out g a out,
        put-out g (turn_left l g r) a out,
        rot_left-put g l r b h db,
      )
      refl

rot_right-out : (x : ℕ) (tree : Tree) → (In x tree → ⊥) → rot_right x tree ≡ tree
rot_right-out x leaf out = refl
rot_right-out x (branch l q r) out =
    let e : (q == x) ≡ false = ground (arith, λ (z : q ≡ x). out (inr (inl (sym z)))) in
    rw (e, rot_right-out x l (λ i. out (inl i)), rot_right-out x r (λ i. out (inr (inr i)))) refl

pub rot_right-put :
    (g : ℕ) (l r tree : Tree)
    → At g l r tree
    → Distinct tree
    → rot_right g tree ≡ put g (turn_right l g r) tree
rot_right-put g l r leaf h d = elim h [ ]
rot_right-put g l r (branch a q b) (inl (e, el, er)) d =
    let here = (==_iff q g).1 (sym e) in rw (here, el, er, e) refl
rot_right-put g l r (branch a q b) (inr (inl h)) (qa, qb, ab, da, db) =
    let out : In g b → ⊥ = ab g (At-In g l r a h g (inr (inl refl))) in
    rw
      (
        At-off g l r a q h qa,
        rot_right-out g b out,
        put-out g (turn_right l g r) b out,
        rot_right-put g l r a h da,
      )
      refl
rot_right-put g l r (branch a q b) (inr (inr h)) (qa, qb, ab, da, db) =
    let out : In g a → ⊥ = λ i. ab g i (At-In g l r b h g (inr (inl refl))) in
    rw
      (
        At-off g l r b q h qb,
        rot_right-out g a out,
        put-out g (turn_right l g r) a out,
        rot_right-put g l r b h db,
      )
      refl

-- The last rotation, at `g` over `p` over `y`, to the left.
module _ (t : RbTree) (tree : Tree) (h : Spells t tree) (dt : Distinct tree) (y g p : ℕ)
    (g_in : In g tree) (at_g : t.right g ≡ p) (pz : p ≢ 0) (at_p : t.right p ≡ y) (yz : y ≢ 0)
    (p_red : t.color p ≡ rb_red) (g_black : t.color g ≢ rb_red)
    (uncle : (t.left g ≡ 0) ⊎ (t.color (t.left g) ≢ rb_red)) where
  abbrev d : ℕ → ℕ
  d = update (update t.color p rb_black) g rb_red

  uncle_black : (r : Tree) → t.left g ≡ top r → Linked t g (t.left g) r → Red t.color r → ⊥
  uncle_black leaf e l red = red
  uncle_black (branch a q b) e l red = elim uncle [
    | inl z ↦ l.1 (sym l.0 ∙ z)
    | inr black ↦ black (ap t.color l.0 ∙ red)
  ]

  pub raised-Coloured :
      (n z : ℕ) (l r : Tree)
      → At g l r tree
      → Coloured t.color n y tree
      → Coloured d n z (rot_left g tree)
  raised-Coloured n z l leaf at (bal, red) =
      let (above, links) = Linked-At t 0 t.root tree h g l leaf at in
      absurd (pz (sym at_g ∙ links.4))
  raised-Coloured n z l (branch a q b) at (bal, red) =
      let (above, (e, nz, up, hl, (at_q, qz, qup, ha, hb))) =
        Linked-At t 0 t.root tree h g l (branch a q b) at in
      let q_p : q ≡ p = sym at_q ∙ at_g in
      let here = Distinct-At g l (branch a q b) tree at dt in
      let b_top : y ≡ top b = sym at_p ∙ ap t.right (sym q_p) ∙ Linked-top t q (t.right q) b hb in
      let at_y : t.right q ≡ y = ap t.right q_p ∙ at_p in
      let y_b : In y b =
        subst (λ k. In k b) at_y (In-top t q (t.right q) b hb (λ w. yz (sym at_y ∙ w))) in
      let q_g : q ≢ g = λ w. here.1 (inr (inl (sym w))) in
      let same : (m : ℕ) → m ≢ q → m ≢ g → d m ≡ t.color m = λ m nq ng. ground (arith, q_p) in
      let d_q : d q ≡ rb_black = ground (arith, q_p) in
      let d_g : d g ≡ rb_red = ground arith in
      let q_red : t.color q ≡ rb_red = ap t.color q_p ∙ p_red in
      let r_black = uncle_black l (Linked-top t g (t.left g) l hl) hl in
      let outside : (m : ℕ) → In m tree → (In m (branch l g (branch a q b)) → ⊥) → d m ≡ t.color m =
        λ m i off. same m (λ w. off (inr (inr (inr (inl w))))) (λ w. off (inr (inl w))) in
      let s' = branch (branch l g a) q b in
      let x_in : In y (branch l g (branch a q b)) = inr (inr (inr (inr y_b))) in
      let balanced = λ (k : ℕ).
        raise-Balanced t.color d l a b g q y z here y_b b_top q_red g_black r_black d_q d_g same
          k in
      let reds =
        raise-Reds t.color d l a b g q y z here y_b b_top q_red g_black r_black d_q d_g same in
      let top_red : (t.color g ≡ rb_red → g ≡ y) → Red d s' → top s' ≡ z =
        λ only w. absurd (omega (arith, w, d_q)) in
      rw (rot_left-put g l (branch a q b) tree at dt) (
        put-Balanced t.color d g y z l (branch a q b) s' x_in balanced reds top_red n tree dt at
            outside bal,
        put-Reds t.color d g y z l (branch a q b) s' x_in balanced reds top_red tree dt at outside
            red,
      )

-- The first of two rotations, at `p` over `x`, to the right.
module _ (t : RbTree) (tree : Tree) (h : Spells t tree) (dt : Distinct tree) (x p : ℕ)
    (at_p : t.left p ≡ x) (xz : x ≢ 0) (p_red : t.color p ≡ rb_red)
    (x_red : t.color x ≡ rb_red) where
  pub inner-Coloured :
      (n : ℕ) (l r : Tree)
      → At p l r tree
      → Coloured t.color n x tree
      → Coloured t.color n p (rot_right p tree)
  inner-Coloured n leaf r at (bal, red) =
      let (above, links) = Linked-At t 0 t.root tree h p leaf r at in
      absurd (xz (sym at_p ∙ links.3))
  inner-Coloured n (branch a q b) r at (bal, red) =
      let (above, (e, nz, up, (at_q, qz, qup, ha, hb), hr)) =
        Linked-At t 0 t.root tree h p (branch a q b) r at in
      let q_x : q ≡ x = sym at_q ∙ at_p in
      let here = Distinct-At p (branch a q b) r tree at dt in
      let q_red : t.color q ≡ rb_red = ap t.color q_x ∙ x_red in
      let s' = branch a q (branch b p r) in
      let outside : (m : ℕ)
          → In m tree
          → (In m (branch (branch a q b) p r) → ⊥)
          → t.color m ≡ t.color m =
        λ m i off. refl in
      let q_in : In q (branch (branch a q b) p r) = inl (inr (inl refl)) in
      let p_q : p ≢ q = λ w. here.0 (inr (inl w)) in
      let top_red : (t.color p ≡ rb_red → p ≡ q) → Red t.color s' → top s' ≡ p =
        λ only w. absurd (p_q (only p_red)) in
      let balanced = λ (k : ℕ). inner-Balanced t.color a b r p q here p_red q_red k in
      let reds = inner-Reds t.color a b r p q here p_red q_red in
      rw (rot_right-put p (branch a q b) r tree at dt) (
        put-Balanced t.color t.color p q p (branch a q b) r s' q_in balanced reds top_red n tree dt
            at outside bal,
        put-Reds t.color t.color p q p (branch a q b) r s' q_in balanced reds top_red tree dt at
            outside (subst (λ k. Reds t.color k tree) (sym q_x) red),
      )
