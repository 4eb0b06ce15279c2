-- ===== src/RbTree/Recoloured.antt =====
-- The colours of a recoloured grandparent in `rb_insert_fixup` of src/mikroKernellib/rb_tree.c leaves.
use mathlib.Core.Path.{subst}
use mikrokernellib.Common.{ℕ, ◌≡◌, ◌≢◌, ◌⊎◌, inl, inr, refl, sym, ap, ◌∙◌, ==_iff}
use mikrokernellib.RbTree.{RbTree, rb_red, rb_black}
use mikrokernellib.RbTree.Model.{Tree, leaf, branch, In}
use mikrokernellib.RbTree.Links.{Linked, Distinct, top, Linked-top, In-parent, In-top}
use mikrokernellib.RbTree.Mirror.{Spells}
use mikrokernellib.RbTree.Colours.{
  Red, At, At-In, At-off, At-whole, put, put-out, put-Balanced, put-Reds,
}
use mikrokernellib.RbTree.Repainted.{recolor-Balanced, recolor-Reds}
use mikrokernellib.RbTree.Painted.{Coloured, Linked-At, Distinct-At}

put-same :
    (g : ℕ) (l r tree : Tree) → At g l r tree → Distinct tree → put g (branch l g r) tree ≡ tree
put-same g l r leaf h d = elim h [ ]
put-same g l r (branch a q b) (inl (e, el, er)) d =
    let here = (==_iff q g).1 (sym e) in rw here (sym (At-whole g l r a q b e el er))
put-same g l r (branch a q b) (inr (inl h)) (qa, qb, ab, da, db) =
    let out : In g b → ⊥ = ab g (At-In g l r a h g (inr (inl refl))) in
    rw (At-off g l r a q h qa, put-out g (branch l g r) b out, put-same g l r a h da) refl
put-same g l r (branch a q b) (inr (inr h)) (qa, qb, ab, da, db) =
    let out : In g a → ⊥ = λ i. ab g i (At-In g l r b h g (inr (inl refl))) in
    rw (At-off g l r b q h qb, put-out g (branch l g r) a out, put-same g l r b h db) refl

-- The recoloured grandparent `g` of `x`, over `p` and `u`.
module _ (t : RbTree) (tree : Tree) (h : Spells t tree) (dt : Distinct tree) (x g p u : ℕ)
    (at_p : t.left g ≡ p) (at_u : t.right g ≡ u) (pz : p ≢ 0) (uz : u ≢ 0) (xz : x ≢ 0)
    (child : ((t.left p ≡ x) ⊎ (t.right p ≡ x)) ⊎ ((t.left u ≡ x) ⊎ (t.right u ≡ x)))
    (parent : (t.parent x ≡ p) ⊎ (t.parent x ≡ u)) (p_red : t.color p ≡ rb_red)
    (u_red : t.color u ≡ rb_red) (g_black : t.color g ≢ rb_red) (d : ℕ → ℕ) (d_p : d p ≡ rb_black)
    (d_u : d u ≡ rb_black) (d_g : d g ≡ rb_red)
    (same : (m : ℕ) → m ≢ p → m ≢ u → m ≢ g → d m ≡ t.color m) where
  below :
      (q k : ℕ) (sub : Tree)
      → Linked t q k sub
      → (In p sub → ⊥)
      → (In u sub → ⊥)
      → In x sub
      → x ≡ top sub
  below q k sub links no_p no_u i = elim (In-parent t q k sub links x i) [
    | inl (e, up) ↦ e ∙ Linked-top t q k sub links
    | inr (j, c) ↦ elim parent [
      | inl e ↦ absurd (no_p (subst (λ m. In m sub) e j))
      | inr e ↦ absurd (no_u (subst (λ m. In m sub) e j))
    ]
  ]

  pub recolored-Coloured :
      (n : ℕ) (l r : Tree) → At g l r tree → Coloured t.color n x tree → Coloured d n g tree
  recolored-Coloured n leaf r at col =
      let (above, links) = Linked-At t 0 t.root tree h g leaf r at in
      absurd (pz (sym at_p ∙ links.3))
  recolored-Coloured n (branch a q b) leaf at col =
      let (above, links) = Linked-At t 0 t.root tree h g (branch a q b) leaf at in
      absurd (uz (sym at_u ∙ links.4))
  recolored-Coloured n (branch a q b) (branch e k f) at (bal, red) =
      let (above, (same_g, nz, up, (at_q, qz, qup, ha, hb), (at_k, kz, kup, he, hf))) =
        Linked-At t 0 t.root tree h g (branch a q b) (branch e k f) at in
      let q_p : q ≡ p = sym at_q ∙ at_p in
      let k_u : k ≡ u = sym at_k ∙ at_u in
      let here = Distinct-At g (branch a q b) (branch e k f) tree at dt in
      let p_a : In p a → ⊥ = λ i. here.3.0 (subst (λ m. In m a) (sym q_p) i) in
      let p_b : In p b → ⊥ = λ i. here.3.1 (subst (λ m. In m b) (sym q_p) i) in
      let p_r : In p (branch e k f) → ⊥ =
        λ i. here.2 q (inr (inl refl)) (subst (λ m. In m (branch e k f)) (sym q_p) i) in
      let u_e : In u e → ⊥ = λ i. here.4.0 (subst (λ m. In m e) (sym k_u) i) in
      let u_f : In u f → ⊥ = λ i. here.4.1 (subst (λ m. In m f) (sym k_u) i) in
      let u_l : In u (branch a q b) → ⊥ =
        λ i. here.2 k (subst (λ m. In m (branch a q b)) (sym k_u) i) (inr (inl refl)) in
      let s = branch (branch a q b) g (branch e k f) in
      let x_in : In x s = elim child [
        | inl (inl c) ↦
            let w = ap t.left q_p ∙ c in
            inl (inl (subst (λ m. In m a) w (In-top t q (t.left q) a ha (λ z. xz (sym w ∙ z)))))
        | inl (inr c) ↦
            let w = ap t.right q_p ∙ c in
            inl (
              inr (inr (subst (λ m. In m b) w (In-top t q (t.right q) b hb (λ z. xz (sym w ∙ z))))))
        | inr (inl c) ↦
            let w = ap t.left k_u ∙ c in
            inr
              (inr (inl (subst (λ m. In m e) w (In-top t k (t.left k) e he (λ z. xz (sym w ∙ z))))))
        | inr (inr c) ↦
            let w = ap t.right k_u ∙ c in
            inr (
              inr (
                inr (
                  inr (subst (λ m. In m f) w (In-top t k (t.right k) f hf (λ z. xz (sym w ∙ z)))))))
      ] in
      let q_red = ap t.color q_p ∙ p_red in
      let k_red = ap t.color k_u ∙ u_red in
      let dq = ap d q_p ∙ d_p in
      let dk = ap d k_u ∙ d_u in
      let kept : (m : ℕ) → m ≢ q → m ≢ k → m ≢ g → d m ≡ t.color m =
        λ m nq nk ng. same m (λ z. nq (z ∙ sym q_p)) (λ z. nk (z ∙ sym k_u)) ng in
      let ta = below q (t.left q) a ha p_a (λ i. u_l (inl i)) in
      let tb = below q (t.right q) b hb p_b (λ i. u_l (inr (inr i))) in
      let te = below k (t.left k) e he (λ i. p_r (inl i)) u_e in
      let tf = below k (t.right k) f hf (λ i. p_r (inr (inr i))) u_f in
      let outside : (m : ℕ) → In m tree → (In m s → ⊥) → d m ≡ t.color m = λ m i off.
        kept m (λ z. off (inl (inr (inl z)))) (λ z. off (inr (inr (inr (inl z)))))
          (λ z. off (inr (inl z))) in
      let balanced = λ (j : ℕ).
        recolor-Balanced t.color d a b e f g q k x here q_red k_red g_black dq dk d_g kept ta tb te
          tf j in
      let reds =
        recolor-Reds t.color d a b e f g q k x here q_red k_red g_black dq dk d_g kept ta tb te
          tf in
      let top_red : (t.color g ≡ rb_red → g ≡ x) → Red d s → top s ≡ g = λ only w. refl in
      subst (λ z. Coloured d n g z) (put-same g (branch a q b) (branch e k f) tree at dt)
        (
          put-Balanced t.color d g x g (branch a q b) (branch e k f) s x_in balanced reds top_red n
              tree dt at outside bal,
          put-Reds t.color d g x g (branch a q b) (branch e k f) s x_in balanced reds top_red tree
              dt at outside red,
        )
