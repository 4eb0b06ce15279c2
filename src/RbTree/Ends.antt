-- ===== src/RbTree/Ends.antt =====
-- The colours when the loop of `rb_insert_fixup` of src/mikroKernellib/rb_tree.c ends, and under
-- symmetry.
use mathlib.Core.Path.{subst}
use mikrokernellib.Common.{ℕ, suc, ◌≡◌, ◌≢◌, inl, inr, refl, sym, ap, ◌∙◌, false, update, arith}
use mikrokernellib.RbTree.{RbTree, rb_red, rb_black}
use mikrokernellib.RbTree.Insert.{insert_fixup_goes_on}
use mikrokernellib.RbTree.Model.{Tree, leaf, branch, In}
use mikrokernellib.RbTree.Links.{Linked, Distinct, top}
use mikrokernellib.RbTree.Mirror.{Spells, flip}
use mikrokernellib.RbTree.Colours.{Red, Reds, Balanced-agree, Red-agree}
use mikrokernellib.RbTree.Painted.{Coloured}

-- Both rules without exception.
abbrev pub Good : (ℕ → ℕ) → Tree → Type 0
Good c tree = (n : ℕ) × Coloured c n 0 tree

Red-flip : (c : ℕ → ℕ) (tree : Tree) → Red c (flip tree) → Red c tree × (top (flip tree) ≡ top tree)
Red-flip c leaf h = (h, refl)
Red-flip c (branch l q r) h = (h, refl)

pub Coloured-flip :
    (c : ℕ → ℕ) (n x : ℕ) (tree : Tree) → Coloured c n x tree → Coloured c n x (flip tree)
Coloured-flip c n x leaf h = h
Coloured-flip c n x (branch l q r) ((m, e, bl, br), (h, hl, hr)) =
    let (bl', hl') = Coloured-flip c m x l (bl, hl) in
    let (br', hr') = Coloured-flip c m x r (br, hr) in
    (
      (m, e, br', bl'),
      (
        λ red. (
          λ i. let (j, same) = Red-flip c r i in same ∙ (h red).1 j,
          λ i. let (j, same) = Red-flip c l i in same ∙ (h red).0 j,
        ),
        hr',
        hl',
      ),
    )

module _ (t : RbTree) (x : ℕ) (ends : insert_fixup_goes_on x t ≡ false) where
  not_red_parent : (q : ℕ) → q ≢ 0 → t.parent x ≡ q → t.parent q ≢ 0 → t.color q ≢ rb_red
  unfolding insert_fixup_goes_on
  not_red_parent q nz e above red =
      absurd (ground (arith, ends, nz, e, above, red, ap t.parent e, ap t.color e))

  child-parent :
      (q k : ℕ) (sub : Tree) → Linked t q k sub → Red t.color sub → top sub ≡ x → t.parent x ≡ q
  child-parent q k leaf links red e = elim red [ ]
  child-parent q k (branch l m r) links red e = ap t.parent (sym e) ∙ links.2

  -- Below the root nothing is let off any more.
  clear :
      (d : ℕ → ℕ) (par k : ℕ) (sub : Tree)
      → par ≢ 0
      → Linked t par k sub
      → ((m : ℕ) → In m sub → d m ≡ t.color m)
      → Reds t.color x sub
      → Reds d 0 sub
  clear d par k leaf pz links same h = tt
  clear d par k (branch l q r) pz (e, nz, up, hl, hr) same (h, rl, rr) = (
    λ red.
        let was = sym (same q (inr (inl refl))) ∙ red in
        let above : t.parent q ≢ 0 = λ z. pz (sym up ∙ z) in
        (
          λ i.
              let i' = Red-agree t.color d l (λ m j. same m (inl j)) i in
              absurd
                (not_red_parent q nz (child-parent q (t.left q) l hl i' ((h was).0 i')) above was),
          λ i.
              let i' = Red-agree t.color d r (λ m j. same m (inr (inr j))) i in
              absurd
                (not_red_parent q nz (child-parent q (t.right q) r hr i' ((h was).1 i')) above was),
        ),
    clear d q (t.left q) l nz hl (λ m j. same m (inl j)) rl,
    clear d q (t.right q) r nz hr (λ m j. same m (inr (inr j))) rr,
  )

  pub ends-Good :
      (n : ℕ) (tree : Tree)
      → Spells t tree
      → Distinct tree
      → Coloured t.color n x tree
      → Good (update t.color t.root rb_black) tree
  ends-Good n leaf h dt (bal, red) = (n, (bal, tt))
  ends-Good n (branch l q r) (e, nz, up, hl, hr) (ql, qr, lr, dl, dr)
        ((m, f, bl, br), (here, rl, rr)) =
      let d = update t.color t.root rb_black in
      let d_q : d q ≡ rb_black = ground (arith, e) in
      let off : (k : ℕ) → k ≢ q → d k ≡ t.color k = λ k ne. ground (arith, e, ne) in
      let same_l : (k : ℕ) → In k l → d k ≡ t.color k =
        λ k i. off k (λ z. ql (subst (λ j. In j l) z i)) in
      let same_r : (k : ℕ) → In k r → d k ≡ t.color k =
        λ k i. off k (λ z. qr (subst (λ j. In j r) z i)) in
      (
        suc m,
        (
          (
            m,
            ground (arith, d_q),
            Balanced-agree t.color d m l same_l bl,
            Balanced-agree t.color d m r same_r br,
          ),
          (
            λ red. absurd (omega (arith, red, d_q)),
            clear d q (t.left q) l nz hl same_l rl,
            clear d q (t.right q) r nz hr same_r rr,
          ),
        ),
      )
