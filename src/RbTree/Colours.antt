-- ===== src/RbTree/Colours.antt =====
-- The colours of a tree of src/mikroKernellib/rb_tree.c: equal numbers of black nodes on all ways
-- down, and no red child of a red node, but for one node that the loop of `rb_insert_fixup` goes on
-- with.
use mathlib.Core.Path.{subst}
use mikrokernellib.Common.{
  ℕ, suc, ◌≡◌, ◌≢◌, ◌⊎◌, inl, inr, refl, sym, ap, ◌∙◌, false, ◌==◌, if◌then◌else◌, ==_iff, arith,
}
use mikrokernellib.RbTree.{rb_red}
use mikrokernellib.RbTree.Model.{Tree, leaf, branch, In}
use mikrokernellib.RbTree.Links.{Distinct, top}

abbrev pub Red : (ℕ → ℕ) → Tree → Type 0
Red c leaf = ⊥
Red c (branch l q r) = c q ≡ rb_red

-- The black nodes on a way down through a node and `m` below it.
abbrev pub black_height : ℕ → ℕ → ℕ
black_height color m = if color == rb_red then m else suc m

abbrev pub Balanced : (ℕ → ℕ) → ℕ → Tree → Type 0
Balanced c n leaf = n ≡ 0
Balanced c n (branch l q r) = (m : ℕ) × (n ≡ black_height (c q) m) × Balanced c m l × Balanced c m r

-- Only `x` may be a red child of a red node.
abbrev pub Reds : (ℕ → ℕ) → ℕ → Tree → Type 0
Reds c x leaf = Unit
Reds c x (branch l q r) =
    (c q ≡ rb_red → (Red c l → top l ≡ x) × (Red c r → top r ≡ x)) × Reds c x l × Reds c x r

pub Red-agree :
    (c d : ℕ → ℕ) (tree : Tree) → ((m : ℕ) → In m tree → d m ≡ c m) → Red d tree → Red c tree
Red-agree c d leaf same h = h
Red-agree c d (branch l q r) same h = sym (same q (inr (inl refl))) ∙ h

pub Balanced-agree :
    (c d : ℕ → ℕ) (n : ℕ) (tree : Tree)
    → ((m : ℕ) → In m tree → d m ≡ c m)
    → Balanced c n tree
    → Balanced d n tree
Balanced-agree c d n leaf same h = h
Balanced-agree c d n (branch l q r) same (m, e, hl, hr) = (
  m,
  e ∙ ap (λ k. black_height k m) (sym (same q (inr (inl refl)))),
  Balanced-agree c d m l (λ k i. same k (inl i)) hl,
  Balanced-agree c d m r (λ k i. same k (inr (inr i))) hr,
)

pub top-In : (tree : Tree) (c : ℕ → ℕ) → Red c tree → In (top tree) tree
top-In leaf c h = elim h [ ]
top-In (branch l q r) c h = inr (inl refl)

-- Away from the node that is let off.
pub Reds-agree :
    (c d : ℕ → ℕ) (x z : ℕ) (tree : Tree)
    → ((m : ℕ) → In m tree → d m ≡ c m)
    → (In x tree → ⊥)
    → Reds c x tree
    → Reds d z tree
Reds-agree c d x z leaf same out h = tt
Reds-agree c d x z (branch l q r) same out (h, hl, hr) = (
  λ red.
      let (on_left, on_right) = h (sym (same q (inr (inl refl))) ∙ red) in
      (
        λ i.
            let was = Red-agree c d l (λ k j. same k (inl j)) i in
            absurd (out (inl (subst (λ k. In k l) (on_left was) (top-In l c was)))),
        λ i.
            let was = Red-agree c d r (λ k j. same k (inr (inr j))) i in
            absurd (out (inr (inr (subst (λ k. In k r) (on_right was) (top-In r c was))))),
      ),
  Reds-agree c d x z l (λ k i. same k (inl i)) (λ i. out (inl i)) hl,
  Reds-agree c d x z r (λ k i. same k (inr (inr i))) (λ i. out (inr (inr i))) hr,
)

pub ne→== : (a b : ℕ) → a ≢ b → (a == b) ≡ false
ne→== a b ne = ground (arith, ne)

-- The subtree at a node.
abbrev pub At : ℕ → Tree → Tree → Tree → Type 0
At g l r leaf = ⊥
At g l r (branch a q b) = ((g ≡ q) × (a ≡ l) × (b ≡ r)) ⊎ (At g l r a ⊎ At g l r b)

pub At-In : (g : ℕ) (l r tree : Tree) → At g l r tree → (m : ℕ) → In m (branch l g r) → In m tree
At-In g l r leaf h m i = elim h [ ]
At-In g l r (branch a q b) (inl (e, el, er)) m i = elim i [
  | inl u ↦ inl (subst (In m) (sym el) u)
  | inr (inl u) ↦ inr (inl (u ∙ e))
  | inr (inr u) ↦ inr (inr (subst (In m) (sym er) u))
]
At-In g l r (branch a q b) (inr (inl h)) m i = inl (At-In g l r a h m i)
At-In g l r (branch a q b) (inr (inr h)) m i = inr (inr (At-In g l r b h m i))

-- Another subtree in its place.
abbrev pub put : ℕ → Tree → Tree → Tree
put g s leaf = leaf
put g s (branch a q b) = if q == g then s else branch (put g s a) q (put g s b)

pub put-out : (g : ℕ) (s tree : Tree) → (In g tree → ⊥) → put g s tree ≡ tree
put-out g s leaf out = refl
put-out g s (branch a q b) out =
    let e : (q == g) ≡ false = ground (arith, λ (z : q ≡ g). out (inr (inl (sym z)))) in
    rw (e, put-out g s a (λ i. out (inl i)), put-out g s b (λ i. out (inr (inr i)))) refl

pub At-whole :
    (g : ℕ) (l r a : Tree) (q : ℕ) (b : Tree) → g ≡ q → a ≡ l → b ≡ r → branch a q b ≡ branch l g r
At-whole g l r a q b e el er = rw (el, er, e) refl

pub At-off : (g : ℕ) (l r tree : Tree) (q : ℕ) → At g l r tree → (In q tree → ⊥) → (q == g) ≡ false
At-off g l r tree q h out =
    let g_in = At-In g l r tree h g (inr (inl refl)) in
    ne→== q g (λ w. out (subst (λ j. In j tree) (sym w) g_in))

-- A subtree with a good one in its place, where the colours outside of it stay.
module _ (c d : ℕ → ℕ) (g x z : ℕ) (l r s : Tree) (x_in : In x (branch l g r))
    (balanced : (n : ℕ) → Balanced c n (branch l g r) → Balanced d n s)
    (reds : Reds c x (branch l g r) → Reds d z s)
    (top_red : (c g ≡ rb_red → g ≡ x) → Red d s → top s ≡ z) where
  pub put-Balanced :
      (n : ℕ) (tree : Tree)
      → Distinct tree
      → At g l r tree
      → ((m : ℕ) → In m tree → (In m (branch l g r) → ⊥) → d m ≡ c m)
      → Balanced c n tree
      → Balanced d n (put g s tree)
  put-Balanced n leaf dt h same b = elim h [ ]
  put-Balanced n (branch a q k) (qa, qk, ak, da, dk) (inl (e, el, er)) same b =
      let here = (==_iff q g).1 (sym e) in
      rw here (balanced n (subst (Balanced c n) (At-whole g l r a q k e el er) b))
  put-Balanced n (branch a q k) (qa, qk, ak, da, dk) (inr (inl h)) same (m, e, ba, bk) =
      let g_in = At-In g l r a h g (inr (inl refl)) in
      let away = At-off g l r a q h qa in
      let q_same = same q (inr (inl refl)) (λ i. qa (At-In g l r a h q i)) in
      rw (away, put-out g s k (λ i. ak g g_in i))
        (
          m,
          e ∙ ap (λ j. black_height j m) (sym q_same),
          put-Balanced m a da h (λ j i. same j (inl i)) ba,
          Balanced-agree c d m k (λ j i. same j (inr (inr i)) (λ u. ak j (At-In g l r a h j u) i))
              bk,
        )
  put-Balanced n (branch a q k) (qa, qk, ak, da, dk) (inr (inr h)) same (m, e, ba, bk) =
      let g_in = At-In g l r k h g (inr (inl refl)) in
      let away = At-off g l r k q h qk in
      let q_same = same q (inr (inl refl)) (λ i. qk (At-In g l r k h q i)) in
      rw (away, put-out g s a (λ i. ak g i g_in))
        (
          m,
          e ∙ ap (λ j. black_height j m) (sym q_same),
          Balanced-agree c d m a (λ j i. same j (inl i) (λ u. ak j i (At-In g l r k h j u))) ba,
          put-Balanced m k dk h (λ j i. same j (inr (inr i))) bk,
        )

  put-top :
      (tree : Tree)
      → Distinct tree
      → At g l r tree
      → ((m : ℕ) → In m tree → (In m (branch l g r) → ⊥) → d m ≡ c m)
      → (Red c tree → top tree ≡ x)
      → Red d (put g s tree)
      → top (put g s tree) ≡ z
  put-top leaf dt h same only = elim h [ ]
  put-top (branch a q k) dt (inl (e, el, er)) same only =
      let here = (==_iff q g).1 (sym e) in rw here (top_red (λ w. e ∙ only (ap c (sym e) ∙ w)))
  put-top (branch a q k) (qa, qk, ak, da, dk) (inr (inl h)) same only =
      let away = At-off g l r a q h qa in
      let q_same = same q (inr (inl refl)) (λ i. qa (At-In g l r a h q i)) in
      rw away (λ red.
        absurd (qa (subst (λ j. In j a) (sym (only (sym q_same ∙ red))) (At-In g l r a h x x_in))))
  put-top (branch a q k) (qa, qk, ak, da, dk) (inr (inr h)) same only =
      let away = At-off g l r k q h qk in
      let q_same = same q (inr (inl refl)) (λ i. qk (At-In g l r k h q i)) in
      rw away (λ red.
        absurd (qk (subst (λ j. In j k) (sym (only (sym q_same ∙ red))) (At-In g l r k h x x_in))))

  pub put-Reds :
      (tree : Tree)
      → Distinct tree
      → At g l r tree
      → ((m : ℕ) → In m tree → (In m (branch l g r) → ⊥) → d m ≡ c m)
      → Reds c x tree
      → Reds d z (put g s tree)
  put-Reds leaf dt h same b = elim h [ ]
  put-Reds (branch a q k) dt (inl (e, el, er)) same b =
      let here = (==_iff q g).1 (sym e) in
      rw here (reds (subst (Reds c x) (At-whole g l r a q k e el er) b))
  put-Reds (branch a q k) (qa, qk, ak, da, dk) (inr (inl h)) same (only, ba, bk) =
      let g_in = At-In g l r a h g (inr (inl refl)) in
      let away = At-off g l r a q h qa in
      let q_same = same q (inr (inl refl)) (λ i. qa (At-In g l r a h q i)) in
      let x_out : In x k → ⊥ = ak x (At-In g l r a h x x_in) in
      let k_same : (j : ℕ) → In j k → d j ≡ c j =
        λ j i. same j (inr (inr i)) (λ u. ak j (At-In g l r a h j u) i) in
      rw (away, put-out g s k (λ i. ak g g_in i))
        (
          λ red.
              let (on_left, on_right) = only (sym q_same ∙ red) in
              (
                put-top a da h (λ j i. same j (inl i)) on_left,
                λ i.
                    let was = Red-agree c d k k_same i in
                    absurd (x_out (subst (λ j. In j k) (on_right was) (top-In k c was))),
              ),
          put-Reds a da h (λ j i. same j (inl i)) ba,
          Reds-agree c d x z k k_same x_out bk,
        )
  put-Reds (branch a q k) (qa, qk, ak, da, dk) (inr (inr h)) same (only, ba, bk) =
      let g_in = At-In g l r k h g (inr (inl refl)) in
      let away = At-off g l r k q h qk in
      let q_same = same q (inr (inl refl)) (λ i. qk (At-In g l r k h q i)) in
      let x_out : In x a → ⊥ = λ i. ak x i (At-In g l r k h x x_in) in
      let a_same : (j : ℕ) → In j a → d j ≡ c j =
        λ j i. same j (inl i) (λ u. ak j i (At-In g l r k h j u)) in
      rw (away, put-out g s a (λ i. ak g i g_in))
        (
          λ red.
              let (on_left, on_right) = only (sym q_same ∙ red) in
              (
                λ i.
                    let was = Red-agree c d a a_same i in
                    absurd (x_out (subst (λ j. In j a) (on_left was) (top-In a c was))),
                put-top k dk h (λ j i. same j (inr (inr i))) on_right,
              ),
          Reds-agree c d x z a a_same x_out ba,
          put-Reds k dk h (λ j i. same j (inr (inr i))) bk,
        )

-- The node that is let off is the top one, or not in the tree.
pub Reds-below :
    (c d : ℕ → ℕ) (x z : ℕ) (tree : Tree)
    → Distinct tree
    → ((m : ℕ) → In m tree → d m ≡ c m)
    → (In x tree → x ≡ top tree)
    → Reds c x tree
    → Reds d z tree
Reds-below c d x z leaf dt same at_top h = tt
Reds-below c d x z (branch l q r) (ql, qr, lr, dl, dr) same at_top (h, hl, hr) =
    let out_l : In x l → ⊥ = λ i. ql (subst (λ k. In k l) (at_top (inl i)) i) in
    let out_r : In x r → ⊥ = λ i. qr (subst (λ k. In k r) (at_top (inr (inr i))) i) in
    (
      λ red.
          let (on_left, on_right) = h (sym (same q (inr (inl refl))) ∙ red) in
          (
            λ i.
                let was = Red-agree c d l (λ k j. same k (inl j)) i in
                absurd (out_l (subst (λ k. In k l) (on_left was) (top-In l c was))),
            λ i.
                let was = Red-agree c d r (λ k j. same k (inr (inr j))) i in
                absurd (out_r (subst (λ k. In k r) (on_right was) (top-In r c was))),
          ),
      Reds-agree c d x z l (λ k i. same k (inl i)) out_l hl,
      Reds-agree c d x z r (λ k i. same k (inr (inr i))) out_r hr,
    )
