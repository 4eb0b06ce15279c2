-- ===== src/RbTree/Repainted.antt =====
-- The colours of the subtrees that `rb_insert_fixup` of src/mikroKernellib/rb_tree.c changes.
use mathlib.Core.Path.{subst}
use mikrokernellib.Common.{ℕ, suc, ◌≡◌, ◌≢◌, inl, inr, refl, sym, arith}
use mikrokernellib.RbTree.{rb_red, rb_black}
use mikrokernellib.RbTree.Model.{Tree, branch, In}
use mikrokernellib.RbTree.Links.{Distinct, top}
use mikrokernellib.RbTree.Colours.{
  Red, Balanced, Reds, Red-agree, Balanced-agree, Reds-agree, Reds-below, top-In,
}

-- The last rotation.
module _ (c d : ℕ → ℕ) (r a b : Tree) (g p x z : ℕ) (dt : Distinct (branch r g (branch a p b)))
    (x_b : In x b) (x_top : x ≡ top b) (p_red : c p ≡ rb_red) (g_black : c g ≢ rb_red)
    (r_black : Red c r → ⊥) (d_p : d p ≡ rb_black) (d_g : d g ≡ rb_red)
    (same : (m : ℕ) → m ≢ p → m ≢ g → d m ≡ c m) where
  same_r : (m : ℕ) → In m r → d m ≡ c m
  same_r m i = same m (λ w. dt.2 m i (inr (inl w))) (λ w. dt.0 (subst (λ k. In k r) w i))

  same_a : (m : ℕ) → In m a → d m ≡ c m
  same_a m i =
      same m (λ w. dt.4.0 (subst (λ k. In k a) w i)) (λ w. dt.1 (inl (subst (λ k. In k a) w i)))

  same_b : (m : ℕ) → In m b → d m ≡ c m
  same_b m i =
      same m (λ w. dt.4.1 (subst (λ k. In k b) w i))
        (λ w. dt.1 (inr (inr (subst (λ k. In k b) w i))))

  pub raise-Balanced :
      (n : ℕ) → Balanced c n (branch r g (branch a p b)) → Balanced d n (branch (branch r g a) p b)
  raise-Balanced n (m, e, hr, (k, f, ha, hb)) =
      let k_m : k ≡ m = ground (arith, f, p_red) in
      let n_m : n ≡ suc m = ground (arith, e, g_black) in
      (
        m,
        ground (arith, n_m, d_p),
        (
          m,
          ground (arith, d_g),
          Balanced-agree c d m r same_r hr,
          Balanced-agree c d m a same_a (subst (λ j. Balanced c j a) k_m ha),
        ),
        Balanced-agree c d m b same_b (subst (λ j. Balanced c j b) k_m hb),
      )

  pub raise-Reds : Reds c x (branch r g (branch a p b)) → Reds d z (branch (branch r g a) p b)
  raise-Reds (hg, hr, (hp, ha, hb)) =
      let x_a : In x a → ⊥ = λ i. dt.4.2 x i x_b in
      let x_r : In x r → ⊥ = λ i. dt.2 x i (inr (inr x_b)) in
      (
        λ red. absurd (omega (arith, red, d_p)),
        (
          λ red. (
            λ i. absurd (r_black (Red-agree c d r same_r i)),
            λ i.
                let was = Red-agree c d a same_a i in
                absurd (x_a (subst (λ j. In j a) ((hp p_red).0 was) (top-In a c was))),
          ),
          Reds-agree c d x z r same_r x_r hr,
          Reds-agree c d x z a same_a x_a ha,
        ),
        Reds-below c d x z b dt.4.4 same_b (λ i. x_top) hb,
      )

-- The first rotation of two.
module _ (c : ℕ → ℕ) (a b e : Tree) (p x : ℕ) (dt : Distinct (branch (branch a x b) p e))
    (p_red : c p ≡ rb_red) (x_red : c x ≡ rb_red) where
  pub inner-Balanced :
      (n : ℕ) → Balanced c n (branch (branch a x b) p e) → Balanced c n (branch a x (branch b p e))
  inner-Balanced n (m, same, (k, f, ha, hb), he) =
      let k_m : m ≡ k = ground (arith, f, x_red) in
      let n_m : n ≡ m = ground (arith, same, p_red) in
      (
        m,
        ground (arith, n_m, x_red),
        subst (λ j. Balanced c j a) (sym k_m) ha,
        (m, ground (arith, p_red), subst (λ j. Balanced c j b) (sym k_m) hb, he),
      )

  pub inner-Reds : Reds c x (branch (branch a x b) p e) → Reds c p (branch a x (branch b p e))
  inner-Reds (hp, (hx, ha, hb), he) =
      let x_a = dt.3.0 in
      let x_b = dt.3.1 in
      let x_e = dt.2 x (inr (inl refl)) in
      let not_a : Red c a → ⊥ = λ i. x_a (subst (λ j. In j a) ((hx x_red).0 i) (top-In a c i)) in
      let not_b : Red c b → ⊥ = λ i. x_b (subst (λ j. In j b) ((hx x_red).1 i) (top-In b c i)) in
      let not_e : Red c e → ⊥ = λ i. x_e (subst (λ j. In j e) ((hp p_red).1 i) (top-In e c i)) in
      (
        λ red. (λ i. absurd (not_a i), λ i. refl),
        Reds-agree c c x p a (λ m i. refl) x_a ha,
        (
          λ red. (λ i. absurd (not_b i), λ i. absurd (not_e i)),
          Reds-agree c c x p b (λ m i. refl) x_b hb,
          Reds-agree c c x p e (λ m i. refl) x_e he,
        ),
      )

-- The parent and the uncle black, and the grandparent red.
module _ (c d : ℕ → ℕ) (a b e f : Tree) (g p u x : ℕ)
    (dt : Distinct (branch (branch a p b) g (branch e u f))) (p_red : c p ≡ rb_red)
    (u_red : c u ≡ rb_red) (g_black : c g ≢ rb_red) (d_p : d p ≡ rb_black) (d_u : d u ≡ rb_black)
    (d_g : d g ≡ rb_red) (same : (m : ℕ) → m ≢ p → m ≢ u → m ≢ g → d m ≡ c m)
    (top_a : In x a → x ≡ top a) (top_b : In x b → x ≡ top b) (top_e : In x e → x ≡ top e)
    (top_f : In x f → x ≡ top f) where
  kept_a : (m : ℕ) → In m a → d m ≡ c m
  kept_a m i =
      same m (λ w. dt.3.0 (subst (λ k. In k a) w i)) (λ w. dt.2 m (inl i) (inr (inl w)))
        (λ w. dt.0 (inl (subst (λ k. In k a) w i)))

  kept_b : (m : ℕ) → In m b → d m ≡ c m
  kept_b m i =
      same m (λ w. dt.3.1 (subst (λ k. In k b) w i)) (λ w. dt.2 m (inr (inr i)) (inr (inl w)))
        (λ w. dt.0 (inr (inr (subst (λ k. In k b) w i))))

  kept_e : (m : ℕ) → In m e → d m ≡ c m
  kept_e m i =
      same m (λ w. dt.2 m (inr (inl w)) (inl i)) (λ w. dt.4.0 (subst (λ k. In k e) w i))
        (λ w. dt.1 (inl (subst (λ k. In k e) w i)))

  kept_f : (m : ℕ) → In m f → d m ≡ c m
  kept_f m i =
      same m (λ w. dt.2 m (inr (inl w)) (inr (inr i))) (λ w. dt.4.1 (subst (λ k. In k f) w i))
        (λ w. dt.1 (inr (inr (subst (λ k. In k f) w i))))

  pub recolor-Balanced :
      (n : ℕ)
      → Balanced c n (branch (branch a p b) g (branch e u f))
      → Balanced d n (branch (branch a p b) g (branch e u f))
  recolor-Balanced n (m, here, (k, low, ha, hb), (j, high, he, hf)) =
      let k_m : k ≡ m = ground (arith, low, p_red) in
      let j_m : j ≡ m = ground (arith, high, u_red) in
      let n_m : n ≡ suc m = ground (arith, here, g_black) in
      (
        n,
        ground (arith, d_g),
        (
          m,
          ground (arith, n_m, d_p),
          Balanced-agree c d m a kept_a (subst (λ i. Balanced c i a) k_m ha),
          Balanced-agree c d m b kept_b (subst (λ i. Balanced c i b) k_m hb),
        ),
        (
          m,
          ground (arith, n_m, d_u),
          Balanced-agree c d m e kept_e (subst (λ i. Balanced c i e) j_m he),
          Balanced-agree c d m f kept_f (subst (λ i. Balanced c i f) j_m hf),
        ),
      )

  pub recolor-Reds :
      Reds c x (branch (branch a p b) g (branch e u f))
      → Reds d g (branch (branch a p b) g (branch e u f))
  recolor-Reds (hg, (hp, ha, hb), (hu, he, hf)) = (
    λ red. (λ i. absurd (omega (arith, i, d_p)), λ i. absurd (omega (arith, i, d_u))),
    (
      λ red. absurd (omega (arith, red, d_p)),
      Reds-below c d x g a dt.3.3 kept_a top_a ha,
      Reds-below c d x g b dt.3.4 kept_b top_b hb,
    ),
    (
      λ red. absurd (omega (arith, red, d_u)),
      Reds-below c d x g e dt.4.3 kept_e top_e he,
      Reds-below c d x g f dt.4.4 kept_f top_f hf,
    ),
  )
