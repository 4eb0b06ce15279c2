-- ===== src/Buddy/Alloc.antt =====
-- `buddy_kalloc`: it takes a block out of the free ones and leaves the rest well formed.
use mathlib.Core.Path.{subst}
use mikrokernellib.Common.{
  ℕ, zero, suc, ◌+◌, ◌*◌, ◌≤◌, ◌<◌, ◌≡◌, ◌≢◌, sym, ap, ◌∙◌, List, ◌∷◌, arith, update,
}
use mikrokernellib.Buddy.{Buddy, toggle_bitmap, push_block, split_loop}
use mikrokernellib.Buddy.Order.{block_bytes, chunk_bytes_lem}
use mikrokernellib.Buddy.Cover.{inside, covered, inside-halves, inside_self, block_bytes-suc}
use mikrokernellib.Buddy.Wf.{Aligned, Wf, push-Wf, covered-push}

-- The block of `order` at `p` was free in `fl`; `s` has the other free blocks.
pub record Allocated (fl : ℕ → List ℕ) (order p : ℕ) (s : Buddy) : Type 0 where
  pub ne_null : p ≢ 0
  pub aligned : Aligned order p
  pub left : ℕ → List ℕ
  pub wf : Wf s left
  pub taken : (a : ℕ) → covered left a + inside order p a ≡ covered fl a

pub toggle-Wf :
    {s : Buddy} {fl : ℕ → List ℕ} (addr order : ℕ) → Wf s fl → Wf (toggle_bitmap s addr order).0 fl
unfolding toggle_bitmap
toggle-Wf addr order w = record {
  top = w.top;
  chains = w.chains;
  once = w.once;
  aligned = w.aligned;
}

pub Aligned-half : (k x : ℕ) → Aligned (suc k) x → Aligned k x
Aligned-half k x (q, e) = (q + q, omega (arith, ap (λ (t : ℕ). q * t) (block_bytes-suc k)))

Aligned-upper : (k x : ℕ) → Aligned (suc k) x → Aligned k (x + block_bytes k)
Aligned-upper k x (q, e) = (q + q + 1, omega (arith, ap (λ (t : ℕ). q * t) (block_bytes-suc k)))

-- One split: the upper half is put on the list below, the lower half is still taken.
module _ {s : Buddy} {fl : ℕ → List ℕ} (w : Wf s fl) (level chunk : ℕ) (h : level < 10)
    (ne : chunk ≢ 0) (al : Aligned (suc level) chunk)
    (room : (a : ℕ) → covered fl a + inside (suc level) chunk a ≤ 1) where
  abbrev upper : ℕ
  upper = chunk + block_bytes level

  abbrev below : ℕ → List ℕ
  below = update fl level (upper ∷ fl level)

  upper_room : (a : ℕ) → covered fl a + inside level upper a ≤ 1
  upper_room a = omega (arith, room a, inside-halves level chunk a)

  upper_ne_null : upper ≢ 0
  upper_ne_null = omega (arith, ne)

  split-Wf : Wf (push_block level upper s) below
  split-Wf =
      push-Wf w level upper (omega arith) upper_ne_null (Aligned-upper level chunk al) upper_room

  split_covered :
      (a : ℕ) → covered below a + inside level chunk a ≡ covered fl a + inside (suc level) chunk a
  split_covered a = omega (
    arith,
    covered-push w level upper (omega arith) upper_ne_null
        (omega (arith, upper_room upper, inside_self level upper)) a,
    inside-halves level chunk a,
  )

pub split_loop-Allocated :
    (rounds chunk order : ℕ) {s : Buddy} {fl : ℕ → List ℕ}
    → Wf s fl
    → order + rounds ≤ 10
    → chunk ≢ 0
    → Aligned (order + rounds) chunk
    → ((a : ℕ) → covered fl a + inside (order + rounds) chunk a ≤ 1)
    → (left : ℕ → List ℕ) × Wf (split_loop rounds chunk order s) left
      × Aligned order chunk
      × ((a : ℕ)
          → covered left a + inside order chunk a ≡ covered fl a + inside (order + rounds) chunk a)
unfolding split_loop
split_loop-Allocated zero chunk order {fl} w h ne al room =
    let e : order + 0 ≡ order = omega arith in
    (
      fl,
      w,
      subst (λ k. Aligned k chunk) e al,
      λ a. ap (λ k. covered fl a + inside k chunk a) (sym e),
    )
split_loop-Allocated (suc rounds) chunk order {s} {fl} w h ne al room =
    let level : ℕ = order + rounds in
    let e : order + suc rounds ≡ suc level = omega arith in
    let whole = subst (λ k. Aligned k chunk) e al in
    let fits = subst (λ k. (a : ℕ) → covered fl a + inside k chunk a ≤ 1) e room in
    let cut = split_covered w level chunk (omega arith) ne whole fits in
    let (left, wf, aligned, kept) =
      split_loop-Allocated rounds chunk order (split-Wf w level chunk (omega arith) ne whole fits)
        (omega arith) ne (Aligned-half level chunk whole) (λ a. omega (arith, cut a, fits a)) in
    (
      left,
      rw (chunk_bytes_lem level (omega arith)) wf,
      aligned,
      λ a. kept a ∙ cut a ∙ ap (λ k. covered fl a + inside k chunk a) (sym e),
    )
