-- ===== src/Buddy/Init/Lists.antt =====
-- The free lists of one order as `__init_buddy` links them.
use mathlib.Core.Path.{subst, subst₂}
use mikrokernellib.Common.{
  ℕ, zero, suc, ◌+◌, ◌-◌, ◌*◌, ◌≤◌, ◌<◌, ◌≡◌, ◌≢◌, refl, sym, ◌∙◌, true, ◌&&◌, List, [], ◌∷◌, arith,
  ltb, leb, ◌==◌, if◌then◌else◌, update_self, update-ne,
}
use mikrokernellib.Buddy.{Buddy, chunk_bytes}
use mikrokernellib.Buddy.Order.{block_bytes, chunk_bytes_lem}
use mikrokernellib.Buddy.Cover.{hits, has, block_bytes-pos}
use mikrokernellib.Buddy.Chain.{Chain}
use mikrokernellib.Buddy.Wf.{Aligned, AllAligned}
use mikrokernellib.Buddy.Init.{link_chunk, link_loop}

-- `n` blocks of order `k` one behind the other.
abbrev pub run : ℕ → ℕ → ℕ → List ℕ
run k a zero = []
run k a (suc n) = a ∷ run k (a + block_bytes k) n

pub run_bounds : (k x n a : ℕ) → has a (run k x n) ≡ true → (x ≤ a) × (a < x + n * block_bytes k)
run_bounds k x zero a m = absurd (ground arith)
run_bounds k x (suc n) a m = ground (arith, run_bounds k (x + block_bytes k) n a, block_bytes-pos k)

pub hits-run :
    (k x n a : ℕ)
    → hits k a (run k x n) ≡ (if leb x a && ltb a (x + n * block_bytes k) then 1 else 0)
hits-run k x zero a = ground arith
hits-run k x (suc n) a = ground (arith, hits-run k (x + block_bytes k) n a, block_bytes-pos k)

pub run-AllAligned : (k x n : ℕ) → Aligned k x → AllAligned k (run k x n)
run-AllAligned k x zero al = tt
run-AllAligned k x (suc n) (q, e) =
    ((q, e), run-AllAligned k (x + block_bytes k) n (q + 1, omega arith))

-- A chain depends on the links of its blocks alone.
pub Chain-agree :
    (next prev next' prev' : ℕ → ℕ) (xs : List ℕ) (back p : ℕ)
    → Chain next prev xs back p
    → ((a : ℕ) → has a xs ≡ true → (next' a ≡ next a) × (prev' a ≡ prev a))
    → Chain next' prev' xs back p
Chain-agree next prev next' prev' [] back p c same = c
Chain-agree next prev next' prev' (x ∷ xs) back p c same =
    let (n, q) = same x (ground arith) in
    (
      c.0,
      c.1,
      q ∙ c.2,
      subst (λ t. Chain next' prev' xs x t) (sym n)
          (Chain-agree next prev next' prev' xs x (next x) c.3 (λ a m. same a (ground arith))),
    )

-- What the loop over one order has done from the block `i` at `current` on.
pub record Linked (rounds i k current : ℕ) (s : Buddy) (r : ℕ × Buddy) : Type 0 where
  pub after : r.0 ≡ current + rounds * block_bytes k
  pub chain :
      Chain r.1.next r.1.prev
        (run k current rounds)
        (if i == 0 then 0 else current - block_bytes k)
        (if rounds == 0 then 0 else current)
  pub below : (a : ℕ) → a < current → (r.1.next a ≡ s.next a) × (r.1.prev a ≡ s.prev a)
  pub heads : r.1.free_lists_ptr ≡ s.free_lists_ptr
  pub top : r.1.max_order ≡ s.max_order

module _ (i count k current : ℕ) (s : Buddy) where
  link_chunk_self :
      ((link_chunk i count k current s).next current
        ≡ (if i == count - 1 then 0 else current + chunk_bytes k))
      × ((link_chunk i count k current s).prev current
          ≡ (if i == 0 then 0 else current - chunk_bytes k))
  unfolding link_chunk
  link_chunk_self = (update_self s.next current _, update_self s.prev current _)

  link_chunk_ne :
      (a : ℕ)
      → a ≢ current
      → ((link_chunk i count k current s).next a ≡ s.next a)
        × ((link_chunk i count k current s).prev a ≡ s.prev a)
  unfolding link_chunk
  link_chunk_ne a ne = (update-ne s.next current _ a ne, update-ne s.prev current _ a ne)

  link_chunk_same :
      ((link_chunk i count k current s).free_lists_ptr ≡ s.free_lists_ptr)
      × ((link_chunk i count k current s).max_order ≡ s.max_order)
  unfolding link_chunk
  link_chunk_same = (refl, refl)

  module _ (rounds : ℕ) (r : ℕ × Buddy) (exact : chunk_bytes k ≡ block_bytes k)
      (e : i + suc rounds ≡ count) (ne : current ≢ 0)
      (rest : Linked rounds
        (i + 1)
        k
        (current + block_bytes k)
        (link_chunk i count k current s)
        r) where
    kept :
        (r.1.next current ≡ (link_chunk i count k current s).next current)
        × (r.1.prev current ≡ (link_chunk i count k current s).prev current)
    kept = rest.below current (omega (arith, block_bytes-pos k))

    tail_head : (if rounds == 0 then 0 else current + block_bytes k) ≡ r.1.next current
    tail_head = ground (arith, kept, link_chunk_self, exact)

    tail_back : (if i + 1 == 0 then 0 else current + block_bytes k - block_bytes k) ≡ current
    tail_back = ground arith

    Linked-suc : Linked (suc rounds) i k current s r
    Linked-suc = record {
      after = omega (arith, rest.after);
      chain = (
        ground arith,
        ne,
        ground (arith, kept, link_chunk_self, exact),
        subst₂ (λ b p. Chain r.1.next r.1.prev (run k (current + block_bytes k) rounds) b p)
            tail_back tail_head rest.chain,
      );
      below = λ a h. (
        (rest.below a (omega arith)).0 ∙ (link_chunk_ne a (omega arith)).0,
        (rest.below a (omega arith)).1 ∙ (link_chunk_ne a (omega arith)).1,
      );
      heads = rest.heads ∙ link_chunk_same.0;
      top = rest.top ∙ link_chunk_same.1;
    }

pub link_loop-Linked :
    (rounds i count k current : ℕ) (s : Buddy)
    → k ≤ 10
    → i + rounds ≡ count
    → current ≢ 0
    → Linked rounds i k current s (link_loop rounds i count k current s)
unfolding link_loop
link_loop-Linked zero i count k current s hk e ne = record {
  after = omega arith;
  chain = refl;
  below = λ a h. (refl, refl);
  heads = refl;
  top = refl;
}
link_loop-Linked (suc rounds) i count k current s hk e ne =
    let exact = chunk_bytes_lem k (omega arith) in
    let s' = link_chunk i count k current s in
    rw exact (
      Linked-suc i count k current s rounds
        (link_loop rounds (i + 1) count k (current + block_bytes k) s') exact e ne
        (link_loop-Linked rounds (i + 1) count k (current + block_bytes k) s' hk (omega arith)
          (omega (arith, ne))))
