-- ===== src/Buddy/Init/Counts.antt =====
-- The cut of the region into blocks: the counts add up to the region.
use mathlib.Core.Path.{subst}
use native.Mathlib.Decide.{ℕ_discrete}
use mikrokernellib.Common.{
  ℕ, zero, suc, ◌+◌, ◌-◌, ◌*◌, ◌/◌, ◌%◌, ◌^◌, ◌≤◌, ◌<◌, ◌≡◌, ◌≢◌, inl, inr, refl, ap, none, some,
  arith, ltb, update, update_self, update-ne, u32, u64, Bool-cases, Option-cases, ltb→lt, ltb→ge,
}
use mikrokernellib.Common.Bits.{bit_and_low}
use mikrokernellib.Layout.{page_size}
use mikrokernellib.Buddy.{chunk_bytes}
use mikrokernellib.Buddy.Order.{block_bytes, chunk_bytes_lem}
use mikrokernellib.Buddy.Cover.{block_bytes-pos}
use mikrokernellib.Buddy.Init.{fit_order, count_loop}

-- The bytes of all blocks of the orders below `n`.
abbrev pub extent : (ℕ → ℕ) → ℕ → ℕ
extent counts zero = 0
extent counts (suc k) = extent counts k + counts k * block_bytes k

extent-update_out :
    (counts : ℕ → ℕ) (k v n : ℕ) → n ≤ k → extent (update counts k v) n ≡ extent counts n
extent-update_out counts k v zero h = refl
extent-update_out counts k v (suc n) h = ground (arith, extent-update_out counts k v n)

extent-update :
    (counts : ℕ → ℕ) (k v n : ℕ)
    → k < n
    → extent (update counts k v) n + counts k * block_bytes k ≡ extent counts n + v * block_bytes k
extent-update counts k v zero h = absurd (omega arith)
extent-update counts k v (suc n) h = elim (ℕ_discrete n k) [
  | yes e ↦
      rw (e, update_self counts k v) (omega (arith, extent-update_out counts k v k (omega arith)))
  | no ne ↦ rw (update-ne counts k v n ne) (omega (arith, extent-update counts k v n (omega arith)))
]

unfoldable pub total : (ℕ → ℕ) → ℕ
total counts = extent counts 11

total-update :
    (counts : ℕ → ℕ) (k v : ℕ)
    → k < 11
    → total (update counts k v) + counts k * block_bytes k ≡ total counts + v * block_bytes k
unfolding total
total-update counts k v h = extent-update counts k v 11 h

-- A block that is chosen fits, and while a page is left one is chosen.
fit_order_sound :
    (orders addr remaining order : ℕ)
    → fit_order orders addr remaining ≡ some order
    → (order < orders) × (chunk_bytes order ≤ remaining)
unfolding fit_order
fit_order_sound zero addr remaining order e = absurd (cc)
fit_order_sound (suc k) addr remaining order e =
    ground (arith, fit_order_sound k addr remaining order)

fit_order-ne_none :
    (orders addr remaining : ℕ)
    → page_size ≤ remaining
    → addr % page_size ≡ 0
    → fit_order (suc orders) addr remaining ≢ none
unfolding fit_order
fit_order-ne_none zero addr remaining h al =
    unfold chunk_bytes in ground (arith, bit_and_low 12 addr)
fit_order-ne_none (suc k) addr remaining h al =
    ground (arith, fit_order-ne_none k addr remaining h al)

-- The counts say how the region is cut up, and nothing is left over.
pub record IsCut (before : ℕ) (r : (ℕ → ℕ) × ℕ) : Type 0 where
  pub all : total r.0 ≡ before
  pub none_left : r.1 ≡ 0
  pub small : (k : ℕ) → r.0 k < 2 ^ 32

module _ (addr remaining order : ℕ) (counts : ℕ → ℕ) (lt : order < 11)
    (fits : chunk_bytes order ≤ remaining) (whole : remaining % page_size ≡ 0)
    (al : addr % page_size ≡ 0) where
  abbrev bytes : ℕ
  bytes = block_bytes order

  exact : chunk_bytes order ≡ bytes
  exact = chunk_bytes_lem order (omega arith)

  pages : (remaining - chunk_bytes order) % page_size ≡ 0
  pages = omega (arith, exact)

  fewer : (remaining - chunk_bytes order) / page_size < remaining / page_size
  fewer = omega (arith, exact, block_bytes-pos order)

  further : addr + remaining < 2 ^ 64 → u64 (addr + chunk_bytes order) % page_size ≡ 0
  further h = omega (arith, exact)

  one_more :
      counts order + remaining / page_size < 2 ^ 32
      → total (update counts order (u32 (counts order + 1))) + (remaining - chunk_bytes order)
        ≡ total counts + remaining
  one_more h =
      let exactly : u32 (counts order + 1) ≡ counts order + 1 =
        omega (arith, exact, block_bytes-pos order) in
      omega (
        arith,
        exact,
        total-update counts order (u32 (counts order + 1)) lt,
        ap (λ (t : ℕ). t * bytes) exactly,
      )

  room_kept :
      (k : ℕ)
      → counts k + remaining / page_size < 2 ^ 32
      → update counts order (u32 (counts order + 1)) k + (remaining - chunk_bytes order) / page_size
        < 2 ^ 32
  room_kept k h = ground (arith, fewer)

-- With a page of fuel for each page of the region and one more, the loop ends by its test.
pub count_loop-IsCut :
    (fuel addr remaining : ℕ) (counts : ℕ → ℕ)
    → remaining / page_size < fuel
    → remaining % page_size ≡ 0
    → addr % page_size ≡ 0
    → addr + remaining < 2 ^ 64
    → ((k : ℕ) → counts k + remaining / page_size < 2 ^ 32)
    → IsCut (total counts + remaining) (count_loop fuel addr remaining counts)
unfolding count_loop
count_loop-IsCut zero addr remaining counts enough whole al fits room = absurd (omega arith)
count_loop-IsCut (suc fuel) addr remaining counts enough whole al fits room =
    elim (Bool-cases (ltb remaining page_size)) [
      | inl done ↦
          let short = ltb→lt remaining page_size done in
          let nothing : remaining ≡ 0 = omega arith in
          rw (done, count_loop)
            (record {
              all = omega (arith, nothing);
              none_left = nothing;
              small = λ k. omega (arith, room k);
            })
      | inr more ↦ elim (Option-cases (fit_order 11 addr remaining)) [
        | inl no_order ↦ absurd (fit_order-ne_none 10 addr remaining (ltb→ge _ _ more) al no_order)
        | inr (order, found) ↦
            let (lt, fit) = fit_order_sound 11 addr remaining order found in
            let less = fewer addr remaining order counts lt fit whole al in
            let rest =
              count_loop-IsCut fuel (u64 (addr + chunk_bytes order)) (remaining - chunk_bytes order)
                (update counts order (u32 (counts order + 1))) (omega (arith, less))
                (pages addr remaining order counts lt fit whole al)
                (further addr remaining order counts lt fit whole al fits) (omega arith)
                (λ k. room_kept addr remaining order counts lt fit whole al k (room k)) in
            rw (more, count_loop)
              (rw found (
                subst
                  (λ n. IsCut n (
                    count_loop fuel (u64 (addr + chunk_bytes order)) (remaining - chunk_bytes order)
                      (update counts order (u32 (counts order + 1)))))
                  (one_more addr remaining order counts lt fit whole al (room order)) rest))
      ]
    ]
