-- ===== src/Tests.antt =====
-- The theorems about the trees, the page tables, the slab allocator and the arithmetic at concrete
-- states, and runs of the operations of src/mikroKernellib/rb_tree.c.
mod Memory
mod Runs
mod Trees
mod Kernel
mod Devices
use mikrokernellib.Common.{
  ℕ, zero, suc, ◌+◌, ◌-◌, ◌*◌, ◌/◌, ◌%◌, ◌^◌, ◌≤◌, ◌<◌, ◌≡◌, ◌≢◌, ◌⊎◌, inl, inr, refl, Bool, true,
  false, Option, none, some, List, [], ◌∷◌, ◌==◌, if◌then◌else◌, u64, ◌<<◌, arith,
}
use mikrokernellib.Layout.{
  page_size, direct_map_start, directmap_p2v, virt_to_pml4_idx, virt_to_pdpt_idx, virt_to_pd_idx,
  virt_to_pt_idx,
}
use mikrokernellib.Layout.DirectMap.{IsOffset, IsPointer, Translated, directmap_p2v-injective}
use mikrokernellib.RbTree.{RbTree, rb_find_exact, rb_traverse_inorder}
use mikrokernellib.RbTree.Model.{Tree, leaf, branch, Shape, In, Sorted, Ordered, inorder}
use mikrokernellib.RbTree.Find.{Exact, rb_find_exact_lem, rb_traverse_inorder_lem}
use mikrokernellib.Vm.{rb_successor, rb_predeccessor, rb_find_vma, vma_cmp}
use mikrokernellib.Vm.Query.{Successor, rb_successor_lem}
use mikrokernellib.Vm.Below.{Predecessor, rb_predeccessor_lem}
use mikrokernellib.Vm.Find.{Found, rb_find_vma_lem}
use mikrokernellib.Mmu.Indices.{indices_lem}
use mikrokernellib.Kmath.{klog2, buddy_order}
use mikrokernellib.Kmath.Log.{klog2_lem, buddy_order_lem}
use mikrokernellib.VirtKmalloc.{rb_successor_vac, rb_predeccessor_vac, rb_find_vac}
use mikrokernellib.VirtKmalloc.Search.{rb_find_vac_lem, adjacent_vac_lem}

-- Three areas of 100 bytes at 2560, 5120 and 7680.
abbrev three : RbTree
three = record {
  root = 20;
  left = λ p. if p == 20 then 10 else 0;
  right = λ p. if p == 20 then 30 else 0;
  parent = λ p. if p == 20 then 0 else 20;
  color = λ p. if p == 20 then 1 else 0;
}

abbrev three_tree : Tree
three_tree = branch (branch leaf 10 leaf) 20 (branch leaf 30 leaf)

abbrev start_of : ℕ → ℕ
start_of p = p * 256

abbrev last_of : ℕ → ℕ
last_of p = p * 256 + 100

three-Shape : Shape three 20 three_tree
three-Shape = (refl, omega arith, (refl, omega arith, refl, refl), (refl, omega arith, refl, refl))

at_10 : (m : ℕ) → In m (branch leaf 10 leaf) → m ≡ 10
at_10 m i = elim i [ inl a ↦ elim a [ ] | inr b ↦ elim b [ inl e ↦ e | inr c ↦ elim c [ ] ] ]

at_30 : (m : ℕ) → In m (branch leaf 30 leaf) → m ≡ 30
at_30 m i = elim i [ inl a ↦ elim a [ ] | inr b ↦ elim b [ inl e ↦ e | inr c ↦ elim c [ ] ] ]

abbrev none_in : (P : ℕ → Type 0) (m : ℕ) → In m leaf → P m
none_in P m i = elim i [ ]

three-Sorted : Sorted start_of three_tree
three-Sorted = (
  λ m i. omega (arith, at_10 m i),
  λ m i. omega (arith, at_30 m i),
  (λ m i. elim i [ ], λ m i. elim i [ ], record {}, record {}),
  (λ m i. elim i [ ], λ m i. elim i [ ], record {}, record {}),
)

three-Ordered : Ordered start_of last_of three_tree
three-Ordered = (
  omega arith,
  λ m i. omega (arith, at_10 m i),
  λ m i. omega (arith, at_30 m i),
  (omega arith, λ m i. elim i [ ], λ m i. elim i [ ], record {}, record {}),
  (omega arith, λ m i. elim i [ ], λ m i. elim i [ ], record {}, record {}),
)

rb_find_vma_lem_example :
    (v : ℕ) × (rb_find_vma 3 7700 start_of last_of three ≡ some v)
    × Found start_of last_of 7700 three_tree v
rb_find_vma_lem_example =
    rb_find_vma_lem three_tree 3 7700 start_of last_of three three-Shape three-Ordered (omega arith)

rb_successor_lem_example :
    (v : ℕ) × (rb_successor 3 5120 start_of three ≡ some v) × Successor start_of 5120 0 three_tree v
rb_successor_lem_example =
    rb_successor_lem three_tree 3 5120 start_of three three-Shape three-Sorted (omega arith)

rb_predeccessor_lem_example :
    (v : ℕ) × (rb_predeccessor 3 5120 start_of three ≡ some v)
    × Predecessor start_of 5120 0 three_tree v
rb_predeccessor_lem_example =
    rb_predeccessor_lem three_tree 3 5120 start_of three three-Shape three-Sorted (omega arith)

rb_find_exact_lem_example :
    (v : ℕ) × (rb_find_exact 3 30 (vma_cmp start_of) three ≡ some v)
    × Exact start_of 30 three_tree v
rb_find_exact_lem_example =
    rb_find_exact_lem three_tree 3 30 start_of three three-Shape three-Sorted (omega arith)

rb_traverse_inorder_lem_example : rb_traverse_inorder 3 20 three ≡ some (10 ∷ 20 ∷ 30 ∷ [])
rb_traverse_inorder_lem_example =
    rb_traverse_inorder_lem three_tree 3 20 three three-Shape (omega arith)

rb_find_vac_lem_example :
    (v : ℕ) × (rb_find_vac 3 5000 start_of last_of three ≡ some v)
    × Found start_of last_of 5000 three_tree v
rb_find_vac_lem_example =
    rb_find_vac_lem three_tree 3 5000 start_of last_of three three-Shape three-Ordered (omega arith)

adjacent_vac_lem_example :
    ((v : ℕ) × (rb_successor_vac 3 2560 start_of three ≡ some v)
      × Successor start_of 2560 0 three_tree v)
    × ((v : ℕ) × (rb_predeccessor_vac 3 2560 start_of three ≡ some v)
        × Predecessor start_of 2560 0 three_tree v)
adjacent_vac_lem_example =
    adjacent_vac_lem three_tree 3 2560 start_of three three-Shape three-Sorted (omega arith)

indices_lem_example :
    (virt_to_pml4_idx direct_map_start < 512)
    × (virt_to_pdpt_idx direct_map_start < 512)
    × (virt_to_pd_idx direct_map_start < 512)
    × (virt_to_pt_idx direct_map_start < 512)
    × (virt_to_pml4_idx direct_map_start * 2 ^ 39
          + virt_to_pdpt_idx direct_map_start * 2 ^ 30
          + virt_to_pd_idx direct_map_start * 2 ^ 21
          + virt_to_pt_idx direct_map_start * 2 ^ 12
          + direct_map_start % 2 ^ 12
        ≡ direct_map_start % 2 ^ 48)
indices_lem_example = indices_lem direct_map_start

klog2_lem_example : (k : ℕ) × (klog2 100 ≡ some k) × (2 ^ k ≤ 100) × (100 < 2 ^ suc k)
klog2_lem_example = klog2_lem 100 (omega arith) (omega arith)

buddy_order_lem_example :
    (k : ℕ) × (buddy_order 12288 ≡ some k)
    × (12288 / page_size ≤ 2 ^ k)
    × ((below : ℕ) → below < k → 2 ^ below < 12288 / page_size)
buddy_order_lem_example = buddy_order_lem 12288 (omega arith)

abbrev frame : ℕ
frame = 0x13000

abbrev kernel_text : ℕ
kernel_text = 0xFFFFFFFF80100000

directmap_p2v-injective_example :
    Translated direct_map_start frame (directmap_p2v direct_map_start frame)
    × Translated direct_map_start kernel_text (directmap_p2v direct_map_start kernel_text)
    × ((frame ≡ kernel_text)
        ⊎ (directmap_p2v direct_map_start frame ≢ directmap_p2v direct_map_start kernel_text))
directmap_p2v-injective_example =
    directmap_p2v-injective direct_map_start frame kernel_text (inr refl) (inl (omega arith))
      (inr (omega arith, omega arith))
