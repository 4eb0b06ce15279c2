-- ===== src/VirtKmalloc.antt =====
-- The tree of virtual allocation chunks of src/mikroKernellib/virt_kmalloc.c. A chunk is named by
-- the pointer of its `node`, and `addr_of` and `end_of` are its fields `addr` and `end`. The tree is
-- `vac_rb_root`; `virt_kmalloc` and `virt_kfree` have empty bodies in the source.
pub mod Search
use Prim.Native.Nat.{Ordering}
use mikrokernellib.Common.{
  ℕ, zero, suc, Bool, true, false, Option, none, some, ltb, leb, ◌==◌, if◌then◌else◌, ◌>>=◌,
}
use mikrokernellib.RbTree.{RbTree}
use mikrokernellib.RbTree.Insert.{rb_insert}
use mikrokernellib.RbTree.Delete.{rb_delete}

unfoldable pub vac_cmp : (ℕ → ℕ) → ℕ → ℕ → Ordering
vac_cmp addr_of a b =
    if ltb (addr_of b) (addr_of a)
    then Ordering.gt
    else (if ltb (addr_of a) (addr_of b) then Ordering.lt else Ordering.eq)

unfoldable pub rb_insert_vac : ℕ → (ℕ → ℕ) → ℕ → RbTree → Option RbTree
rb_insert_vac rounds addr_of v t = do result ← rb_insert rounds v (vac_cmp addr_of) t; some result.1

unfoldable pub rb_remove_vac : ℕ → (ℕ → ℕ) → ℕ → RbTree → Option RbTree
rb_remove_vac rounds addr_of v t = do result ← rb_delete rounds v (vac_cmp addr_of) t; some result.1

unfoldable pub successor_vac_loop : ℕ → ℕ → ℕ → ℕ → (ℕ → ℕ) → RbTree → Option ℕ
successor_vac_loop zero current successor addr addr_of t = none
successor_vac_loop (suc rounds) current successor addr addr_of t = elim (current == 0) [
  | true ↦ some successor
  | false ↦ elim (ltb addr (addr_of current)) [
    | true ↦ successor_vac_loop rounds (t.left current) current addr addr_of t
    | false ↦ successor_vac_loop rounds (t.right current) successor addr addr_of t
  ]
]

unfoldable pub rb_successor_vac : ℕ → ℕ → (ℕ → ℕ) → RbTree → Option ℕ
rb_successor_vac rounds addr addr_of t = successor_vac_loop rounds t.root 0 addr addr_of t

unfoldable pub predecessor_vac_loop : ℕ → ℕ → ℕ → ℕ → (ℕ → ℕ) → RbTree → Option ℕ
predecessor_vac_loop zero current predecessor addr addr_of t = none
predecessor_vac_loop (suc rounds) current predecessor addr addr_of t = elim (current == 0) [
  | true ↦ some predecessor
  | false ↦ elim (ltb (addr_of current) addr) [
    | true ↦ predecessor_vac_loop rounds (t.right current) current addr addr_of t
    | false ↦ predecessor_vac_loop rounds (t.left current) predecessor addr addr_of t
  ]
]

unfoldable pub rb_predeccessor_vac : ℕ → ℕ → (ℕ → ℕ) → RbTree → Option ℕ
rb_predeccessor_vac rounds addr addr_of t = predecessor_vac_loop rounds t.root 0 addr addr_of t

unfoldable pub find_vac_loop : ℕ → ℕ → ℕ → (ℕ → ℕ) → (ℕ → ℕ) → RbTree → Option ℕ
find_vac_loop zero current addr addr_of end_of t = none
find_vac_loop (suc rounds) current addr addr_of end_of t = elim (current == 0) [
  | true ↦ some 0
  | false ↦ elim (ltb addr (addr_of current)) [
    | true ↦ find_vac_loop rounds (t.left current) addr addr_of end_of t
    | false ↦ elim (leb (end_of current) addr) [
      | true ↦ find_vac_loop rounds (t.right current) addr addr_of end_of t
      | false ↦ some current
    ]
  ]
]

unfoldable pub rb_find_vac : ℕ → ℕ → (ℕ → ℕ) → (ℕ → ℕ) → RbTree → Option ℕ
rb_find_vac rounds addr addr_of end_of t = find_vac_loop rounds t.root addr addr_of end_of t
