-- ===== src/Lib.antt =====
-- Verification library of the kernel: its memory management, from the physical allocators up to
-- the page tables, the trees of virtual areas and the kernel's mappings, and its interrupt table,
-- texts and strings.
--
-- The program. At boot `__init_buddy` takes the largest usable region of the BIOS memory map and
-- cuts it into blocks of powers of two. The buddy allocator hands out and takes back such blocks,
-- and the slab allocator cuts them into objects. The page table operations take their tables from
-- the buddy allocator. Areas of virtual memory, and chunks of the virtual allocator, hang in
-- red-black trees. `kmap_pages` and its like take an area from a slab cache, put it into the tree
-- and its pages into the tables; `__init_mmu` maps the kernel, its stack, usable memory and the
-- framebuffer that way. All of it reads physical pointers through `directmap_p2v`. `__init_idt`
-- fills the interrupt table, and an exception prints its message on the framebuffer.
--
-- The files.
--   Common: shared names, Boolean tests, machine words with their wrap written out, bit laws.
--   Layout: constants, table indices and `directmap_p2v` (include/mmu.h,
--     include/mikroKernellib-common.h).
--   Buddy: `toggle_bitmap`, `buddy_kalloc` and `buddy_kfree` (src/mikroKernellib/phys_kmalloc.c);
--     Buddy.Wf is the invariant, Buddy.Search and Buddy.Free are the two operations, Buddy.Bitmap
--     the map of bits. Buddy.Init: `__init_buddy` of the same file.
--   Slab: the caches of phys_kmalloc.c, with `slab_lock`; Slab.Create makes caches.
--   PhysKmalloc: the choice between the two, and src/mikroKernellib/mapped_phys_kmalloc.c.
--   Kmath: src/mikroKernellib/kmath.c.
--   Mmu: src/mikroKernellib/mmu.c; Mmu.Pages has the operations on many pages, Mmu.Walk the walk of
--     the processor over the tables, Mmu.Climb the way up over tables that are freed,
--     Mmu.Outcome the outcomes of an unmapping; Loop, Back, Stays and Range are about `unmap_pages`.
--   RbTree: src/mikroKernellib/rb_tree.c and include/rb_tree.h; RbTree.Model is the abstract tree.
--     RbTree.Links are the links with the parents; Rotate, Turn, Turned, Mirror and Rotated are the
--     rotations, Depth, Raise, Step and Fixup the loop of `rb_insert_fixup`, and Place, Walk and
--     Inserted the rest of `rb_insert`. Colours, Repainted, Painted, Stepped, Recoloured and Ends are
--     about the colours in that loop.
--   Paging: src/mikroKernellib/paging.c; Paging.Regions has the direct mapping and the framebuffer,
--     Paging.Boot `__init_mmu`; Tiles, Area and Unknown are about these and the calls.
--   Idt, IsrDispatch: src/mikroKernellib/idt.c and src/mikroKernellib/isr_dispatch.c.
--   Vesa, Kstrings, Pmap: src/mikroKernellib/vesa_graphics_lib.c, kstrings.c and pmap.c.
--   Vm, VirtKmalloc: the searches of src/mikroKernellib/vm.c and src/mikroKernellib/virt_kmalloc.c.
--   Tests and the modules of that name: runs, and theorems at concrete states.
--
-- The model. A pointer is a native number, 0 is NULL, and the objects of a struct are one function
-- per field, from the stored pointer: `directmap_p2v` at a dereference is taken to tell stored
-- pointers apart. State is passed explicitly. `none` stands for a PANIC, for a wait on a lock that
-- is never released, or for a run out of fuel; each file says which.
--
-- Fuel. The loops over `order` run on 64 rounds, and end within 52 for sizes up to 2^63. The loops
-- over a tree and its recursions take a number of rounds as an argument, and more than the height
-- of the tree are enough for the searches, the traversal and the insertion. Counted loops recurse on their count.
--
-- Not modelled. The content of blocks and objects, other than table entries and links, and the
-- overlap of a free page's links with its entries; `buddy_lock` and concurrency, other than
-- `slab_lock` and `kernel_page_lock` being taken or free; the state of each processor, tasks and
-- the order of the start-up calls; assembly, other than what the C code uses of it.
-- The lines of `map_page` behind its first `return` never run, and have no model.
pub mod Buddy
pub mod Common
pub mod Idt
pub mod IsrDispatch
pub mod Kmath
pub mod Kstrings
pub mod Layout
pub mod Mmu
pub mod Paging
pub mod PhysKmalloc
pub mod Pmap
pub mod RbTree
pub mod Slab
pub mod Tests
pub mod Vesa
pub mod VirtKmalloc
pub mod Vm
