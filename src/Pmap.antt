-- ===== src/Pmap.antt =====
-- The copy of the physical memory map of src/mikroKernellib/pmap.c. `mem` is the memory of bytes;
-- `pmap_buf` and `mmap_bios_entries` are the addresses of two arrays, and an entry
-- `mmap_entry_0xe820` of include/phys_kmalloc.h has 24 bytes.
pub mod Copy
use mikrokernellib.Common.{ℕ, zero, suc, ◌+◌, ◌*◌, update}

abbrev pub entry_bytes : ℕ
entry_bytes = 24

-- sizeof(pmap_buf)
abbrev pub pmap_bytes : ℕ
pmap_bytes = 2048

unfoldable pub memcpy : ℕ → ℕ → ℕ → (ℕ → ℕ) → ℕ → ℕ
memcpy d s zero mem = mem
memcpy d s (suc n) mem = memcpy (d + 1) (s + 1) n (update mem d (mem s))

unfoldable pub init_pmap : ℕ → ℕ → ℕ → (ℕ → ℕ) → ℕ → ℕ
init_pmap pmap_buf mmap_bios_entries mmap_entry_count mem =
    memcpy pmap_buf mmap_bios_entries (mmap_entry_count * entry_bytes) mem
