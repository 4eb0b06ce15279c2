-- ===== src/Vesa.antt =====
-- The framebuffer text of src/mikroKernellib/vesa_graphics_lib.c. `font` are the bytes of
-- `font_data`, an object file of the build, and `cells` is the memory of 32-bit pixels by address.
-- Rows and columns are those of the calls, which are not negative.
pub mod Hex
pub mod Paint
use mikrokernellib.Common.{
  ℕ, zero, suc, ◌+◌, ◌-◌, ◌*◌, ◌/◌, ◌%◌, ◌^◌, bit_and, Bool, true, false, ◌&&◌, Option, none, some,
  List, [], ◌∷◌, ◌==◌, if◌then◌else◌, update, u8, u32, u64, ◌>>◌, codes, byte_at,
}
use mikrokernellib.Buddy.Init.{MmapEntry}

abbrev pub vesa_last_row : ℕ
vesa_last_row = 83

pub record BootVbeHandoff : Type 0 where
  pub framebuffer_address : ℕ
  pub pitch : ℕ
  pub width_px : ℕ
  pub height_px : ℕ
  pub bpp : ℕ

pub record Vesa : Type 0 where
  pub fb_virt : ℕ
  pub vbe_info : BootVbeHandoff
  pub font : ℕ → ℕ
  pub cells : ℕ → ℕ

-- A little-endian field of the font header.
abbrev font_u32 : ℕ → Vesa → ℕ
font_u32 at v =
    v.font at + v.font (at + 1) * 2 ^ 8 + v.font (at + 2) * 2 ^ 16 + v.font (at + 3) * 2 ^ 24

unfoldable pub is_psf2 : Vesa → Bool
is_psf2 v = (v.font 0 == 0x72) && (v.font 1 == 0xB5)

unfoldable pub psf_charheight : Vesa → ℕ
psf_charheight v = if is_psf2 v then font_u32 24 v else v.font 3

-- The offset of a glyph in `font_data`.
unfoldable pub psf_glyph : ℕ → Vesa → ℕ
psf_glyph c v = if is_psf2 v then font_u32 8 v + u32 (c * font_u32 20 v) else 4 + c * v.font 3

unfoldable pub init_vbe_handoff : BootVbeHandoff → Vesa → Vesa
init_vbe_handoff handoff v = record v { vbe_info = handoff }

unfoldable pub vesa_set_fb_virtual : ℕ → Vesa → Vesa
vesa_set_fb_virtual virtual_fb_base v = record v { fb_virt = virtual_fb_base }

unfoldable pub get_fb : Vesa → ℕ
get_fb v = if v.fb_virt == 0 then v.vbe_info.framebuffer_address else v.fb_virt

-- `fb[index] = color`.
unfoldable pub set_pixel : ℕ → ℕ → Vesa → Vesa
set_pixel index color v = record v { cells = update v.cells (get_fb v + 4 * index) color }

-- `fb[y * pitch_in_pixels + x]`, in 32-bit arithmetic.
unfoldable pub pixel_index : ℕ → ℕ → Vesa → ℕ
pixel_index y x v = u32 (y * (v.vbe_info.pitch / 4) + x)

unfoldable pub fill_row : ℕ → ℕ → ℕ → ℕ → Vesa → Vesa
fill_row zero x y color v = v
fill_row (suc rounds) x y color v =
    fill_row rounds (x + 1) y color (set_pixel (pixel_index y x v) color v)

unfoldable pub fill_rows : ℕ → ℕ → ℕ → Vesa → Vesa
fill_rows zero y color v = v
fill_rows (suc rounds) y color v =
    fill_rows rounds (y + 1) color (fill_row v.vbe_info.width_px 0 y color v)

unfoldable pub vbe_blue_screen : Vesa → Vesa
vbe_blue_screen v = fill_rows v.vbe_info.height_px 0 0x00ADD8E6 v

unfoldable pub vbe_black_screen : Vesa → Vesa
vbe_black_screen v = fill_rows v.vbe_info.height_px 0 0 v

unfoldable pub vesa_clear_lower_half : Vesa → Vesa
vesa_clear_lower_half v =
    let half_row_px = u32 ((vesa_last_row / 2 + 1) * psf_charheight v) in
    fill_rows (v.vbe_info.height_px - half_row_px) half_row_px 0 v

-- The eight pixels of a row of a glyph, from bit `0x80 >> c` on.
unfoldable pub glyph_row : ℕ → ℕ → ℕ → ℕ → ℕ → Vesa → Vesa
glyph_row zero c bits px_y px_x v = v
glyph_row (suc rounds) c bits px_y px_x v =
    let color = if bit_and bits (0x80 >> c) == 0 then 0 else 0x00FFFFFF in
    glyph_row rounds (c + 1) bits px_y px_x
      (set_pixel (pixel_index px_y (u32 (px_x + c)) v) color v)

unfoldable pub glyph_rows : ℕ → ℕ → ℕ → ℕ → ℕ → Vesa → Vesa
glyph_rows zero r glyph px_y px_x v = v
glyph_rows (suc rounds) r glyph px_y px_x v =
    glyph_rows rounds (r + 1) glyph px_y px_x
      (glyph_row 8 0 (v.font (glyph + r)) (u32 (px_y + r)) px_x v)

unfoldable pub vesa_nt_println : List ℕ → ℕ → ℕ → Vesa → Vesa
vesa_nt_println [] row col v = v
vesa_nt_println (char ∷ rest) row col v =
    let charheight = psf_charheight v in
    vesa_nt_println rest row (col + 1)
      (glyph_rows charheight 0 (psf_glyph char v) (u32 (row * charheight)) (u32 (col * 8)) v)

abbrev hex : ℕ → ℕ
hex = byte_at (codes "0123456789ABCDEF")

-- `hex[(val >> (60 - i * 4)) & 0xF]` from `i` on.
unfoldable pub hex_digits : ℕ → ℕ → ℕ → List ℕ
hex_digits zero i val = []
hex_digits (suc rounds) i val =
    hex (bit_and (val >> (60 - i * 4)) 0xF) ∷ hex_digits rounds (i + 1) val

unfoldable pub uint64_to_hex : ℕ → List ℕ
uint64_to_hex val = b'0' ∷ b'x' ∷ hex_digits 16 0 val

unfoldable pub mmap_type_str : ℕ → List ℕ
mmap_type_str type =
    if type == 1
    then codes "Usable RAM  "
    else (if type == 2
        then codes "Reserved    "
        else (if type == 3
            then codes "ACPI Reclaim"
            else (if type == 4
                then codes "ACPI NVS    "
                else (if type == 5 then codes "Bad Memory  " else codes "Unknown     "))))

unfoldable pub vesa_print_virt_addr : ℕ → ℕ → ℕ → Vesa → Vesa
vesa_print_virt_addr addr row col v = vesa_nt_println (b'0' ∷ b'x' ∷ hex_digits 16 0 addr) row col v

-- A line of the memory map: its number, base, size and type.
unfoldable pub print_mmap_entry : ℕ → MmapEntry → ℕ → ℕ → Vesa → Vesa
print_mmap_entry i e row col v =
    let idx_buf = u8 (b'0' + i / 10) ∷ u8 (b'0' + i % 10) ∷ [] in
    vesa_nt_println (mmap_type_str e.type) row (col + 61) (
      vesa_nt_println (codes "Type:") row (col + 56) (
        vesa_nt_println (uint64_to_hex e.chunk_size) row (col + 37) (
          vesa_nt_println (codes "Size:") row (col + 32) (
            vesa_nt_println (uint64_to_hex e.base_address) row (col + 8) (
              vesa_nt_println (codes "Base:") row (col + 3) (vesa_nt_println idx_buf row col v))))))

unfoldable pub print_mmap_loop : List MmapEntry → ℕ → ℕ → ℕ → Vesa → Vesa
print_mmap_loop [] i row col v = v
print_mmap_loop (e ∷ entries) i row col v =
    print_mmap_loop entries (i + 1) (row + 1) col (print_mmap_entry i e row col v)

unfoldable pub vesa_print_mmap : List MmapEntry → ℕ → ℕ → Vesa → Vesa
vesa_print_mmap mmap_bios_entries row col v = print_mmap_loop mmap_bios_entries 0 row col v
