-- ===== src/Vesa/Paint.antt =====
-- Where src/mikroKernellib/vesa_graphics_lib.c writes.
use native.Mathlib.Nat.{mul-le-mul_right, mod-le}
use mathlib.Core.Path.{subst}
use mikrokernellib.Common.{
  ℕ, zero, suc, ◌+◌, ◌-◌, ◌*◌, ◌/◌, ◌^◌, ◌≤◌, ◌<◌, bit_and, ◌≡◌, ◌≢◌, ◌⊎◌, inl, inr, refl, sym, ap,
  ◌∙◌, List, [], ◌∷◌, ◌==◌, if◌then◌else◌, update-ne, u32, ◌>>◌, leb, Bool-cases, length, arith,
}
use mikrokernellib.Vesa.{
  BootVbeHandoff, Vesa, vesa_last_row, psf_charheight, psf_glyph, get_fb, set_pixel, pixel_index,
  fill_row, fill_rows, vbe_blue_screen, vbe_black_screen, vesa_clear_lower_half, glyph_row,
  glyph_rows, vesa_nt_println, is_psf2,
}

inside_lem : (y x p h : ℕ) → y < h → x < p → y * p + x < h * p
inside_lem y x p h below left =
    let rows : suc y * p ≤ h * p = mul-le-mul_right p below in omega (arith, rows, left)

module _ (first : Vesa) where
  -- The rows and the pixels of a row that the framebuffer has.
  abbrev pub rows : ℕ
  rows = first.vbe_info.height_px

  abbrev pub row_pixels : ℕ
  row_pixels = first.vbe_info.pitch / 4

  -- The cells outside the framebuffer are those of `first`, and the mode and the font are.
  abbrev pub Inside : Vesa → Type 0
  Inside v =
      (v.fb_virt ≡ first.fb_virt)
      × (v.vbe_info ≡ first.vbe_info)
      × (v.font ≡ first.font)
      × ((a : ℕ)
          → (a < get_fb first) ⊎ (get_fb first + 4 * (rows * row_pixels) ≤ a)
          → v.cells a ≡ first.cells a)

  pixel-Inside :
      (y x color : ℕ) (v : Vesa)
      → y < rows
      → x < row_pixels
      → Inside v
      → Inside (set_pixel (pixel_index y x v) color v)
  unfolding set_pixel pixel_index get_fb
  pixel-Inside y x color v below left (virt, mode, font, out) = (
    virt,
    mode,
    font,
    λ a far.
        let fb : get_fb v ≡ get_fb first = rw (virt, mode) refl in
        let pitch : v.vbe_info.pitch ≡ first.vbe_info.pitch =
          ap (λ (m : BootVbeHandoff). m.pitch) mode in
        let index : pixel_index y x v < rows * row_pixels = rw pitch (
          omega (
            arith,
            mod-le (y * row_pixels + x) (2 ^ 32),
            inside_lem y x row_pixels rows below left,
          )) in
        let away : a ≢ get_fb v + 4 * pixel_index y x v = elim far [
          | inl lt ↦ omega (arith, lt, fb)
          | inr ge ↦ omega (arith, ge, fb, index)
        ] in
        update-ne v.cells (get_fb v + 4 * pixel_index y x v) color a away ∙ out a far,
  )

  fill_row-Inside :
      (rounds x y color : ℕ) (v : Vesa)
      → y < rows
      → x + rounds ≤ row_pixels
      → Inside v
      → Inside (fill_row rounds x y color v)
  unfolding fill_row
  fill_row-Inside zero x y color v below left i = i
  fill_row-Inside (suc rounds) x y color v below left i =
      fill_row-Inside rounds (x + 1) y color (set_pixel (pixel_index y x v) color v) below
        (omega (arith, left)) (pixel-Inside y x color v below (omega (arith, left)) i)

  fill_rows-Inside :
      (rounds y color : ℕ) (v : Vesa)
      → y + rounds ≤ rows
      → first.vbe_info.width_px ≤ row_pixels
      → Inside v
      → Inside (fill_rows rounds y color v)
  unfolding fill_rows
  fill_rows-Inside zero y color v below wide i = i
  fill_rows-Inside (suc rounds) y color v below wide (virt, mode, font, out) =
      let width = ap (λ (m : BootVbeHandoff). m.width_px) mode in
      fill_rows-Inside rounds (y + 1) color (fill_row v.vbe_info.width_px 0 y color v)
        (omega (arith, below)) wide
        (fill_row-Inside v.vbe_info.width_px 0 y color v (omega (arith, below))
          (omega (arith, wide, width)) (virt, mode, font, out))

  glyph_row-Inside :
      (rounds c bits px_y px_x : ℕ) (v : Vesa)
      → px_y < rows
      → px_x + c + rounds ≤ row_pixels
      → Inside v
      → Inside (glyph_row rounds c bits px_y px_x v)
  unfolding glyph_row
  glyph_row-Inside zero c bits px_y px_x v below left i = i
  glyph_row-Inside (suc rounds) c bits px_y px_x v below left i =
      glyph_row-Inside rounds (c + 1) bits px_y px_x
        (set_pixel (pixel_index px_y (u32 (px_x + c)) v)
          (if bit_and bits (0x80 >> c) == 0 then 0 else 0x00FFFFFF) v)
        below (omega (arith, left))
        (pixel-Inside px_y (u32 (px_x + c))
          (if bit_and bits (0x80 >> c) == 0 then 0 else 0x00FFFFFF) v below
          (omega (arith, mod-le (px_x + c) (2 ^ 32), left)) i)

  glyph_rows-Inside :
      (rounds r glyph px_y px_x : ℕ) (v : Vesa)
      → px_y + r + rounds ≤ rows
      → px_x + 8 ≤ row_pixels
      → Inside v
      → Inside (glyph_rows rounds r glyph px_y px_x v)
  unfolding glyph_rows
  glyph_rows-Inside zero r glyph px_y px_x v below left i = i
  glyph_rows-Inside (suc rounds) r glyph px_y px_x v below left i =
      glyph_rows-Inside rounds (r + 1) glyph px_y px_x
        (glyph_row 8 0 (v.font (glyph + r)) (u32 (px_y + r)) px_x v) (omega (arith, below)) left
        (glyph_row-Inside 8 0 (v.font (glyph + r)) (u32 (px_y + r)) px_x v
          (omega (arith, mod-le (px_y + r) (2 ^ 32), below)) (omega (arith, left)) i)

  println-Inside :
      (text : List ℕ) (row col : ℕ) (v : Vesa)
      → (row + 1) * psf_charheight first ≤ rows
      → (col + length text) * 8 ≤ row_pixels
      → Inside v
      → Inside (vesa_nt_println text row col v)
  unfolding vesa_nt_println psf_charheight is_psf2
  println-Inside [] row col v below left i = i
  println-Inside (char ∷ text) row col v below left (virt, mode, font, out) =
      let same : psf_charheight v ≡ psf_charheight first = rw font refl in
      let tall : row * psf_charheight first + psf_charheight first ≤ rows = omega (arith, below) in
      println-Inside text row (col + 1)
        (glyph_rows (psf_charheight v) 0 (psf_glyph char v) (u32 (row * psf_charheight v))
          (u32 (col * 8)) v)
        below (omega (arith, left))
        (glyph_rows-Inside (psf_charheight v) 0 (psf_glyph char v) (u32 (row * psf_charheight v))
          (u32 (col * 8)) v
          (rw same (omega (arith, mod-le (row * psf_charheight first) (2 ^ 32), tall)))
          (omega (arith, mod-le (col * 8) (2 ^ 32), left)) (virt, mode, font, out))

  start-Inside : Inside first
  start-Inside = (refl, refl, refl, λ a far. refl)

  half-Inside :
      (half : ℕ)
      → first.vbe_info.width_px ≤ row_pixels
      → Inside (fill_rows (rows - half) half 0 first)
  unfolding fill_rows
  half-Inside half wide = elim (Bool-cases (leb half rows)) [
    | inl e ↦ fill_rows-Inside (rows - half) half 0 first (ground (arith, e)) wide start-Inside
    | inr e ↦
        let nothing : rows - half ≡ 0 = ground (arith, e) in
        subst (λ n. Inside (fill_rows n half 0 first)) (sym nothing) start-Inside
  ]

  -- Where a row of the framebuffer is as long as the screen is wide, and the box of a text lies in the
  -- framebuffer, the two fills, the clearing of the lower half and `vesa_nt_println` of the text write
  -- only in the framebuffer.
  pub painting_lem :
      (text : List ℕ) (row col : ℕ)
      → first.vbe_info.width_px ≤ row_pixels
      → (row + 1) * psf_charheight first ≤ rows
      → (col + length text) * 8 ≤ row_pixels
      → Inside (vbe_blue_screen first)
        × Inside (vbe_black_screen first)
        × Inside (vesa_clear_lower_half first)
        × Inside (vesa_nt_println text row col first)
  unfolding vbe_blue_screen vbe_black_screen vesa_clear_lower_half
  painting_lem text row col wide below left = (
    fill_rows-Inside rows 0 0x00ADD8E6 first (omega arith) wide start-Inside,
    fill_rows-Inside rows 0 0 first (omega arith) wide start-Inside,
    half-Inside (u32 ((vesa_last_row / 2 + 1) * psf_charheight first)) wide,
    println-Inside text row col first below left start-Inside,
  )
