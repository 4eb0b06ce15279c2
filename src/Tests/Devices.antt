-- ===== src/Tests/Devices.antt =====
-- The theorems about the tables, texts and strings of the kernel at concrete inputs.
use mikrokernellib.Common.{
  ℕ, ◌+◌, ◌*◌, ◌≤◌, ◌<◌, ◌≡◌, ◌≢◌, ◌⊎◌, refl, none, some, [], ◌==◌, if◌then◌else◌, codes, arith,
}
use mikrokernellib.Idt.{Idt, init_idt, reload_idt_virtual}
use mikrokernellib.Idt.Gates.{Installed, installed_lem}
use mikrokernellib.IsrDispatch.{isr_message}
use mikrokernellib.IsrDispatch.Messages.{shown_number, shown-isr_message}
use mikrokernellib.Kstrings.{kstring_strcpy, kstring_strcmp}
use mikrokernellib.Kstrings.Copy.{kstring_strcpy_lem}
use mikrokernellib.Kstrings.Compare.{lexicographic, kstring_strcmp_lem}
use mikrokernellib.Pmap.{entry_bytes, pmap_bytes, init_pmap}
use mikrokernellib.Pmap.Copy.{init_pmap_lem}
use mikrokernellib.Vesa.{
  Vesa, uint64_to_hex, vbe_blue_screen, vbe_black_screen, vesa_clear_lower_half, vesa_nt_println,
  psf_charheight, is_psf2,
}
use mikrokernellib.Vesa.Hex.{parse_hex, parse-uint64_to_hex}
use mikrokernellib.Vesa.Paint.{Inside, painting_lem}

abbrev no_gates : Idt
no_gates = record {
  idt = λ k. record {
    offset_low = 0;
    selector = 0;
    zero_byte = 0;
    type_attr = 0;
    offset_mid = 0;
    offset_high = 0;
    zero2 = 0;
  };
  idtr = record { limit = 0; base = 0 };
  loaded = none;
  ports = [];
}

-- Every handler at 1 MB.
abbrev stubs : ℕ → ℕ
stubs k = 0x100000

installed_lem_example :
    Installed stubs
      (λ n. omega arith)
      (record { limit = 4095; base = 0x8000 })
      no_gates
      (init_idt 0x8000 stubs no_gates)
    × Installed stubs
        (λ n. omega arith)
        (record { limit = 0; base = 0x8000 })
        no_gates
        (reload_idt_virtual 0x8000 stubs no_gates)
installed_lem_example = installed_lem stubs (λ n. omega arith) 0x8000 no_gates

shown-isr_message_example : shown_number (isr_message 14) ≡ 14
shown-isr_message_example = shown-isr_message 14 (omega arith)

parse-uint64_to_hex_example : parse_hex (uint64_to_hex 0xFFFF800000200000) ≡ 0xFFFF800000200000
parse-uint64_to_hex_example = parse-uint64_to_hex 0xFFFF800000200000 (omega arith)

-- "hi" at 100 and "ho" at 200.
abbrev two_strings : ℕ → ℕ
two_strings a =
    if a == 100
    then b'h'
    else (if a == 101 then b'i' else (if a == 200 then b'h' else (if a == 201 then b'o' else 0)))

kstring_strcmp_lem_example :
    kstring_strcmp 3 100 200 two_strings ≡ some (lexicographic (codes "hi") (codes "ho"))
kstring_strcmp_lem_example =
    kstring_strcmp_lem two_strings (codes "hi") (codes "ho") 3 100 200 (omega arith) (omega arith)
      (refl, omega arith, (refl, omega arith, refl)) (refl, omega arith, (refl, omega arith, refl))
      (omega arith)

kstring_strcpy_lem_example :
    (k : ℕ) × (k < 2)
    × ((j : ℕ)
        → j < k
        → (two_strings (100 + j) ≢ 0)
          × (kstring_strcpy 100 300 2 two_strings (300 + j) ≡ two_strings (100 + j)))
    × (kstring_strcpy 100 300 2 two_strings (300 + k) ≡ 0)
    × ((k + 1 ≡ 2) ⊎ (two_strings (100 + k) ≡ 0))
    × ((a : ℕ) → (a < 300) ⊎ (300 + 2 ≤ a) → kstring_strcpy 100 300 2 two_strings a ≡ two_strings a)
kstring_strcpy_lem_example =
    kstring_strcpy_lem 100 300 2 two_strings (omega arith) (omega arith) (omega arith)
      (λ i j p q. omega (arith, p, q))

init_pmap_lem_example :
    ((i : ℕ)
      → i < 2 * entry_bytes
      → init_pmap 0x1000 0x5000 2 two_strings (0x1000 + i) ≡ two_strings (0x5000 + i))
    × ((a : ℕ)
        → (a < 0x1000) ⊎ (0x1000 + pmap_bytes ≤ a)
        → init_pmap 0x1000 0x5000 2 two_strings a ≡ two_strings a)
init_pmap_lem_example =
    init_pmap_lem 0x1000 0x5000 2 two_strings (omega arith) (λ i j p q. omega (arith, p, q))

-- A screen of 64 times 32 pixels, with a font of version 1 and characters of 16 rows.
abbrev small_screen : Vesa
small_screen = record {
  fb_virt = 0;
  vbe_info = record {
    framebuffer_address = 0x10000;
    pitch = 256;
    width_px = 64;
    height_px = 32;
    bpp = 32;
  };
  font = λ k. if k == 0 then 0x36 else (if k == 1 then 0x04 else 16);
  cells = λ a. 0;
}

fits : (1 + 1) * psf_charheight small_screen ≤ 32
unfolding psf_charheight is_psf2
fits = omega arith

painting_lem_example :
    Inside small_screen (vbe_blue_screen small_screen)
    × Inside small_screen (vbe_black_screen small_screen)
    × Inside small_screen (vesa_clear_lower_half small_screen)
    × Inside small_screen (vesa_nt_println (codes "hello") 1 3 small_screen)
painting_lem_example =
    painting_lem small_screen (codes "hello") 1 3 (omega arith) fits (omega arith)
