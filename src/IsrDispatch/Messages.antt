-- ===== src/IsrDispatch/Messages.antt =====
-- The messages of src/mikroKernellib/isr_dispatch.c.
use mikrokernellib.Common.{
  ℕ, zero, suc, ◌-◌, ◌<◌, ◌≡◌, refl, List, [], ◌∷◌, ◌==◌, all_below-true, ==_iff, length,
}
use mikrokernellib.Vesa.Hex.{number_from}
use mikrokernellib.IsrDispatch.{isr_message}

abbrev drop : ℕ → List ℕ → List ℕ
drop zero s = s
drop (suc n) [] = []
drop (suc n) (c ∷ s) = drop n s

-- The number that the last two characters of a text stand for.
abbrev pub shown_number : List ℕ → ℕ
shown_number s = number_from 0 (drop (length s - 2) s)

-- The message of each exception ends in its own vector, in hexadecimal.
pub shown-isr_message : (vec : ℕ) → vec < 32 → shown_number (isr_message vec) ≡ vec
unfolding isr_message
shown-isr_message vec lt =
    (==_iff (shown_number (isr_message vec)) vec).0
      (all_below-true 32 (λ k. shown_number (isr_message k) == k) refl vec lt)
