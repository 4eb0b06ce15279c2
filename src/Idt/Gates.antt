-- ===== src/Idt/Gates.antt =====
-- The gates that src/mikroKernellib/idt.c writes.
use mathlib.Core.Path.{subst}
use mikrokernellib.Common.{
  ℕ, zero, suc, ◌+◌, ◌*◌, ◌/◌, ◌^◌, ◌≤◌, ◌<◌, bit_and, ◌≡◌, ◌≢◌, inl, inr, refl, sym, ap, ◌∙◌, true,
  false, some, ◌==◌, if◌then◌else◌, ◌>>◌, Bool-cases, arith,
}
use mikrokernellib.Common.Bits.{bit_and_low}
use mikrokernellib.Idt.{
  IdtGateDescriptor, Idtr, Idt, outb, idt_load, idt_set_gate, init_gates_loop, remap_irqs, init_idt,
  reload_gates_loop, reload_idt_virtual,
}

-- The address to which the processor jumps through a gate.
abbrev pub handler : IdtGateDescriptor → ℕ
handler g = g.offset_low + g.offset_mid * 2 ^ 16 + g.offset_high * 2 ^ 32

-- A present gate of the kernel code segment for the handler at `base`.
abbrev pub IsGate : ℕ → ℕ → IdtGateDescriptor → Type 0
IsGate base flags g =
    (handler g ≡ base)
    × (g.selector ≡ 0x08)
    × (g.type_attr ≡ flags)
    × (g.zero_byte ≡ 0)
    × (g.zero2 ≡ 0)

-- A breakpoint has a trap gate, which leaves interrupts on; the others have interrupt gates.
abbrev pub flags_of : ℕ → ℕ
flags_of num = if num == 3 then 0x8f else 0x8e

split_address :
    (base : ℕ)
    → base < 2 ^ 64
    → bit_and base 0xFFFF
        + bit_and (base >> 16) 0xFFFF * 2 ^ 16
        + bit_and (base >> 32) 0xFFFFFFFF * 2 ^ 32
      ≡ base
split_address base small =
    rw (bit_and_low 16 base, bit_and_low 16 (base / 2 ^ 16), bit_and_low 32 (base / 2 ^ 32))
      (omega (arith, small))

idt_set_gate-IsGate :
    (num base flags : ℕ) (t : Idt)
    → base < 2 ^ 64
    → IsGate base flags ((idt_set_gate num base 0x08 flags t).idt num)
unfolding idt_set_gate
idt_set_gate-IsGate num base flags t small =
    let e : (num == num) ≡ true = ground arith in
    rw e (split_address base small, refl, refl, refl, refl)

set_gate_other :
    (num m base sel flags : ℕ) (t : Idt)
    → m ≢ num
    → (idt_set_gate num base sel flags t).idt m ≡ t.idt m
unfolding idt_set_gate
set_gate_other num m base sel flags t ne =
    let e : (m == num) ≡ false = ground (arith, ne) in rw e refl

module _ (isr_stubs : ℕ → ℕ) (small : (n : ℕ) → isr_stubs n < 2 ^ 64) where
  -- A gate that was right stays right, and a new one is.
  idt_set_gate-keeps :
      (i num : ℕ) (t : Idt)
      → (num ≢ i → IsGate (isr_stubs num) (flags_of num) (t.idt num))
      → IsGate
          (isr_stubs num)
          (flags_of num)
          ((idt_set_gate i (isr_stubs i) 0x08 (flags_of i) t).idt num)
  idt_set_gate-keeps i num t h = elim (Bool-cases (num == i)) [
    | inl e ↦
        let same : i ≡ num = ground (arith, e) in
        subst
          (λ k.
            IsGate (isr_stubs num) (flags_of num)
              ((idt_set_gate k (isr_stubs k) 0x08 (flags_of k) t).idt num))
          (sym same) (idt_set_gate-IsGate num (isr_stubs num) (flags_of num) t (small num))
    | inr e ↦
        let ne : num ≢ i = ground (arith, e) in
        subst (IsGate (isr_stubs num) (flags_of num))
          (sym (set_gate_other i num (isr_stubs i) 0x08 (flags_of i) t ne)) (h ne)
  ]

  loop-IsGate :
      (rounds i num : ℕ) (t : Idt)
      → num < i + rounds
      → (num < i → IsGate (isr_stubs num) (flags_of num) (t.idt num))
      → IsGate (isr_stubs num) (flags_of num) ((reload_gates_loop rounds i isr_stubs t).idt num)
  unfolding reload_gates_loop
  loop-IsGate zero i num t below h = h (omega (arith, below))
  loop-IsGate (suc rounds) i num t below h =
      loop-IsGate rounds (i + 1) num (idt_set_gate i (isr_stubs i) 0x08 (flags_of i) t)
        (omega (arith, below)) (λ lt. idt_set_gate-keeps i num t (λ ne. h (omega (arith, lt, ne))))

  loop_kept :
      (rounds i num : ℕ) (t : Idt)
      → i + rounds ≤ num
      → (reload_gates_loop rounds i isr_stubs t).idt num ≡ t.idt num
  unfolding reload_gates_loop
  loop_kept zero i num t above = refl
  loop_kept (suc rounds) i num t above =
      loop_kept rounds (i + 1) num (idt_set_gate i (isr_stubs i) 0x08 (flags_of i) t)
        (omega (arith, above))
      ∙ set_gate_other i num (isr_stubs i) 0x08 (flags_of i) t (omega (arith, above))

  loop_idtr : (rounds i : ℕ) (t : Idt) → (reload_gates_loop rounds i isr_stubs t).idtr ≡ t.idtr
  unfolding reload_gates_loop idt_set_gate
  loop_idtr zero i t = refl
  loop_idtr (suc rounds) i t =
      loop_idtr rounds (i + 1) (idt_set_gate i (isr_stubs i) 0x08 (flags_of i) t)

  -- Past vector 3 both loops write the same gates.
  loops-equal :
      (rounds i : ℕ) (t : Idt)
      → 4 ≤ i
      → init_gates_loop rounds i isr_stubs t ≡ reload_gates_loop rounds i isr_stubs t
  unfolding init_gates_loop reload_gates_loop
  loops-equal zero i t four = refl
  loops-equal (suc rounds) i t four =
      let e : (i == 3) ≡ false = ground (arith, four) in
      rw e (
        loops-equal rounds (i + 1) (idt_set_gate i (isr_stubs i) 0x08 0x8e t) (omega (arith, four)))

  -- The table is loaded, and all vectors of exceptions have their gates.
  abbrev pub Installed : Idtr → Idt → Idt → Type 0
  Installed r before after =
      ((num : ℕ) → num < 32 → IsGate (isr_stubs num) (flags_of num) (after.idt num))
      × ((num : ℕ) → 32 ≤ num → after.idt num ≡ before.idt num)
      × (after.loaded ≡ some r)

  loop-Installed : (t : Idt) → Installed t.idtr t (idt_load (reload_gates_loop 32 0 isr_stubs t))
  unfolding idt_load
  loop-Installed t = (
    λ num lt. loop-IsGate 32 0 num t lt (λ below. absurd (omega (arith, below))),
    λ num ge. loop_kept 32 0 num t ge,
    ap some (loop_idtr 32 0 t),
  )

  init_unrolls :
      (base : ℕ) (t : Idt)
      → init_idt base isr_stubs t
        ≡ idt_load (
            remap_irqs (
              reload_gates_loop 32 0 isr_stubs
                (record t { idtr = record { limit = 4095; base = base } })))
  unfolding init_idt reload_gates_loop
  init_unrolls base t =
      ap (λ z. idt_load (remap_irqs z))
        (loops-equal 28 4
          (idt_set_gate 3 (isr_stubs 3) 0x08 0x8f (
            idt_set_gate 2 (isr_stubs 2) 0x08 0x8e (
              idt_set_gate 1 (isr_stubs 1) 0x08 0x8e (
                idt_set_gate 0 (isr_stubs 0) 0x08 0x8e
                  (record t { idtr = record { limit = 4095; base = base } })))))
          (omega arith))

  remapped :
      (t : Idt) → Installed t.idtr t (idt_load (remap_irqs (reload_gates_loop 32 0 isr_stubs t)))
  unfolding idt_load remap_irqs outb
  remapped t = loop-Installed t

  -- Where the handlers are 64-bit addresses, `init_idt` and `reload_idt_virtual` give each of the
  -- vectors 0 to 31 a gate of selector 8 whose three offset fields give back the address of its
  -- handler, a trap gate for vector 3 and an interrupt gate for the others, leave the gates of the
  -- vectors from 32 on, and load the table, of 4096 bytes the first time and of the same size later.
  pub installed_lem :
      (base : ℕ) (t : Idt)
      → Installed (record { limit = 4095; base = base }) t (init_idt base isr_stubs t)
        × Installed
            (record { limit = t.idtr.limit; base = base })
            t
            (reload_idt_virtual base isr_stubs t)
  unfolding reload_idt_virtual
  installed_lem base t =
      let first = record t { idtr = record { limit = 4095; base = base } } in
      let again = record t { idtr = record { limit = t.idtr.limit; base = base } } in
      (
        subst (Installed (record { limit = 4095; base = base }) t) (sym (init_unrolls base t))
            (remapped first),
        loop-Installed again,
      )
