-- ===== src/Idt.antt =====
-- The interrupt descriptor table of src/mikroKernellib/idt.c with the types of include/idt.h.
-- `isr_stubs` are the addresses of the handlers of src/mikroKernellib/idt_common.asm and `base` is
-- the address of the table, both given by the linker. `ports` lists the bytes that `outb` writes,
-- the last one first, and `loaded` is the operand of the last `lidt`.
pub mod Gates
use mikrokernellib.Common.{
  ℕ, zero, suc, ◌+◌, ◌-◌, ◌*◌, ◌^◌, bit_and, Bool, Option, none, some, List, [], ◌∷◌, ◌==◌,
  if◌then◌else◌, update, u64, ◌>>◌,
}

pub record IdtGateDescriptor : Type 0 where
  pub offset_low : ℕ
  pub selector : ℕ
  pub zero_byte : ℕ
  pub type_attr : ℕ
  pub offset_mid : ℕ
  pub offset_high : ℕ
  pub zero2 : ℕ

pub record Idtr : Type 0 where
  pub limit : ℕ
  pub base : ℕ

pub record Idt : Type 0 where
  pub idt : ℕ → IdtGateDescriptor
  pub idtr : Idtr
  pub loaded : Option Idtr
  pub ports : List (ℕ × ℕ)

unfoldable pub outb : ℕ → ℕ → Idt → Idt
outb port v t = record t { ports = (port, v) ∷ t.ports }

unfoldable pub idt_load : Idt → Idt
idt_load t = record t { loaded = some t.idtr }

unfoldable pub idt_set_gate : ℕ → ℕ → ℕ → ℕ → Idt → Idt
idt_set_gate num base sel flags t = record t {
  idt = update t.idt num (record {
    offset_low = bit_and base 0xFFFF;
    selector = sel;
    zero_byte = 0;
    type_attr = flags;
    offset_mid = bit_and (base >> 16) 0xFFFF;
    offset_high = bit_and (base >> 32) 0xFFFFFFFF;
    zero2 = 0;
  });
}

-- The gates from `i` on, `rounds` of them.
unfoldable pub init_gates_loop : ℕ → ℕ → (ℕ → ℕ) → Idt → Idt
init_gates_loop zero i isr_stubs t = t
init_gates_loop (suc rounds) i isr_stubs t =
    init_gates_loop rounds (i + 1) isr_stubs (idt_set_gate i (isr_stubs i) 0x08 0x8e t)

-- The two interrupt controllers are set up to the vectors from 32 on, and masked.
unfoldable pub remap_irqs : Idt → Idt
remap_irqs t = outb 0xA1 0xFF (
    outb 0x21 0xFF (
      outb 0xA1 0x01 (
        outb 0x21 0x01 (
          outb 0xA1 0x02 (
            outb 0x21 0x04
              (outb 0xA1 0x28 (outb 0x21 0x20 (outb 0xA0 0x11 (outb 0x20 0x11 t)))))))))

unfoldable pub init_idt : ℕ → (ℕ → ℕ) → Idt → Idt
init_idt base isr_stubs t =
    let t0 = record t { idtr = record { limit = 256 * 16 - 1; base = base } } in
    let t1 = idt_set_gate 0 (isr_stubs 0) 0x08 0x8e t0 in
    let t2 = idt_set_gate 1 (isr_stubs 1) 0x08 0x8e t1 in
    let t3 = idt_set_gate 2 (isr_stubs 2) 0x08 0x8e t2 in
    let t4 = idt_set_gate 3 (isr_stubs 3) 0x08 0x8f t3 in
    idt_load (remap_irqs (init_gates_loop 28 4 isr_stubs t4))

unfoldable pub reload_gates_loop : ℕ → ℕ → (ℕ → ℕ) → Idt → Idt
reload_gates_loop zero i isr_stubs t = t
reload_gates_loop (suc rounds) i isr_stubs t =
    reload_gates_loop rounds (i + 1) isr_stubs
      (idt_set_gate i (isr_stubs i) 0x08 (if i == 3 then 0x8f else 0x8e) t)

unfoldable pub reload_idt_virtual : ℕ → (ℕ → ℕ) → Idt → Idt
reload_idt_virtual base isr_stubs t =
    let t0 = record t { idtr = record { limit = t.idtr.limit; base = base } } in
    idt_load (reload_gates_loop 32 0 isr_stubs t0)
