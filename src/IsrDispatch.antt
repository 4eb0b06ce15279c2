-- ===== src/IsrDispatch.antt =====
-- The report of an exception, of src/mikroKernellib/isr_dispatch.c with `registers_t` of
-- include/isr_dispatch.h. A dispatch ends in `hlt` for ever, so its model is what is on the screen
-- by then. `cr2` is the register that `mov_rax_cr2` reads.
pub mod Messages
use mikrokernellib.Common.{ℕ, ◌-◌, List, ◌==◌, if◌then◌else◌, codes}
use mikrokernellib.Vesa.{
  Vesa, vesa_last_row, vesa_nt_println, vesa_print_virt_addr, vesa_clear_lower_half,
}

pub record Registers : Type 0 where
  pub vec : ℕ
  pub error_code : ℕ

-- The text of each `case`, and that of `default`.
unfoldable pub isr_message : ℕ → List ℕ
isr_message vec =
    if vec == 0
    then codes "#DE  Divide Error, vector: 0x00"
    else (if vec == 1
        then codes "#DB  Debug, vector: 0x01"
        else (if vec == 2
            then codes "NMI  Non-Maskable Interrupt, vector: 0x02"
            else (if vec == 3
                then codes "#BP  Breakpoint, vector: 0x03"
                else (if vec == 4
                    then codes "#OF  Overflow, vector: 0x04"
                    else (if vec == 5
                        then codes "#BR  BOUND Range Exceeded, vector: 0x05"
                        else (if vec == 6
                            then codes "#UD  Invalid Opcode, vector: 0x06"
                            else (if vec == 7
                                then codes "#NM  Device Not Available, vector: 0x07"
                                else (if vec == 8
                                    then codes "#DF  Double Fault, vector: 0x08"
                                    else (if vec == 9
                                        then codes "Coprocessor Segment Overrun, vector: 0x09"
                                        else (if vec == 10
                                            then codes "#TS  Invalid TSS, vector: 0x0A"
                                            else (if vec == 11
                                                then codes "#NP  Segment Not Present, vector: 0x0B"
                                                else (if vec == 12
                                                    then codes
                                                        "#SS  Stack-Segment Fault, vector: 0x0C"
                                                    else (if vec == 13
                                                        then codes
                                                            "#GP  General Protection fault, vector: 0x0D"
                                                        else (if vec == 14
                                                            then codes
                                                            "#PF  Page Fault, vector: 0x0E"
                                                            else (if vec == 15
                                                            then codes "Reserved, vector: 0x0F"
                                                            else (if vec == 16
                                                            then codes
                                                            "#MF  x87 FPU Error, vector: 0x10"
                                                            else (if vec == 17
                                                            then codes
                                                            "#AC  Alignment Check, vector: 0x11"
                                                            else (if vec == 18
                                                            then codes
                                                            "#MC  Machine Check, vector: 0x12"
                                                            else (if vec == 19
                                                            then codes
                                                            "#XM  SIMD Floating-Point Exception, vector: 0x13"
                                                            else (if vec == 20
                                                            then codes
                                                            "#VE  Virtualization Exception, vector: 0x14"
                                                            else (if vec == 21
                                                            then codes
                                                            "#CP  Control Protection, vector: 0x15"
                                                            else (if vec == 22
                                                            then codes "Reserved, vector: 0x16"
                                                            else (if vec == 23
                                                            then codes "Reserved, vector: 0x17"
                                                            else (if vec == 24
                                                            then codes "Reserved, vector: 0x18"
                                                            else (if vec == 25
                                                            then codes "Reserved, vector: 0x19"
                                                            else (if vec == 26
                                                            then codes "Reserved, vector: 0x1A"
                                                            else (if vec == 27
                                                            then codes "Reserved, vector: 0x1B"
                                                            else (if vec == 28
                                                            then codes
                                                            "#HV  Hypervisor Injection Exception, vector: 0x1C"
                                                            else (if vec == 29
                                                            then codes
                                                            "#VC  VMM Communication Exception, vector: 0x1D"
                                                            else (if vec == 30
                                                            then codes
                                                            "#SX  Security Exception, vector: 0x1E"
                                                            else (if vec == 31
                                                            then codes "Reserved, vector: 0x1F"
                                                            else (codes
                                                            "Unhandled Interrupt"))))))))))))))))))))))))))))))))

unfoldable pub pf_handler : ℕ → Registers → Vesa → Vesa
pf_handler cr2 regs v =
    vesa_print_virt_addr regs.error_code (vesa_last_row - 1) 0
      (vesa_print_virt_addr cr2 (vesa_last_row - 2) 0 (vesa_clear_lower_half v))

-- Vector 13 prints its error code after the message, vector 14 its address and code before it.
unfoldable pub isr_dispatch : ℕ → Registers → Vesa → Vesa
isr_dispatch cr2 regs v =
    let shown =
      vesa_nt_println (isr_message regs.vec) vesa_last_row 0
        (if regs.vec == 14 then pf_handler cr2 regs v else v) in
    if regs.vec == 13
    then vesa_print_virt_addr regs.error_code (vesa_last_row - 2) 0 shown
    else shown
