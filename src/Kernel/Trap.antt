-- ===== src/Kernel/Trap.antt =====
-- kernel/src/arch/aarch64/interrupt/syndrome.rs and consts.rs: what an exception is.
use queen.Base.{
  ℕ, ◌/◌, ◌%◌, ◌^◌, ◌≡◌, Bool, true, false, not, ◌&&◌, ◌||◌, ◌==◌, leb, if◌then◌else◌, arith,
}

pub data Fault : Type 0 where
  address_size : Fault
  translation : Fault
  access_flag : Fault
  permission : Fault
  alignment : Fault
  tlb_conflict : Fault
  other_fault : (code : ℕ) → Fault

-- `impl From<u32> for Fault`: `val & 0b111100` by the four bits from bit 2 on.
unfoldable pub fault_from : ℕ → Fault
fault_from val =
    let bits = val / 4 % 16 in
    if bits == 0b0000
    then address_size
    else if bits == 0b0001
    then translation
    else if bits == 0b0010
    then access_flag
    else if bits == 0b0011
    then permission
    else if bits == 0b1000
    then alignment
    else if bits == 0b1100
    then tlb_conflict
    else other_fault (val % 64)

pub data Syndrome : Type 0 where
  unknown : Syndrome
  wfi_wfe : Syndrome
  mcr_mrc : Syndrome
  mcrr_mrrc : Syndrome
  ldc_stc : Syndrome
  simd_fp : Syndrome
  vmrs : Syndrome
  mrrc : Syndrome
  illegal_execution_state : Syndrome
  svc : (imm : ℕ) → Syndrome
  hvc : (imm : ℕ) → Syndrome
  smc : (imm : ℕ) → Syndrome
  msr_mrs_system : Syndrome
  instruction_abort : (kind : Fault) (level : ℕ) → Syndrome
  pc_alignment_fault : Syndrome
  data_abort : (kind : Fault) (level : ℕ) → Syndrome
  sp_alignment_fault : Syndrome
  trapped_fpu : Syndrome
  s_error : Syndrome
  breakpoint : Syndrome
  step : Syndrome
  watchpoint : Syndrome
  brk : (imm : ℕ) → Syndrome
  other_syndrome : (class : ℕ) → Syndrome

-- The `match` of `impl From<u32> for Syndrome`, on the class `ec`.
unfoldable pub syndrome_of : ℕ → Fault → ℕ → ℕ → Syndrome
syndrome_of ec kind level imm =
    if ec == 0b000000
    then unknown
    else if ec == 0b000001
    then wfi_wfe
    else if ec == 0b000011
    then mcr_mrc
    else if ec == 0b000100
    then mcrr_mrrc
    else if ec == 0b000101
    then mcr_mrc
    else if ec == 0b000110
    then ldc_stc
    else if ec == 0b000111
    then simd_fp
    else if ec == 0b001000
    then vmrs
    else if ec == 0b001100
    then mrrc
    else if ec == 0b001110
    then illegal_execution_state
    else if ec == 0b010001
    then svc imm
    else if ec == 0b010010
    then hvc imm
    else if ec == 0b010011
    then smc imm
    else if ec == 0b010101
    then svc imm
    else if ec == 0b010110
    then hvc imm
    else if ec == 0b010111
    then smc imm
    else if ec == 0b011000
    then msr_mrs_system
    else if (ec == 0b100000) || (ec == 0b100001)
    then instruction_abort kind level
    else if ec == 0b100010
    then pc_alignment_fault
    else if (ec == 0b100100) || (ec == 0b100101)
    then data_abort kind level
    else if ec == 0b100110
    then sp_alignment_fault
    else if ec == 0b101000
    then trapped_fpu
    else if ec == 0b101100
    then trapped_fpu
    else if ec == 0b101111
    then s_error
    else if ec == 0b110000
    then breakpoint
    else if ec == 0b110001
    then breakpoint
    else if ec == 0b110010
    then step
    else if ec == 0b110011
    then step
    else if ec == 0b110100
    then watchpoint
    else if ec == 0b110101
    then watchpoint
    else if ec == 0b111100
    then brk imm
    else other_syndrome ec

-- `impl From<u32> for Syndrome`
unfoldable pub syndrome_from : ℕ → Syndrome
syndrome_from esr =
    let iss = esr % 2 ^ 24 in syndrome_of (esr / 2 ^ 26) (fault_from iss) (iss % 4) (iss % 2 ^ 16)

abbrev pub is_served : Fault → Bool
is_served translation = true
is_served access_flag = true
is_served permission = true
is_served _ = false

abbrev pub is_abort : Syndrome → Bool
is_abort (data_abort kind level) = is_served kind
is_abort (instruction_abort kind level) = is_served kind
is_abort _ = false

-- `is_page_fault`, with the value of ESR_EL1
unfoldable pub is_page_fault : ℕ → ℕ → Bool
unfolding syndrome_from
is_page_fault trap esr =
    if not (trap == 0x2) then false else is_abort (syndrome_from (esr % 2 ^ 32))

abbrev pub is_syscall : ℕ → Bool
is_syscall trap = trap == 0x00002

abbrev pub is_irq : ℕ → Bool
is_irq trap = leb 0x10002 trap && leb trap 0x10002

is_served-fault_from :
    (val : ℕ) → is_served (fault_from val) ≡ (leb 1 (val / 4 % 16) && leb (val / 4 % 16) 3)
unfolding fault_from
is_served-fault_from val = ground arith

is_abort-syndrome_of :
    (ec : ℕ) (kind : Fault) (level imm : ℕ)
    → is_abort (syndrome_of ec kind level imm)
      ≡ (((ec / 2 == 16) || (ec / 2 == 18)) && is_served kind)
unfolding syndrome_of
is_abort-syndrome_of ec kind level imm = ground arith

-- An exception is a page fault exactly when it is synchronous from a lower level, its class is an
-- instruction or a data abort from a lower or the same level, and its fault status is that of a
-- translation, access flag or permission fault. Every page fault passes the test for a system call
-- too, and none the test for an interrupt.
pub is_page_fault_iff :
    (trap esr : ℕ)
    → (is_page_fault trap esr ≡ (
        (trap == 2)
        && ((esr / 2 ^ 27 % 32 == 16) || (esr / 2 ^ 27 % 32 == 18))
        && (leb 1 (esr / 4 % 16) && leb (esr / 4 % 16) 3)))
      × (is_page_fault trap esr ≡ true → (is_syscall trap ≡ true) × (is_irq trap ≡ false))
unfolding is_page_fault syndrome_from
is_page_fault_iff trap esr =
    let w = esr % 2 ^ 32 in
    let class : w / 2 ^ 26 / 2 ≡ esr / 2 ^ 27 % 32 = omega arith in
    let status : w % 2 ^ 24 / 4 % 16 ≡ esr / 4 % 16 = omega arith in
    let served = is_served-fault_from (w % 2 ^ 24) in
    let abort =
      is_abort-syndrome_of (w / 2 ^ 26) (fault_from (w % 2 ^ 24)) (w % 2 ^ 24 % 4)
        (w % 2 ^ 24 % 2 ^ 16) in
    rw (abort, served, class, status) (ground arith)
