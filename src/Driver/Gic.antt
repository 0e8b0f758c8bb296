-- ===== src/Driver/Gic.antt =====
-- kernel/src/drivers/irq/gicv2: the interrupt controller GICv2. Registers are named as the register
-- blocks name them. The arrays ISENABLER and ICENABLER lie where the architecture has them, and their
-- words are counted as the architecture counts them; ITARGETSR is written where the block has it.
pub mod Routing
pub mod Handling
use queen.Base.{
  ℕ, ◌+◌, ◌-◌, ◌*◌, ◌/◌, ◌%◌, ◌^◌, ◌≤◌, ◌<◌, ◌≡◌, Bool, true, false, not, ◌&&◌, ◌||◌, ◌==◌, ltb,
  leb, if◌then◌else◌, List, [], ◌∷◌, ◌++◌, Option, none, some, bit_or, Outcome, done, panic, assert,
  ◌>>=◌, ◌>>◌, zero, suc,
}
use queen.Base.Bits.{bit, byte}
use queen.Base.Maps.{Map, lookup, insert}

-- The distributor. What it does with a register is the hardware's, as the GICv2 architecture
-- specification says: a bit that is written as 1 enables or disables its interrupt, and a bit that
-- reads as 1 is that of an enabled one. From 0x400 on it has four priorities to a word, from 0x800 on
-- four targets, of which those of the private interrupts, the first eight words, are only read.
pub record Distributor (D : Type 0) : Type 0 where
  pub typer : D → ℕ
  pub itargetsr0 : D → ℕ
  pub isenabler : D → ℕ → ℕ
  pub set_isenabler : D → ℕ → ℕ → D
  pub set_icenabler : D → ℕ → ℕ → D
  -- a word to an offset of the priorities or targets
  pub write_word : D → ℕ → ℕ → D
  pub set_ctlr : D → ℕ → D
  -- whether an interrupt is enabled, the processors that it goes to, and its priority
  pub is_enabled : D → ℕ → Bool
  pub target : D → ℕ → ℕ
  pub priority : D → ℕ → ℕ
  -- what is left of a byte that is written as the priority of an interrupt
  pub priority_of : ℕ → ℕ → ℕ
  pub bit-isenabler : (d : D) (q : ℕ) → bit (isenabler d (q / 32)) (q % 32) ≡ is_enabled d q
  pub is_enabled-set_isenabler :
      (d : D) (i v q : ℕ)
      → is_enabled (set_isenabler d i v) q ≡ (is_enabled d q || ((q / 32 == i) && bit v (q % 32)))
  pub is_enabled-set_icenabler :
      (d : D) (i v q : ℕ)
      → is_enabled (set_icenabler d i v) q
        ≡ (is_enabled d q && not ((q / 32 == i) && bit v (q % 32)))
  pub is_enabled-write_word :
      (d : D) (o v q : ℕ) → 0x400 ≤ o → o < 0xC00 → is_enabled (write_word d o v) q ≡ is_enabled d q
  pub is_enabled-set_ctlr : (d : D) (v q : ℕ) → is_enabled (set_ctlr d v) q ≡ is_enabled d q
  pub target-write_word :
      (d : D) (o v q : ℕ)
      → 0x400 ≤ o
      → o < 0xC00
      → target (write_word d o v) q ≡ (
          if leb 32 q && ltb q ((typer d % 32 + 1) * 32) && (o == 0x800 + q / 4 * 4)
          then byte v (q % 4)
          else target d q)
  pub target-set_icenabler : (d : D) (i v q : ℕ) → target (set_icenabler d i v) q ≡ target d q
  pub target-set_ctlr : (d : D) (v q : ℕ) → target (set_ctlr d v) q ≡ target d q
  pub priority-write_word :
      (d : D) (o v q : ℕ)
      → 0x400 ≤ o
      → o < 0xC00
      → priority (write_word d o v) q ≡ (
          if ltb q 1024 && (o == 0x400 + q / 4 * 4)
          then priority_of q (byte v (q % 4))
          else priority d q)
  pub priority-set_icenabler : (d : D) (i v q : ℕ) → priority (set_icenabler d i v) q ≡ priority d q
  pub priority-set_ctlr : (d : D) (v q : ℕ) → priority (set_ctlr d v) q ≡ priority d q
  pub typer-write_word :
      (d : D) (o v : ℕ) → 0x400 ≤ o → o < 0xC00 → typer (write_word d o v) ≡ typer d

-- Where the array ITARGETSR of `SharedRegisterBlock` starts. The fields lie one behind the other, a gap
-- as long as the two offsets at its sides say; those of the second gap, 0x108 and 0x200, are not where
-- it lies. So the array is at 0x774, and not at 0x820.
abbrev pub itargetsr_offset : ℕ
itargetsr_offset = 4 + 4 + (0x104 - 0x008) + 31 * 4 + 32 * 4 + (0x200 - 0x108) + 32 * 4 + 255 * 4

-- The four fields of a word of ITARGETSR, 8 bits each.
abbrev pub four_targets : ℕ → ℕ
four_targets mask = mask * 2 ^ 24 + mask * 2 ^ 16 + mask * 2 ^ 8 + mask

module _ {D : Type 0} (hw : Distributor D) where
  -- `num_irqs`: the field ITLinesNumber has five bits.
  unfoldable pub num_irqs : D → ℕ
  num_irqs d = (hw.typer d % 32 + 1) * 32

  -- `implemented_itargets_slice`: the length of the slice of the shared ITARGETSR.
  unfoldable pub implemented_itargets : D → Outcome ℕ
  implemented_itargets d = do
    assert (leb 36 (num_irqs d))
    let max_index = (num_irqs d - 32) / 4 - 1
    -- the slice of an array of 248 registers
    assert (leb max_index 248)
    done max_index

  -- The same word to `count` registers of the block's ITARGETSR from index `i` on.
  unfoldable pub route : ℕ → ℕ → ℕ → D → D
  route zero i v d = d
  route (suc count) i v d = route count (suc i) v (hw.write_word d (itargetsr_offset + i * 4) v)

  -- All ones to `count` registers of ICENABLER from `i` on.
  unfoldable pub disable : ℕ → ℕ → D → D
  disable zero i d = d
  disable (suc count) i d = disable count (suc i) (hw.set_icenabler d i (2 ^ 32 - 1))

  -- `local_gic_target_mask`
  abbrev pub local_gic_target_mask : D → ℕ
  local_gic_target_mask d = hw.itargetsr0 d % 256

  -- `boot_core_init`
  unfoldable pub boot_core_init : D → Outcome D
  boot_core_init d = do
    let mask = local_gic_target_mask d
    count ← implemented_itargets d
    let d' = route count 0 (four_targets mask) d
    let words = num_irqs d' / 32
    -- the slice `ICENABLER[1..words]` of an array of 32 registers
    assert (leb words 32)
    done (hw.set_ctlr (disable (words - 1) 1 d') 1)

  -- `GicD::enable`; the shared ISENABLER has 31 registers, from the second of all on.
  unfoldable pub enable : D → ℕ → Outcome D
  enable d irq_num =
      let enable_reg_index = irq_num / 32 in
      let enable_bit = 2 ^ (irq_num % 32) in
      if leb irq_num 31
      then done (hw.set_isenabler d 0 (bit_or (hw.isenabler d 0) enable_bit))
      else (assert (ltb (enable_reg_index - 1) 31)
          >> done (
              hw.set_isenabler d (enable_reg_index - 1 + 1)
                (bit_or (hw.isenabler d (enable_reg_index - 1 + 1)) enable_bit)))

-- The processor interface: reading IAR acknowledges an interrupt, which changes the state.
pub record CpuInterface (W : Type 0) : Type 0 where
  pub read_iar : W → ℕ × W
  pub write_eoir : ℕ → W → W
  pub write_pmr : ℕ → W → W
  pub write_ctlr : ℕ → W → W

module _ {W : Type 0} (gicc : CpuInterface W) where
  -- `priority_accept_all`
  abbrev pub priority_accept_all : W → W
  priority_accept_all w = gicc.write_pmr 255 w

  -- `GicC::enable`
  abbrev pub enable_interface : W → W
  enable_interface w = gicc.write_ctlr 1 w

  -- `pending_irq_number`: the field InterruptID has ten bits.
  abbrev pub pending_irq_number : W → ℕ × W
  pending_irq_number w = let (iar, w') = gicc.read_iar w in (iar % 1024, w')

  -- `mark_completed`
  abbrev pub mark_completed : ℕ → W → W
  mark_completed irq_num w = gicc.write_eoir (irq_num % 1024) w

-- `GicV2::init`, on the boot core or another one.
unfoldable pub init :
    {D W : Type 0} → Distributor D → CpuInterface W → Bool → D → W → Outcome (D × W)
init hw gicc is_boot_core d w = do
  d' ← if is_boot_core then boot_core_init hw d else done d
  done (d', enable_interface gicc (priority_accept_all gicc w))

module _ {A : Type 0} where
  -- The drivers that are registered for an interrupt: `irq_map.entry(irq_num).or_insert_with(Vec::new)`.
  abbrev pub drivers_of : Map (List A) → ℕ → List A
  drivers_of irq_map irq_num = elim (lookup irq_map irq_num) [ none ↦ [] | some drivers ↦ drivers ]

  -- `register_and_enable_local_irq`
  unfoldable pub register_and_enable_local_irq :
      {D : Type 0} → Distributor D → Map (List A) → D → ℕ → A → Outcome (Map (List A) × D)
  register_and_enable_local_irq hw irq_map d irq_num driver = do
    d' ← enable hw d irq_num
    done (insert irq_map irq_num (drivers_of irq_map irq_num ++ driver ∷ []), d')

  -- The loop over the drivers of an interrupt; `handle_interrupt` is a method of each driver.
  unfoldable pub handle_all : {W : Type 0} → (A → W → W) → List A → W → W
  handle_all handle_interrupt [] w = w
  handle_all handle_interrupt (a ∷ drivers) w =
      handle_all handle_interrupt drivers (handle_interrupt a w)

  -- What `handle_pending_irqs` does with the number that is pending.
  unfoldable pub handle_irq :
      {W : Type 0} → CpuInterface W → (A → W → W) → Map (List A) → ℕ → W → Outcome W
  handle_irq gicc handle_interrupt irq_map irq_number w =
      if irq_number == 1023 then done w else elim (lookup irq_map irq_number) [
        | none ↦ panic
        | some drivers ↦
            done (mark_completed gicc irq_number (handle_all handle_interrupt drivers w))
      ]

  -- `handle_pending_irqs`
  unfoldable pub handle_pending_irqs :
      {W : Type 0} → CpuInterface W → (A → W → W) → Map (List A) → W → Outcome W
  handle_pending_irqs gicc handle_interrupt irq_map w =
      let pending = pending_irq_number gicc w in
      handle_irq gicc handle_interrupt irq_map pending.0 pending.1
