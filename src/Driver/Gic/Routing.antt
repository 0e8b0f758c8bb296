-- ===== src/Driver/Gic/Routing.antt =====
-- Which interrupts the distributor enables, and where it sends them: `GicD::boot_core_init` and
-- `GicD::enable` of kernel/src/drivers/irq/gicv2/gicd.rs.
use queen.Base.{
  ℕ, ◌+◌, ◌-◌, ◌/◌, ◌%◌, ◌^◌, ◌<◌, ◌≡◌, refl, true, ◌||◌, ◌==◌, ltb, leb, bit_or, done, inl, inr,
  Bool-cases, arith,
}
use queen.Base.Bits.{bit, bit-bit_or, bit-pow}
use queen.Driver.Gic.{Distributor, enable}

module _ {D : Type 0} (hw : Distributor D) where
  -- One more bit in a word of ISENABLER.
  set_one :
      (d : D) (irq q : ℕ)
      → hw.is_enabled
          (hw.set_isenabler d (irq / 32) (bit_or (hw.isenabler d (irq / 32)) (2 ^ (irq % 32))))
          q
        ≡ (hw.is_enabled d q || (irq == q))
  set_one d irq q =
      let word = hw.isenabler d (irq / 32) in
      let set = hw.is_enabled-set_isenabler d (irq / 32) (bit_or word (2 ^ (irq % 32))) q in
      let read = bit-bit_or word (2 ^ (irq % 32)) (q % 32) in
      let one = bit-pow (irq % 32) (q % 32) in
      let old = hw.bit-isenabler d q in
      elim (Bool-cases (q / 32 == irq / 32)) [
        | inl same ↦
            let e : q / 32 ≡ irq / 32 = ground arith in
            let here : bit word (q % 32) ≡ hw.is_enabled d q = cc (e, old) in
            rw (set, read, one, here) (ground arith)
        | inr other ↦ rw (set, other) (ground arith)
      ]

  -- An interrupt number below 1024 can be enabled, private or shared: afterwards it is enabled, and
  -- every other interrupt is enabled if it was before.
  pub enable-is_enabled :
      (d : D) (irq : ℕ)
      → irq < 1024
      → (d' : D) × (enable hw d irq ≡ done d')
        × ((q : ℕ) → hw.is_enabled d' q ≡ (hw.is_enabled d q || (irq == q)))
  unfolding enable
  enable-is_enabled d irq small = elim (Bool-cases (leb irq 31)) [
    | inl private ↦
        let first : irq / 32 ≡ 0 = ground arith in
        let one = λ (q : ℕ). set_one d irq q in
        rw (private, enable) (_, refl, λ q. rw first at one q)
    | inr shared ↦
        let index : irq / 32 - 1 + 1 ≡ irq / 32 = ground arith in
        let inside : ltb (irq / 32 - 1) 31 ≡ true = ground arith in
        rw (shared, inside, index, enable) (_, refl, λ q. set_one d irq q)
  ]
