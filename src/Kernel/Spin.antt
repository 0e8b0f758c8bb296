-- ===== src/Kernel/Spin.antt =====
-- kernel/src/sync/spin.rs: MutexNoIrq, a lock of the crate `spin` that is held with interrupts masked,
-- and its guard; kernel/src/arch/aarch64/interrupt/mod.rs: the mask of interrupts, the register DAIF.
use queen.Base.{
  ℕ, ◌≡◌, refl, Bool, true, false, ◌==◌, if◌then◌else◌, Bool-cases, inl, inr, Option, none, some,
  Option-cases, arith,
}

-- The four mask bits of DAIF.
pub record Daif : Type 0 where
  pub d : Bool
  pub a : Bool
  pub i : Bool
  pub f : Bool

-- What a processor sees: its mask, and which locks are held.
pub record Cpu : Type 0 where
  pub daif : Daif
  pub held : ℕ → Bool

-- `MutexGuardNoIrq`: the lock and the mask to restore
pub record Guard : Type 0 where
  pub lock : ℕ
  pub flags : Daif

-- `interrupt::disable`, `disable_and_store` and `restore`
abbrev pub disable : Cpu → Cpu
disable c = record c { daif = record c.daif { i = true } }

abbrev pub disable_and_store : Cpu → Daif × Cpu
disable_and_store c = (c.daif, disable c)

abbrev pub restore : Daif → Cpu → Cpu
restore flags c = record c { daif = flags }

abbrev pub set_held : Cpu → ℕ → Bool → Cpu
set_held c m b = record c { held = λ k. if k == m then b else c.held k }

-- `MutexNoIrq::try_lock`: without a guard when the lock is held
unfoldable pub try_lock : Cpu → ℕ → Option Guard × Cpu
try_lock c m =
    let (flags, c') = disable_and_store c in
    if c'.held m
    then (none, c')
    else (some (record { lock = m; flags = flags }), set_held c' m true)

-- `MutexNoIrq::lock`: none while it spins, since then another processor holds the lock
unfoldable pub lock : Cpu → ℕ → Option (Guard × Cpu)
lock c m =
    let (flags, c') = disable_and_store c in
    if c'.held m then none else some (record { lock = m; flags = flags }, set_held c' m true)

-- `Drop for MutexGuardNoIrq`: the lock is released first, then the mask is restored
unfoldable pub drop : Guard → Cpu → Cpu
drop g c = restore g.flags (set_held c g.lock false)

-- `MutexNoIrq::force_unlock`
abbrev pub force_unlock : Cpu → ℕ → Cpu
force_unlock c m = set_held c m false

-- Code that holds locks in nested blocks: nothing, or a lock around a block and what follows.
pub data Block : Type 0 where
  skip : Block
  critical : ℕ → Block → Block → Block

-- A run of a block; none when it spins.
unfoldable pub run : Block → Cpu → Option Cpu
unfolding lock drop
run skip c = some c
run (critical m body rest) c = elim (lock c m) [
  | none ↦ none
  | some (g, c1) ↦ elim (run body c1) [ none ↦ none | some c2 ↦ run rest (drop g c2) ]
]

abbrev Restored : Cpu → Cpu → ℕ → Type 0
Restored c c' k = (c'.daif ≡ c.daif) × (c'.held k ≡ c.held k)

-- One critical section, with what its body and the rest keep.
section-Restored :
    (m k : ℕ) (c c' c1 c2 : Cpu) (g : Guard)
    → lock c m ≡ some (g, c1)
    → c2.held k ≡ c1.held k
    → Restored (drop g c2) c' k
    → Restored c c' k
unfolding lock drop
section-Restored m k c c' c1 c2 g locked inner outer = elim (Bool-cases (c.held m)) [
  | inl busy ↦ absurd (ground arith)
  | inr free ↦ ground arith
]

run-Restored : (b : Block) (c c' : Cpu) (k : ℕ) → run b c ≡ some c' → Restored c c' k
unfolding run
run-Restored skip c c' k e = (let same : c ≡ c' = cc in rw same (refl, refl))
run-Restored (critical m body rest) c c' k e = elim (Option-cases (lock c m)) [
  | inl spins ↦ absurd (ground arith)
  | inr ((g, c1), locked) ↦ elim (Option-cases (run body c1)) [
    | inl spins ↦ absurd (ground arith)
    | inr (c2, inner) ↦
        let after : run rest (drop g c2) ≡ some c' = ground arith in
        section-Restored m k c c' c1 c2 g locked (run-Restored body c1 c2 k inner).1
          (run-Restored rest (drop g c2) c' k after)
  ]
]

-- A critical section that ends has run its body with interrupts masked from its start to its end, and
-- with its lock held; afterwards, and whatever sections its body and the code behind it have, the mask
-- of interrupts and every lock are as before.
pub run-critical :
    (m : ℕ) (body rest : Block) (c c' : Cpu) (k : ℕ)
    → run (critical m body rest) c ≡ some c'
    → (g : Guard) × (c1 c2 : Cpu) × (lock c m ≡ some (g, c1))
      × (run body c1 ≡ some c2)
      × (c1.daif.i ≡ true)
      × (c2.daif.i ≡ true)
      × (c1.held m ≡ true)
      × (c2.held m ≡ true)
      × (c'.daif ≡ c.daif)
      × (c'.held k ≡ c.held k)
unfolding run lock
run-critical m body rest c c' k e = elim (Bool-cases (c.held m)) [
  | inl busy ↦ absurd (ground arith)
  | inr free ↦
      let c1 = set_held (disable c) m true in
      elim (Option-cases (run body c1)) [
        | inl spins ↦ absurd (ground arith)
        | inr (c2, inner) ↦
            let inside = run-Restored body c1 c2 m inner in
            let around = run-Restored (critical m body rest) c c' k e in
            (
              record { lock = m; flags = c.daif },
              c1,
              c2,
              rw free refl,
              inner,
              refl,
              ground arith,
              ground arith,
              ground arith,
              around.0,
              around.1,
            )
      ]
]
