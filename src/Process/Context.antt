-- ===== src/Process/Context.antt =====
-- kernel/src/arch/aarch64/signal.rs: the registers that a signal frame keeps, and how they are saved
-- and restored. `Registers` stands for the part of a `UserContext` of the `aarch64` crate that this
-- code reads and writes.
use queen.Base.{ℕ, ◌≡◌, ◌↔◌, refl, ap}

pub record Registers : Type 0 where
  pub x0 : ℕ
  pub x1 : ℕ
  pub x2 : ℕ
  pub x3 : ℕ
  pub x4 : ℕ
  pub x5 : ℕ
  pub x6 : ℕ
  pub x7 : ℕ
  pub x8 : ℕ
  pub x9 : ℕ
  pub x10 : ℕ
  pub x11 : ℕ
  pub x12 : ℕ
  pub x13 : ℕ
  pub x14 : ℕ
  pub x15 : ℕ
  pub x16 : ℕ
  pub x17 : ℕ
  pub x18 : ℕ
  pub x19 : ℕ
  pub x20 : ℕ
  pub x21 : ℕ
  pub x22 : ℕ
  pub x23 : ℕ
  pub x24 : ℕ
  pub x25 : ℕ
  pub x26 : ℕ
  pub x27 : ℕ
  pub x28 : ℕ
  pub x29 : ℕ
  pub x30 : ℕ
  pub sp : ℕ
  pub elr : ℕ
  pub spsr : ℕ

pub record MachineContext : Type 0 where
  pub fault_address : ℕ
  pub x0 : ℕ
  pub x1 : ℕ
  pub x2 : ℕ
  pub x3 : ℕ
  pub x4 : ℕ
  pub x5 : ℕ
  pub x6 : ℕ
  pub x7 : ℕ
  pub x8 : ℕ
  pub x9 : ℕ
  pub x10 : ℕ
  pub x11 : ℕ
  pub x12 : ℕ
  pub x13 : ℕ
  pub x14 : ℕ
  pub x15 : ℕ
  pub x16 : ℕ
  pub x17 : ℕ
  pub x18 : ℕ
  pub x19 : ℕ
  pub x20 : ℕ
  pub x21 : ℕ
  pub x22 : ℕ
  pub x23 : ℕ
  pub x24 : ℕ
  pub x25 : ℕ
  pub x26 : ℕ
  pub x27 : ℕ
  pub x28 : ℕ
  pub x29 : ℕ
  pub x30 : ℕ
  pub sp : ℕ
  pub pc : ℕ
  pub pstate : ℕ

-- `MachineContext::from_tf`, which reads `x13` for `x11`
unfoldable pub from_tf : Registers → MachineContext
from_tf tf = record {
  fault_address = 0;
  x0 = tf.x0;
  x1 = tf.x1;
  x2 = tf.x2;
  x3 = tf.x3;
  x4 = tf.x4;
  x5 = tf.x5;
  x6 = tf.x6;
  x7 = tf.x7;
  x8 = tf.x8;
  x9 = tf.x9;
  x10 = tf.x10;
  x11 = tf.x13;
  x12 = tf.x12;
  x13 = tf.x13;
  x14 = tf.x14;
  x15 = tf.x15;
  x16 = tf.x16;
  x17 = tf.x17;
  x18 = tf.x18;
  x19 = tf.x19;
  x20 = tf.x20;
  x21 = tf.x21;
  x22 = tf.x22;
  x23 = tf.x23;
  x24 = tf.x24;
  x25 = tf.x25;
  x26 = tf.x26;
  x27 = tf.x27;
  x28 = tf.x28;
  x29 = tf.x29;
  x30 = tf.x30;
  sp = tf.sp;
  pc = tf.elr;
  pstate = tf.spsr;
}

-- `MachineContext::fill_tf`
unfoldable pub fill_tf : MachineContext → Registers → Registers
fill_tf context tf = record tf {
  x0 = context.x0;
  x1 = context.x1;
  x2 = context.x2;
  x3 = context.x3;
  x4 = context.x4;
  x5 = context.x5;
  x6 = context.x6;
  x7 = context.x7;
  x8 = context.x8;
  x9 = context.x9;
  x10 = context.x10;
  x11 = context.x11;
  x12 = context.x12;
  x13 = context.x13;
  x14 = context.x14;
  x15 = context.x15;
  x16 = context.x16;
  x17 = context.x17;
  x18 = context.x18;
  x19 = context.x19;
  x20 = context.x20;
  x21 = context.x21;
  x22 = context.x22;
  x23 = context.x23;
  x24 = context.x24;
  x25 = context.x25;
  x26 = context.x26;
  x27 = context.x27;
  x28 = context.x28;
  x29 = context.x29;
  x30 = context.x30;
  sp = context.sp;
  elr = context.pc;
  spsr = context.pstate;
}

-- `set_signal_handler`
abbrev pub set_signal_handler : Registers → ℕ → ℕ → ℕ → ℕ → ℕ → Registers
set_signal_handler tf sp handler signo siginfo ucontext = record tf {
  sp = sp;
  elr = handler;
  x0 = signo;
  x1 = siginfo;
  x2 = ucontext;
}

-- Whatever the registers hold in between, a context that was saved and is then restored gives every
-- register its value at the save, with the exception of `x11`, which gets that of `x13`; so a save and a
-- restore lose nothing exactly when these two are equal.
pub fill_tf-from_tf :
    (tf tf' : Registers)
    → (fill_tf (from_tf tf) tf' ≡ record tf { x11 = tf.x13 })
      × ((fill_tf (from_tf tf) tf' ≡ tf) ↔ (tf.x13 ≡ tf.x11))
unfolding fill_tf from_tf
fill_tf-from_tf tf tf' =
    (refl, ((λ same. ap (λ r. r.x11) same), (λ same. ap (λ x. record tf { x11 = x }) same)))
