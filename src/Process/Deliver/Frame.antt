-- ===== src/Process/Deliver/Frame.antt =====
-- What the frame of a handler keeps of the thread that it interrupts.
use queen.Base.{ℕ, ◌≡◌, refl, true, Bool-cases, inl, inr, List, some, done, arith}
use queen.Memory.Area.{MemoryArea}
use queen.Memory.Set.{check_write_array}
use queen.Kernel.Signal.{contains}
use queen.Process.World.{SignalAction}
use queen.Process.Context.{fill_tf, fill_tf-from_tf}
use queen.Process.Deliver.{
  State, SignalFrame, enter_handler, frame_sp, frame_size, new_frame, entered, old_ret_code,
}

-- When a handler is entered, it starts at its address with the number of its signal, which is blocked
-- from now on. Its stack pointer is at a frame that the program may write, and that frame holds the old
-- signal mask, the old alternate stack, and a context that brings back all registers but `x11`.
pub enter_handler-saves :
    (areas : List MemoryArea) (s s' : State) (action : SignalAction) (signo : ℕ)
    → enter_handler areas s action signo ≡ done s'
    → (frame : SignalFrame) × (s'.frames s'.tf.sp ≡ some frame)
      × (check_write_array areas frame_size s'.tf.sp 1 ≡ true)
      × (fill_tf frame.ucontext.context s'.tf ≡ record s.tf { x11 = s.tf.x13 })
      × (frame.ucontext.sig_mask ≡ s.thread.sig_mask)
      × (frame.ucontext.stack ≡ s.thread.signal_alternate_stack)
      × (s'.tf.elr ≡ action.handler)
      × (s'.tf.x0 ≡ signo)
      × (contains s'.thread.sig_mask signo ≡ true)
unfolding enter_handler
enter_handler-saves areas s s' action signo e =
    elim (Bool-cases (check_write_array areas frame_size (frame_sp s.thread s.tf action) 1)) [
      | inr not_writable ↦ absurd (ground arith)
      | inl writable ↦
          let t = entered s action signo in
          let same : t ≡ s' = cc (rw writable at e) in
          let sp = frame_sp s.thread s.tf action in
          rw (← same) (
            new_frame s.thread s.tf action signo (old_ret_code (s.frames sp)),
            ground arith,
            writable,
            (fill_tf-from_tf s.tf t.tf).0,
            refl,
            refl,
            refl,
            refl,
            ground arith,
          )
    ]
