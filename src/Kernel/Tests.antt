-- ===== src/Kernel/Tests.antt =====
-- Concrete exceptions, events, signals and files, on which the theorems on them are applied.
use queen.Base.{
  Option, none, ℕ, suc, ◌+◌, ◌-◌, ◌/◌, ◌%◌, ◌^◌, ◌≡◌, refl, Bool, true, false, not, ◌&&◌, ◌||◌,
  ◌==◌, ltb, leb, if◌then◌else◌, [], ◌∷◌, length, arith, done, some, bit_and,
}
use queen.Kernel.Trap.{is_page_fault, is_syscall, is_irq, is_page_fault_iff}
use queen.Kernel.Spin.{Cpu, Guard, Block, skip, critical, run, lock, run-critical}
use queen.Kernel.EventBus.{EventBus}
use queen.Kernel.Signal.{
  Pending, IsConsistent, count, is_standard, contains, is_for, empty, send_signal, find_signal,
  take_signal, send_signal-IsConsistent, take_signal-IsConsistent,
}
use queen.Kernel.FileHandle.{ok, err, Store, FileHandle, from_start, INode, seek}

-- A translation fault of a data access from a lower level.
is_page_fault_iff_example :
    (is_page_fault 2 0x9200_0045 ≡ (
      (2 == 2)
      && ((0x9200_0045 / 2 ^ 27 % 32 == 16) || (0x9200_0045 / 2 ^ 27 % 32 == 18))
      && (leb 1 (0x9200_0045 / 4 % 16) && leb (0x9200_0045 / 4 % 16) 3)))
    × (is_page_fault 2 0x9200_0045 ≡ true → (is_syscall 2 ≡ true) × (is_irq 2 ≡ false))
is_page_fault_iff_example = is_page_fault_iff 2 0x9200_0045

abbrev quiet_bus : EventBus
quiet_bus = record {
  event = 0;
  callbacks = record { takes = λ s. not (bit_and s 1 == 0); waker = 3 } ∷ [];
}

abbrev interrupted : Pending
interrupted = record { sig_queue = (2, 2 ^ 64 - 1) ∷ []; pending_sigset = λ b. b == 2 }

interrupted-IsConsistent : IsConsistent interrupted
interrupted-IsConsistent = record {
  signals = λ sig none_such. ground arith;
  once = λ sig lo hi. ground arith;
  queued = λ sig signal pending. ground arith;
}

abbrev alarmed : Pending
alarmed = record {
  sig_queue = (2, 2 ^ 64 - 1) ∷ (14, 7) ∷ [];
  pending_sigset = λ b. if b == 14 then true else b == 2;
}

alarm-sent : send_signal interrupted 7 14 ≡ done alarmed
unfolding send_signal
alarm-sent = refl

send_signal-IsConsistent_example :
    IsConsistent alarmed
    × (contains alarmed.pending_sigset 14
        ≡ ((14 % 64 == 14 % 64) || contains interrupted.pending_sigset 14))
    × (count 14 alarmed.sig_queue ≡ (
        if (14 == 14) && not (is_standard 14 && contains interrupted.pending_sigset 14)
        then suc (count 14 interrupted.sig_queue)
        else count 14 interrupted.sig_queue))
send_signal-IsConsistent_example =
    send_signal-IsConsistent interrupted alarmed 7 14 14 interrupted-IsConsistent alarm-sent

abbrev handled : Pending
handled = record { sig_queue = []; pending_sigset = λ b. if b == 2 then false else b == 2 }

interrupt-taken : take_signal 7 empty interrupted ≡ done (some ((2, 2 ^ 64 - 1), handled))
unfolding take_signal find_signal
interrupt-taken = refl

take_signal-IsConsistent_example :
    IsConsistent handled
    × (is_for 7 (2 ^ 64 - 1) ≡ true)
    × (contains empty 2 ≡ false)
    × (count 2 interrupted.sig_queue ≡ count 2 handled.sig_queue + (if 2 == 2 then 1 else 0))
    × (contains handled.pending_sigset 2
        ≡ (contains interrupted.pending_sigset 2 && not (2 % 64 == 2 % 64)))
take_signal-IsConsistent_example =
    take_signal-IsConsistent interrupted handled 7 2 empty (2, 2 ^ 64 - 1) interrupted-IsConsistent
      interrupt-taken

-- A file that is its size; a write makes it as long as it has to be.
abbrev sized_file : INode ℕ ℕ
sized_file = record {
  size = λ n. ok n;
  write_at = λ n offset buf.
      ok (length buf, if ltb n (offset + length buf) then offset + length buf else n);
  resize = λ n len. ok len;
  get_entry = λ n i. err 20;
  invalid_param = 22;
}

abbrev opened : Bool → Store
opened append k = record {
  offset = 5;
  options = record { read = true; write = true; append = append };
}

abbrev handle : FileHandle
handle = record { inode = 3; description = 1; path = b'/' ∷ []; fd_cloexec = false }

abbrev sought : Store
sought k = if k == 1 then record (opened false 1) { offset = 8 } else opened false k

seek-8 : seek sized_file handle (opened false) 100 (from_start 8) ≡ ok (8, sought)
unfolding seek
seek-8 = refl

-- Interrupts are enabled, and lock 9 is held by another processor.
abbrev cpu : Cpu
cpu = record { daif = record { d = true; a = false; i = false; f = true }; held = λ k. k == 9 }

-- Lock 1 with lock 2 inside, then lock 2.
abbrev nested : Block
nested = critical 1 (critical 2 skip skip) (critical 2 skip skip)

abbrev value_of : Option Cpu → Cpu
value_of none = cpu
value_of (some c) = c

nested-done : run nested cpu ≡ some (value_of (run nested cpu))
unfolding run
nested-done = refl

run-critical_example :
    (g : Guard) × (c1 c2 : Cpu) × (lock cpu 1 ≡ some (g, c1))
    × (run (critical 2 skip skip) c1 ≡ some c2)
    × (c1.daif.i ≡ true)
    × (c2.daif.i ≡ true)
    × (c1.held 1 ≡ true)
    × (c2.held 1 ≡ true)
    × ((value_of (run nested cpu)).daif ≡ cpu.daif)
    × ((value_of (run nested cpu)).held 9 ≡ cpu.held 9)
run-critical_example =
    run-critical 1 (critical 2 skip skip) (critical 2 skip skip) cpu (value_of (run nested cpu)) 9
      nested-done
