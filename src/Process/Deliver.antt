-- ===== src/Process/Deliver.antt =====
-- kernel/src/signal/mod.rs: the rest of `handle_signal`, which takes the pending signals of a thread
-- one by one and ends the process, ignores them, or lays out a frame for a handler. Frames lie in a
-- memory of frames, at their addresses; the sizes and offsets are those of the `repr(C)` types.
pub mod Quiet
pub mod Frame
use queen.Base.{
  ℕ, zero, suc, ◌+◌, ◌-◌, ◌^◌, Bool, true, false, not, ◌||◌, ◌&&◌, ◌==◌, if◌then◌else◌, bit_and,
  bit_or, List, [], ◌∷◌, Option, none, some, length, Outcome, done, panic, ◌>>=◌, add_word,
  sub_word,
}
use queen.Kernel.Signal.{Sigset, Pending, Queued, take_signal, find_signal, add, add_set, contains}
use queen.Memory.Area.{MemoryArea}
use queen.Memory.Set.{check_write_array}
use queen.Process.Context.{Registers, MachineContext, from_tf, set_signal_handler}
use queen.Process.World.{SignalAction, SignalStack, Process, Thread, World, put, exit}

abbrev sig_dfl : ℕ
sig_dfl = 0

abbrev sig_ign : ℕ
sig_ign = 1

abbrev sig_err : ℕ
sig_err = 2 ^ 64 - 2

-- Flags of `SignalActionFlags` and `SignalStackFlags`
abbrev sa_onstack : ℕ
sa_onstack = 0x08000000

abbrev sa_restorer : ℕ
sa_restorer = 0x04000000

abbrev ss_onstack : ℕ
ss_onstack = 1

abbrev ss_disable : ℕ
ss_disable = 2

abbrev ss_autodisarm : ℕ
ss_autodisarm = 0x80000000

abbrev has_flag : ℕ → ℕ → Bool
has_flag flags flag = bit_and flags flag == flag

-- `size_of::<SignalFrame>()`, and the offsets of its parts
abbrev pub frame_size : ℕ
frame_size = 472

abbrev pub info_offset : ℕ
info_offset = 8

abbrev pub ucontext_offset : ℕ
ucontext_offset = 136

abbrev ret_code_offset : ℕ
ret_code_offset = 464

-- `SignalUserContext`, without its two fields that are always 0
pub record SignalUserContext : Type 0 where
  pub stack : SignalStack
  pub context : MachineContext
  pub sig_mask : Sigset

-- `SignalFrame`; `ret_code` is the code that it is given, if any.
pub record SignalFrame : Type 0 where
  pub ret_code_addr : ℕ
  pub info : ℕ
  pub ucontext : SignalUserContext
  pub ret_code : Option (List ℕ)

abbrev pub ret_code_bytes : List ℕ
ret_code_bytes = 0 ∷ 0 ∷ 0 ∷ 0 ∷ 0 ∷ 0 ∷ 0 ∷ []

abbrev pub Frames : Type 0
Frames = ℕ → Option SignalFrame

-- What `handle_signal` reads and changes.
pub record State : Type 0 where
  pub world : World
  pub thread : Thread
  pub tf : Registers
  pub frames : Frames

-- The alternate stack while a handler runs on it.
abbrev pub occupied : SignalStack → SignalStack
occupied s =
    let flags = bit_or s.flags ss_onstack in
    record s { flags = if has_flag s.flags ss_autodisarm then bit_or flags ss_disable else flags }

abbrev pub on_alternate : SignalStack → SignalAction → Bool
on_alternate s action = has_flag action.flags sa_onstack && not (has_flag s.flags ss_disable)

-- The address of the frame.
abbrev pub frame_sp : Thread → Registers → SignalAction → ℕ
frame_sp t tf action =
    let s = t.signal_alternate_stack in
    sub_word (if on_alternate s action then add_word s.sp s.size else tf.sp) frame_size

-- The thread while the handler of `action` runs for a signal.
abbrev pub masked : Thread → SignalAction → ℕ → Thread
masked t action signo = record t {
  sig_mask = add_set (add t.sig_mask signo) action.mask;
  signal_alternate_stack =
      if on_alternate t.signal_alternate_stack action
      then occupied t.signal_alternate_stack
      else t.signal_alternate_stack;
}

abbrev pub new_frame : Thread → Registers → SignalAction → ℕ → Option (List ℕ) → SignalFrame
new_frame t tf action signo old_code =
    let restorer = has_flag action.flags sa_restorer in
    record {
      ret_code_addr =
          if restorer then action.restorer else add_word (frame_sp t tf action) ret_code_offset;
      info = signo;
      ucontext = record {
        stack = t.signal_alternate_stack;
        context = from_tf tf;
        sig_mask = t.sig_mask;
      };
      ret_code = if restorer then old_code else some ret_code_bytes;
    }

abbrev pub old_ret_code : Option SignalFrame → Option (List ℕ)
old_ret_code none = none
old_ret_code (some frame) = frame.ret_code

-- The state in which the handler of `action` starts.
abbrev pub entered : State → SignalAction → ℕ → State
entered s action signo =
    let sig_sp = frame_sp s.thread s.tf action in
    record s {
      thread = masked s.thread action signo;
      tf =
          set_signal_handler s.tf sig_sp action.handler signo (add_word sig_sp info_offset)
            (add_word sig_sp ucontext_offset);
      frames = λ a.
          if a == sig_sp
          then some (new_frame s.thread s.tf action signo (old_ret_code (s.frames sig_sp)))
          else s.frames a;
    }

-- The branch of the match for a handler of the program. A frame that may not be written panics.
unfoldable pub enter_handler : List MemoryArea → State → SignalAction → ℕ → Outcome State
enter_handler areas s action signo =
    if check_write_array areas frame_size (frame_sp s.thread s.tf action) 1
    then done (entered s action signo)
    else panic

-- The signals whose default action ends the process: SIGALRM, SIGHUP and SIGINT.
abbrev pub is_terminating : ℕ → Bool
is_terminating signo = (signo == 14) || (signo == 1) || (signo == 2)

-- The body of the loop for a signal that was taken: whether the thread exits, and the state.
unfoldable pub act : (ℕ → Bool) → List MemoryArea → State → ℕ → Outcome (Bool × State)
act alive areas s signo =
    let action = (s.world.heap s.thread.process).dispositions signo in
    if action.handler == sig_dfl
    then (if is_terminating signo
        then done (true, record s { world = exit alive s.world s.thread.process (signo + 128) })
        else done (false, s))
    else if action.handler == sig_ign
    then done (false, s)
    else if action.handler == sig_err
    then panic
    else enter_handler areas s action signo >>= λ s'. done (false, s')

-- The search at the head of the loop, with the signal taken off the process.
abbrev pub pending : State → Pending
pending s = (s.world.heap s.thread.process).signals

abbrev pub with_pending : State → Pending → State
with_pending s p = record s {
  world = put s.world s.thread.process (record (s.world.heap s.thread.process) { signals = p });
}

-- How the loop goes on after a signal, and after a search.
abbrev pub after_act :
    (State → Outcome (Option (Bool × State))) → Bool × State → Outcome (Option (Bool × State))
after_act next (true, s) = done (some (true, s))
after_act next (false, s) = next s

abbrev pub after_search :
    (State → Outcome (Option (Bool × State)))
    → (ℕ → Bool)
    → List MemoryArea
    → State
    → Option (Queued × Pending)
    → Outcome (Option (Bool × State))
after_search next alive areas s none = done (some (false, s))
after_search next alive areas s (some ((signo, tid), p)) =
    act alive areas (with_pending s p) signo >>= after_act next

-- The loop, on fuel: none when the fuel runs out.
unfoldable pub handle_loop :
    ℕ → (ℕ → Bool) → List MemoryArea → State → Outcome (Option (Bool × State))
handle_loop zero alive areas s = done none
handle_loop (suc fuel) alive areas s =
    take_signal s.thread.tid s.thread.sig_mask (pending s)
    >>= after_search (λ s'. handle_loop fuel alive areas s') alive areas s

-- `handle_signal`: a round for each queued signal and one more.
unfoldable pub handle_signal :
    (ℕ → Bool) → List MemoryArea → State → Outcome (Option (Bool × State))
unfolding handle_loop act enter_handler
handle_signal alive areas s = handle_loop (suc (length (pending s).sig_queue)) alive areas s

-- `Thread::has_signal_to_handle`
abbrev is_found : Option (Queued × List Queued) → Bool
is_found none = false
is_found (some found) = true

unfoldable pub has_signal_to_handle : State → Outcome Bool
has_signal_to_handle s =
    find_signal s.thread.tid s.thread.sig_mask (pending s).sig_queue >>= λ found.
    done (is_found found)
