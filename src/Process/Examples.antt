-- ===== src/Process/Examples.antt =====
-- Concrete registers, signals, a small file system and a small program, on which the theorems on the
-- start of programs, on directories and on the delivery of signals are applied.
use queen.Base.{
  ℕ, ◌-◌, ◌^◌, ◌≡◌, ◌↔◌, refl, Bool, true, false, not, ◌&&◌, ◌==◌, ltb, if◌then◌else◌, List, [],
  ◌∷◌, Option, none, some, arith, Outcome, done, panic,
}
use queen.Kernel.Signal.{contains, take_signal, find_signal}
use queen.Memory.Area.{MemoryArea, check_write}
use queen.Memory.Handler.{delay}
use queen.Memory.Set.{check_write_array, check_loop}
use queen.Process.World.{SignalAction, World}
use queen.Process.Context.{Registers, from_tf, fill_tf, fill_tf-from_tf}
use queen.Process.Deliver.{
  State, SignalFrame, enter_handler, frame_size, handle_signal, has_signal_to_handle,
}
use queen.Process.Deliver.Frame.{enter_handler-saves}
use queen.Process.Deliver.Quiet.{handle_signal-quiet}
use queen.Base.Maps.{lookup, insert, contains_key, free_from, free_within}
use queen.Kernel.FileHandle.{Result, ok, err, Store, FileHandle}
use queen.Kernel.FileHandle
use queen.Process.Calls.{file_error, eisdir}
use queen.Process.Path.{split_path}
use queen.Process.Directory.{
  Vfs, FsResult, FileType, file, dir, entry_not_found, other_error, Caller, OpenFlags, to_options,
  lookup_inode_at, lookup_inode, sys_rmdir, sys_unlink_at, sys_open_at, open_inode,
}
use queen.Process.Directory.Entries.{is_ok, sys_rmdir-removed}
use queen.Process.Directory.Open.{led_to, sys_open_at-opens}
use queen.Process.Tests.{plain_process, plain_thread, empty_world}

-- Each general register holds its number.
abbrev numbered : Registers
numbered = record {
  x0 = 0;
  x1 = 1;
  x2 = 2;
  x3 = 3;
  x4 = 4;
  x5 = 5;
  x6 = 6;
  x7 = 7;
  x8 = 8;
  x9 = 9;
  x10 = 10;
  x11 = 11;
  x12 = 12;
  x13 = 13;
  x14 = 14;
  x15 = 15;
  x16 = 16;
  x17 = 17;
  x18 = 18;
  x19 = 19;
  x20 = 20;
  x21 = 21;
  x22 = 22;
  x23 = 23;
  x24 = 24;
  x25 = 25;
  x26 = 26;
  x27 = 27;
  x28 = 28;
  x29 = 29;
  x30 = 30;
  sp = 0x9000;
  elr = 0x400;
  spsr = 0;
}

fill_tf-from_tf_example :
    (fill_tf (from_tf numbered) (record numbered { x0 = 99 }) ≡ record numbered { x11 = 13 })
    × ((fill_tf (from_tf numbered) (record numbered { x0 = 99 }) ≡ numbered) ↔ (◌≡◌ {A = ℕ} 13 11))
fill_tf-from_tf_example = fill_tf-from_tf numbered (record numbered { x0 = 99 })

-- SIGUSR1 has a handler, and SIGALRM its default action; memory is writable below 0x10000.
abbrev user_handler : SignalAction
user_handler = record { handler = 0x700; flags = 0; restorer = 0; mask = λ b. b == 12 }

abbrev low_memory : List MemoryArea
low_memory =
    record {
      start_addr = 0;
      end_addr = 0x10000;
      attr = record { user = true; readonly = false; execute = false; mmio = 0 };
      handler = delay;
      name = "low";
    }
    ∷ []

abbrev signalled_world : World
signalled_world = record empty_world {
  heap = λ ref. record (plain_process 1 [] (1 ∷ [])) {
    signals = record {
      sig_queue = (10, 1) ∷ (12, 1) ∷ (10, 5) ∷ [];
      pending_sigset = λ b. (b == 10);
    };
    dispositions = λ signo. user_handler;
  };
}

abbrev signalled : State
signalled = record {
  world = signalled_world;
  thread = plain_thread 1 0;
  tf = numbered;
  frames = λ a. none;
}

abbrev state_or : {A : Type 0} → A → Outcome A → A
state_or a (done b) = b
state_or a panic = a

abbrev in_handler : State
in_handler = state_or signalled (enter_handler low_memory signalled user_handler 10)

entered-done : enter_handler low_memory signalled user_handler 10 ≡ done in_handler
unfolding enter_handler check_write_array check_loop check_write
entered-done = refl

enter_handler-saves_example :
    (frame : SignalFrame) × (in_handler.frames in_handler.tf.sp ≡ some frame)
    × (check_write_array low_memory frame_size in_handler.tf.sp 1 ≡ true)
    × (fill_tf frame.ucontext.context in_handler.tf ≡ record numbered { x11 = 13 })
    × (frame.ucontext.sig_mask ≡ signalled.thread.sig_mask)
    × (frame.ucontext.stack ≡ signalled.thread.signal_alternate_stack)
    × (in_handler.tf.elr ≡ 0x700)
    × (in_handler.tf.x0 ≡ 10)
    × (contains in_handler.thread.sig_mask 10 ≡ true)
enter_handler-saves_example =
    enter_handler-saves low_memory signalled in_handler user_handler 10 entered-done

abbrev after_signals : Option (Bool × State)
after_signals = state_or none (handle_signal (λ ref. true) low_memory signalled)

signals-done : handle_signal (λ ref. true) low_memory signalled ≡ done after_signals
unfolding handle_signal check_write_array take_signal find_signal check_loop check_write
signals-done = refl

handle_signal-quiet_example :
    (exits : Bool) × (s' : State) × (after_signals ≡ some (exits, s'))
    × ((if exits then done false else has_signal_to_handle s') ≡ done false)
    × ((contains signalled.thread.sig_mask 3 && not (contains s'.thread.sig_mask 3)) ≡ false)
handle_signal-quiet_example =
    handle_signal-quiet (λ ref. true) low_memory signalled after_signals 3 signals-done

-- A file system with a root, inode 0, that can have one entry, `b`, inode 1.
abbrev is_b : List ℕ → Bool
is_b [] = false
is_b (c ∷ []) = c == b'b'
is_b (c ∷ d ∷ cs) = false

abbrev OneEntry : Type 0
OneEntry = Option FileType

abbrev find_b : OneEntry → List ℕ → FsResult ℕ
find_b none name = err entry_not_found
find_b (some t) name = if is_b name then ok 1 else err entry_not_found

abbrev type_of_b : OneEntry → FsResult FileType
type_of_b none = err entry_not_found
type_of_b (some t) = ok t

abbrev create_b : OneEntry → List ℕ → FileType → FsResult (ℕ × OneEntry)
create_b none name t = if is_b name then ok (1, some t) else err (other_error 1)
create_b (some u) name t = err (other_error 17)

find-create_b :
    (v v' : OneEntry) (i : ℕ) (name : List ℕ) (t : FileType)
    → create_b v name t ≡ ok (i, v')
    → (find_b v' name ≡ ok i) × ((if i == 0 then ok dir else type_of_b v') ≡ ok t)
find-create_b none v' i name t e = ground arith
find-create_b (some u) v' i name t e = absurd (ground arith)

abbrev unlink_b : OneEntry → List ℕ → FsResult OneEntry
unlink_b none name = err entry_not_found
unlink_b (some t) name = if is_b name then ok none else err entry_not_found

find-unlink_b :
    (v v' : OneEntry) (name : List ℕ)
    → unlink_b v name ≡ ok v'
    → find_b v' name ≡ err entry_not_found
find-unlink_b none v' name e = absurd (ground arith)
find-unlink_b (some t) v' name e = ground arith

abbrev one_entry : Vfs OneEntry
one_entry = record {
  root = 0;
  follow_max_depth = 3;
  at_fdcwd = 2 ^ 64 - 100;
  lookup = λ v i path. ok 0;
  lookup_follow = λ v i path depth. if is_b path then find_b v path else ok 0;
  find = λ v i name. find_b v name;
  file_type = λ v i. if i == 0 then ok dir else type_of_b v;
  create = λ v i name t mode. create_b v name t;
  link = λ v i name j. err (other_error 1);
  unlink = λ v i name. unlink_b v name;
  move = λ v i name j name'. err (other_error 1);
  resize = λ v i len. ok v;
  read_at = λ v i offset len. ok [];
  write_at = λ v i offset buf. ok (0, v);
  update_time = λ v i now. v;
  to_sys = λ e. elim e [ entry_not_found ↦ file_error 2 | other_error n ↦ file_error n ];
  find-create = λ v v' d i mode name t e. find-create_b v v' i name t e;
  find-unlink = λ v v' d name e. find-unlink_b v v' name e;
  find-link = λ v v' d i name e. cc;
  find-update_time = λ v i now d name. refl;
  type-update_time = λ v i now j. refl;
  find-resize = λ v v' i len d name e. ground arith;
  find-write_at = λ v v' i offset n d buf name e. ground arith;
}

abbrev caller : Caller
caller = record { files = []; cwd = b'/' ∷ [] }

abbrev path_b : List ℕ
path_b = b'/' ∷ b'b' ∷ []

rmdir-done : sys_rmdir one_entry (some dir) caller path_b ≡ ok none
unfolding sys_rmdir lookup_inode_at
rmdir-done = refl

sys_rmdir-removed_example :
    (d : ℕ) × (lookup_inode one_entry (some dir) caller (b'/' ∷ []) ≡ ok d)
    × (find_b none (b'b' ∷ []) ≡ err entry_not_found)
    × (sys_unlink_at one_entry (some dir) caller (2 ^ 64 - 100) path_b ≡ err eisdir)
unfolding split_path
sys_rmdir-removed_example = sys_rmdir-removed one_entry (some dir) none caller path_b rmdir-done

abbrev create_new : OpenFlags
create_new = record {
  create = true;
  exclusive = true;
  truncate = false;
  cloexec = false;
  readable = false;
  writable = true;
  is_append = false;
}

abbrev no_descriptions : Store
no_descriptions k = record {
  offset = 7;
  options = record { read = true; write = false; append = false };
}

abbrev opened_b : FileHandle
opened_b = record { inode = 1; description = 5; path = path_b; fd_cloexec = false }

abbrev store_b : Store
store_b = (FileHandle.new no_descriptions 5 1 (to_options create_new) path_b false).0

open-done :
    sys_open_at one_entry none caller no_descriptions 5 (2 ^ 64 - 100) path_b create_new 0 9
    ≡ ok (0, some file, store_b, (0, opened_b) ∷ [])
unfolding sys_open_at open_inode free_from free_within insert lookup
open-done = refl

sys_open_at-opens_example :
    (handle : FileHandle) × (led_to one_entry none (some file) caller (2 ^ 64 - 100) path_b true
      ≡ ok handle.inode)
    × ((true && true && is_ok (led_to one_entry none none caller (2 ^ 64 - 100) path_b true))
        ≡ false)
    × (◌≡◌ {A = OneEntry} (if true then none else some file) none)
    × (lookup caller.files 0 ≡ none)
    × (ltb 2 0 ≡ contains_key caller.files 2 && ltb 2 0)
    × (lookup ((0, opened_b) ∷ []) 3 ≡ (if 0 == 3 then some handle else lookup caller.files 3))
    × (store_b handle.description ≡ record { offset = 0; options = to_options create_new })
    × (handle.fd_cloexec ≡ false)
sys_open_at-opens_example =
    sys_open_at-opens one_entry none (some file) caller no_descriptions store_b ((0, opened_b) ∷ [])
      5 (2 ^ 64 - 100) 0 0 9 3 2 path_b create_new open-done
