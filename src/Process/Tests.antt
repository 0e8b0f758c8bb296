-- ===== src/Process/Tests.antt =====
-- A small world, a descriptor table, paths, a stack and a program, on which the theorems on processes
-- are applied.
use queen.Base.{
  ◌++◌, ℕ, ◌+◌, ◌*◌, ◌%◌, ◌≤◌, ◌<◌, ◌≡◌, refl, Bool, true, false, not, ◌&&◌, ◌==◌, if◌then◌else◌,
  List, [], ◌∷◌, none, some, arith, Outcome, done, length,
}
use queen.Base.Maps.{Map, lookup, contains_key, erase}
use queen.Kernel.FileHandle.{ok, err, FileHandle, Store}
use queen.Kernel.Signal.{empty}
use queen.Memory.Set.{MemorySet, push}
use queen.Memory.SmallMachine.{FunctionTable, small_machine, value_or}
use queen.Process.Elf.{SegmentType, ProgramHeader, make_memory_set}
use queen.Process.Tty.{Tty, IsSynced, push as push_byte, async_poll, read_at, async_poll-push}
use queen.Process.World.{
  has, UserContext, Process, Thread, World, exit, new_user, no_signals, new_bus, erase_all,
}
use queen.Process.Calls.{SysResult, ebadf, sys_exit, wait_round, any_child}
use queen.Process.Links.{IsLinked}
use queen.Process.Steps.{Reach, here, next, created, ended, left, Reach-IsLinked}
use queen.Process.Wait.{WaitedRight, wait_round-any_child}
use queen.Process.Files.{sys_dup3, sys_dup3-outcome}
use queen.Process.Path.{Bytes, split_path, trim_end}
use queen.Process.Path.Split.{IsCut, split_path-IsCut}
use queen.Process.Stack.{StackWriter, push_at, from_cstr}
use queen.Process.Stack.Slice.{read_word}
use queen.Process.Stack.Strings.{size}
use queen.Process.Stack.Image.{needed, from_cstr-push_at}

abbrev pub plain_process : ℕ → List (ℕ × ℕ) → List ℕ → Process
plain_process pid children threads = record {
  vm = 0;
  files = [];
  cwd = b'/' ∷ [];
  exec_path = "/bin/sh";
  pid = pid;
  pgid = 0;
  parent = (0, none);
  children = children;
  threads = threads;
  event_bus = new_bus;
  exit_code = 0;
  signals = no_signals;
  dispositions = λ signo. record { handler = 0; flags = 0; restorer = 0; mask = empty };
}

abbrev pub blank_context : UserContext
blank_context = record { ip = 0; sp = 0; tls = 0; syscall_ret = 0; spsr = 0 }

abbrev pub plain_thread : ℕ → ℕ → Thread
plain_thread tid ref = record {
  tid = tid;
  process = ref;
  vm = 0;
  context = some blank_context;
  clear_child_tid = 0;
  sig_mask = empty;
  signal_alternate_stack = record { sp = 0; flags = 2; size = 0 };
}

abbrev pub empty_world : World
empty_world = record { heap = λ r. plain_process 0 [] []; processes = []; threads = [] }

-- Process 1 at place 10 has the child 2 at place 20; each has one thread.
abbrev family : World
family = record {
  heap =
      λ r. if r == 10 then plain_process 1 ((2, 20) ∷ []) (1 ∷ []) else plain_process 2 [] (2 ∷ []);
  processes = (1, 10) ∷ (2, 20) ∷ [];
  threads = (1, plain_thread 1 10) ∷ (2, plain_thread 2 20) ∷ [];
}

all_alive : ℕ → Bool
all_alive ref = true

empty_world-IsLinked : IsLinked empty_world
unfolding lookup
empty_world-IsLinked = record {
  tids = λ tid t h. cc;
  pids = λ pid ref h. cc;
  members = λ ref tid h. cc;
}

abbrev blank_store : Store
blank_store d = record {
  offset = 0;
  options = record { read = false; write = false; append = false };
}

abbrev started : World
started = (new_user empty_world blank_store 0 10 0 0x1000 0x8000 "/bin/sh").0

-- The process that was started ends, and then its thread leaves it.
abbrev ended_and_left : World
ended_and_left = sys_exit all_alive (exit all_alive started 10 3) (plain_thread 1 10) 0

started-Reach : Reach empty_world ended_and_left
unfolding lookup
started-Reach =
    next
      (next
        (next here (created empty_world blank_store 0 10 0 0x1000 0x8000 "/bin/sh" (λ pid h. cc)))
        (ended all_alive started 10 3))
      (left all_alive (exit all_alive started 10 3) (plain_thread 1 10) 0)

Reach-IsLinked_example : IsLinked ended_and_left
Reach-IsLinked_example = Reach-IsLinked empty_world-IsLinked started-Reach

taken-below_2 : (i : ℕ) → 1 ≤ i → i < 2 → contains_key (exit all_alive family 20 7).threads i ≡ true
unfolding exit lookup erase_all erase
taken-below_2 i lo hi = ground arith

wait_round-any_child_example :
    WaitedRight all_alive family
      (plain_thread 1 10)
      0
      (wait_round all_alive family (plain_thread 1 10) any_child 0)
wait_round-any_child_example = wait_round-any_child all_alive family (plain_thread 1 10) 0

abbrev some_file : FileHandle
some_file = record { inode = 3; description = 4; path = b'/' ∷ []; fd_cloexec = false }

abbrev two_files : Map FileHandle
two_files = (0, some_file) ∷ (2, some_file) ∷ []

sys_dup3-outcome_example :
    let (result, files') = sys_dup3 two_files 2 2 0 in
    (result ≡ (if contains_key two_files 2 && not (2 == 2) then ok 2 else err ebadf))
    × (lookup files' 2 ≡ (
        if 2 == 2
        then (if 2 == 2 then none else elim (lookup two_files 2) [
          | none ↦ none
          | some h ↦ some (record h { fd_cloexec = not (0 == 0) })
        ])
        else lookup two_files 2))
sys_dup3-outcome_example = sys_dup3-outcome two_files 2 2 0 2

-- From `/a` to `../b/.`.
abbrev dir_a : Bytes
dir_a = b'/' ∷ b'a' ∷ []

abbrev up_to_b : Bytes
up_to_b = b'.' ∷ b'.' ∷ b'/' ∷ b'b' ∷ b'/' ∷ b'.' ∷ []

abbrev any_dir : Bytes → SysResult Bool
any_dir path = ok true

split_path-IsCut_example : IsCut (trim_end dir_a) (split_path dir_a)
split_path-IsCut_example = split_path-IsCut dir_a

abbrev ls : List ℕ
ls = b'l' ∷ b's' ∷ []

abbrev stack_top : StackWriter
stack_top = record { sp = 0x8000; mem = λ x. 0 }

from_cstr-push_at_example :
    (w' : StackWriter) × (push_at (ls ∷ (b'-' ∷ b'l' ∷ []) ∷ []) [] ((6, 4096) ∷ []) stack_top
      ≡ done w')
    × (w'.sp % 8 ≡ 0)
    × (read_word w'.mem w'.sp ≡ 2)
    × (from_cstr (length ls + 1) w'.mem (read_word w'.mem (w'.sp + 8 * (0 + 1))) ≡ ls)
    × (w'.mem 0x9000 ≡ 0)
from_cstr-push_at_example =
    from_cstr-push_at (ls ∷ (b'-' ∷ b'l' ∷ []) ∷ []) [] ((6, 4096) ∷ []) ls stack_top 0 0x9000 ls
      refl (unfold needed size in omega arith) (omega arith) refl (omega arith) (omega arith)

-- A segment of code and one of data.
abbrev pub code : ProgramHeader
code = record {
  type = SegmentType.load;
  is_execute = true;
  is_write = false;
  virtual_addr = 0x1000;
  mem_size = 0x1800;
  offset = 0;
  file_size = 0x1800;
}

abbrev pub data_segment : ProgramHeader
data_segment = record code {
  is_execute = false;
  is_write = true;
  virtual_addr = 0x4000;
  mem_size = 0x900;
  offset = 0x2000;
  file_size = 0x500;
}

abbrev pub no_areas : MemorySet FunctionTable ℕ
no_areas = record {
  areas = [];
  space = record { table = λ q. none; memory = record { frames = 0; byte = λ f i. 0 } };
}

abbrev program : Outcome (MemorySet FunctionTable ℕ × ℕ)
program = make_memory_set small_machine 3 (code ∷ data_segment ∷ []) no_areas

abbrev program_value : MemorySet FunctionTable ℕ × ℕ
program_value = value_or (no_areas, 0) program

abbrev idle_tty : Tty
idle_tty = record { foreground_pgid = 0; buf = []; event_bus = new_bus }

-- Task 4 waits when `a` arrives.
async_poll-push_example :
    let (ready, polled) = async_poll idle_tty 4 in
    (tty' : Tty) × (tasks : List ℕ) × (push_byte empty_world polled b'a'
      ≡ done (empty_world, tty', tasks))
    × (tty'.buf ≡ [] ++ b'a' ∷ [])
    × IsSynced tty'
    × IsSynced (read_at tty').1
    × ((if ready then true else has 4 tasks) ≡ true)
async_poll-push_example = async_poll-push empty_world idle_tty b'a' 4 refl refl
