-- ===== src/Process/World.antt =====
-- kernel/src/process/mod.rs and thread.rs: processes, threads and the two global tables. Processes
-- lie on a heap, since the tables, their threads and their relatives share them; a reference is a
-- place on it. Whether a `Weak` reference can still be upgraded is an argument, `alive`.
use queen.Base.{
  ℕ, ◌+◌, ◌^◌, Bool, true, false, ◌==◌, if◌then◌else◌, Option, none, some, List, [], ◌∷◌, ◌++◌,
  String, find,
}
use queen.Base.Maps.{Map, lookup, insert, erase, free_from}
use queen.Kernel.EventBus
use queen.Kernel.EventBus.{EventBus, change}
use queen.Kernel.Signal.{Sigset, Pending}
use queen.Kernel.Signal
use queen.Kernel.FileHandle.{FileHandle, Store, OpenOptions}
use queen.Kernel.FileHandle

pub record SignalAction : Type 0 where
  pub handler : ℕ
  pub flags : ℕ
  pub restorer : ℕ
  pub mask : Sigset

pub record SignalStack : Type 0 where
  pub sp : ℕ
  pub flags : ℕ
  pub size : ℕ

-- What this code reads and sets of a `UserContext` of the `aarch64` crate.
pub record UserContext : Type 0 where
  pub ip : ℕ
  pub sp : ℕ
  pub tls : ℕ
  pub syscall_ret : ℕ
  pub spsr : ℕ

pub record Process : Type 0 where
  -- the place of the memory set
  pub vm : ℕ
  pub files : Map FileHandle
  pub cwd : List ℕ
  pub exec_path : String
  pub pid : ℕ
  pub pgid : ℕ
  -- none for `Weak::new()`
  pub parent : ℕ × Option ℕ
  pub children : List (ℕ × ℕ)
  pub threads : List ℕ
  pub event_bus : EventBus
  pub exit_code : ℕ
  pub signals : Pending
  pub dispositions : ℕ → SignalAction

pub record Thread : Type 0 where
  pub tid : ℕ
  pub process : ℕ
  pub vm : ℕ
  pub context : Option UserContext
  pub clear_child_tid : ℕ
  pub sig_mask : Sigset
  pub signal_alternate_stack : SignalStack

-- The heap of processes, with PROCESSES and THREADS.
pub record World : Type 0 where
  pub heap : ℕ → Process
  pub processes : Map ℕ
  pub threads : Map Thread

abbrev pub pid_init : ℕ
pid_init = 1

-- A write to the process at `ref`.
abbrev pub put : World → ℕ → Process → World
put w ref p = record w { heap = λ r. if r == ref then p else w.heap r }

abbrev pub process_quit : ℕ
process_quit = 2 ^ 10

abbrev pub child_process_quit : ℕ
child_process_quit = 2 ^ 11

abbrev pub has : ℕ → List ℕ → Bool
has t [] = false
has t (u ∷ us) = if u == t then true else has t us

-- `process_of`: the first process in the table that has the thread.
unfoldable pub process_of : World → ℕ → Option (ℕ × ℕ)
process_of w tid = find (λ entry. has tid (w.heap entry.1).threads) w.processes

-- `process`
abbrev pub process : World → ℕ → Option ℕ
process w pid = lookup w.processes pid

unfoldable pub members : (ℕ → Process) → ℕ → Map ℕ → List ℕ
members heap pgid [] = []
members heap pgid ((pid, ref) ∷ entries) =
    let rest = members heap pgid entries in if (heap ref).pgid == pgid then ref ∷ rest else rest

-- `process_group`
abbrev pub process_group : World → ℕ → List ℕ
process_group w pgid = members w.heap pgid w.processes

-- `Thread::add_to_table`
unfoldable pub add_to_table : World → Thread → World × Thread
add_to_table w t =
    let tid = free_from w.threads pid_init in
    let t' = record t { tid = tid } in (record w { threads = insert w.threads tid t' }, t')

unfoldable pub add_to_process_table : World → ℕ → ℕ → World
add_to_process_table w ref pid = record (put w ref (record (w.heap ref) { pid = pid })) {
  processes = insert w.processes pid ref;
}

abbrev pub exited : Process → Bool
exited p = elim p.threads [ [] ↦ true | _ ∷ _ ↦ false ]

unfoldable pub erase_all : Map Thread → List ℕ → Map Thread
erase_all m [] = m
erase_all m (tid ∷ tids) = erase_all (erase m tid) tids

-- `Process::exit`, of the process at `ref`
unfoldable pub exit : (ℕ → Bool) → World → ℕ → ℕ → World
exit alive w ref exit_code =
    let p = w.heap ref in
    let w1 =
      put w ref (record p { files = []; event_bus = (EventBus.set p.event_bus process_quit).0 }) in
    let w2 : World = elim p.parent.1 [
      | none ↦ w1
      | some parent ↦
          if alive parent
          then put w1 parent (record (w1.heap parent) {
            event_bus = (EventBus.set (w1.heap parent).event_bus child_process_quit).0;
          })
          else w1
    ] in
    record (put w2 ref (record (w2.heap ref) { exit_code = exit_code; threads = [] })) {
      threads = erase_all w2.threads (w2.heap ref).threads;
    }

abbrev pub no_signals : Pending
no_signals = record { sig_queue = []; pending_sigset = Signal.empty }

abbrev pub new_bus : EventBus
new_bus = record { event = 0; callbacks = [] }

-- The thread that `fork` makes, before it has its number.
abbrev pub forked_thread : Thread → UserContext → ℕ → ℕ → Thread
forked_thread t tf ref vm = record {
  tid = 0;
  process = ref;
  vm = vm;
  context = some (record tf { syscall_ret = 0 });
  clear_child_tid = 0;
  sig_mask = t.sig_mask;
  signal_alternate_stack = t.signal_alternate_stack;
}

-- `Thread::fork` by the thread `t` at the context `tf`: the new process lies at `ref`, and the clone of
-- the memory set at `vm`.
unfoldable pub fork : World → Thread → UserContext → ℕ → ℕ → World × Thread
unfolding add_to_table add_to_process_table
fork w t tf ref vm =
    let p = w.heap t.process in
    let new_process : Process = record {
      vm = vm;
      files = p.files;
      cwd = p.cwd;
      exec_path = p.exec_path;
      pid = 0;
      pgid = p.pgid;
      parent = (p.pid, some t.process);
      children = [];
      threads = [];
      event_bus = new_bus;
      exit_code = 0;
      signals = no_signals;
      dispositions = p.dispositions;
    } in
    let (w1, new_thread) = add_to_table (put w ref new_process) (forked_thread t tf ref vm) in
    let w2 = add_to_process_table w1 ref new_thread.tid in
    let q = w2.heap ref in
    let w3 = put w2 ref (record q { threads = q.threads ++ new_thread.tid ∷ [] }) in
    let p' = w3.heap t.process in
    (
      put w3 t.process (record p' { children = p'.children ++ (new_thread.tid, ref) ∷ [] }),
      new_thread,
    )

-- The thread that `new_clone` makes, before it has its number.
abbrev pub cloned_thread : Thread → UserContext → ℕ → ℕ → ℕ → Thread
cloned_thread t context stack_top tls clear_child_tid = record {
  tid = 0;
  process = t.process;
  vm = t.vm;
  context = some (record context { syscall_ret = 0; sp = stack_top; tls = tls });
  clear_child_tid = clear_child_tid;
  sig_mask = t.sig_mask;
  signal_alternate_stack = t.signal_alternate_stack;
}

-- `Thread::new_clone`
unfoldable pub new_clone : World → Thread → UserContext → ℕ → ℕ → ℕ → World × Thread
unfolding add_to_table
new_clone w t context stack_top tls clear_child_tid =
    let (w1, new_thread) = add_to_table w (cloned_thread t context stack_top tls clear_child_tid) in
    let p = w1.heap t.process in
    (put w1 t.process (record p { threads = p.threads ++ new_thread.tid ∷ [] }), new_thread)

-- The inode TTY, and its path
abbrev pub tty : ℕ
tty = 0

abbrev pub dev_tty : List ℕ
dev_tty = b'/' ∷ b'd' ∷ b'e' ∷ b'v' ∷ b'/' ∷ b't' ∷ b't' ∷ b'y' ∷ []

-- The descriptor table that `Thread::new_user` makes: the terminal three times, for reading and twice
-- for writing, with descriptions at `d`, `d + 1` and `d + 2`.
unfoldable pub initial_files : Store → ℕ → Store × Map FileHandle
initial_files store d =
    let reading : OpenOptions = record { read = true; write = false; append = false } in
    let writing : OpenOptions = record { read = false; write = true; append = false } in
    let (s0, stdin) = FileHandle.new store d tty reading dev_tty false in
    let (s1, stdout) = FileHandle.new s0 (d + 1) tty writing dev_tty false in
    let (s2, stderr) = FileHandle.new s1 (d + 2) tty writing dev_tty false in
    (s2, insert (insert (insert [] 0 stdin) 1 stdout) 2 stderr)

-- The thread that `new_user` makes, before it has its number.
abbrev pub user_thread : ℕ → ℕ → ℕ → ℕ → Thread
user_thread ref vm entry_addr ustack_top = record {
  tid = 0;
  process = ref;
  vm = vm;
  context = some (record {
    ip = entry_addr;
    sp = ustack_top;
    tls = 0;
    syscall_ret = 0;
    spsr = 0b11_0100_0000;
  });
  clear_child_tid = 0;
  sig_mask = Signal.empty;
  signal_alternate_stack = record { sp = 0; flags = 2; size = 0 };
}

-- `Thread::new_user` with the process at `ref`, after `new_user_vm` has filled the memory set at `vm`
-- and given the entry point and the top of the stack.
unfoldable pub new_user : World → Store → ℕ → ℕ → ℕ → ℕ → ℕ → String → World × Store × Thread
unfolding add_to_table add_to_process_table initial_files
new_user w store d ref vm entry_addr ustack_top exec_path =
    let (store', files) = initial_files store d in
    let p : Process = record {
      vm = vm;
      files = files;
      cwd = b'/' ∷ [];
      exec_path = exec_path;
      pid = 0;
      pgid = 0;
      parent = (0, none);
      children = [];
      threads = [];
      event_bus = new_bus;
      exit_code = 0;
      signals = no_signals;
      dispositions = λ signo. record { handler = 0; flags = 0; restorer = 0; mask = Signal.empty };
    } in
    let (w1, t) = add_to_table (put w ref p) (user_thread ref vm entry_addr ustack_top) in
    (add_to_process_table w1 ref t.tid, store', t)
