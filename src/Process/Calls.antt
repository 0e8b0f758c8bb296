-- ===== src/Process/Calls.antt =====
-- kernel/src/syscall/process.rs: the calls on processes and threads, by the thread `t`.
use queen.Base.{
  ℕ, ◌-◌, ◌%◌, ◌^◌, Bool, true, false, not, ◌&&◌, ◌||◌, ◌==◌, ltb, if◌then◌else◌, Option, none,
  some, List, [], ◌∷◌, Outcome, done, panic,
}
use queen.Base.Maps.{erase}
use queen.Memory.Area.{MemoryArea}
use queen.Memory.Set.{check_write_array}
use queen.Kernel.FileHandle.{Result, ok, err}
use queen.Process.World.{
  Process, Thread, World, UserContext, put, process, exit, exited, fork, new_clone,
}

-- The errors of the crate `queen_syscall` that this code returns.
pub data SysError : Type 0 where
  ebadf echild esrch enosys efault einval enotdir erange eexist eisdir : SysError
  -- what an error of the file system becomes
  file_error : ℕ → SysError

abbrev pub SysResult : Type 0 → Type 0
SysResult = Result SysError

-- `sys_fork`, to the new process at `ref` with its memory set at `vm`
unfoldable pub sys_fork : World → Thread → UserContext → ℕ → ℕ → SysResult (ℕ × World)
sys_fork w t context ref vm =
    let (w', new_thread) = fork w t context ref vm in ok ((w'.heap new_thread.process).pid, w')

-- What `sys_clone` writes to user memory: addresses and 32-bit numbers.
abbrev pub Writes : Type 0
Writes = List (ℕ × ℕ)

-- `sys_clone`, over the areas of the caller's memory. `clears_tid` says which flags have
-- CHILD_CLEARTID. The tests on the two places come before anything is made.
unfoldable pub sys_clone :
    (ℕ → Bool)
    → List MemoryArea
    → World
    → Thread
    → UserContext
    → ℕ
    → ℕ
    → ℕ
    → ℕ
    → ℕ
    → ℕ
    → ℕ
    → SysResult (ℕ × World × Writes)
sys_clone clears_tid areas w t context flags new_sp parent_tid child_tid new_tls ref vm =
    if (flags == 0x4111) || (flags == 0x11)
    then (let (w', new_thread) = fork w t context ref vm in
        ok ((w'.heap new_thread.process).pid, w', []))
    else if not (flags == 0x7d0f00) && not (flags == 0x5d0f00)
    then err enosys
    else if not (check_write_array areas 4 parent_tid 1)
    then err efault
    else if not (check_write_array areas 4 child_tid 1)
    then err efault
    else (let (w', new_thread) = new_clone w t context new_sp new_tls child_tid in
        ok (
          new_thread.tid,
          w',
          (parent_tid, new_thread.tid % 2 ^ 32) ∷ (child_tid, new_thread.tid % 2 ^ 32) ∷ [],
        ))

-- `threads.retain(|&id| id != tid)`
abbrev pub retain_threads : ℕ → List ℕ → List ℕ
retain_threads tid [] = []
retain_threads tid (t ∷ ts) =
    let rest = retain_threads tid ts in if t == tid then rest else t ∷ rest

-- `sys_exit`
unfoldable pub sys_exit : (ℕ → Bool) → World → Thread → ℕ → World
sys_exit alive w t exit_code =
    let p = w.heap t.process in
    let w' = put w t.process (record p { threads = retain_threads t.tid p.threads }) in
    if exited (w'.heap t.process) then exit alive w' t.process exit_code else w'

-- `sys_exit_group`
abbrev pub sys_exit_group : (ℕ → Bool) → World → Thread → ℕ → World
sys_exit_group alive w t exit_code = exit alive w t.process exit_code

-- `sys_get_pgid`
unfoldable pub sys_get_pgid : World → Thread → ℕ → SysResult ℕ
sys_get_pgid w t pid =
    let target = if pid == 0 then (w.heap t.process).pid else pid in
    elim (process w target) [ none ↦ err esrch | some ref ↦ ok (w.heap ref).pgid ]

-- `sys_set_pgid`; the group is an `i32`, kept as its 32 bits.
unfoldable pub sys_set_pgid : World → Thread → ℕ → ℕ → SysResult World
sys_set_pgid w t pid pgid =
    let target = if pid == 0 then (w.heap t.process).pid else pid in
    elim (process w target) [
      | none ↦ err esrch
      | some ref ↦ ok (put w ref (record (w.heap ref) { pgid = pgid % 2 ^ 32 }))
    ]

-- `sys_get_ppid`
unfoldable pub sys_get_ppid : (ℕ → Bool) → World → Thread → ℕ
sys_get_ppid alive w t =
    let parent = (w.heap t.process).parent in
    elim parent.1 [ none ↦ 0 | some ref ↦ if alive ref then parent.0 else 0 ]

-- `WaitFor`
pub data WaitFor : Type 0 where
  any_child any_child_in_group : WaitFor
  of_pid : (pid : ℕ) → WaitFor

-- The target of `sys_wait4`, by a word that is read as an `isize`.
unfoldable pub wait_target : ℕ → Outcome WaitFor
wait_target pid =
    if pid == 2 ^ 64 - 1
    then done any_child
    else if pid == 0
    then done any_child_in_group
    else if ltb pid (2 ^ 63)
    then done (of_pid pid)
    else panic

-- The first child that is there and has exited: its number and exit code.
unfoldable pub find_exited : (ℕ → Bool) → (ℕ → Process) → List (ℕ × ℕ) → Option (ℕ × ℕ)
find_exited alive heap [] = none
find_exited alive heap ((pid, ref) ∷ children) =
    let rest = find_exited alive heap children in
    if alive ref && exited (heap ref) then some ((heap ref).pid, (heap ref).exit_code) else rest

unfoldable pub find_target : (ℕ → Bool) → World → Process → WaitFor → Option (ℕ × ℕ)
unfolding find_exited
find_target alive w p (of_pid pid) = elim (process w pid) [
  | none ↦ none
  | some ref ↦ if exited (w.heap ref) then some ((w.heap ref).pid, (w.heap ref).exit_code) else none
]
find_target alive w p any_child = find_exited alive w.heap p.children
find_target alive w p any_child_in_group = find_exited alive w.heap p.children

-- The children that are there.
unfoldable pub living : (ℕ → Bool) → List (ℕ × ℕ) → List ℕ
living alive [] = []
living alive ((pid, ref) ∷ children) =
    let rest = living alive children in if alive ref then pid ∷ rest else rest

abbrev pub is_member : ℕ → List ℕ → Bool
is_member n [] = false
is_member n (k ∷ ks) = if k == n then true else is_member n ks

unfoldable pub is_invalid : (ℕ → Bool) → Process → WaitFor → Bool
unfolding living
is_invalid alive p (of_pid pid) = not (is_member pid (living alive p.children))
is_invalid alive p any_child = elim (living alive p.children) [ [] ↦ true | _ ∷ _ ↦ false ]
is_invalid alive p any_child_in_group = elim (living alive p.children) [ [] ↦ true | _ ∷ _ ↦ false ]

-- `children.retain(|(p, _)| *p != pid)`
abbrev pub retain_children : ℕ → List (ℕ × ℕ) → List (ℕ × ℕ)
retain_children pid [] = []
retain_children pid ((p, ref) ∷ children) =
    let rest = retain_children pid children in if p == pid then rest else (p, ref) ∷ rest

-- How a round of the loop of `sys_wait4` ends: it returns, with what it writes to `wstatus`, or it
-- waits for the event CHILD_PROCESS_QUIT of the process.
pub data Waited : Type 0 where
  reaped : (pid : ℕ) (status : Option ℕ) (w : World) → Waited
  no_child : Waited
  waits : Waited

unfoldable pub wait_round : (ℕ → Bool) → World → Thread → WaitFor → ℕ → Waited
unfolding find_target is_invalid
wait_round alive w t target wstatus =
    let p = w.heap t.process in
    elim (find_target alive w p target) [
      | some (pid, exit_code) ↦
          let w' = record w { processes = erase w.processes pid } in
          reaped pid (if wstatus == 0 then none else some (exit_code % 2 ^ 32))
            (put w' t.process (record p { children = retain_children pid p.children }))
      | none ↦ if is_invalid alive p target then no_child else waits
    ]
