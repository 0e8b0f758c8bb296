-- ===== src/Process/Wait.antt =====
-- What `sys_exit`, `sys_exit_group` and `sys_wait4` do to the tables and to the children.
use queen.Base.{
  ℕ, ◌%◌, ◌^◌, ◌≤◌, ◌<◌, ◌≡◌, refl, Bool, true, false, ◌&&◌, ◌==◌, if◌then◌else◌, none, some, List,
  [], ◌∷◌, String, arith, inl, inr, Bool-cases, Option-cases,
}
use queen.Base.Maps.{
  lookup, contains_key, erase, free_from, lookup-insert, lookup-erase, IsFree, free_from-IsFree,
  IsFree-unique,
}
use queen.Kernel.FileHandle.{Store}
use queen.Process.World.{
  Process, Thread, World, UserContext, put, has, exited, exit, fork, new_user, erase_all, pid_init,
  process,
}
use queen.Process.Calls.{
  sys_exit, retain_threads, retain_children, find_exited, living, any_child, of_pid, wait_round,
  Waited, reaped, no_child, waits,
}
use queen.Process.Links.{exit-tables, lookup-erase_all}

no_threads : (p : Process) → exited p ≡ true → p.threads ≡ []
no_threads p h = ground arith

-- A thread that exits leaves the list of its process, and no other list changes; as the last one it
-- makes the process exit with its code, and else the code stays. On every branch the table of threads
-- is as before: the thread that has ended keeps its entry, and its number.
sys_exit-keeps_thread :
    (alive : ℕ → Bool) (w : World) (t : Thread) (code r : ℕ)
    → let w' = sys_exit alive w t code in
      ((w'.heap r).threads
        ≡ (if r == t.process then retain_threads t.tid (w.heap r).threads else (w.heap r).threads))
      × ((w'.heap t.process).exit_code
          ≡ (if exited (w'.heap t.process) then code else (w.heap t.process).exit_code))
      × (w'.threads ≡ w.threads)
unfolding sys_exit
sys_exit-keeps_thread alive w t code r =
    let p = w.heap t.process in
    let w1 = put w t.process (record p { threads = retain_threads t.tid p.threads }) in
    elim (Bool-cases (exited (w1.heap t.process))) [
      | inl last ↦
          let none_left : retain_threads t.tid p.threads ≡ [] = ground arith in
          let at = exit-tables alive w1 t.process code r in
          let self = exit-tables alive w1 t.process code t.process in
          let erased : erase_all w1.threads (w1.heap t.process).threads ≡ w.threads =
            unfold erase_all in ground arith in
          rw (last, sys_exit) (ground (arith, at, self, erased))
      | inr more ↦ rw (more, sys_exit) (ground arith)
    ]

-- Two processes share a number: a process that has ended and has not been waited for is still in the
-- table, but its threads are not, so the next fork takes its number, if all lower ones are taken, and
-- the entry of the table goes to the new process.
fork-exit-overwrites :
    (alive : ℕ → Bool) (w : World) (pid old code : ℕ) (t : Thread) (tf : UserContext) (ref vm : ℕ)
    → lookup w.processes pid ≡ some old
    → has pid (w.heap old).threads ≡ true
    → 1 ≤ pid
    → ((i : ℕ) → 1 ≤ i → i < pid → contains_key (exit alive w old code).threads i ≡ true)
    → let w1 = exit alive w old code in
      let w2 = (fork w1 t tf ref vm).0 in
      (process w1 pid ≡ some old) × (exited (w1.heap old) ≡ true) × (process w2 pid ≡ some ref)
unfolding fork
fork-exit-overwrites alive w pid old code t tf ref vm here member pos taken =
    let w1 = exit alive w old code in
    let at = exit-tables alive w old code old in
    let f : IsFree w1.threads 1 pid = record {
      free = ground (arith, at, lookup-erase_all w.threads (w.heap old).threads pid);
      from = pos;
      least = taken;
    } in
    let number : free_from w1.threads 1 ≡ pid =
      IsFree-unique w1.threads 1 _ _ (free_from-IsFree w1.threads 1) f in
    (
      ground (arith, at),
      ground (arith, at),
      ground (arith, lookup-insert w1.processes (free_from w1.threads 1) ref pid),
    )

-- Whether a place is that of a child.
abbrev pub is_child : ℕ → List (ℕ × ℕ) → Bool
is_child r [] = false
is_child r ((pid, ref) ∷ children) = if ref == r then true else is_child r children

abbrev Exited : (ℕ → Bool) → (ℕ → Process) → List (ℕ × ℕ) → ℕ × ℕ → Type 0
Exited alive heap children (pid, code) =
    (ref : ℕ) × (is_child ref children ≡ true)
    × (alive ref ≡ true)
    × (exited (heap ref) ≡ true)
    × (pid ≡ (heap ref).pid)
    × (code ≡ (heap ref).exit_code)

find_exited_sound :
    (alive : ℕ → Bool) (heap : ℕ → Process) (children : List (ℕ × ℕ)) (found : ℕ × ℕ)
    → find_exited alive heap children ≡ some found
    → Exited alive heap children found
unfolding find_exited
find_exited_sound alive heap [] found h = cc
find_exited_sound alive heap ((pid, ref) ∷ children) found h =
    elim (Bool-cases (alive ref && exited (heap ref))) [
      | inl hit ↦ (ref, ground arith, ground arith, ground arith, ground arith, ground arith)
      | inr miss ↦
          let (r, child, up, gone, number, code) =
            find_exited_sound alive heap children found (rw (miss, find_exited) at h) in
          (r, ground arith, up, gone, number, code)
    ]

find_exited_complete :
    (alive : ℕ → Bool) (heap : ℕ → Process) (children : List (ℕ × ℕ)) (ref : ℕ)
    → find_exited alive heap children ≡ none
    → is_child ref children ≡ true
    → alive ref ≡ true
    → exited (heap ref) ≡ false
unfolding find_exited
find_exited_complete alive heap [] ref h c up = cc
find_exited_complete alive heap ((pid, r) ∷ children) ref h c up =
    ground (arith, find_exited_complete alive heap children ref)

living-nil :
    (alive : ℕ → Bool) (children : List (ℕ × ℕ)) (ref : ℕ)
    → living alive children ≡ []
    → is_child ref children ≡ true
    → alive ref ≡ false
unfolding living
living-nil alive [] ref h c = cc
living-nil alive ((pid, r) ∷ children) ref h c = ground (arith, living-nil alive children ref)

living-cons :
    (alive : ℕ → Bool) (children : List (ℕ × ℕ)) (k : ℕ) (ks : List ℕ)
    → living alive children ≡ k ∷ ks
    → (ref : ℕ) × (is_child ref children ≡ true) × (alive ref ≡ true)
unfolding living
living-cons alive [] k ks h = cc
living-cons alive ((pid, r) ∷ children) k ks h = elim (Bool-cases (alive r)) [
  | inl up ↦ (r, ground arith, up)
  | inr gone ↦
      let (ref, child, up) = living-cons alive children k ks (rw (gone, living) at h) in
      (ref, ground arith, up)
]

-- What a round of `sys_wait4` for any child promises.
abbrev pub WaitedRight : (ℕ → Bool) → World → Thread → ℕ → Waited → Type 0
WaitedRight alive w t wstatus (reaped pid status w') =
    (code : ℕ) × Exited alive w.heap (w.heap t.process).children (pid, code)
    × (status ≡ (if wstatus == 0 then none else some (code % 2 ^ 32)))
    × (w'.processes ≡ erase w.processes pid)
    × (w'.threads ≡ w.threads)
WaitedRight alive w t wstatus no_child =
    (ref : ℕ) → is_child ref (w.heap t.process).children ≡ true → alive ref ≡ false
WaitedRight alive w t wstatus waits =
    ((ref : ℕ) × (is_child ref (w.heap t.process).children ≡ true) × (alive ref ≡ true))
    × ((ref : ℕ)
        → is_child ref (w.heap t.process).children ≡ true
        → alive ref ≡ true
        → exited (w.heap ref) ≡ false)

-- A round of `sys_wait4` for any child: if it returns a process, that is a child of the caller that is
-- there and has exited, with its number and, where there is a place for it, its exit code in 32 bits,
-- and it is out of the table of processes; it returns ECHILD only if no child is there; and it waits
-- only if some child is there and none of those has exited.
pub wait_round-any_child :
    (alive : ℕ → Bool) (w : World) (t : Thread) (wstatus : ℕ)
    → WaitedRight alive w t wstatus (wait_round alive w t any_child wstatus)
unfolding wait_round
wait_round-any_child alive w t wstatus =
    let children = (w.heap t.process).children in
    elim (Option-cases (find_exited alive w.heap children)) [
      | inr ((pid, code), found) ↦
          rw (found, wait_round)
            (code, find_exited_sound alive w.heap children (pid, code) found, refl, refl, refl)
      | inl nothing ↦ rw (nothing, wait_round) (rest (living alive children) refl nothing)
    ]
  where
    rest :
        (ks : List ℕ)
        → living alive (w.heap t.process).children ≡ ks
        → find_exited alive w.heap (w.heap t.process).children ≡ none
        → WaitedRight alive w t wstatus
            (if (elim ks [ [] ↦ true | _ ∷ _ ↦ false ]) then no_child else waits)
    rest [] h nothing = λ ref c. living-nil alive (w.heap t.process).children ref h c
    rest (k ∷ ks) h nothing = (
      living-cons alive (w.heap t.process).children k ks h,
      λ ref c up. find_exited_complete alive w.heap (w.heap t.process).children ref nothing c up,
    )

-- The first process of a program: `new_user` makes it without any thread in its list, so that it
-- counts as ended at once. A thread of another process that waits for its number, whoever its
-- children are, gets it back with exit code 0 and takes it out of the table, while its thread stays.
wait_round-new_user :
    (alive : ℕ → Bool) (w : World) (store : Store) (d ref vm entry_addr ustack_top : ℕ)
    (exec_path : String) (t : Thread)
    → let (w1, store', new_thread) = new_user w store d ref vm entry_addr ustack_top exec_path in
      (w' : World) × (wait_round alive w1 t (of_pid new_thread.tid) 1
        ≡ reaped new_thread.tid (some 0) w')
      × (lookup w'.processes new_thread.tid ≡ none)
      × (lookup w'.threads new_thread.tid ≡ some new_thread)
unfolding new_user wait_round
wait_round-new_user alive w store d ref vm entry_addr ustack_top exec_path t =
    let (w1, store', new_thread) = new_user w store d ref vm entry_addr ustack_top exec_path in
    let tid = free_from w.threads pid_init in
    let p = w1.heap t.process in
    let found = lookup-insert w.processes tid ref tid in
    (
      put (record w1 { processes = erase w1.processes tid }) t.process
          (record p { children = retain_children tid p.children }),
      ground (arith, found),
      ground (arith, lookup-erase w1.processes tid tid),
      ground (arith, lookup-insert w.threads tid new_thread tid),
    )
