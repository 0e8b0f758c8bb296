-- ===== src/Process/Links.antt =====
-- The tables and the processes agree, whatever the order in which threads make their calls.
use queen.Base.{
  ℕ, ◌≡◌, ◌≢◌, refl, ◌∙◌, Bool, true, not, ◌&&◌, ◌||◌, ◌==◌, if◌then◌else◌, Option, none, some,
  List, [], ◌∷◌, ◌++◌, String, arith, inl, inr, Bool-cases, Option-cases,
}
use queen.Base.Maps.{Map, lookup, erase, free_from, lookup-insert, lookup-erase, free_from-IsFree}
use queen.Kernel.FileHandle.{Store, ok}
use queen.Process.World.{
  Thread, World, UserContext, put, has, exited, erase_all, exit, fork, new_clone, new_user,
  pid_init, forked_thread, cloned_thread, user_thread,
}
use queen.Process.Calls.{sys_exit, retain_threads, sys_set_pgid, WaitFor, wait_round, reaped}

-- The process that a thread of the table runs in.
abbrev pub owner : World → ℕ → Option ℕ
owner w tid = elim (lookup w.threads tid) [ none ↦ none | some t ↦ some t.process ]

-- The tables are by number, and a thread that a process lists, also one that the table of processes
-- has no longer, is in the table of threads, and runs in that process.
pub record IsLinked (w : World) : Type 0 where
  pub tids : (tid : ℕ) (t : Thread) → lookup w.threads tid ≡ some t → t.tid ≡ tid
  pub pids : (pid ref : ℕ) → lookup w.processes pid ≡ some ref → (w.heap ref).pid ≡ pid
  pub members : (ref tid : ℕ) → has tid (w.heap ref).threads ≡ true → owner w tid ≡ some ref

-- A place that no process of the table lies at.
abbrev pub IsFresh : World → ℕ → Type 0
IsFresh w ref = (pid : ℕ) → lookup w.processes pid ≢ some ref

has-append : (t u : ℕ) (ts : List ℕ) → has t (ts ++ u ∷ []) ≡ (has t ts || (u == t))
has-append t u [] = ground arith
has-append t u (v ∷ ts) = ground (arith, has-append t u ts)

has-retain :
    (t tid : ℕ) (ts : List ℕ) → has t (retain_threads tid ts) ≡ (has t ts && not (tid == t))
has-retain t tid [] = refl
has-retain t tid (v ∷ ts) = ground (arith, has-retain t tid ts)

pub lookup-erase_all :
    (m : Map Thread) (tids : List ℕ) (tid : ℕ)
    → lookup (erase_all m tids) tid ≡ (if has tid tids then none else lookup m tid)
unfolding erase_all
lookup-erase_all m [] tid = refl
lookup-erase_all m (u ∷ tids) tid =
    ground (arith, lookup-erase_all (erase m u) tids tid, lookup-erase m u tid)

pub fork-IsLinked :
    (w : World) (t : Thread) (tf : UserContext) (ref vm : ℕ)
    → IsFresh w ref
    → t.process ≢ ref
    → IsLinked w
    → IsLinked (fork w t tf ref vm).0
unfolding fork
fork-IsLinked w t tf ref vm fresh apart l =
    let tid = free_from w.threads pid_init in
    let new = record (forked_thread t tf ref vm) { tid = tid } in
    let f = free_from-IsFree w.threads pid_init in
    record {
      tids = λ k u h. ground (arith, lookup-insert w.threads tid new k, l.tids k u);
      pids = λ k r h. ground (arith, lookup-insert w.processes tid ref k, l.pids k r, fresh k);
      members =
          λ r u in_list. ground (arith, lookup-insert w.threads tid new u, l.members r u, f.free);
    }

pub new_clone-IsLinked :
    (w : World) (t : Thread) (context : UserContext) (stack_top tls clear : ℕ)
    → IsLinked w
    → IsLinked (new_clone w t context stack_top tls clear).0
unfolding new_clone
new_clone-IsLinked w t context stack_top tls clear l =
    let tid = free_from w.threads pid_init in
    let new = record (cloned_thread t context stack_top tls clear) { tid = tid } in
    let f = free_from-IsFree w.threads pid_init in
    record {
      tids = λ k u h. ground (arith, lookup-insert w.threads tid new k, l.tids k u);
      pids = λ k r h. ground (arith, l.pids k r);
      members = λ r u in_list. ground (
        arith,
        lookup-insert w.threads tid new u,
        has-append u tid (w.heap t.process).threads,
        l.members r u,
        f.free,
      );
    }

pub new_user-IsLinked :
    (w : World) (store : Store) (d ref vm entry_addr ustack_top : ℕ) (exec_path : String)
    → IsFresh w ref
    → IsLinked w
    → IsLinked (new_user w store d ref vm entry_addr ustack_top exec_path).0
unfolding new_user
new_user-IsLinked w store d ref vm entry_addr ustack_top exec_path fresh l =
    let tid = free_from w.threads pid_init in
    let new = record (user_thread ref vm entry_addr ustack_top) { tid = tid } in
    let f = free_from-IsFree w.threads pid_init in
    record {
      tids = λ k u h. ground (arith, lookup-insert w.threads tid new k, l.tids k u);
      pids = λ k r h. ground (arith, lookup-insert w.processes tid ref k, l.pids k r, fresh k);
      members =
          λ r u in_list. ground (arith, lookup-insert w.threads tid new u, l.members r u, f.free);
    }

-- What `exit` does to the table of threads, and to what the other processes say of themselves.
pub exit-tables :
    (alive : ℕ → Bool) (w : World) (ref code r : ℕ)
    → let w' = exit alive w ref code in
      (w'.processes ≡ w.processes)
      × (w'.threads ≡ erase_all w.threads (w.heap ref).threads)
      × ((w'.heap r).pid ≡ (w.heap r).pid)
      × ((w'.heap r).threads ≡ (if r == ref then [] else (w.heap r).threads))
      × ((w'.heap ref).exit_code ≡ code)
unfolding exit
exit-tables alive w ref code r = elim (Option-cases (w.heap ref).parent.1) [
  | inl orphan ↦ rw (orphan, exit) (ground arith)
  | inr (parent, here) ↦ rw (here, exit) (ground arith)
]

pub exit-IsLinked :
    (alive : ℕ → Bool) (w : World) (ref code : ℕ) → IsLinked w → IsLinked (exit alive w ref code)
exit-IsLinked alive w ref code l =
    let w' = exit alive w ref code in
    let at = exit-tables alive w ref code in
    record {
      tids = λ k u h.
          ground (arith, at k, lookup-erase_all w.threads (w.heap ref).threads k, l.tids k u);
      pids = λ k r h. ground (arith, at r, l.pids k r);
      members = λ r u in_list. ground (
        arith,
        at r,
        lookup-erase_all w.threads (w.heap ref).threads u,
        l.members r u,
        l.members ref u,
      );
    }

-- A change of the processes that keeps their numbers, makes no list of threads longer, and takes
-- entries out of the table of processes.
pub shrink-IsLinked :
    (w w' : World)
    → w'.threads ≡ w.threads
    → ((pid ref : ℕ) → lookup w'.processes pid ≡ some ref → lookup w.processes pid ≡ some ref)
    → ((r : ℕ) → (w'.heap r).pid ≡ (w.heap r).pid)
    → ((r u : ℕ) → has u (w'.heap r).threads ≡ true → has u (w.heap r).threads ≡ true)
    → IsLinked w
    → IsLinked w'
shrink-IsLinked w w' same fewer numbers shorter l = record {
  tids = λ k u h. l.tids k u (rw (← same) h);
  pids = λ k r h. numbers r ∙ l.pids k r (fewer k r h);
  members = λ r u in_list. rw same (l.members r u (shorter r u in_list));
}

pub sys_exit-IsLinked :
    (alive : ℕ → Bool) (w : World) (t : Thread) (code : ℕ)
    → IsLinked w
    → IsLinked (sys_exit alive w t code)
unfolding sys_exit
sys_exit-IsLinked alive w t code l =
    let p = w.heap t.process in
    let w' = put w t.process (record p { threads = retain_threads t.tid p.threads }) in
    let l' : IsLinked w' =
      shrink-IsLinked w w' refl (λ k r h. h) (λ r. ground arith)
        (λ r u h. ground (arith, has-retain u t.tid p.threads)) l in
    elim (Bool-cases (exited (w'.heap t.process))) [
      | inl last ↦ rw (last, sys_exit) (exit-IsLinked alive w' t.process code l')
      | inr more ↦ rw (more, sys_exit) l'
    ]

pub wait_round-IsLinked :
    (alive : ℕ → Bool) (w w' : World) (t : Thread) (target : WaitFor) (wstatus pid : ℕ)
    (status : Option ℕ)
    → wait_round alive w t target wstatus ≡ reaped pid status w'
    → IsLinked w
    → IsLinked w'
unfolding wait_round
wait_round-IsLinked alive w w' t target wstatus pid status e l =
    shrink-IsLinked w w' (ground arith) (λ k r h. ground (arith, lookup-erase w.processes pid k))
      (λ r. ground arith) (λ r u h. ground arith) l

pub sys_set_pgid-IsLinked :
    (w w' : World) (t : Thread) (pid pgid : ℕ)
    → sys_set_pgid w t pid pgid ≡ ok w'
    → IsLinked w
    → IsLinked w'
unfolding sys_set_pgid
sys_set_pgid-IsLinked w w' t pid pgid e l =
    shrink-IsLinked w w' (ground arith) (λ k r h. ground arith) (λ r. ground arith)
      (λ r u h. ground arith) l
