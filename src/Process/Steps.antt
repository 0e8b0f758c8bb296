-- ===== src/Process/Steps.antt =====
-- The calls that change processes as steps of a system, in any order and by any thread.
use queen.Base.{ℕ, ◌≡◌, ◌≢◌, Bool, Option, String}
use queen.Kernel.FileHandle.{Store, ok}
use queen.Process.World.{Thread, World, UserContext, exit, fork, new_clone, new_user}
use queen.Process.Calls.{sys_exit, sys_set_pgid, WaitFor, wait_round, reaped}
use queen.Process.Links.{
  IsLinked, IsFresh, fork-IsLinked, new_clone-IsLinked, new_user-IsLinked, exit-IsLinked,
  sys_exit-IsLinked, wait_round-IsLinked, sys_set_pgid-IsLinked,
}

-- A new process lies at a place that none of the table lies at. A thread may go on and end in a
-- process that has exited, or that has been waited for and is out of the table.
pub data Step : World → World → Type 0 where
  created :
      (w : World) (store : Store) (d ref vm entry_addr ustack_top : ℕ) (exec_path : String)
      → IsFresh w ref
      → Step w (new_user w store d ref vm entry_addr ustack_top exec_path).0
  forked :
      (w : World) (t : Thread) (tf : UserContext) (ref vm : ℕ)
      → IsFresh w ref
      → t.process ≢ ref
      → Step w (fork w t tf ref vm).0
  cloned :
      (w : World) (t : Thread) (context : UserContext) (stack_top tls clear : ℕ)
      → Step w (new_clone w t context stack_top tls clear).0
  left : (alive : ℕ → Bool) (w : World) (t : Thread) (code : ℕ) → Step w (sys_exit alive w t code)
  ended : (alive : ℕ → Bool) (w : World) (ref code : ℕ) → Step w (exit alive w ref code)
  waited :
      {w' : World} (alive : ℕ → Bool) (w : World) (t : Thread) (target : WaitFor) (wstatus pid : ℕ)
      (status : Option ℕ)
      → wait_round alive w t target wstatus ≡ reaped pid status w'
      → Step w w'
  grouped :
      {w' : World} (w : World) (t : Thread) (pid pgid : ℕ)
      → sys_set_pgid w t pid pgid ≡ ok w'
      → Step w w'

pub data Reach (s : World) : World → Type 0 where
  here : Reach s s
  next : {w w' : World} → Reach s w → Step w w' → Reach s w'

Step-IsLinked : {w w' : World} → Step w w' → IsLinked w → IsLinked w'
Step-IsLinked (created w store d ref vm entry_addr ustack_top exec_path fresh) l =
    new_user-IsLinked w store d ref vm entry_addr ustack_top exec_path fresh l
Step-IsLinked (forked w t tf ref vm fresh apart) l = fork-IsLinked w t tf ref vm fresh apart l
Step-IsLinked (cloned w t context stack_top tls clear) l =
    new_clone-IsLinked w t context stack_top tls clear l
Step-IsLinked (left alive w t code) l = sys_exit-IsLinked alive w t code l
Step-IsLinked (ended alive w ref code) l = exit-IsLinked alive w ref code l
Step-IsLinked (waited {w'} alive w t target wstatus pid status e) l =
    wait_round-IsLinked alive w w' t target wstatus pid status e l
Step-IsLinked (grouped {w'} w t pid pgid e) l = sys_set_pgid-IsLinked w w' t pid pgid e l

-- However processes are created and forked, at places that no process of the table and not the
-- caller lies at, cloned into threads, left by threads, ended, waited for and grouped, in any
-- order: the tables stay by number, and each thread that a process lists, also one that is out of
-- the table, is in the table of threads and runs in that process.
pub Reach-IsLinked : {s w : World} → IsLinked s → Reach s w → IsLinked w
Reach-IsLinked l here = l
Reach-IsLinked l (next r st) = Step-IsLinked st (Reach-IsLinked l r)
