-- ===== src/Task/Tests.antt =====
-- A concrete queue of ready tasks, a list with each task once, and tasks on it, on which the
-- theorems on the scheduler are applied.
use Prim.Native.Nat.{Ordering}
use queen.Base.{
  ℕ, suc, ◌*◌, ◌≤◌, ◌≡◌, ◌≢◌, refl, ◌+◌, ◌/◌, ◌^◌, ◌&&◌, mul_word, ltb, leb, length, true, ◌==◌,
  if◌then◌else◌, List, [], ◌∷◌, Option, none, some, arith, Outcome, done, panic, Option-cases, inl,
  inr,
}
use queen.Task.VRuntime.{cmp}
use queen.Base.Maps.{lookup, contains_key, free_from}
use queen.Task.Timer.{Timer, add, expire, expire-add, is_woken}
use queen.Task.Load.{new_load, sched_period, calc_delta, normalise, inv_weight, nice_to_weight}
use queen.Task.Load.Scaled.{calc_delta-le-share}
use queen.Task.RunQueue.{
  ReadyQueue, SchedTask, Heap, RunQueue, new_task, spawn, sched_slice, update_min_vruntime,
  least_vruntime,
}
use queen.Task.RunQueue.Clock.{min_vruntime_mono, sched_slice-le-sched_period}

abbrev Entries : Type 0
Entries = List (ℕ × ℕ)

abbrev get : Entries → ℕ → Option ℕ
get [] t = none
get ((u, v) ∷ q) t = if u == t then some v else get q t

abbrev remove : Entries → ℕ → Entries
remove [] t = []
remove ((u, v) ∷ q) t = if u == t then remove q t else (u, v) ∷ remove q t

-- The number of tasks, each counted at its last entry.
abbrev len : Entries → ℕ
len [] = 0
len ((u, v) ∷ q) = elim (get q u) [ none ↦ suc (len q) | some _ ↦ len q ]

abbrev peek : Entries → Option (ℕ × ℕ)
peek [] = none
peek (top ∷ q) = some top

get-remove : (q : Entries) (t u : ℕ) → get (remove q t) u ≡ (if t == u then none else get q u)
get-remove [] t u = ground arith
get-remove ((w, v) ∷ q) t u = ground (arith, get-remove q t u)

get-peek : (q : Entries) (t v : ℕ) → peek q ≡ some (t, v) → get q t ≡ some v
get-peek [] t v h = cc
get-peek ((u, w) ∷ q) t v h = ground arith

len-remove_absent : (q : Entries) (t : ℕ) → get q t ≡ none → len (remove q t) ≡ len q
len-remove_absent [] t h = refl
len-remove_absent ((u, w) ∷ q) t h = ground (arith, len-remove_absent q t, get-remove q t u)

len-remove : (q : Entries) (t v : ℕ) → get q t ≡ some v → suc (len (remove q t)) ≡ len q
len-remove [] t v h = cc
len-remove ((u, w) ∷ q) t v h = elim (Option-cases (get q t)) [
  | inl gone ↦ ground (arith, len-remove_absent q t gone, get-remove q t u)
  | inr (x, here) ↦ ground (arith, len-remove q t x here, get-remove q t u)
]

len-push_new : (q : Entries) (t v : ℕ) → get q t ≡ none → len ((t, v) ∷ q) ≡ suc (len q)
len-push_new q t v h = ground arith

len-push_old : (q : Entries) (t v w : ℕ) → get q t ≡ some w → len ((t, v) ∷ q) ≡ len q
len-push_old q t v w h = ground arith

abbrev list_queue : ReadyQueue Entries
list_queue = record {
  empty = [];
  get = get;
  push = λ q t v. (t, v) ∷ q;
  remove = remove;
  peek = peek;
  len = len;
  get-empty = λ t. refl;
  get-push = λ q t v u. refl;
  get-remove = get-remove;
  get-peek = get-peek;
  len-push_new = len-push_new;
  len-push_old = len-push_old;
  len-remove = len-remove;
  len-remove_absent = len-remove_absent;
}

abbrev task_7 : SchedTask
task_7 = record {
  tid = 7;
  load = new_load 1024;
  nice = 0;
  on_rq = true;
  run_queue = 0;
  exec_start = 100;
  sum_exec_runtime = 0;
  prev_sum_exec_runtime = 0;
  vruntime = 5_000_000;
}

-- Task 7 lies at place 0, and so does every place that is not in use.
abbrev one_task : Heap
one_task ref = task_7

abbrev running : RunQueue Entries
running = record {
  ready_tasks = [];
  current_task = some (7, 0);
  load = new_load 1024;
  min_vruntime = 4_000_000;
  nr_running = 1;
}

abbrev ready : RunQueue Entries
ready = record running { ready_tasks = (7, 5_000_000) ∷ []; current_task = none }

abbrev fork : Outcome ((ℕ → Option ℕ) × Heap × RunQueue Entries)
fork = spawn list_queue (λ t. none) one_task running 1 8 0 0 none

abbrev fork_or :
    Outcome ((ℕ → Option ℕ) × Heap × RunQueue Entries) → (ℕ → Option ℕ) × Heap × RunQueue Entries
fork_or (done r) = r
fork_or panic = (λ t. none, one_task, running)

fork-done : fork ≡ done ((fork_or fork).0, (fork_or fork).1, (fork_or fork).2)
unfolding spawn new_task nice_to_weight
fork-done = refl

min_vruntime_mono_example :
    cmp (update_min_vruntime list_queue one_task running).min_vruntime 4_000_000 ≢ Ordering.lt
min_vruntime_mono_example =
    min_vruntime_mono list_queue one_task running (omega arith)
      (unfold least_vruntime in omega arith) (unfold least_vruntime in omega arith)

sched_slice-le-sched_period_example : sched_slice list_queue running task_7 ≤ sched_period 1
sched_slice-le-sched_period_example =
    sched_slice-le-sched_period list_queue running task_7 refl refl (omega arith) (omega arith)
      (omega arith) (omega arith)

calc_delta-le-share_example :
    let (fact, shift) = normalise 33 1024 32 in
    let (fact', shift') = normalise 33 (mul_word fact (inv_weight (new_load 3072))) shift in
    (calc_delta 6_000_000 1024 (new_load 3072) * 3072 ≤ 6_000_000 * 1024)
    × (shift ≡ 32)
    × (shift' ≤ shift)
    × (fact / 2 ^ 32 ≡ 0)
    × (fact' / 2 ^ 32 ≡ 0)
calc_delta-le-share_example =
    calc_delta-le-share 6_000_000 1024 (new_load 3072) (omega arith) (omega arith) (omega arith)
      refl

abbrev two_timers : Timer
two_timers = (5, 1) ∷ (6, 2) ∷ []

-- The third timer is for 5 too: it goes to 7.
expire-add_example :
    let k = free_from two_timers 5 in
    let events' = add two_timers 5 9 in
    let (left, woken) = expire events' 6 in
    (5 ≤ k)
    × (lookup two_timers k ≡ none)
    × (leb 5 6 && ltb 6 k ≡ contains_key two_timers 6 && leb 5 6 && ltb 6 k)
    × (lookup left 7 ≡ (if leb 7 6 then none else if k == 7 then some 9 else lookup two_timers 7))
    × ((if leb k 6 then is_woken 9 woken else true) ≡ true)
    × (length left + length woken ≡ length events')
expire-add_example = expire-add two_timers 5 9 6 7 6 (omega arith, (omega arith, tt))
