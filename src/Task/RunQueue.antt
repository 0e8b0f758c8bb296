-- ===== src/Task/RunQueue.antt =====
-- kernel/src/task/executor/mod.rs, `RunQueue`, `SchedTask` and `Executor`. Tasks lie on a heap, since
-- the arena of active tasks, the run queues and the futures share them.
pub mod Clock
pub mod Accounting
use Prim.Native.Nat.{Ordering}
use queen.Base.{
  ℕ, ◌+◌, ◌-◌, ◌*◌, ◌/◌, ◌%◌, ◌^◌, ◌≤◌, ◌<◌, ◌≡◌, ◌≢◌, Bool, true, false, not, ◌&&◌, ◌||◌, ◌==◌,
  leb, ltb, if◌then◌else◌, Option, none, some, List, [], ◌∷◌, ◌++◌, Outcome, done, panic, expect,
  ◌>>=◌, ◌>>◌, add_word, sub_word, is_negative, zero, suc,
}
use queen.Task.VRuntime.{add_vruntime, sub_vruntime, delta, later, earlier}
use queen.Task.Load.{
  LoadWeight, new_load, add_load, sub_load, nice_to_weight, calc_delta, sched_period, nice_0_weight,
  sched_latency, sched_min_granularity,
}

-- The queue of the crate `priority-queue`: tasks by number, with the virtual time of `ReadyTask`.
-- The laws are what its documentation says of a map with priorities.
pub record ReadyQueue (Q : Type 0) : Type 0 where
  pub empty : Q
  pub get : Q → ℕ → Option ℕ
  pub push : Q → ℕ → ℕ → Q
  pub remove : Q → ℕ → Q
  pub peek : Q → Option (ℕ × ℕ)
  pub len : Q → ℕ
  pub get-empty : (t : ℕ) → get empty t ≡ none
  pub get-push : (q : Q) (t v u : ℕ) → get (push q t v) u ≡ (if t == u then some v else get q u)
  pub get-remove : (q : Q) (t u : ℕ) → get (remove q t) u ≡ (if t == u then none else get q u)
  pub get-peek : (q : Q) (t v : ℕ) → peek q ≡ some (t, v) → get q t ≡ some v
  pub len-push_new : (q : Q) (t v : ℕ) → get q t ≡ none → len (push q t v) ≡ suc (len q)
  pub len-push_old : (q : Q) (t v w : ℕ) → get q t ≡ some w → len (push q t v) ≡ len q
  pub len-remove : (q : Q) (t v : ℕ) → get q t ≡ some v → suc (len (remove q t)) ≡ len q
  pub len-remove_absent : (q : Q) (t : ℕ) → get q t ≡ none → len (remove q t) ≡ len q

pub record SchedTask : Type 0 where
  pub tid : ℕ
  pub load : LoadWeight
  pub nice : ℕ
  pub on_rq : Bool
  -- the processor whose run queue the task belongs to
  pub run_queue : ℕ
  pub exec_start : ℕ
  pub sum_exec_runtime : ℕ
  pub prev_sum_exec_runtime : ℕ
  pub vruntime : ℕ

abbrev pub Heap : Type 0
Heap = ℕ → SchedTask

abbrev pub put : Heap → ℕ → SchedTask → Heap
put heap ref task r = if ref == r then task else heap r

pub record RunQueue (Q : Type 0) : Type 0 where
  pub ready_tasks : Q
  -- the number of the current task, and where it lies on the heap
  pub current_task : Option (ℕ × ℕ)
  pub load : LoadWeight
  pub min_vruntime : ℕ
  pub nr_running : ℕ

-- `SchedTask::new`
unfoldable pub new_task : ℕ → ℕ → ℕ → ℕ → Outcome SchedTask
new_task tid nice run_queue vruntime = do
  weight ← nice_to_weight nice
  done (record {
    tid = tid;
    load = new_load weight;
    nice = nice;
    on_rq = false;
    run_queue = run_queue;
    exec_start = 0;
    sum_exec_runtime = 0;
    prev_sum_exec_runtime = 0;
    vruntime = vruntime;
  })

-- `SchedTask::delta_fair`
unfoldable pub delta_fair : SchedTask → ℕ → ℕ
delta_fair task delta_exec =
    if task.load.weight == nice_0_weight
    then delta_exec
    else calc_delta delta_exec nice_0_weight task.load

-- `SchedTask::tick`, at the time `now`
unfoldable pub tick : SchedTask → ℕ → SchedTask
tick task now =
    let delta_exec = sub_word now task.exec_start in
    record task {
      exec_start = now;
      sum_exec_runtime = add_word task.sum_exec_runtime delta_exec;
      vruntime = add_vruntime task.vruntime (delta_fair task delta_exec);
    }

module _ {Q : Type 0} (queue : ReadyQueue Q) where
  unfoldable pub new_run_queue : RunQueue Q
  new_run_queue = record {
    ready_tasks = queue.empty;
    current_task = none;
    load = new_load 0;
    min_vruntime = 0;
    nr_running = 0;
  }

  abbrev pub is_current_task : RunQueue Q → ℕ → Bool
  is_current_task rq tid = elim rq.current_task [
    | none ↦ false
    | some (current, ref) ↦ current == tid
  ]

  unfoldable pub sched_slice : RunQueue Q → SchedTask → ℕ
  sched_slice rq task =
      let period = sched_period (add_word rq.nr_running (if task.on_rq then 0 else 1)) in
      let load = if task.on_rq then rq.load else add_load rq.load task.load in
      calc_delta period task.load.weight load

  unfoldable pub sched_vslice : RunQueue Q → SchedTask → ℕ
  sched_vslice rq task = delta_fair task (sched_slice rq task)

  unfoldable pub insert_task : RunQueue Q → ℕ → ℕ → LoadWeight → RunQueue Q
  insert_task rq tid vruntime load =
      let counted = not (is_current_task rq tid) in
      record rq {
        ready_tasks = queue.push rq.ready_tasks tid vruntime;
        nr_running = if counted then add_word rq.nr_running 1 else rq.nr_running;
        load = if counted then add_load rq.load load else rq.load;
      }

  -- The time that `update_min_vruntime` compares with the old one.
  unfoldable pub least_vruntime : Heap → RunQueue Q → ℕ
  least_vruntime heap rq =
      let base : ℕ = elim rq.current_task [
        | none ↦ rq.min_vruntime
        | some (tid, ref) ↦ if (heap ref).on_rq then (heap ref).vruntime else rq.min_vruntime
      ] in
      elim (queue.peek rq.ready_tasks) [
        | none ↦ base
        | some (tid, next) ↦ elim rq.current_task [ none ↦ next | some _ ↦ earlier base next ]
      ]

  unfoldable pub update_min_vruntime : Heap → RunQueue Q → RunQueue Q
  update_min_vruntime heap rq = record rq {
    min_vruntime = later rq.min_vruntime (least_vruntime heap rq);
  }

  -- `remove_task`, of the task at `ref`
  unfoldable pub remove_task : Heap → RunQueue Q → ℕ → Heap × RunQueue Q
  remove_task heap rq ref =
      let task = heap ref in
      let heap' = put heap ref (record task { on_rq = false }) in
      let ready : Bool = elim (queue.get rq.ready_tasks task.tid) [
        | none ↦ false
        | some _ ↦ true
      ] in
      let rq' = record rq { ready_tasks = queue.remove rq.ready_tasks task.tid } in
      if ready || is_current_task rq task.tid
      then (
        heap',
        update_min_vruntime heap' (record rq' {
          nr_running = sub_word rq.nr_running 1;
          load = sub_load rq.load task.load;
        }),
      )
      else (heap', rq')

  -- `task_tick`, of the task at `ref`, at the time `now`
  unfoldable pub task_tick : Heap → RunQueue Q → ℕ → ℕ → Heap × RunQueue Q
  unfolding tick
  task_tick heap rq ref now =
      let task = tick (heap ref) now in
      let heap' = put heap ref task in
      let ready_tasks : Q = elim (queue.get rq.ready_tasks task.tid) [
        | none ↦ rq.ready_tasks
        | some _ ↦ queue.push rq.ready_tasks task.tid task.vruntime
      ] in
      (heap', update_min_vruntime heap' (record rq { ready_tasks = ready_tasks }))

  -- Whether `pop_task_to_run` takes the processor from the current task. The last comparison is of
  -- an `isize`, with the virtual time of the first ready task.
  unfoldable pub preempts : RunQueue Q → SchedTask → Outcome Bool
  preempts rq current =
      let ideal_runtime = sched_slice rq current in
      let delta_exec = sub_word current.sum_exec_runtime current.prev_sum_exec_runtime in
      if not current.on_rq || ltb ideal_runtime delta_exec
      then done true
      else if ltb delta_exec sched_min_granularity
      then done false
      else (expect (queue.peek rq.ready_tasks) >>= λ next. done (
          ltb (add_word ideal_runtime (2 ^ 63))
            (add_word (delta current.vruntime next.1) (2 ^ 63))))

  -- The first ready task.
  unfoldable pub first_ready : Q → Outcome ℕ
  first_ready ready = expect (queue.peek ready) >>= λ top. done top.0

  -- The task that `pop_task_to_run` chooses, after stealing.
  unfoldable pub choose_task : Heap → RunQueue Q → Outcome ℕ
  unfolding first_ready preempts
  choose_task heap rq =
      if ltb rq.nr_running 2 then first_ready rq.ready_tasks else elim rq.current_task [
        | none ↦ first_ready rq.ready_tasks
        | some (current, ref) ↦ preempts rq (heap ref) >>= λ preempt_current.
            if preempt_current
            then first_ready (queue.remove rq.ready_tasks current)
            else done current
      ]

  -- The rest of `pop_task_to_run`: the chosen task leaves the queue and becomes the current one.
  -- `active` is the arena of active tasks, from numbers to places on the heap.
  unfoldable pub start_task :
      (ℕ → Option ℕ) → Heap → RunQueue Q → ℕ → ℕ → Outcome (Heap × RunQueue Q × ℕ)
  start_task active heap rq tid now = do
    _ ← expect (queue.get rq.ready_tasks tid)
    ref ← expect (active tid)
    done (
      put heap ref (record (heap ref) { exec_start = now }),
      record rq { ready_tasks = queue.remove rq.ready_tasks tid; current_task = some (tid, ref) },
      ref,
    )

  -- The closure of `SchedTask::schedule_fn`, with GENTLE_FAIR_SLEEPERS set as `SchedFeatures::new`
  -- sets it: the task at `ref` has woken.
  unfoldable pub schedule : Heap → RunQueue Q → ℕ → Heap × RunQueue Q
  schedule heap rq ref =
      let vruntime = sub_vruntime rq.min_vruntime (sched_latency / 2) in
      let task = record (heap ref) {
        on_rq = true;
        vruntime = later (heap ref).vruntime vruntime;
      } in
      (put heap ref task, insert_task rq task.tid vruntime task.load)

  -- `Executor::spawn` at the free place `ref`, with START_DEBIT set and SCHED_CHILD_RUNS_FIRST not:
  -- the parent's virtual time is given for a fork.
  unfoldable pub spawn :
      (ℕ → Option ℕ)
      → Heap
      → RunQueue Q
      → ℕ
      → ℕ
      → ℕ
      → ℕ
      → Option ℕ
      → Outcome ((ℕ → Option ℕ) × Heap × RunQueue Q)
  spawn active heap rq ref tid nice cpu parent = do
    task ← new_task tid nice cpu (elim parent [ none ↦ rq.min_vruntime | some v ↦ v ])
    let vruntime = later task.vruntime (add_vruntime rq.min_vruntime (sched_vslice rq task))
    done (
      λ t. if t == tid then some ref else active t,
      put heap ref (record task { vruntime = vruntime; on_rq = true }),
      insert_task rq tid vruntime task.load,
    )

  -- The closure that `spawn` runs when the future of the task at `ref` is dropped.
  unfoldable pub finish :
      (ℕ → Option ℕ) → Heap → RunQueue Q → ℕ → (ℕ → Option ℕ) × Heap × RunQueue Q
  unfolding remove_task
  finish active heap rq ref =
      let tid = (heap ref).tid in
      let (heap', rq') = remove_task heap rq ref in
      (λ t. if t == tid then none else active t, heap', rq')

  -- The end of a round of `Executor::run`: the task at `ref` has run, and has yielded or not.
  unfoldable pub after_run : Heap → RunQueue Q → ℕ → Bool → ℕ → Heap × RunQueue Q
  after_run heap rq ref is_yielded now =
      let (heap', rq') = if is_yielded then (heap, rq) else remove_task heap rq ref in
      task_tick heap' rq' ref now

  -- The loop of `try_steal_tasks`, for `count` tasks, from the queue `rq` of another processor to
  -- `mine`; `locked` says which tasks are locked. It gives the heap, both queues and the tasks to
  -- push back.
  unfoldable pub steal_loop :
      ℕ
      → (ℕ → Option ℕ)
      → (ℕ → Bool)
      → ℕ
      → Heap
      → RunQueue Q
      → RunQueue Q
      → List (ℕ × ℕ)
      → Outcome (Heap × RunQueue Q × RunQueue Q × List (ℕ × ℕ))
  steal_loop zero active locked cpu heap mine rq back = done (heap, mine, rq, back)
  steal_loop (suc count) active locked cpu heap mine rq back =
      expect (queue.peek rq.ready_tasks) >>= λ top.
      let rq' = record rq { ready_tasks = queue.remove rq.ready_tasks top.0 } in
      elim (is_current_task rq top.0) [
        | true ↦ steal_loop count active locked cpu heap mine rq' (back ++ top ∷ [])
        | false ↦ expect (active top.0) >>= λ ref. elim (locked ref) [
          | true ↦ steal_loop count active locked cpu heap mine rq' (back ++ top ∷ [])
          | false ↦
              steal_loop count active locked cpu
                (put heap ref (record (heap ref) {
                  vruntime =
                      add_vruntime (sub_vruntime (heap ref).vruntime rq.min_vruntime)
                        mine.min_vruntime;
                  run_queue = cpu;
                }))
                (record mine { ready_tasks = queue.push mine.ready_tasks top.0 top.1 }) rq' back
        ]
      ]

  unfoldable pub push_back : Q → List (ℕ × ℕ) → Q
  push_back ready [] = ready
  push_back ready ((tid, vruntime) ∷ rest) = push_back (queue.push ready tid vruntime) rest

  -- `try_steal_tasks` from a queue that `try_lock` has given and that has more than two tasks.
  unfoldable pub steal_from :
      (ℕ → Option ℕ)
      → (ℕ → Bool)
      → ℕ
      → Heap
      → RunQueue Q
      → RunQueue Q
      → Outcome (Heap × RunQueue Q × RunQueue Q)
  steal_from active locked cpu heap mine rq =
      steal_loop (queue.len rq.ready_tasks / 2) active locked cpu heap mine rq [] >>= λ r.
      done (r.0, r.1, record r.2 { ready_tasks = push_back r.2.ready_tasks r.3 })
