-- ===== src/Task/RunQueue/Accounting.antt =====
-- What the counters and the entries of a run queue say after each operation.
use Prim.Native.Nat.{Ordering}
use queen.Base.{
  ℕ, ◌/◌, ◌≡◌, ◌≢◌, Bool, true, false, if◌then◌else◌, Option, none, some, done, add_word, sub_word,
  arith, >>=-eq-done,
}
use queen.Task.VRuntime.{later, cmp}
use queen.Task.Load.{add_load, sched_latency}
use queen.Task.RunQueue.{
  ReadyQueue, Heap, RunQueue, is_current_task, insert_task, task_tick, update_min_vruntime,
  schedule, spawn, finish, after_run, sched_vslice, new_task, tick,
}

module _ {Q : Type 0} (queue : ReadyQueue Q) where
  abbrev pub is_ready : RunQueue Q → ℕ → Bool
  is_ready rq t = elim (queue.get rq.ready_tasks t) [ none ↦ false | some _ ↦ true ]

  -- A spawned task is active, on its run queue and ready, and the entry that the queue orders by has
  -- the task's own virtual time. If it is not the current task, the queue counts one task more, with its load.
  spawn-counted :
      (active active' : ℕ → Option ℕ) (heap heap' : Heap) (rq rq' : RunQueue Q)
      (ref tid nice cpu : ℕ) (parent : Option ℕ)
      → spawn queue active heap rq ref tid nice cpu parent ≡ done (active', heap', rq')
      → (active' tid ≡ some ref)
        × ((heap' ref).on_rq ≡ true)
        × (queue.get rq'.ready_tasks tid ≡ some (heap' ref).vruntime)
        × (rq'.nr_running
            ≡ (if is_current_task queue rq tid then rq.nr_running else add_word rq.nr_running 1))
        × (rq'.load
            ≡ (if is_current_task queue rq tid then rq.load else add_load rq.load (heap' ref).load))
  unfolding spawn insert_task
  spawn-counted active active' heap heap' rq rq' ref tid nice cpu parent e =
      let (task, fresh, rest) =
        >>=-eq-done (new_task tid nice cpu (elim parent [ none ↦ rq.min_vruntime | some v ↦ v ])) _
          e in
      let vruntime = later task.vruntime (add_word rq.min_vruntime (sched_vslice queue rq task)) in
      ground (arith, queue.get-push rq.ready_tasks tid vruntime tid)

  -- A tick of a ready task gives its entry the task's own virtual time, and changes neither the
  -- counter nor the load; of the tasks it changes only that one.
  task_tick-ready :
      (heap : Heap) (rq : RunQueue Q) (ref now other : ℕ)
      → is_ready rq (heap ref).tid ≡ true
      → other ≢ ref
      → let (heap', rq') = task_tick queue heap rq ref now in
        (queue.get rq'.ready_tasks (heap ref).tid ≡ some (heap' ref).vruntime)
        × (rq'.nr_running ≡ rq.nr_running)
        × (rq'.load ≡ rq.load)
        × (heap' other ≡ heap other)
  unfolding task_tick update_min_vruntime
  task_tick-ready heap rq ref now other ready apart = ground (
    arith,
    queue.get-push rq.ready_tasks (heap ref).tid (tick (heap ref) now).vruntime (heap ref).tid,
  )

  -- A task that wakes with a virtual time later than the queue's clock less half a latency gets a
  -- ready entry with that earlier time, which is not the task's own.
  schedule-stale :
      (heap : Heap) (rq : RunQueue Q) (ref : ℕ)
      → cmp (heap ref).vruntime (sub_word rq.min_vruntime (sched_latency / 2)) ≡ Ordering.gt
      → let (heap', rq') = schedule queue heap rq ref in
        ((heap' ref).vruntime ≡ (heap ref).vruntime)
        × (queue.get rq'.ready_tasks (heap ref).tid
            ≡ some (sub_word rq.min_vruntime (sched_latency / 2)))
        × (queue.get rq'.ready_tasks (heap ref).tid ≢ some (heap' ref).vruntime)
  unfolding schedule insert_task
  schedule-stale heap rq ref late = ground (
    arith,
    queue.get-push rq.ready_tasks (heap ref).tid (sub_word rq.min_vruntime (sched_latency / 2))
        (heap ref).tid,
  )

  -- The current task, when it ends, is counted off twice: once as its future is dropped, and once
  -- more by the run loop, since it has not yielded.
  finish-counted_twice :
      (active : ℕ → Option ℕ) (heap : Heap) (rq : RunQueue Q) (ref now : ℕ)
      → is_current_task queue rq (heap ref).tid ≡ true
      → let (active', heap', rq') = finish queue active heap rq ref in
        (after_run queue heap' rq' ref false now).1.nr_running
        ≡ sub_word (sub_word rq.nr_running 1) 1
  unfolding finish after_run update_min_vruntime task_tick
  finish-counted_twice active heap rq ref now current = ground arith
