-- ===== src/Task/RunQueue/Clock.antt =====
-- The virtual clock of a run queue, and the slice of a task.
use Prim.Native.Nat.{Ordering}
use native.Mathlib.Decide.{dec_le}
use native.Mathlib.Nat.{mul-le-mul_left, mul-le-mul_right}
use queen.Base.{ℕ, ◌+◌, ◌*◌, ◌^◌, ◌≤◌, ◌<◌, ◌≡◌, ◌≢◌, true, none, add_word, arith}
use queen.Task.VRuntime.{delta, later, cmp}
use queen.Task.Load.{sched_period}
use queen.Task.Load.Scaled.{calc_delta-le-share}
use queen.Task.RunQueue.{
  ReadyQueue, SchedTask, Heap, RunQueue, sched_slice, update_min_vruntime, least_vruntime,
}

le_of_share : (r p w l : ℕ) → r * l ≤ p * w → w ≤ l → 0 < l → r ≤ p
le_of_share r p w l h le pos = elim (dec_le r p) [
  | yes fits ↦ fits
  | no over ↦
      let more : p + 1 ≤ r = omega arith in
      let product : (p + 1) * l ≤ r * l = mul-le-mul_right l more in
      let share : p * w ≤ p * l = mul-le-mul_left p le in absurd (omega arith)
]

later_not_before :
    (a b : ℕ) → a < 2 ^ 64 → b < 2 ^ 64 → delta b a ≢ 2 ^ 63 → cmp (later a b) a ≢ Ordering.lt
later_not_before a b ha hb h = ground arith

module _ {Q : Type 0} (queue : ReadyQueue Q) where
  -- The virtual clock of a run queue never goes back: after an update it does not compare as less
  -- than before, unless the least virtual time of the tasks is half the range away.
  pub min_vruntime_mono :
      (heap : Heap) (rq : RunQueue Q)
      → rq.min_vruntime < 2 ^ 64
      → least_vruntime queue heap rq < 2 ^ 64
      → delta (least_vruntime queue heap rq) rq.min_vruntime ≢ 2 ^ 63
      → cmp (update_min_vruntime queue heap rq).min_vruntime rq.min_vruntime ≢ Ordering.lt
  unfolding update_min_vruntime
  min_vruntime_mono heap rq h k apart =
      later_not_before rq.min_vruntime (least_vruntime queue heap rq) h k apart

  -- The slice of a task that is on its run queue is at most the period that all tasks share, if the
  -- load of the queue counts the task, is neither 0 nor 2 ^ 32 or more, and has no cached inverse,
  -- and the number of tasks is a word.
  pub sched_slice-le-sched_period :
      (rq : RunQueue Q) (task : SchedTask)
      → task.on_rq ≡ true
      → rq.load.cached_inverse ≡ none
      → task.load.weight ≤ rq.load.weight
      → 0 < rq.load.weight
      → rq.load.weight < 2 ^ 32
      → rq.nr_running < 2 ^ 64
      → sched_slice queue rq task ≤ sched_period rq.nr_running
  unfolding sched_slice
  sched_slice-le-sched_period rq task on fresh counted pos small few =
      let no_wrap : add_word rq.nr_running 0 ≡ rq.nr_running = omega arith in
      rw (on, no_wrap)
        (le_of_share _ _ task.load.weight rq.load.weight
          (calc_delta-le-share (sched_period rq.nr_running) task.load.weight rq.load (omega arith)
            pos small fresh).0
          counted pos)
