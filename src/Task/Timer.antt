-- ===== src/Task/Timer.antt =====
-- kernel/src/task/timer.rs: timers by deadline, in nanoseconds, each with a waker.
use queen.Base.{
  ℕ, suc, ◌+◌, ◌≤◌, ◌<◌, ◌≡◌, refl, Bool, true, false, ◌==◌, ltb, leb, if◌then◌else◌, List, [], ◌∷◌,
  none, some, length, arith, ◌&&◌, Bool-cases, inl, inr,
}
use queen.Base.Maps.{Map, lookup, insert, contains_key, free_from, lookup-insert, free_from-IsFree}

-- `Timer`: the deadlines with their wakers, in order.
abbrev pub Timer : Type 0
Timer = Map ℕ

-- `Timer::add`: the search for a free deadline is the loop `while contains_key { deadline += 1 ns }`.
unfoldable pub add : Timer → ℕ → ℕ → Timer
add events deadline waker = insert events (free_from events deadline) waker

-- `Timer::expire`: the timers left, and the tasks that are woken, in order.
unfoldable pub expire : Timer → ℕ → Timer × List ℕ
expire [] now = ([], [])
expire ((deadline, waker) ∷ events) now =
    let (left, woken) = expire events now in
    if ltb now deadline then ((deadline, waker) ∷ events, []) else (left, waker ∷ woken)

-- Deadlines from `low` on, in order.
abbrev pub Ordered : ℕ → Timer → Type 0
Ordered low [] = Unit {0}
Ordered low ((deadline, waker) ∷ events) = (low ≤ deadline) × Ordered (suc deadline) events

insert-Ordered :
    (low : ℕ) (events : Timer) (k waker : ℕ)
    → Ordered low events
    → low ≤ k
    → Ordered low (insert events k waker)
unfolding insert
insert-Ordered low [] k waker o h = (h, tt)
insert-Ordered low ((d, v) ∷ events) k waker o h =
    ground (arith, insert-Ordered (suc d) events k waker)

lookup-below :
    (low : ℕ) (events : Timer) (j : ℕ) → Ordered low events → j < low → lookup events j ≡ none
unfolding lookup
lookup-below low [] j o h = refl
lookup-below low ((d, v) ∷ events) j o h = ground (arith, lookup-below (suc d) events j)

lookup-expire :
    (low : ℕ) (events : Timer) (now j : ℕ)
    → Ordered low events
    → lookup (expire events now).0 j ≡ (if leb j now then none else lookup events j)
unfolding lookup expire
lookup-expire low [] now j o = ground arith
lookup-expire low ((d, v) ∷ events) now j o =
    ground (arith, lookup-expire (suc d) events now j, lookup-below (suc d) events j)

abbrev pub is_woken : ℕ → List ℕ → Bool
is_woken waker [] = false
is_woken waker (w ∷ ws) = if w == waker then true else is_woken waker ws

woken-expire :
    (low : ℕ) (events : Timer) (now j waker : ℕ)
    → Ordered low events
    → lookup events j ≡ some waker
    → leb j now ≡ true
    → is_woken waker (expire events now).1 ≡ true
unfolding lookup expire
woken-expire low [] now j waker o h due = cc
woken-expire low ((d, v) ∷ events) now j waker o h due =
    ground (arith, woken-expire (suc d) events now j waker, lookup-below (suc d) events j)

length-expire :
    (events : Timer) (now : ℕ)
    → length (expire events now).0 + length (expire events now).1 ≡ length events
unfolding expire
length-expire [] now = refl
length-expire ((d, v) ∷ events) now = ground (arith, length-expire events now)

-- A timer that is added never replaces another: it gets the first free deadline from its own on,
-- all between being taken, and all others are as before. At any later time exactly the timers that
-- are due are gone, in one wake-up each: if the new one is due its task is woken, and no timer is
-- lost.
pub expire-add :
    (events : Timer) (deadline waker now j i : ℕ)
    → Ordered 0 events
    → let k = free_from events deadline in
      let events' = add events deadline waker in
      let (left, woken) = expire events' now in
      (deadline ≤ k)
      × (lookup events k ≡ none)
      × (leb deadline i && ltb i k ≡ contains_key events i && leb deadline i && ltb i k)
      × (lookup left j
          ≡ (if leb j now then none else if k == j then some waker else lookup events j))
      × ((if leb k now then is_woken waker woken else true) ≡ true)
      × (length left + length woken ≡ length events')
unfolding add
expire-add events deadline waker now j i o =
    let k = free_from events deadline in
    let f = free_from-IsFree events deadline in
    let o' = insert-Ordered 0 events k waker o (omega arith) in
    let events' = insert events k waker in
    (
      f.from,
      f.free,
      elim (Bool-cases (leb deadline i && ltb i k)) [
        | inl between ↦ ground (arith, f.least i)
        | inr outside ↦ ground arith
      ],
      ground (arith, lookup-expire 0 events' now j, lookup-insert events k waker j),
      ground (arith, woken-expire 0 events' now k waker, lookup-insert events k waker k),
      length-expire events' now,
    )
