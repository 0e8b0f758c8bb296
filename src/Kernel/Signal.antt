-- ===== src/Kernel/Signal.antt =====
-- kernel/src/signal: sets of signals, the queue of pending signals of a process, and the choice of
-- the next signal for a thread. A set of signals, a u64, is given by its bits; a signal is its number.
use queen.Base.{
  ℕ, suc, ◌+◌, ◌-◌, ◌%◌, ◌^◌, ◌≤◌, ◌<◌, ◌≡◌, Bool, true, false, not, ◌&&◌, ◌||◌, ◌==◌, ltb, leb,
  if◌then◌else◌, List, [], ◌∷◌, ◌++◌, Option, none, some, Bool-cases, inl, inr, arith, Outcome,
  done, panic, assert, ◌>>=◌, ◌>>◌,
}

abbrev pub Sigset : Type 0
Sigset = ℕ → Bool

abbrev pub empty : Sigset
empty b = false

-- A shift by 64 is a shift by 0: the count is taken by its low six bits.
abbrev pub contains : Sigset → ℕ → Bool
contains s sig = s (sig % 64)

abbrev pub add : Sigset → ℕ → Sigset
add s sig b = if b == sig % 64 then true else s b

abbrev pub add_set : Sigset → Sigset → Sigset
add_set s sigset b = s b || sigset b

abbrev pub remove : Sigset → ℕ → Sigset
remove s sig b = if b == sig % 64 then false else s b

abbrev pub remove_set : Sigset → Sigset → Sigset
remove_set s sigset b = if sigset b then false else s b

-- `Signal::from_i32` finds a signal for the numbers from 1 to 64.
abbrev pub is_signal : ℕ → Bool
is_signal signo = leb 1 signo && leb signo 64

abbrev pub is_standard : ℕ → Bool
is_standard sig = ltb sig 32

-- A queued signal: its number and the thread it is for, a word that is read as an `isize`.
abbrev pub Queued : Type 0
Queued = ℕ × ℕ

-- What signals change of a process.
pub record Pending : Type 0 where
  pub sig_queue : List Queued
  pub pending_sigset : Sigset

-- `send_signal`; the event RECEIVE_SIGNAL is set with the entry.
unfoldable pub send_signal : Pending → ℕ → ℕ → Outcome Pending
send_signal p tid signo =
    assert (is_signal signo)
    >> (if is_standard signo && contains p.pending_sigset signo
        then done p
        else done (record {
          sig_queue = p.sig_queue ++ (signo, tid) ∷ [];
          pending_sigset = add p.pending_sigset signo;
        }))

-- `tid == -1 || tid as usize == thread.tid`
abbrev pub is_for : ℕ → ℕ → Bool
is_for thread tid = (tid == 2 ^ 64 - 1) || (tid == thread)

-- What a search finds behind an entry that it passes over.
abbrev pub behind : Queued → Option (Queued × List Queued) → Option (Queued × List Queued)
behind q none = none
behind q (some (found, others)) = some (found, q ∷ others)

-- The search of the loop of `handle_signal`: the first signal for the thread that its mask does
-- not block, and the queue without it.
unfoldable pub find_signal : ℕ → Sigset → List Queued → Outcome (Option (Queued × List Queued))
find_signal thread mask [] = done none
find_signal thread mask (q ∷ queue) =
    let rest = find_signal thread mask queue >>= λ r. done (behind q r) in
    if is_for thread q.1
    then (assert (is_signal q.0) >> (if contains mask q.0 then rest else done (some (q, queue))))
    else rest

abbrev pub drop_pending : Pending → Option (Queued × List Queued) → Option (Queued × Pending)
drop_pending p none = none
drop_pending p (some (q, queue)) =
    some (q, record { sig_queue = queue; pending_sigset = remove p.pending_sigset q.0 })

-- The head of the loop of `handle_signal`: the signal leaves the queue and the set.
unfoldable pub take_signal : ℕ → Sigset → Pending → Outcome (Option (Queued × Pending))
take_signal thread mask p = find_signal thread mask p.sig_queue >>= λ r. done (drop_pending p r)

-- How often a signal is in the queue.
abbrev pub count : ℕ → List Queued → ℕ
count sig [] = 0
count sig (q ∷ queue) = if q.0 == sig then suc (count sig queue) else count sig queue

-- Every number in the queue is a signal's; a signal that is pending is in the queue; and a standard
-- signal is in it once if it is pending, and else not at all. A real-time signal may be in the queue
-- and not be pending, after one of several has been taken.
pub record IsConsistent (p : Pending) : Type 0 where
  pub signals : (sig : ℕ) → is_signal sig ≡ false → count sig p.sig_queue ≡ 0
  pub once :
      (sig : ℕ)
      → 1 ≤ sig
      → sig < 32
      → count sig p.sig_queue ≡ (if contains p.pending_sigset sig then 1 else 0)
  pub queued :
      (sig : ℕ)
      → is_signal sig ≡ true
      → contains p.pending_sigset sig ≡ true
      → 1 ≤ count sig p.sig_queue

count-append :
    (sig : ℕ) (queue : List Queued) (q : Queued)
    → count sig (queue ++ q ∷ []) ≡ count sig queue + (if q.0 == sig then 1 else 0)
count-append sig [] q = ground arith
count-append sig (r ∷ queue) q = ground (arith, count-append sig queue q)

-- Sending keeps the queue and the set of pending signals consistent: signals in the queue are signals,
-- what is pending is in the queue, and a standard signal is in it once if it is pending and else not
-- at all. Afterwards the signal that was sent, standard or real-time, is pending, besides those that
-- were. A standard signal that is pending already is not queued again; any other signal is queued
-- once more. No other signal is queued more or less often.
pub send_signal-IsConsistent :
    (p p' : Pending) (tid signo other : ℕ)
    → IsConsistent p
    → send_signal p tid signo ≡ done p'
    → IsConsistent p'
      × (contains p'.pending_sigset other
          ≡ ((other % 64 == signo % 64) || contains p.pending_sigset other))
      × (count other p'.sig_queue ≡ (
          if (other == signo) && not (is_standard signo && contains p.pending_sigset signo)
          then suc (count other p.sig_queue)
          else count other p.sig_queue))
unfolding send_signal
send_signal-IsConsistent p p' tid signo other c sent = (
  record {
    signals = λ sig none_such.
        ground (arith, c.signals sig none_such, count-append sig p.sig_queue (signo, tid));
    once = λ sig lo hi. ground (arith, c.once sig lo hi, count-append sig p.sig_queue (signo, tid));
    queued = λ sig signal pending.
        ground (arith, c.queued sig signal, count-append sig p.sig_queue (signo, tid));
  },
  ground arith,
  ground (arith, count-append other p.sig_queue (signo, tid)),
)

-- What a search promises of its result.
abbrev Found : ℕ → Sigset → List Queued → Outcome (Option (Queued × List Queued)) → Type 0
Found thread mask queue panic = Unit {0}
Found thread mask queue (done none) = Unit {0}
Found thread mask queue (done (some (q, others))) =
    (is_for thread q.1 ≡ true)
    × (contains mask q.0 ≡ false)
    × ((sig : ℕ) → count sig queue ≡ count sig others + (if q.0 == sig then 1 else 0))

later-Found :
    (thread : ℕ) (mask : Sigset) (q : Queued) (queue : List Queued)
    (r : Outcome (Option (Queued × List Queued)))
    → Found thread mask queue r
    → Found thread mask (q ∷ queue) (r >>= λ o. done (behind q o))
later-Found thread mask q queue panic h = tt
later-Found thread mask q queue (done none) h = tt
later-Found thread mask q queue (done (some (found, others))) h =
    (h.0, h.1, λ sig. ground (arith, h.2 sig))

find_signal-Found :
    (thread : ℕ) (mask : Sigset) (queue : List Queued)
    → Found thread mask queue (find_signal thread mask queue)
unfolding find_signal
find_signal-Found thread mask [] = tt
find_signal-Found thread mask (q ∷ queue) =
    let rest = later-Found thread mask q queue _ (find_signal-Found thread mask queue) in
    elim (Bool-cases (is_for thread q.1)) [
      | inr other ↦ rw other rest
      | inl mine ↦ elim (Bool-cases (is_signal q.0)) [
        | inr odd ↦ rw (mine, odd) tt
        | inl signal ↦ elim (Bool-cases (contains mask q.0)) [
          | inl blocked ↦ rw (mine, signal, blocked) rest
          | inr unblocked ↦ rw (mine, signal, unblocked) (mine, unblocked, λ sig. ground arith)
        ]
      ]
    ]

-- Taking a signal for a thread gives one that is for the thread and that its mask does not block, and
-- keeps the queue and the set of pending signals consistent in the same sense. The signal is in the
-- queue once less, and no other more or less often; it is pending no longer, also where a real-time
-- signal is still in the queue, and every other signal is pending if it was.
pub take_signal-IsConsistent :
    (p p' : Pending) (thread other : ℕ) (mask : Sigset) (q : Queued)
    → IsConsistent p
    → take_signal thread mask p ≡ done (some (q, p'))
    → IsConsistent p'
      × (is_for thread q.1 ≡ true)
      × (contains mask q.0 ≡ false)
      × (count other p.sig_queue ≡ count other p'.sig_queue + (if q.0 == other then 1 else 0))
      × (contains p'.pending_sigset other
          ≡ (contains p.pending_sigset other && not (other % 64 == q.0 % 64)))
unfolding take_signal
take_signal-IsConsistent p p' thread other mask q c taken =
    finish (find_signal thread mask p.sig_queue) (find_signal-Found thread mask p.sig_queue) taken
  where
    finish :
        (r : Outcome (Option (Queued × List Queued)))
        → Found thread mask p.sig_queue r
        → ◌≡◌ {A = Outcome (Option (Queued × Pending))}
            (r >>= λ o. done (drop_pending p o))
            (done (some (q, p')))
        → IsConsistent p'
          × (is_for thread q.1 ≡ true)
          × (contains mask q.0 ≡ false)
          × (count other p.sig_queue ≡ count other p'.sig_queue + (if q.0 == other then 1 else 0))
          × (contains p'.pending_sigset other
              ≡ (contains p.pending_sigset other && not (other % 64 == q.0 % 64)))
    finish panic h e = cc
    finish (done none) h e = cc
    finish (done (some (x, others))) h e =
        let signal : is_signal x.0 ≡ true = elim (Bool-cases (is_signal x.0)) [
          | inl yes_signal ↦ yes_signal
          | inr odd ↦ ground (arith, c.signals x.0 odd, h.2 x.0)
        ] in
        (
          record {
            signals = λ sig none_such. ground (arith, c.signals sig none_such, h.2 sig);
            once = λ sig lo hi. ground (arith, c.once sig lo hi, h.2 sig);
            queued = λ sig signal pending. ground (arith, c.queued sig signal, h.2 sig);
          },
          ground (arith, h.0),
          ground (arith, h.1),
          ground (arith, h.2 other),
          ground arith,
        )
