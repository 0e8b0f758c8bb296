-- ===== src/Process/Deliver/Quiet.antt =====
-- The loop of `handle_signal` ends, and leaves no signal that the thread could take.
use queen.Base.{
  ℕ, zero, suc, ◌<◌, ◌≡◌, refl, Bool, true, false, not, ◌&&◌, ◌==◌, if◌then◌else◌, Bool-cases, inl,
  inr, List, [], ◌∷◌, Option, none, some, Option-cases, length, Outcome, done, panic, ◌>>=◌,
  >>=-eq-done, arith,
}
use queen.Memory.Area.{MemoryArea}
use queen.Kernel.Signal.{
  Sigset, Pending, Queued, contains, is_for, is_signal, behind, find_signal, take_signal,
}
use queen.Process.World.{SignalAction}
use queen.Process.Deliver.{
  State, pending, with_pending, act, enter_handler, handle_loop, after_act, after_search,
  handle_signal, has_signal_to_handle,
}

-- Taking a signal makes the queue shorter by one.
abbrev Shorter : List Queued → Outcome (Option (Queued × List Queued)) → Type 0
Shorter queue panic = Unit {0}
Shorter queue (done none) = Unit {0}
Shorter queue (done (some (q, others))) = length queue ≡ suc (length others)

behind-Shorter :
    (q : Queued) (queue : List Queued) (r : Outcome (Option (Queued × List Queued)))
    → Shorter queue r
    → Shorter (q ∷ queue) (r >>= λ o. done (behind q o))
behind-Shorter q queue panic h = tt
behind-Shorter q queue (done none) h = tt
behind-Shorter q queue (done (some (found, others))) h = omega arith

find_signal-Shorter :
    (thread : ℕ) (mask : Sigset) (queue : List Queued)
    → Shorter queue (find_signal thread mask queue)
unfolding find_signal
find_signal-Shorter thread mask [] = tt
find_signal-Shorter thread mask (q ∷ queue) =
    let rest = behind-Shorter q queue _ (find_signal-Shorter thread mask queue) in
    elim (Bool-cases (is_for thread q.1)) [
      | inr other ↦ rw other rest
      | inl mine ↦ elim (Bool-cases (is_signal q.0)) [
        | inr odd ↦ rw (mine, odd) tt
        | inl signal ↦ elim (Bool-cases (contains mask q.0)) [
          | inl blocked ↦ rw (mine, signal, blocked) rest
          | inr unblocked ↦ rw (mine, signal, unblocked) refl
        ]
      ]
    ]

-- What a round that goes on keeps of the state.
record Keeps (s s' : State) (sig : ℕ) : Type 0 where
  same_process : s'.thread.process ≡ s.thread.process
  same_pending : pending s' ≡ pending s
  blocked : (contains s.thread.sig_mask sig && not (contains s'.thread.sig_mask sig)) ≡ false

enter_handler-Keeps :
    (areas : List MemoryArea) (s s' : State) (action : SignalAction) (signo sig : ℕ)
    → enter_handler areas s action signo ≡ done s'
    → Keeps s s' sig
unfolding enter_handler
enter_handler-Keeps areas s s' action signo sig e = ground arith

act-Keeps :
    (alive : ℕ → Bool) (areas : List MemoryArea) (s s' : State) (signo sig : ℕ)
    → act alive areas s signo ≡ done (false, s')
    → Keeps s s' sig
unfolding act
act-Keeps alive areas s s' signo sig e =
    let action = (s.world.heap s.thread.process).dispositions signo in
    elim (Bool-cases (action.handler == 0)) [
      | inl default_action ↦ ground arith
      | inr other ↦ elim (Bool-cases (action.handler == 1)) [
        | inl ignored ↦ ground arith
        | inr handled ↦ ground (arith, enter_handler-Keeps areas s s' action signo sig)
      ]
    ]

act-exit :
    (alive : ℕ → Bool) (areas : List MemoryArea) (s s' : State) (signo : ℕ)
    → act alive areas s signo ≡ done (true, s')
    → s'.thread ≡ s.thread
unfolding act
act-exit alive areas s s' signo e =
    let action = (s.world.heap s.thread.process).dispositions signo in
    elim (Bool-cases (action.handler == 0)) [
      | inl default_action ↦ ground arith
      | inr other ↦ ground (arith)
    ]

-- What holds of a result of the loop.
record Quiet (s : State) (sig : ℕ) (r : Option (Bool × State)) : Type 0 where
  exit : Bool
  after : State
  result : r ≡ some (exit, after)
  none_left : (if exit then done false else has_signal_to_handle after) ≡ done false
  blocked : (contains s.thread.sig_mask sig && not (contains after.thread.sig_mask sig)) ≡ false

take_signal-none :
    (thread : ℕ) (mask : Sigset) (p : Pending)
    → take_signal thread mask p ≡ done none
    → find_signal thread mask p.sig_queue ≡ done none
unfolding take_signal
take_signal-none thread mask p e =
    let (found, searched, e') = >>=-eq-done (find_signal thread mask p.sig_queue) _ e in
    elim (Option-cases found) [
      | inl nothing ↦ rw nothing at searched
      | inr (q, some_signal) ↦ absurd (ground arith)
    ]

take_signal-shorter :
    (thread : ℕ) (mask : Sigset) (p p' : Pending) (q : Queued)
    → take_signal thread mask p ≡ done (some (q, p'))
    → length p.sig_queue ≡ suc (length p'.sig_queue)
unfolding take_signal
take_signal-shorter thread mask p p' q e =
    let (found, searched, e') = >>=-eq-done (find_signal thread mask p.sig_queue) _ e in
    elim (Option-cases found) [
      | inl nothing ↦ absurd (ground arith)
      | inr ((q', others), some_signal) ↦
          let shorter : length p.sig_queue ≡ suc (length others) =
            rw (searched, some_signal) at (find_signal-Shorter thread mask p.sig_queue) in
          ground arith
    ]

module _ (fuel : ℕ) (alive : ℕ → Bool) (areas : List MemoryArea) (r : Option (Bool × State))
    (sig : ℕ)
    (next : (s : State)
      → length (pending s).sig_queue < fuel
      → handle_loop fuel alive areas s ≡ done r
      → Quiet s sig r) where
  after_act-Quiet :
      (s : State) (signo : ℕ) (acted : Bool × State)
      → length (pending s).sig_queue < fuel
      → act alive areas s signo ≡ done acted
      → after_act (λ s'. handle_loop fuel alive areas s') acted ≡ done r
      → Quiet s sig r
  after_act-Quiet s signo (true, s1) enough e k =
      let same = act-exit alive areas s s1 signo e in
      record {
        exit = true;
        after = s1;
        result = cc;
        none_left = refl;
        blocked = rw same (ground arith);
      }
  after_act-Quiet s signo (false, s1) enough e k =
      let kept = act-Keeps alive areas s s1 signo sig e in
      let q = next s1 (rw kept.same_pending enough) k in
      record {
        exit = q.exit;
        after = q.after;
        result = q.result;
        none_left = q.none_left;
        blocked = ground (arith, kept.blocked, q.blocked);
      }

  after_search-Quiet :
      (s : State) (taken : Option (Queued × Pending))
      → length (pending s).sig_queue < suc fuel
      → take_signal s.thread.tid s.thread.sig_mask (pending s) ≡ done taken
      → after_search (λ s'. handle_loop fuel alive areas s') alive areas s taken ≡ done r
      → Quiet s sig r
  unfolding has_signal_to_handle
  after_search-Quiet s none enough searched e = record {
    exit = false;
    after = s;
    result = cc;
    none_left = rw (take_signal-none s.thread.tid s.thread.sig_mask (pending s) searched) refl;
    blocked = ground arith;
  }
  after_search-Quiet s (some ((signo, tid), p)) enough searched e =
      let (acted, one, rest) = >>=-eq-done (act alive areas (with_pending s p) signo) _ e in
      let shorter =
        take_signal-shorter s.thread.tid s.thread.sig_mask (pending s) p (signo, tid) searched in
      let q = after_act-Quiet (with_pending s p) signo acted (ground arith) one rest in
      record {
        exit = q.exit;
        after = q.after;
        result = q.result;
        none_left = q.none_left;
        blocked = q.blocked;
      }

handle_loop-Quiet :
    (fuel : ℕ) (alive : ℕ → Bool) (areas : List MemoryArea) (s : State) (r : Option (Bool × State))
    (sig : ℕ)
    → length (pending s).sig_queue < fuel
    → handle_loop fuel alive areas s ≡ done r
    → Quiet s sig r
unfolding handle_loop
handle_loop-Quiet zero alive areas s r sig enough e = absurd (omega arith)
handle_loop-Quiet (suc fuel) alive areas s r sig enough e =
    let (taken, searched, rest) =
      >>=-eq-done (take_signal s.thread.tid s.thread.sig_mask (pending s)) _ e in
    after_search-Quiet fuel alive areas r sig
      (λ s1 h k. handle_loop-Quiet fuel alive areas s1 r sig h k) s taken enough searched rest

-- Handling the signals of a thread, when it does not panic, ends. A thread that goes on has no signal
-- left that is for it and that its mask does not block, and what the mask blocked it still blocks.
pub handle_signal-quiet :
    (alive : ℕ → Bool) (areas : List MemoryArea) (s : State) (r : Option (Bool × State)) (sig : ℕ)
    → handle_signal alive areas s ≡ done r
    → (exits : Bool) × (s' : State) × (r ≡ some (exits, s'))
      × ((if exits then done false else has_signal_to_handle s') ≡ done false)
      × ((contains s.thread.sig_mask sig && not (contains s'.thread.sig_mask sig)) ≡ false)
unfolding handle_signal
handle_signal-quiet alive areas s r sig e =
    let q =
      handle_loop-Quiet (suc (length (pending s).sig_queue)) alive areas s r sig (omega arith) e in
    (q.exit, q.after, q.result, q.none_left, q.blocked)
