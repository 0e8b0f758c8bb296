-- ===== src/Kernel/EventBus.antt =====
-- kernel/src/sync/event_bus.rs: events as a word of bits, and callbacks that wait for them.
use queen.Base.{
  ℕ, suc, ◌&&◌, ◌-◌, ◌^◌, ◌≡◌, Bool, false, not, ◌==◌, bit_and, bit_or, bit_xor, if◌then◌else◌,
  List, [], ◌∷◌, ◌++◌, Option, none, some, All,
}

-- A callback says of new events whether it takes them; then it is dropped, and the task of its
-- number has been woken.
pub record EventHandler : Type 0 where
  pub takes : ℕ → Bool
  pub waker : ℕ

pub record EventBus : Type 0 where
  pub event : ℕ
  pub callbacks : List EventHandler

-- `callbacks.retain(|f| !f(new))`: what stays; a callback answers whether it takes the events, and
-- wakes its task if it does.
abbrev pub retain : ℕ → List EventHandler → List EventHandler
retain new [] = []
retain new (f ∷ fs) = if f.takes new then retain new fs else f ∷ retain new fs

-- The tasks that the same calls wake.
abbrev pub woken : ℕ → List EventHandler → List ℕ
woken new [] = []
woken new (f ∷ fs) = if f.takes new then f.waker ∷ woken new fs else woken new fs

-- `EventBus::change`: the bus and the woken tasks. `remove` of bitflags clears the bits of `reset`.
unfoldable pub change : EventBus → ℕ → ℕ → EventBus × List ℕ
change bus reset set =
    let new = bit_or (bit_and bus.event (bit_xor reset (2 ^ 32 - 1))) set in
    if new == bus.event
    then (record bus { event = new }, [])
    else (record { event = new; callbacks = retain new bus.callbacks }, woken new bus.callbacks)

-- `EventBus::set` and `EventBus::clear`
abbrev pub set : EventBus → ℕ → EventBus × List ℕ
set bus events = change bus 0 events

abbrev pub clear : EventBus → ℕ → EventBus × List ℕ
clear bus events = change bus events 0

unfoldable pub subscribe : EventBus → EventHandler → EventBus
subscribe bus callback = record bus { callbacks = bus.callbacks ++ callback ∷ [] }

-- `EventBusFuture::poll`, of the task `waker` for the events of `mask`: none is Pending.
unfoldable pub poll : EventBus → ℕ → ℕ → Option ℕ × EventBus
unfolding subscribe
poll bus mask waker =
    if not (bit_and bus.event mask == 0)
    then (some bus.event, bus)
    else (none, subscribe bus (record { takes = λ s. not (bit_and s mask == 0); waker = waker }))

-- No callback waits for events that are there.
abbrev pub IsQuiet : EventBus → Type 0
IsQuiet bus = All (λ f. f.takes bus.event ≡ false) bus.callbacks

-- How many of the callbacks are the task's, and how many of those take the events.
abbrev pub waiting : ℕ → List EventHandler → ℕ
waiting task [] = 0
waiting task (f ∷ fs) = if f.waker == task then suc (waiting task fs) else waiting task fs

abbrev pub taking : ℕ → ℕ → List EventHandler → ℕ
taking task new [] = 0
taking task new (f ∷ fs) =
    if f.takes new && (f.waker == task) then suc (taking task new fs) else taking task new fs

-- How often a task is woken.
abbrev pub times : ℕ → List ℕ → ℕ
times task [] = 0
times task (t ∷ ts) = if t == task then suc (times task ts) else times task ts
