-- ===== src/Process/Tty.antt =====
-- kernel/src/fs/devfs/tty.rs: the terminal, whose input is a queue of bytes with an event bus. Bytes
-- arrive by `push`; the control byte 3 interrupts the processes of the foreground group instead.
use queen.Base.{
  ℕ, ◌-◌, ◌^◌, ◌≡◌, refl, Bool, true, false, ◌||◌, ◌&&◌, ◌==◌, if◌then◌else◌, List, [], ◌∷◌, ◌++◌,
  Outcome, done, ◌>>=◌, arith,
}
use queen.Kernel.EventBus
use queen.Kernel.EventBus.{EventBus, EventHandler, change, subscribe, woken, retain}
use queen.Kernel.Signal.{is_standard, contains, send_signal}
use queen.Kernel.FileHandle.{Result, ok, err}
use queen.Process.World.{Process, World, put, has, process_group}

-- `TtyINode`
pub record Tty : Type 0 where
  pub foreground_pgid : ℕ
  pub buf : List ℕ
  pub event_bus : EventBus

-- `FsError`, as far as this code uses it
pub data FsError : Type 0 where
  again : FsError

abbrev pub readable : ℕ
readable = 1

abbrev receive_signal : ℕ
receive_signal = 2 ^ 12

abbrev sigint : ℕ
sigint = 2

-- The thread -1, for all threads of a process.
abbrev any_thread : ℕ
any_thread = 2 ^ 64 - 1

abbrev pub is_special : ℕ → Bool
is_special c = (c == 3) || (c == 28) || (c == 26) || (c == 25)

-- `send_signal` of SIGINT to a process: the event is set with an entry of the queue only.
abbrev interrupt : Process → Outcome Process
interrupt p = send_signal p.signals any_thread sigint >>= λ signals. done (record p {
  signals = signals;
  event_bus =
      if is_standard sigint && contains p.signals.pending_sigset sigint
      then p.event_bus
      else (EventBus.set p.event_bus receive_signal).0;
})

-- The loop over the foreground group.
unfoldable pub interrupt_all : World → List ℕ → Outcome World
interrupt_all w [] = done w
interrupt_all w (ref ∷ refs) = interrupt (w.heap ref) >>= λ p. interrupt_all (put w ref p) refs

-- `TtyINode::push`: the processes, the terminal and the tasks that wait for input and are woken.
unfoldable pub push : World → Tty → ℕ → Outcome (World × Tty × List ℕ)
unfolding interrupt_all
push w tty c =
    if is_special c
    then (if c == 3
        then (interrupt_all w (process_group w tty.foreground_pgid) >>= λ w'. done (w', tty, []))
        else done (w, tty, []))
    else (let (bus, tasks) = EventBus.set tty.event_bus readable in
        done (w, record tty { buf = tty.buf ++ c ∷ []; event_bus = bus }, tasks))

abbrev pub can_read : Tty → Bool
can_read tty = elim tty.buf [ [] ↦ false | _ ∷ _ ↦ true ]

-- `read_at` with `pop`: a byte and the terminal without it.
unfoldable pub read_at : Tty → Result FsError ℕ × Tty
read_at tty = elim tty.buf [
  | [] ↦ (err again, tty)
  | c ∷ [] ↦ (ok c, record tty { buf = []; event_bus = (EventBus.clear tty.event_bus readable).0 })
  | c ∷ d ∷ cs ↦ (ok c, record tty { buf = d ∷ cs })
]

-- `SerialFuture::poll` by the task `waker`: whether it is ready, and the terminal after it.
unfoldable pub async_poll : Tty → ℕ → Bool × Tty
unfolding subscribe
async_poll tty waker = if can_read tty then (true, tty) else (
  false,
  record tty { event_bus = subscribe tty.event_bus (record { takes = λ s. true; waker = waker }) },
)

-- The bus says that there is input when there is some.
abbrev pub IsSynced : Tty → Type 0
IsSynced tty = tty.event_bus.event ≡ (if can_read tty then readable else 0)

has-woken :
    (fs : List EventHandler) (waker : ℕ)
    → has waker (woken readable (fs ++ record { takes = λ s. true; waker = waker } ∷ [])) ≡ true
has-woken [] waker = ground arith
has-woken (f ∷ fs) waker = ground (arith, has-woken fs waker)

-- Setting the event on a bus without events wakes the tasks; on a bus that has it, it does nothing.
set-woken :
    (bus : EventBus)
    → bus.event ≡ 0
    → EventBus.set bus readable ≡ (
      record { event = readable; callbacks = retain readable bus.callbacks },
      woken readable bus.callbacks,
    )
unfolding change
set-woken bus e = rw e refl

set-same : (bus : EventBus) → bus.event ≡ readable → EventBus.set bus readable ≡ (bus, [])
unfolding change
set-same bus e = rw e refl

event-clear : (bus : EventBus) → bus.event ≡ readable → (EventBus.clear bus readable).0.event ≡ 0
unfolding change
event-clear bus e = rw e refl

-- The theorem that follows, on the fields of the terminal.
async_poll-push_fields :
    (w : World) (c waker pgid : ℕ) (buf : List ℕ) (bus : EventBus)
    → is_special c ≡ false
    → let tty : Tty = record { foreground_pgid = pgid; buf = buf; event_bus = bus } in
      IsSynced tty
      → let (ready, polled) = async_poll tty waker in
        (tty' : Tty) × (tasks : List ℕ) × (push w polled c ≡ done (w, tty', tasks))
        × (tty'.buf ≡ tty.buf ++ c ∷ [])
        × IsSynced tty'
        × IsSynced (read_at tty').1
        × ((if ready then true else has waker tasks) ≡ true)
unfolding push async_poll read_at
async_poll-push_fields w c waker pgid [] bus plain synced =
    let polled : EventBus = subscribe bus (record { takes = λ s. true; waker = waker }) in
    let after : EventBus = record {
      event = readable;
      callbacks = retain readable polled.callbacks;
    } in
    let same : polled.event ≡ 0 = unfold subscribe in synced in
    (
      record { foreground_pgid = pgid; buf = c ∷ []; event_bus = after },
      woken readable polled.callbacks,
      rw (plain, set-woken polled same) refl,
      refl,
      refl,
      event-clear after refl,
      unfold subscribe in has-woken bus.callbacks waker,
    )
async_poll-push_fields w c waker pgid (b ∷ []) bus plain synced = (
  record { foreground_pgid = pgid; buf = b ∷ c ∷ []; event_bus = bus },
  [],
  rw (plain, set-same bus synced) refl,
  refl,
  synced,
  synced,
  refl,
)
async_poll-push_fields w c waker pgid (b ∷ d ∷ bs) bus plain synced = (
  record { foreground_pgid = pgid; buf = b ∷ d ∷ bs ++ c ∷ []; event_bus = bus },
  [],
  rw (plain, set-same bus synced) refl,
  refl,
  synced,
  synced,
  refl,
)

-- A wake-up for each byte: in a terminal whose bus says whether there is input, a task polls and then
-- a byte that is not special arrives. Either the poll was ready, or the arrival wakes the task. The byte
-- stands behind those that wait, and the bus is right after the arrival and after a read that follows.
pub async_poll-push :
    (w : World) (tty : Tty) (c waker : ℕ)
    → IsSynced tty
    → is_special c ≡ false
    → let (ready, polled) = async_poll tty waker in
      (tty' : Tty) × (tasks : List ℕ) × (push w polled c ≡ done (w, tty', tasks))
      × (tty'.buf ≡ tty.buf ++ c ∷ [])
      × IsSynced tty'
      × IsSynced (read_at tty').1
      × ((if ready then true else has waker tasks) ≡ true)
async_poll-push w tty c waker synced plain =
    async_poll-push_fields w c waker tty.foreground_pgid tty.buf tty.event_bus plain synced
