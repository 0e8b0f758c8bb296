-- ===== src/Task/VRuntime.antt =====
-- kernel/src/task/executor/mod.rs, `VRuntime`: a virtual time that wraps round, compared by the sign
-- of a difference; and the reversed order of `ReadyTask`.
use Prim.Native.Nat.{Ordering}
use queen.Base.{ℕ, ◌^◌, ◌<◌, ◌≡◌, ◌==◌, if◌then◌else◌, arith, add_word, sub_word, is_negative}

-- `Add` and `AddAssign`, of a number or of a virtual time.
abbrev pub add_vruntime : ℕ → ℕ → ℕ
add_vruntime v rhs = add_word v rhs

-- `Sub` and `SubAssign`, of a number or of a virtual time.
abbrev pub sub_vruntime : ℕ → ℕ → ℕ
sub_vruntime v rhs = sub_word v rhs

-- `VRuntime::delta`, as a word that is read as an `isize`.
abbrev pub delta : ℕ → ℕ → ℕ
delta a b = sub_word a b

-- `Ord::cmp`: the sign of the difference.
abbrev pub cmp : ℕ → ℕ → Ordering
cmp a b =
    if delta a b == 0
    then Ordering.eq
    else if is_negative (delta a b)
    then Ordering.lt
    else Ordering.gt

abbrev pub reverse : Ordering → Ordering
reverse Ordering.lt = Ordering.gt
reverse Ordering.eq = Ordering.eq
reverse Ordering.gt = Ordering.lt

-- `impl Ord for ReadyTask`
abbrev pub ready_cmp : ℕ → ℕ → Ordering
ready_cmp a b = reverse (cmp a b)

-- `Ord::max` and `Ord::min` by `cmp`: of equal times the second and the first.
abbrev pub later : ℕ → ℕ → ℕ
later a b = elim (cmp a b) [ Ordering.gt ↦ a | _ ↦ b ]

abbrev pub earlier : ℕ → ℕ → ℕ
earlier a b = elim (cmp a b) [ Ordering.gt ↦ b | _ ↦ a ]

-- A time that has moved on by less than half the range, wrapping round or not, compares as later:
-- equal after no time, greater after some, and the other way round it is less. `later` picks the
-- time that has moved on, in either order, and `earlier` the other one. A ready task with the
-- earlier time has the higher priority.
cmp-add_word :
    (a d : ℕ)
    → a < 2 ^ 64
    → d < 2 ^ 63
    → (cmp (add_word a d) a ≡ (if d == 0 then Ordering.eq else Ordering.gt))
      × (cmp a (add_word a d) ≡ (if d == 0 then Ordering.eq else Ordering.lt))
      × (ready_cmp a (add_word a d) ≡ (if d == 0 then Ordering.eq else Ordering.gt))
      × (later (add_word a d) a ≡ add_word a d)
      × (later a (add_word a d) ≡ add_word a d)
      × (earlier (add_word a d) a ≡ a)
      × (earlier a (add_word a d) ≡ a)
cmp-add_word a d ha hd = ground arith

-- The order is not antisymmetric: of two times half the range apart each is less than the other.
cmp-half_range :
    (a : ℕ)
    → a < 2 ^ 64
    → (cmp a (add_word a (2 ^ 63)) ≡ Ordering.lt) × (cmp (add_word a (2 ^ 63)) a ≡ Ordering.lt)
cmp-half_range a ha = ground arith
