-- ===== src/Task/Load.antt =====
-- kernel/src/task/executor/mod.rs: load weights, weights by nice level, and the scaled division
-- `calc_delta`.
pub mod Scaled
use queen.Base.{
  ℕ, zero, suc, ◌+◌, ◌-◌, ◌*◌, ◌/◌, ◌%◌, ◌^◌, ◌≤◌, ◌<◌, ◌≡◌, Bool, true, false, ◌==◌, leb, ltb,
  if◌then◌else◌, Option, none, some, List, [], ◌∷◌, get_elem?, Outcome, done, panic, expect,
  add_word, sub_word, mul_word,
}

abbrev pub sched_latency : ℕ
sched_latency = 6_000_000

abbrev pub sched_min_granularity : ℕ
sched_min_granularity = 750_000

abbrev pub sched_nr_latency : ℕ
sched_nr_latency = 8

-- `NICE_0_WEIGHT`
abbrev pub nice_0_weight : ℕ
nice_0_weight = 1024

pub record LoadWeight : Type 0 where
  pub weight : ℕ
  pub cached_inverse : Option ℕ

abbrev pub new_load : ℕ → LoadWeight
new_load weight = record { weight = weight; cached_inverse = none }

abbrev pub wmult_const : ℕ
wmult_const = 0xffff_ffff

-- `LoadWeight::inv_weight`
unfoldable pub inv_weight : LoadWeight → ℕ
inv_weight lw = elim lw.cached_inverse [
  | some inverse ↦ inverse
  | none ↦
      if lw.weight == 0
      then wmult_const
      else if leb lw.weight wmult_const
      then wmult_const / lw.weight
      else 1
]

abbrev pub add_load : LoadWeight → LoadWeight → LoadWeight
add_load a b = new_load (add_word a.weight b.weight)

abbrev pub sub_load : LoadWeight → LoadWeight → LoadWeight
sub_load a b = new_load (sub_word a.weight b.weight)

abbrev pub nice_table : List ℕ
nice_table =
    88761 ∷ 71755 ∷ 56483 ∷ 46273 ∷ 36291 ∷ 29154 ∷ 23254 ∷ 18705 ∷ 14949 ∷ 11916 ∷ 9548 ∷ 7620
    ∷ 6100 ∷ 4904 ∷ 3906 ∷ 3121 ∷ 2501 ∷ 1991 ∷ 1586 ∷ 1277 ∷ 1024 ∷ 820 ∷ 655 ∷ 526 ∷ 423 ∷ 335
    ∷ 272 ∷ 215 ∷ 172 ∷ 137 ∷ 110 ∷ 87 ∷ 70 ∷ 56 ∷ 45 ∷ 36 ∷ 29 ∷ 23 ∷ 18 ∷ 15 ∷ []

-- The nice level is a word that is read as an `isize`. An index out of range panics.
unfoldable pub nice_to_weight : ℕ → Outcome ℕ
nice_to_weight nice = expect (get_elem? nice_table (add_word nice 20))

-- `while (fact >> 32) != 0 { fact >>= 1; shift -= 1; }`, on fuel: a word has at most 32 high bits.
unfoldable pub normalise : ℕ → ℕ → ℕ → ℕ × ℕ
normalise zero fact shift = (fact, shift)
normalise (suc fuel) fact shift = elim (fact / 2 ^ 32 == 0) [
  | true ↦ (fact, shift)
  | false ↦ normalise fuel (fact / 2) (sub_word shift 1)
]

-- `((delta_exec as u128 * fact as u128) >> shift) as usize`
abbrev pub scaled : ℕ → ℕ → ℕ → ℕ
scaled delta_exec fact shift = delta_exec * fact / 2 ^ shift % 2 ^ 64

unfoldable pub calc_delta : ℕ → ℕ → LoadWeight → ℕ
unfolding normalise inv_weight
calc_delta delta_exec weight lw =
    let (fact, shift) = normalise 33 weight 32 in
    let (fact', shift') = normalise 33 (mul_word fact (inv_weight lw)) shift in
    scaled delta_exec fact' shift'

unfoldable pub sched_period : ℕ → ℕ
sched_period nr_running =
    if ltb sched_nr_latency nr_running
    then mul_word nr_running sched_min_granularity
    else sched_latency
