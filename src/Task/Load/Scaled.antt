-- ===== src/Task/Load/Scaled.antt =====
-- `calc_delta` never gives more than the exact share.
use native.Mathlib.Nat.{pow-suc, mul-le-mul, mul-le-mul_left, mul-le-mul_right, div-mul-le_self}
use queen.Base.{
  ℕ, zero, suc, ◌*◌, ◌/◌, ◌^◌, ◌≤◌, ◌<◌, ◌≡◌, refl, ap, ◌==◌, none, sub_word, mul_word, arith, inl,
  inr, Bool-cases,
}
use queen.Task.Load.{LoadWeight, inv_weight, normalise, scaled, calc_delta, wmult_const}

-- What the loop keeps: `fact` has been halved as often as `shift` has been lowered, and no bit is
-- left above the 32nd.
record Halved (start : ℕ) (r : ℕ × ℕ) : Type 0 where
  times : ℕ
  power : times * 2 ^ r.1 ≡ 2 ^ 32
  bound : r.0 * times ≤ start

half_mul : (fact times : ℕ) → fact / 2 * (times * 2) ≤ fact * times
half_mul fact times =
    let half : fact / 2 * 2 ≤ fact = omega arith in
    let scaled_up : fact / 2 * 2 * times ≤ fact * times = mul-le-mul_right times half in omega arith

halve : (start fact shift : ℕ) → Halved start (fact, suc shift) → Halved start (fact / 2, shift)
halve start fact shift h = record {
  times = h.times * 2;
  power =
      let double : h.times * (2 ^ shift * 2) ≡ 2 ^ 32 = rw (← pow-suc 2 shift) h.power in
      omega arith;
  bound = omega (arith, half_mul fact h.times, h.bound);
}

-- At shift 0 all 32 halvings are done, and a product of two 32-bit numbers has no high bit left.
Halved-small : (start fact : ℕ) → start < 2 ^ 64 → Halved start (fact, 0) → fact / 2 ^ 32 ≡ 0
Halved-small start fact small h =
    let all : h.times ≡ 2 ^ 32 = omega (arith, h.power) in
    let bound : fact * 2 ^ 32 ≤ start = rw all at h.bound in omega arith

-- The loop keeps the relation, however much fuel it has, and never lowers the shift below 0.
normalise-Halved :
    (fuel start fact shift : ℕ)
    → start < 2 ^ 64
    → shift ≤ 32
    → Halved start (fact, shift)
    → Halved start (normalise fuel fact shift) × ((normalise fuel fact shift).1 ≤ shift)
unfolding normalise
normalise-Halved zero start fact shift small s h = (h, omega arith)
normalise-Halved (suc fuel) start fact zero small s h =
    rw (Halved-small start fact small h, normalise) (h, omega arith)
normalise-Halved (suc fuel) start fact (suc shift) small s h =
    elim (Bool-cases (fact / 2 ^ 32 == 0)) [
      | inl done_now ↦ rw (done_now, normalise) (h, omega arith)
      | inr more ↦
          let lower : sub_word (suc shift) 1 ≡ shift = omega arith in
          let (rest, le) =
            normalise-Halved fuel start (fact / 2) shift small (omega arith)
              (halve start fact shift h) in
          rw (more, normalise, lower) (rest, omega (arith, le))
    ]

-- With more rounds than the shift has halvings left, the loop ends by its test.
normalise-ends :
    (fuel start fact shift : ℕ)
    → start < 2 ^ 64
    → shift ≤ 32
    → shift < fuel
    → Halved start (fact, shift)
    → (normalise fuel fact shift).0 / 2 ^ 32 ≡ 0
unfolding normalise
normalise-ends zero start fact shift small s rounds h = absurd (omega arith)
normalise-ends (suc fuel) start fact zero small s rounds h =
    let no_more = Halved-small start fact small h in rw (no_more, normalise) no_more
normalise-ends (suc fuel) start fact (suc shift) small s rounds h =
    elim (Bool-cases (fact / 2 ^ 32 == 0)) [
      | inl done_now ↦ rw (done_now, normalise) (ground arith)
      | inr more ↦
          let lower : sub_word (suc shift) 1 ≡ shift = omega arith in
          rw (more, normalise, lower)
            (normalise-ends fuel start (fact / 2) shift small (omega arith) (omega arith)
              (halve start fact shift h))
    ]

normalise-done :
    (fuel fact shift : ℕ) → fact / 2 ^ 32 ≡ 0 → normalise (suc fuel) fact shift ≡ (fact, shift)
unfolding normalise
normalise-done fuel fact shift h = rw (h, normalise)

-- A word shifted right takes no more than its share of 2 ^ 32.
shifted-le :
    (start d fact shift : ℕ) → Halved start (fact, shift) → scaled d fact shift * 2 ^ 32 ≤ d * start
shifted-le start d fact shift h =
    let quotient = d * fact / 2 ^ shift in
    let r = scaled d fact shift in
    let low : r ≤ quotient = omega arith in
    let back : quotient * 2 ^ shift ≤ d * fact = div-mul-le_self (d * fact) (2 ^ shift) in
    let one : r * (h.times * 2 ^ shift) ≤ quotient * (h.times * 2 ^ shift) =
      mul-le-mul_right (h.times * 2 ^ shift) low in
    let two : quotient * 2 ^ shift * h.times ≤ d * fact * h.times = mul-le-mul_right h.times back in
    let three : d * (fact * h.times) ≤ d * start = mul-le-mul_left d h.bound in
    let power : r * (h.times * 2 ^ shift) ≡ r * 2 ^ 32 = ap (λ (k : ℕ). r * k) h.power in
    omega arith

inverse-le :
    (lw : LoadWeight)
    → 0 < lw.weight
    → lw.weight < 2 ^ 32
    → lw.cached_inverse ≡ none
    → (inv_weight lw * lw.weight < 2 ^ 32) × (inv_weight lw < 2 ^ 32)
unfolding inv_weight
inverse-le lw pos small fresh = ground (arith, div-mul-le_self wmult_const lw.weight)

-- For weights below 2 ^ 32, a load that is not 0 and no cached inverse, `calc_delta` gives at most
-- the exact share: its result times the load is at most `delta_exec * weight`. Both of its loops end
-- by their test, with no bit left above the 32nd, and neither shift count underflows on the way: the
-- first loop leaves it at 32, and the second does not raise it.
pub calc_delta-le-share :
    (delta_exec weight : ℕ) (lw : LoadWeight)
    → weight < 2 ^ 32
    → 0 < lw.weight
    → lw.weight < 2 ^ 32
    → lw.cached_inverse ≡ none
    → let (fact, shift) = normalise 33 weight 32 in
      let (fact', shift') = normalise 33 (mul_word fact (inv_weight lw)) shift in
      (calc_delta delta_exec weight lw * lw.weight ≤ delta_exec * weight)
      × (shift ≡ 32)
      × (shift' ≤ shift)
      × (fact / 2 ^ 32 ≡ 0)
      × (fact' / 2 ^ 32 ≡ 0)
unfolding calc_delta
calc_delta-le-share d w lw small pos load fresh =
    let inv = inv_weight lw in
    let (inverse, inv_small) = inverse-le lw pos load fresh in
    let high : w / 2 ^ 32 ≡ 0 = omega arith in
    let weight_le : w ≤ 4294967295 = omega arith in
    let inverse_le : inv ≤ 4294967295 = omega arith in
    let product : w * inv ≤ 4294967295 * 4294967295 = mul-le-mul weight_le inverse_le in
    let no_wrap : mul_word w inv ≡ w * inv = omega arith in
    let begin : Halved (w * inv) (w * inv, 32) = record {
      times = 1;
      power = refl;
      bound = omega arith;
    } in
    let (halved, le) =
      normalise-Halved 33 (w * inv) (w * inv) 32 (omega arith) (omega arith) begin in
    let share = shifted-le (w * inv) d _ _ halved in
    let r = scaled d (normalise 33 (w * inv) 32).0 (normalise 33 (w * inv) 32).1 in
    let times_load : r * 2 ^ 32 * lw.weight ≤ d * (w * inv) * lw.weight =
      mul-le-mul_right lw.weight share in
    let bounded : d * w * (inv * lw.weight) ≤ d * w * 2 ^ 32 =
      mul-le-mul_left (d * w) (omega arith) in
    let first : normalise 33 w 32 ≡ (w, 32) = normalise-done 32 w 32 high in
    let ends : (normalise 33 (w * inv) 32).0 / 2 ^ 32 ≡ 0 =
      normalise-ends 33 (w * inv) (w * inv) 32 (omega arith) (omega arith) (omega arith) begin in
    let result : calc_delta d w lw ≡ r =
      rw (first, calc_delta)
        (ap (λ (k : ℕ). scaled d (normalise 33 k 32).0 (normalise 33 k 32).1) no_wrap) in
    (
      rw result (omega arith),
      rw first refl,
      rw (first, no_wrap) le,
      rw first high,
      rw (first, no_wrap) ends,
    )
