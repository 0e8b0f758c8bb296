-- ===== src/Process/Stack/Strings.antt =====
-- The strings on the stack, and what reads them back.
use queen.Base.{
  ℕ, zero, suc, ◌+◌, ◌^◌, ◌≤◌, ◌<◌, ◌≡◌, ◌≢◌, refl, ap, ◌∙◌, true, false, ◌==◌, List, [], ◌∷◌, some,
  length, get_elem?, All, arith,
}
use queen.Process.Stack.{Memory, StackWriter, push_slice, push_str, push_strs, from_cstr}
use queen.Process.Stack.Slice.{Below, Below-trans, push_slice-one}

-- A string with its final 0 in memory.
abbrev pub IsCstr : Memory → ℕ → List ℕ → Type 0
IsCstr mem a [] = mem a ≡ 0
IsCstr mem a (c ∷ cs) = (mem a ≡ c) × IsCstr mem (a + 1) cs

-- Text without a zero byte.
abbrev pub NoZero : List ℕ → Type 0
NoZero = All (λ c. c ≢ 0)

pub from_cstr-IsCstr :
    (fuel : ℕ) (mem : Memory) (a : ℕ) (s : List ℕ)
    → length s < fuel
    → NoZero s
    → IsCstr mem a s
    → from_cstr fuel mem a ≡ s
unfolding from_cstr
from_cstr-IsCstr zero mem a s h nz c = absurd (omega arith)
from_cstr-IsCstr (suc fuel) mem a [] h nz c =
    let stop : (mem a == 0) ≡ true = ground arith in rw (stop, from_cstr) refl
from_cstr-IsCstr (suc fuel) mem a (b ∷ bs) h nz c =
    let go : (mem a == 0) ≡ false = ground (arith, nz.0) in
    rw (go, from_cstr) (rw (c.0, from_cstr-IsCstr fuel mem (a + 1) bs (omega arith) nz.1 c.1) refl)

IsCstr-of_bytes :
    (mem : Memory) (a : ℕ) (s : List ℕ)
    → ((i b : ℕ) → get_elem? s i ≡ some b → mem (a + i) ≡ b)
    → mem (a + length s) ≡ 0
    → IsCstr mem a s
IsCstr-of_bytes mem a [] bytes end = (let e : a + 0 ≡ a = omega arith in rw e at end)
IsCstr-of_bytes mem a (c ∷ cs) bytes end =
    let first : mem (a + 0) ≡ c = bytes 0 c refl in
    let e : a + 0 ≡ a = omega arith in
    let last : a + suc (length cs) ≡ a + 1 + length cs = omega arith in
    (
      rw e at first,
      IsCstr-of_bytes mem (a + 1) cs
          (λ i b h. (let f : a + 1 + i ≡ a + suc i = omega arith in rw f (bytes (suc i) b h)))
          (rw last at end),
    )

-- Memory that is the same from the string on holds it too.
pub IsCstr-same :
    (mem mem' : Memory) (a : ℕ) (s : List ℕ)
    → ((x : ℕ) → a ≤ x → mem' x ≡ mem x)
    → IsCstr mem a s
    → IsCstr mem' a s
IsCstr-same mem mem' a [] same c = same a (omega arith) ∙ c
IsCstr-same mem mem' a (b ∷ bs) same c =
    (same a (omega arith) ∙ c.0, IsCstr-same mem mem' (a + 1) bs (λ x h. same x (omega arith)) c.1)

-- What a string promises.
pub record Written (s : List ℕ) (w w' : StackWriter) : Type 0 where
  pub below : Below w w'
  pub place : w'.sp + length s + 1 ≡ w.sp
  pub text : IsCstr w'.mem w'.sp s

pub push_str-Written :
    (s : List ℕ) (w : StackWriter)
    → length s + 1 ≤ w.sp
    → w.sp < 2 ^ 64
    → Written s w (push_str s w)
push_str-Written s w room small =
    let p = push_slice-one (0 ∷ []) w (omega arith) small in
    let w1 = push_slice 1 (0 ∷ []) w in
    let at1 : w1.sp + 1 ≡ w.sp = omega (arith, p.fits, p.room) in
    let q = push_slice-one s w1 (omega arith) (omega arith) in
    let w2 = push_slice 1 s w1 in
    let at2 : w2.sp + length s ≡ w1.sp = omega (arith, q.fits, q.room) in
    let zero_byte : w1.mem (w1.sp + 0) ≡ 0 = p.bytes 0 0 refl in
    let e : w1.sp + 0 ≡ w1.sp = omega arith in
    let end : w2.mem w1.sp ≡ 0 = q.below.kept w1.sp (omega arith) ∙ (rw e at zero_byte) in
    record {
      below = Below-trans w w1 w2 p.below q.below;
      place = omega arith;
      text = IsCstr-of_bytes w2.mem w2.sp s q.bytes (rw at2 end);
    }

-- The bytes that strings take.
unfoldable pub size : List (List ℕ) → ℕ
size [] = 0
size (s ∷ ss) = length s + 1 + size ss

-- What several strings promise: each address has its string.
pub record AllWritten (ss : List (List ℕ)) (w w' : StackWriter) (ps : List ℕ) : Type 0 where
  pub below : Below w w'
  pub place : w'.sp + size ss ≡ w.sp
  pub count : length ps ≡ length ss
  pub text :
      (i : ℕ) (s : List ℕ)
      → get_elem? ss i ≡ some s
      → (p : ℕ) × (get_elem? ps i ≡ some p) × (p < 2 ^ 64) × (w'.sp ≤ p) × IsCstr w'.mem p s

pub push_strs-AllWritten :
    (ss : List (List ℕ)) (w : StackWriter)
    → size ss ≤ w.sp
    → w.sp < 2 ^ 64
    → let (w', ps) = push_strs ss w in AllWritten ss w w' ps
unfolding push_strs size
push_strs-AllWritten [] w room small = record {
  below = record { lower = omega arith; kept = λ x h. refl };
  place = omega arith;
  count = refl;
  text = λ i s h. cc;
}
push_strs-AllWritten (s ∷ ss) w room small =
    let f = push_str-Written s w (omega arith) small in
    let w1 = push_str s w in
    let r = push_strs-AllWritten ss w1 (omega (arith, f.place)) (omega (arith, f.place)) in
    record {
      below = Below-trans w w1 _ f.below r.below;
      place = omega (arith, f.place, r.place);
      count = ap suc r.count;
      text = λ i t h. nth i t h f r;
    }
  where
    nth :
        (i : ℕ) (t : List ℕ)
        → get_elem? (s ∷ ss) i ≡ some t
        → Written s w (push_str s w)
        → AllWritten ss
            (push_str s w)
            (push_strs ss (push_str s w)).0
            (push_strs ss (push_str s w)).1
        → (p : ℕ) × (get_elem? ((push_str s w).sp ∷ (push_strs ss (push_str s w)).1) i ≡ some p)
          × (p < 2 ^ 64)
          × ((push_strs ss (push_str s w)).0.sp ≤ p)
          × IsCstr (push_strs ss (push_str s w)).0.mem p t
    nth zero t h f r =
        let same : s ≡ t = cc in
        (
          (push_str s w).sp,
          refl,
          omega (arith, f.place),
          r.below.lower,
          rw (← same) (
              IsCstr-same (push_str s w).mem _ (push_str s w).sp s (λ x lo. r.below.kept x lo)
                f.text),
        )
    nth (suc i) t h f r = r.text i t h
