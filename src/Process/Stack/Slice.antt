-- ===== src/Process/Stack/Slice.antt =====
-- What one slice changes of the stack.
use queen.Base.{
  ℕ, zero, suc, ◌+◌, ◌-◌, ◌*◌, ◌/◌, ◌%◌, ◌^◌, ◌≤◌, ◌<◌, ◌≡◌, refl, ◌∙◌, List, [], ◌∷◌, none, some,
  length, get_elem?, arith, sub_word,
}
use queen.Process.Stack.{Memory, StackWriter, copy, push_slice, words_bytes}

-- A writer that has gone on: it is lower, and has written below.
pub record Below (w w' : StackWriter) : Type 0 where
  pub lower : w'.sp ≤ w.sp
  pub kept : (x : ℕ) → w.sp ≤ x → w'.mem x ≡ w.mem x

pub Below-trans : (w w' w'' : StackWriter) → Below w w' → Below w' w'' → Below w w''
Below-trans w w' w'' a b = record {
  lower = omega (arith, a.lower, b.lower);
  kept = λ x h. b.kept x (omega (arith, a.lower)) ∙ a.kept x h;
}

get_elem?-none : (bs : List ℕ) (i : ℕ) → length bs ≤ i → get_elem? bs i ≡ none
get_elem?-none [] i h = refl
get_elem?-none (b ∷ bs) zero h = absurd (omega arith)
get_elem?-none (b ∷ bs) (suc i) h = get_elem?-none bs i (omega arith)

-- What a slice promises, of an alignment that divides its place.
pub record Pushed (align : ℕ) (bs : List ℕ) (w w' : StackWriter) : Type 0 where
  pub below : Below w w'
  pub room : w.sp < w'.sp + length bs + align
  pub fits : w'.sp + length bs ≤ w.sp
  pub aligned : w'.sp % align ≡ 0
  pub bytes : (i b : ℕ) → get_elem? bs i ≡ some b → w'.mem (w'.sp + i) ≡ b

Pushed-at :
    (align sp : ℕ) (bs : List ℕ) (w : StackWriter)
    → sp ≤ w.sp - length bs
    → length bs ≤ w.sp
    → w.sp < sp + length bs + align
    → sp % align ≡ 0
    → Pushed align bs w (record { sp = sp; mem = copy w.mem sp bs })
Pushed-at align sp bs w lo fits room aligned = record {
  below = record { lower = omega arith; kept = λ x h. ground (arith, get_elem?-none bs (x - sp)) };
  room = room;
  fits = omega arith;
  aligned = aligned;
  bytes = λ i b h. (let e : sp + i - sp ≡ i = omega arith in ground (arith, e));
}

pub push_slice-one :
    (bs : List ℕ) (w : StackWriter)
    → length bs ≤ w.sp
    → w.sp < 2 ^ 64
    → Pushed 1 bs w (push_slice 1 bs w)
unfolding push_slice
push_slice-one bs w h small =
    let e : sub_word (sub_word w.sp (length bs)) (sub_word w.sp (length bs) % 1)
        ≡ w.sp - length bs =
      omega arith in
    rw e (Pushed-at 1 (w.sp - length bs) bs w (omega arith) h (omega arith) (omega arith))

pub push_slice-eight :
    (bs : List ℕ) (w : StackWriter)
    → length bs ≤ w.sp
    → w.sp < 2 ^ 64
    → Pushed 8 bs w (push_slice 8 bs w)
unfolding push_slice
push_slice-eight bs w h small =
    let low = w.sp - length bs in
    let e : sub_word (sub_word w.sp (length bs)) (sub_word w.sp (length bs) % 8) ≡ low - low % 8 =
      omega arith in
    rw e (Pushed-at 8 (low - low % 8) bs w (omega arith) h (omega arith) (omega arith))

-- A word in memory.
abbrev pub read_word : Memory → ℕ → ℕ
read_word mem a =
    mem a
    + 2 ^ 8 * mem (a + 1)
    + 2 ^ 16 * mem (a + 2)
    + 2 ^ 24 * mem (a + 3)
    + 2 ^ 32 * mem (a + 4)
    + 2 ^ 40 * mem (a + 5)
    + 2 ^ 48 * mem (a + 6)
    + 2 ^ 56 * mem (a + 7)

pub length-words_bytes : (xs : List ℕ) → length (words_bytes xs) ≡ 8 * length xs
unfolding words_bytes
length-words_bytes [] = refl
length-words_bytes (x ∷ xs) = omega (arith, length-words_bytes xs)

-- Memory that holds the bytes of words holds the words.
pub read_word-words_bytes :
    (xs : List ℕ) (mem : Memory) (a i x : ℕ)
    → ((k b : ℕ) → get_elem? (words_bytes xs) k ≡ some b → mem (a + k) ≡ b)
    → get_elem? xs i ≡ some x
    → x < 2 ^ 64
    → read_word mem (a + 8 * i) ≡ x
unfolding words_bytes
read_word-words_bytes [] mem a i x bytes here small = cc
read_word-words_bytes (y ∷ xs) mem a zero x bytes here small =
    let same : y ≡ x = ground arith in
    let b0 = bytes 0 (y % 256) refl in
    let b1 = bytes 1 (y / 2 ^ 8 % 256) refl in
    let b2 = bytes 2 (y / 2 ^ 16 % 256) refl in
    let b3 = bytes 3 (y / 2 ^ 24 % 256) refl in
    let b4 = bytes 4 (y / 2 ^ 32 % 256) refl in
    let b5 = bytes 5 (y / 2 ^ 40 % 256) refl in
    let b6 = bytes 6 (y / 2 ^ 48 % 256) refl in
    let b7 = bytes 7 (y / 2 ^ 56 % 256) refl in
    let z : a + 8 * 0 ≡ a + 0 = omega arith in
    rw z (let z' : a + 0 ≡ a = omega arith in rw z' (omega (arith, rw z' at b0)))
read_word-words_bytes (y ∷ xs) mem a (suc i) x bytes here small =
    let shift : a + 8 * suc i ≡ a + 8 + 8 * i = omega arith in
    rw shift (
      read_word-words_bytes xs mem (a + 8) i x
        (λ k b h.
          let e : a + 8 + k ≡ a + suc (suc (suc (suc (suc (suc (suc (suc k))))))) = omega arith in
          rw e (bytes (suc (suc (suc (suc (suc (suc (suc (suc k)))))))) b h))
        here small)
