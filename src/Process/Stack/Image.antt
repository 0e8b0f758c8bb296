-- ===== src/Process/Stack/Image.antt =====
-- The stack that a program starts with.
use queen.Base.{
  ℕ, ◌+◌, ◌*◌, ◌%◌, ◌^◌, ◌≤◌, ◌<◌, ◌≡◌, refl, ◌∙◌, List, [], ◌∷◌, some, length, get_elem?, arith,
  done,
}
use queen.Process.Stack.{
  Memory, StackWriter, push_words, words_bytes, push_str, push_strs, push_auxv, push_middle,
  push_at, from_cstr,
}
use queen.Process.Stack.Slice.{
  Below, Below-trans, push_slice-eight, read_word, length-words_bytes, read_word-words_bytes,
}
use queen.Process.Stack.Strings.{
  NoZero, IsCstr-same, from_cstr-IsCstr, push_str-Written, size, push_strs-AllWritten,
}

-- What words promise: they stand at an aligned place, just below where the writer was.
pub record WordsPushed (xs : List ℕ) (w w' : StackWriter) : Type 0 where
  pub below : Below w w'
  pub room : w.sp < w'.sp + 8 * length xs + 8
  pub fits : w'.sp + 8 * length xs ≤ w.sp
  pub aligned : w'.sp % 8 ≡ 0
  pub words :
      (i x : ℕ) → get_elem? xs i ≡ some x → x < 2 ^ 64 → read_word w'.mem (w'.sp + 8 * i) ≡ x

push_words-WordsPushed :
    (xs : List ℕ) (w : StackWriter)
    → 8 * length xs ≤ w.sp
    → w.sp < 2 ^ 64
    → WordsPushed xs w (push_words xs w)
push_words-WordsPushed xs w room small =
    let n = length-words_bytes xs in
    let p = push_slice-eight (words_bytes xs) w (omega arith) small in
    record {
      below = p.below;
      room = omega (arith, p.room);
      fits = omega (arith, p.fits);
      aligned = p.aligned;
      words = λ i x h lt.
          read_word-words_bytes xs (push_words xs w).mem (push_words xs w).sp i x p.bytes h lt;
    }

push_auxv-Below :
    (auxv : List (ℕ × ℕ)) (w : StackWriter)
    → 24 * length auxv ≤ w.sp
    → w.sp < 2 ^ 64
    → Below w (push_auxv auxv w) × (w.sp ≤ (push_auxv auxv w).sp + 24 * length auxv)
unfolding push_auxv
push_auxv-Below [] w room small = (record { lower = omega arith; kept = λ x h. refl }, omega arith)
push_auxv-Below ((type, value) ∷ auxv) w room small =
    let p = push_words-WordsPushed (type ∷ value ∷ []) w (omega arith) small in
    let w1 = push_words (type ∷ value ∷ []) w in
    let (rest, left) = push_auxv-Below auxv w1 (omega (arith, p.room)) (omega (arith, p.fits)) in
    (Below-trans w w1 _ p.below rest, omega (arith, p.room))

push_middle-Below :
    (auxv : List (ℕ × ℕ)) (envs : List ℕ) (w : StackWriter)
    → 24 * length auxv + 8 * length envs + 64 ≤ w.sp
    → w.sp < 2 ^ 64
    → let w' = push_middle auxv envs w in
      Below w w' × (w.sp ≤ w'.sp + 24 * length auxv + 8 * length envs + 64)
unfolding push_middle
push_middle-Below auxv envs w room small =
    let w1 = push_words (0 ∷ 0 ∷ []) w in
    let p1 = push_words-WordsPushed (0 ∷ 0 ∷ []) w (omega arith) small in
    let (b2, r2) = push_auxv-Below auxv w1 (omega (arith, p1.room)) (omega (arith, p1.fits)) in
    let w2 = push_auxv auxv w1 in
    let l2 : w2.sp ≤ w1.sp = b2.lower in
    let w3 = push_words (0 ∷ []) w2 in
    let p3 = push_words-WordsPushed (0 ∷ []) w2 (omega (arith, p1.room)) (omega (arith, p1.fits)) in
    let w4 = push_words envs w3 in
    let p4 =
      push_words-WordsPushed envs w3 (omega (arith, p1.room, p3.room))
        (omega (arith, p1.fits, p3.fits)) in
    let p5 =
      push_words-WordsPushed (0 ∷ []) w4 (omega (arith, p1.room, p3.room, p4.room))
        (omega (arith, p1.fits, p3.fits, p4.fits)) in
    (
      Below-trans w w1 _ p1.below (
          Below-trans w1 w2 _ b2
            (Below-trans w2 w3 _ p3.below (Below-trans w3 w4 _ p4.below p5.below))),
      omega (arith, p1.room, p3.room, p4.room, p5.room),
    )

-- The bytes that the stack takes at most.
unfoldable pub needed : List (List ℕ) → List (List ℕ) → List (ℕ × ℕ) → List ℕ → ℕ
needed args envs auxv name =
    length name
    + 1
    + size envs
    + size args
    + 24 * length auxv
    + 8 * length envs
    + 8 * length args
    + 96

read_word-same :
    (mem mem' : Memory) (a : ℕ)
    → ((x : ℕ) → a ≤ x → mem' x ≡ mem x)
    → read_word mem' a ≡ read_word mem a
read_word-same mem mem' a same = omega (
  arith,
  same a (omega arith),
  same (a + 1) (omega arith),
  same (a + 2) (omega arith),
  same (a + 3) (omega arith),
  same (a + 4) (omega arith),
  same (a + 5) (omega arith),
  same (a + 6) (omega arith),
  same (a + 7) (omega arith),
)

-- With room for it, the stack is written, without a panic, from its top downwards: its pointer is
-- aligned to words, the word there is the number of arguments, and for each argument without a zero
-- byte the word in its turn behind that is the address of a string that reads back as the
-- argument. Nothing from the old top on changes.
pub from_cstr-push_at :
    (args envs : List (List ℕ)) (auxv : List (ℕ × ℕ)) (name : List ℕ) (w : StackWriter) (i x : ℕ)
    (s : List ℕ)
    → get_elem? args 0 ≡ some name
    → needed args envs auxv name ≤ w.sp
    → w.sp < 2 ^ 64
    → get_elem? args i ≡ some s
    → NoZero s
    → w.sp ≤ x
    → (w' : StackWriter) × (push_at args envs auxv w ≡ done w')
      × (w'.sp % 8 ≡ 0)
      × (read_word w'.mem w'.sp ≡ length args)
      × (from_cstr (length s + 1) w'.mem (read_word w'.mem (w'.sp + 8 * (i + 1))) ≡ s)
      × (w'.mem x ≡ w.mem x)
unfolding push_at needed
from_cstr-push_at args envs auxv name w i x s first room small here nz above =
    let w0 = push_str name w in
    let p0 = push_str-Written name w (omega arith) small in
    let (w1, env_ptrs) = push_strs envs w0 in
    let p1 = push_strs-AllWritten envs w0 (omega (arith, p0.place)) (omega (arith, p0.place)) in
    let (w2, arg_ptrs) = push_strs args w1 in
    let p2 =
      push_strs-AllWritten args w1 (omega (arith, p0.place, p1.place))
        (omega (arith, p0.place, p1.place)) in
    let w3 = push_middle auxv env_ptrs w2 in
    let (b3, r3) =
      push_middle-Below auxv env_ptrs w2 (omega (arith, p0.place, p1.place, p2.place, p1.count))
        (omega (arith, p0.place, p1.place, p2.place)) in
    let l3 : w3.sp ≤ w2.sp = b3.lower in
    let w4 = push_words arg_ptrs w3 in
    let p4 =
      push_words-WordsPushed arg_ptrs w3
        (omega (arith, p0.place, p1.place, p2.place, p1.count, p2.count))
        (omega (arith, p0.place, p1.place, p2.place)) in
    let w5 = push_words (length arg_ptrs ∷ []) w4 in
    let p5 =
      push_words-WordsPushed (length arg_ptrs ∷ []) w4
        (omega (arith, p0.place, p1.place, p2.place, p1.count, p2.count, p4.room))
        (omega (arith, p0.place, p1.place, p2.place, p4.fits)) in
    let next : w5.sp + 8 * (i + 1) ≡ w4.sp + 8 * i =
      omega (arith, p4.aligned, p5.aligned, p5.fits, p5.room) in
    let (a, pointer, a_small, a_low, text) = p2.text i s here in
    let at : read_word w5.mem (w4.sp + 8 * i) ≡ a =
      read_word-same w4.mem w5.mem (w4.sp + 8 * i) (λ y lo. p5.below.kept y (omega arith))
      ∙ p4.words i a pointer a_small in
    let kept : Below w2 w5 = Below-trans w2 w3 w5 b3 (Below-trans w3 w4 w5 p4.below p5.below) in
    let all : Below w w5 =
      Below-trans w w0 w5 p0.below
        (Below-trans w0 w1 w5 p1.below (Below-trans w1 w2 w5 p2.below kept)) in
    let count : read_word w5.mem (w5.sp + 8 * 0) ≡ length arg_ptrs =
      p5.words 0 (length arg_ptrs) refl (omega (arith, p0.place, p1.place, p2.count)) in
    let zero_off : w5.sp + 8 * 0 ≡ w5.sp = omega arith in
    (
      w5,
      rw first,
      p5.aligned,
      (rw zero_off at count) ∙ p2.count,
      rw (next, at)
          (from_cstr-IsCstr (length s + 1) w5.mem a s (omega arith) nz
            (IsCstr-same w2.mem w5.mem a s (λ y lo. kept.kept y (omega arith)) text)),
      all.kept x above,
    )
