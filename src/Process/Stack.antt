-- ===== src/Process/Stack.antt =====
-- kernel/src/process/abi.rs: the initial stack of a program, written downwards from its top into the
-- user's memory, which gives a byte for each address. Text is its bytes. kernel/src/utils.rs:
-- strings that end with 0.
pub mod Slice
pub mod Strings
pub mod Image
use queen.Base.{
  ℕ, zero, suc, ◌+◌, ◌-◌, ◌*◌, ◌/◌, ◌%◌, ◌^◌, Bool, true, false, ◌==◌, leb, if◌then◌else◌, List, [],
  ◌∷◌, ◌++◌, Option, none, some, length, get_elem?, Outcome, done, panic, expect, ◌>>=◌, sub_word,
}

abbrev pub Memory : Type 0
Memory = ℕ → ℕ

-- `StackWriter`, with the memory
pub record StackWriter : Type 0 where
  pub sp : ℕ
  pub mem : Memory

-- `copy_from_slice` of bytes to an address.
abbrev pub copy : Memory → ℕ → List ℕ → Memory
copy mem a bs x =
    if leb a x then (elim (get_elem? bs (x - a)) [ none ↦ mem x | some b ↦ b ]) else mem x

-- `push_slice` of a slice with these bytes, of a type with this alignment
unfoldable pub push_slice : ℕ → List ℕ → StackWriter → StackWriter
push_slice align bs w =
    let sp = sub_word w.sp (length bs) in
    let sp' = sub_word sp (sp % align) in record { sp = sp'; mem = copy w.mem sp' bs }

-- The eight bytes of a `usize`, low ones first.
abbrev pub word_bytes : ℕ → List ℕ
word_bytes x =
    x % 256
    ∷ x / 2 ^ 8 % 256
    ∷ x / 2 ^ 16 % 256
    ∷ x / 2 ^ 24 % 256
    ∷ x / 2 ^ 32 % 256
    ∷ x / 2 ^ 40 % 256
    ∷ x / 2 ^ 48 % 256
    ∷ x / 2 ^ 56 % 256
    ∷ []

unfoldable pub words_bytes : List ℕ → List ℕ
words_bytes [] = []
words_bytes (x ∷ xs) = word_bytes x ++ words_bytes xs

-- `push_slice` of numbers or pointers
abbrev pub push_words : List ℕ → StackWriter → StackWriter
push_words xs w = push_slice 8 (words_bytes xs) w

-- `push_str`
abbrev pub push_str : List ℕ → StackWriter → StackWriter
push_str s w = push_slice 1 s (push_slice 1 (0 ∷ []) w)

-- Several strings, with the addresses of each.
unfoldable pub push_strs : List (List ℕ) → StackWriter → StackWriter × List ℕ
push_strs [] w = (w, [])
push_strs (s ∷ ss) w = let w' = push_str s w in let (w'', ps) = push_strs ss w' in (w'', w'.sp ∷ ps)

-- The loop over the auxiliary vector, in the order of its keys.
unfoldable pub push_auxv : List (ℕ × ℕ) → StackWriter → StackWriter
push_auxv [] w = w
push_auxv ((type, value) ∷ auxv) w = push_auxv auxv (push_words (type ∷ value ∷ []) w)

-- What `push_at` writes between the strings and the pointers to the arguments.
unfoldable pub push_middle : List (ℕ × ℕ) → List ℕ → StackWriter → StackWriter
unfolding push_auxv
push_middle auxv envs w =
    push_words (0 ∷ [])
      (push_words envs (push_words (0 ∷ []) (push_auxv auxv (push_words (0 ∷ 0 ∷ []) w))))

-- `ProcInitInfo::push_at`; without arguments the program name is missing, and it panics.
unfoldable pub push_at :
    List (List ℕ) → List (List ℕ) → List (ℕ × ℕ) → StackWriter → Outcome StackWriter
unfolding push_strs push_middle
push_at args envs auxv w = do
  name ← expect (get_elem? args 0)
  let (w1, env_ptrs) = push_strs envs (push_str name w)
  let (w2, arg_ptrs) = push_strs args w1
  done (push_words (length arg_ptrs ∷ []) (push_words arg_ptrs (push_middle auxv env_ptrs w2)))

-- `from_cstr`, on fuel: the bytes before the first 0.
unfoldable pub from_cstr : ℕ → Memory → ℕ → List ℕ
from_cstr zero mem a = []
from_cstr (suc fuel) mem a = elim (mem a == 0) [
  | true ↦ []
  | false ↦ mem a ∷ from_cstr fuel mem (a + 1)
]

-- `write_cstr`
unfoldable pub write_cstr : Memory → ℕ → List ℕ → Memory
write_cstr mem a s = copy (copy mem a s) (a + length s) (0 ∷ [])
