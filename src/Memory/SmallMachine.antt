-- ===== src/Memory/SmallMachine.antt =====
-- A concrete machine, with a page table that is a function and an allocator that counts.
use queen.Base.{
  ℕ, suc, refl, true, false, ◌==◌, if◌then◌else◌, Option, none, some, arith, Outcome, done, panic,
}
use queen.Memory.Entry.{PageEntry, Mair}
use queen.Memory.Table.{Mapper, FrameAllocator, Machine}

abbrev pub FunctionTable : Type 0
FunctionTable = ℕ → Option PageEntry

abbrev put_entry : FunctionTable → ℕ → Option PageEntry → FunctionTable
put_entry t p o q = if p == q then o else t q

abbrev function_mapper : Mapper FunctionTable ℕ
function_mapper = record {
  lookup = λ t q. t q;
  store = λ t p e. put_entry t p (some e);
  map_to = λ n t p e. elim (t p) [ none ↦ some (put_entry t p (some e), n) | some _ ↦ none ];
  unmap_page = λ t p. elim (t p) [
    | none ↦ none
    | some e ↦ if e.valid then some (put_entry t p none) else none
  ];
  bare = λ q. none;
  lookup-store = λ t p q e f h. refl;
  lookup-map_to = λ t u n n' p q e h. ground arith;
  lookup-unmap_page = λ t u p q h. ground arith;
  lookup-bare = λ q. refl;
  unmap_page-present = λ t p e here valid gone. ground arith;
}

abbrev counter : FrameAllocator ℕ
counter = record { take_frame = λ n. some (n, suc n); put_frame = λ n id. n }

abbrev pub blank_entry : PageEntry
blank_entry = record {
  valid = true;
  af = true;
  write = false;
  ap_ro = false;
  dirty_bit = false;
  ap_el0 = false;
  ng = false;
  uxn = true;
  pxn = true;
  swapped_bit = false;
  shared_write = false;
  shared_read = false;
  addr = 0;
  attr = 0;
}

abbrev pub three_kinds : Mair
three_kinds = record { normal = 0; device = 1; non_cacheable = 2 }

abbrev pub small_machine : Machine FunctionTable ℕ
small_machine = record {
  mapper = function_mapper;
  allocator = counter;
  mair = three_kinds;
  default_page = blank_entry;
  read_at = λ file offset len. some 0;
  file_byte = λ file i. 0;
}

-- The value of a computation that does not panic, and another value otherwise.
abbrev pub value_or {ℓ} : {A : Type ℓ} → A → Outcome A → A
value_or a (done b) = b
value_or a panic = a
