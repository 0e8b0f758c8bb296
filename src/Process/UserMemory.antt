-- ===== src/Process/UserMemory.antt =====
-- kernel/src/process/thread.rs: `Thread::new_user_vm`, the memory, the entry point and the first stack of
-- a new program. The crate `xmas_elf` reads the ELF file of an inode: what it reads is an argument, and
-- so is the lookup of the interpreter. kernel/src/process/structs.rs: `get_interpreter`.
pub mod Layout
use queen.Base.{
  ℕ, ◌+◌, ◌-◌, ◌*◌, ◌^◌, Bool, true, false, not, ◌==◌, if◌then◌else◌, List, [], ◌∷◌, String, Option,
  none, some, find, Outcome, done, panic, ◌>>=◌, add_word,
}
use queen.Base.Maps.{Map, insert}
use queen.Kernel.FileHandle.{Result, ok, err, then_ok}
use queen.Memory.Entry.{MemoryAttr, with_user, with_execute}
use queen.Memory.Handler.{by_frame, delay}
use queen.Memory.Page.{page_size}
use queen.Memory.Table.{Machine}
use queen.Memory.Set.{MemorySet, push, clear}
use queen.Process.Elf.{
  SegmentType, ProgramHeader, default_attr, append_as_interpreter, make_memory_set, get_phdr_vaddr,
}
use queen.Process.Stack.{Memory, StackWriter, push_at}

-- What is read of an ELF file; `data` is the data of a header, as far as it is of undefined kind.
pub record ElfFile : Type 0 where
  pub headers : List ProgramHeader
  pub ph_offset : ℕ
  pub ph_entry_size : ℕ
  pub ph_count : ℕ
  pub entry_point : ℕ
  pub is_program : Bool
  pub is_aarch64 : Bool
  pub interp_data : Option (List ℕ)
  pub is_utf8 : List ℕ → Bool

-- The loop of `get_interpreter` that skips zeros at the end.
unfoldable pub strip_zeros : List ℕ → List ℕ
strip_zeros [] = []
strip_zeros (c ∷ cs) = elim (strip_zeros cs) [
  | [] ↦ if c == 0 then [] else c ∷ []
  | d ∷ ds ↦ c ∷ d ∷ ds
]

-- `get_interpreter`, none for an error
unfoldable pub get_interpreter : ElfFile → Option (List ℕ)
unfolding strip_zeros
get_interpreter elf = elim elf.interp_data [
  | none ↦ none
  | some bytes ↦ let path = strip_zeros bytes in if elf.is_utf8 path then some path else none
]

abbrev pub user_stack_size : ℕ
user_stack_size = 0x100000

abbrev pub user_stack_offset : ℕ
user_stack_offset = 0x8000_0000_0000 - user_stack_size

abbrev pub stack_top : ℕ
stack_top = user_stack_offset + user_stack_size

-- Where the pages begin that are mapped at once.
abbrev pub stack_split : ℕ
stack_split = stack_top - page_size * 4

abbrev pub stack_attr : MemoryAttr
stack_attr = with_execute (with_user default_attr)

abbrev insert_some : Map ℕ → ℕ → Option ℕ → Map ℕ
insert_some auxv k none = auxv
insert_some auxv k (some v) = insert auxv k v

-- The auxiliary vector before the interpreter is known: AT_PHDR, AT_PHENT, AT_PHNUM and AT_PAGESZ.
unfoldable pub auxv_of : ElfFile → Map ℕ
unfolding get_phdr_vaddr
auxv_of elf =
    let auxv = insert_some [] 3 (get_phdr_vaddr elf.headers elf.ph_offset) in
    insert (insert (insert auxv 4 elf.ph_entry_size) 5 elf.ph_count) 6 page_size

abbrev pub check_elf : ElfFile → Result String (Unit {0})
check_elf elf =
    if not elf.is_program
    then err "ELF is not executable or shared object"
    else if not elf.is_aarch64
    then err "invalid ELF arch"
    else ok tt

-- `?` on an error of a computation that may also panic.
abbrev pub or_fail :
    {A B : Type 0} → Result String A → (A → Outcome (Result String B)) → Outcome (Result String B)
or_fail (ok a) f = f a
or_fail (err e) f = done (err e)

-- What is known after the interpreter: the memory, the entry point and the auxiliary vector.
pub record Loaded (T F : Type 0) : Type 0 where
  pub vm : MemorySet T F
  pub entry_addr : ℕ
  pub auxv : Map ℕ

module _ {T F : Type 0} (m : Machine T F) where
  -- The two areas of the user stack.
  unfoldable pub push_stack : MemorySet T F → Outcome (MemorySet T F)
  push_stack vm =
      push m vm user_stack_offset stack_split stack_attr delay "user_stack_delay" >>= λ vm'.
      push m vm' stack_split stack_top stack_attr by_frame "user_stack"

  -- From the interpreter on, to the memory, the entry point and the stack; `mem` is user memory.
  unfoldable pub finish_vm :
      List (List ℕ)
      → List (List ℕ)
      → Memory
      → Loaded T F
      → Outcome (Result String (MemorySet T F × ℕ × StackWriter))
  unfolding push_stack push_at
  finish_vm args envs mem l = push_stack l.vm >>= λ vm.
      push_at args envs l.auxv (record { sp = stack_top; mem = mem }) >>= λ w.
      done (ok (vm, l.entry_addr, w))

module _ {T F : Type 0} (m : Machine T F) (read_elf : ℕ → Result String ElfFile)
    (lookup_follow : List ℕ → Result String ℕ) where
  -- The branch for an interpreter, when there is one: AT_ENTRY and AT_BASE.
  unfoldable pub load_interpreter :
      ElfFile → MemorySet T F → ℕ → Outcome (Result String (Loaded T F))
  unfolding auxv_of
  load_interpreter elf vm bias = elim (get_interpreter elf) [
    | none ↦ done (ok (record { vm = vm; entry_addr = elf.entry_point; auxv = auxv_of elf }))
    | some loader_path ↦ or_fail (lookup_follow loader_path) λ interp_inode.
        or_fail (read_elf interp_inode) λ elf_interp.
          append_as_interpreter m interp_inode elf_interp.headers vm bias >>= λ vm'. done (
            ok (record {
              vm = vm';
              entry_addr = add_word elf_interp.entry_point bias;
              auxv = insert (insert (auxv_of elf) 9 elf.entry_point) 7 bias;
            }))
  ]

  -- `Thread::new_user_vm`
  unfoldable pub new_user_vm :
      ℕ
      → List (List ℕ)
      → List (List ℕ)
      → Memory
      → MemorySet T F
      → Outcome (Result String (MemorySet T F × ℕ × StackWriter))
  unfolding clear make_memory_set load_interpreter finish_vm
  new_user_vm inode args envs mem vm = or_fail (read_elf inode) λ elf.
      or_fail (check_elf elf) λ checked. clear m vm >>= λ vm1.
      make_memory_set m inode elf.headers vm1 >>= λ r.
      load_interpreter elf r.0 r.1 >>= λ loaded. or_fail loaded (λ l. finish_vm m args envs mem l)
