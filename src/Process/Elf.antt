-- ===== src/Process/Elf.antt =====
-- kernel/src/process/structs.rs: the memory of a program from the headers of its ELF file. The crate
-- `xmas_elf` reads the file: the headers that it gives are an argument.
pub mod Segments
use queen.Base.{
  ℕ, ◌+◌, ◌-◌, ◌*◌, ◌/◌, ◌%◌, ◌^◌, Bool, true, false, not, ◌&&◌, ◌==◌, ltb, if◌then◌else◌, List, [],
  ◌∷◌, String, Option, none, some, find, Outcome, done, panic, ◌>>=◌, add_word,
}
use queen.Memory.Page.{page_size, of_addr, start_address}
use queen.Memory.Entry.{MemoryAttr, with_user, with_execute, with_readonly}
use queen.Memory.Table.{Machine}
use queen.Memory.Handler.{Handler}
use queen.Memory.Handler
use queen.Memory.Set.{MemorySet, push}

-- `program::Type`, as far as this code tells the types apart
pub data SegmentType : Type 0 where
  load interp phdr other_type : SegmentType

pub record ProgramHeader : Type 0 where
  pub type : SegmentType
  pub is_execute : Bool
  pub is_write : Bool
  pub virtual_addr : ℕ
  pub mem_size : ℕ
  pub offset : ℕ
  pub file_size : ℕ

-- `MemoryAttr::default()`
abbrev pub default_attr : MemoryAttr
default_attr = record { user = false; readonly = false; execute = false; mmio = 0 }

-- `Flags::to_attr`
abbrev pub to_attr : ProgramHeader → MemoryAttr
to_attr ph =
    let flags = with_user default_attr in
    let flags' = if ph.is_execute then with_execute flags else flags in
    if not ph.is_write then with_readonly flags' else flags'

abbrev pub is_load : ProgramHeader → Bool
is_load ph = elim ph.type [ load ↦ true | _ ↦ false ]

-- The end of a segment, when it is loaded `bias` higher.
abbrev pub segment_end : ℕ → ProgramHeader → ℕ
segment_end bias ph = add_word (add_word ph.virtual_addr ph.mem_size) bias

-- The handler of a segment of the file `inode`.
abbrev pub segment_handler : ℕ → ℕ → ProgramHeader → Handler
segment_handler inode bias ph =
    Handler.file inode (add_word ph.virtual_addr bias) ph.offset (add_word ph.offset ph.file_size)

-- `farthest_memory` after the loop
unfoldable pub farthest : List ProgramHeader → ℕ → ℕ
farthest [] far = far
farthest (ph ∷ phs) far =
    farthest phs (if is_load ph && ltb far (segment_end 0 ph) then segment_end 0 ph else far)

module _ {T F : Type 0} (m : Machine T F) (inode : ℕ) where
  unfoldable pub push_segment : ℕ → String → MemorySet T F → ProgramHeader → Outcome (MemorySet T F)
  push_segment bias name ms ph =
      push m ms (add_word ph.virtual_addr bias) (segment_end bias ph) (to_attr ph)
        (segment_handler inode bias ph) name

  -- The loop over the headers, which skips all that are not loaded.
  unfoldable pub push_segments :
      ℕ → String → List ProgramHeader → MemorySet T F → Outcome (MemorySet T F)
  push_segments bias name [] ms = done ms
  push_segments bias name (ph ∷ phs) ms = elim (is_load ph) [
    | true ↦ push_segment bias name ms ph >>= λ ms'. push_segments bias name phs ms'
    | false ↦ push_segments bias name phs ms
  ]

  -- `append_as_interpreter`
  abbrev pub append_as_interpreter :
      List ProgramHeader → MemorySet T F → ℕ → Outcome (MemorySet T F)
  append_as_interpreter phs ms bias = push_segments bias "elf-interp" phs ms

  -- `make_memory_set`: the set, and the page behind the farthest segment.
  unfoldable pub make_memory_set : List ProgramHeader → MemorySet T F → Outcome (MemorySet T F × ℕ)
  unfolding push_segments farthest
  make_memory_set phs ms = push_segments 0 "elf" phs ms >>= λ ms'.
      done (ms', start_address (of_addr (add_word (farthest phs 0) page_size)))

-- `get_phdr_vaddr`, with the offset of the headers from the ELF header
unfoldable pub get_phdr_vaddr : List ProgramHeader → ℕ → Option ℕ
get_phdr_vaddr phs ph_offset = elim (find (λ ph. elim ph.type [ phdr ↦ true | _ ↦ false ]) phs) [
  | some ph ↦ some ph.virtual_addr
  | none ↦ elim (find (λ ph. is_load ph && (ph.offset == 0)) phs) [
    | some ph ↦ some (add_word ph.virtual_addr ph_offset)
    | none ↦ none
  ]
]
