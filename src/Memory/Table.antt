-- ===== src/Memory/Table.antt =====
-- The page table behind the memory handlers: the trait `PageTable` of kernel/src/memory/paging.rs as
-- `PageTableImpl` of kernel/src/arch/aarch64/paging.rs implements it, over a mapper of the `aarch64`
-- crate; the frame allocator of the `allocators` crate; and the physical memory that frames name.
use queen.Base.{
  ℕ, ◌/◌, ◌≡◌, ◌≢◌, true, Option, none, some, ◌==◌, if◌then◌else◌, Outcome, done, expect, ◌>>=◌,
  add_word, mul_word,
}
use queen.Memory.Entry.{PageEntry, Mair}
use queen.Memory.Page.{page_size, align_down}

-- The mapper of the `aarch64` crate, by page number. The laws are what the comments of the trait
-- `PageTable` say: an entry is there from `map` to `unmap`, and `unmap` asks for a present page.
pub record Mapper (T F : Type 0) : Type 0 where
  -- `get_entry_mut`
  pub lookup : T → ℕ → Option PageEntry
  -- a write through the reference that `get_entry_mut` returns
  pub store : T → ℕ → PageEntry → T
  -- `map_to`, which takes the frames of new tables from the allocator: none is an error, such as a
  -- page that is mapped already
  pub map_to : F → T → ℕ → PageEntry → Option (T × F)
  -- `unmap`
  pub unmap_page : T → ℕ → Option T
  -- a table with no user page mapped
  pub bare : T
  pub lookup-store :
      (t : T) (p q : ℕ) (e f : PageEntry)
      → lookup t p ≡ some f
      → lookup (store t p e) q ≡ (if p == q then some e else lookup t q)
  pub lookup-map_to :
      (t u : T) (frames frames' : F) (p q : ℕ) (e : PageEntry)
      → map_to frames t p e ≡ some (u, frames')
      → lookup u q ≡ (if p == q then some e else lookup t q)
  pub lookup-unmap_page :
      (t u : T) (p q : ℕ)
      → unmap_page t p ≡ some u
      → lookup u q ≡ (if p == q then none else lookup t q)
  pub lookup-bare : (q : ℕ) → lookup bare q ≡ none
  pub unmap_page-present :
      (t : T) (p : ℕ) (e : PageEntry) → lookup t p ≡ some e → e.valid ≡ true → unmap_page t p ≢ none

-- The frame allocator: `alloc(1)` and `dealloc(id, 1)` on frame numbers.
pub record FrameAllocator (F : Type 0) : Type 0 where
  pub take_frame : F → Option (ℕ × F)
  pub put_frame : F → ℕ → F

-- What the memory code reaches outside itself.
pub record Machine (T F : Type 0) : Type 0 where
  pub mapper : Mapper T F
  pub allocator : FrameAllocator F
  pub mair : Mair
  -- `EF::default_page() | EF::PXN | EF::UXN`, as an entry
  pub default_page : PageEntry
  -- `INode::read_at` of a file at an offset into a buffer of some length: the number of bytes read
  -- (none is an error, on which `INodeForMap` panics), and the file's bytes
  pub read_at : ℕ → ℕ → ℕ → Option ℕ
  pub file_byte : ℕ → ℕ → ℕ

-- The global frame allocator and the physical memory, byte `i` of the frame at address `f`.
pub record Memory (F : Type 0) : Type 0 where
  pub frames : F
  pub byte : ℕ → ℕ → ℕ

abbrev pub memory_offset : ℕ
memory_offset = 0x4000_0000

-- The address that `GlobalFrameAlloc::alloc` gives to a frame number.
abbrev pub frame_address : ℕ → ℕ
frame_address id = add_word (mul_word id page_size) memory_offset

-- The frame number that `GlobalFrameAlloc::dealloc` frees for an address.
abbrev pub frame_number : ℕ → ℕ
frame_number target = target / page_size

module _ {T F : Type 0} (m : Machine T F) where
  -- `GlobalFrameAlloc::alloc(1).expect(..)`
  unfoldable pub alloc_frame : Memory F → Outcome (ℕ × Memory F)
  alloc_frame s = do
    (id, frames) ← expect (m.allocator.take_frame s.frames)
    done (frame_address id, record s { frames = frames })

  -- `GlobalFrameAlloc::dealloc(target, 1)`
  unfoldable pub dealloc_frame : Memory F → ℕ → Memory F
  dealloc_frame s target = record s {
    frames = m.allocator.put_frame s.frames (frame_number target);
  }

  -- `PageTable::map`: the entry that it returns a reference to, the new table, and the memory without
  -- the frames of new tables. `Frame::of_addr` takes the frame that holds the target.
  unfoldable pub map_page : T → Memory F → ℕ → ℕ → Outcome (PageEntry × T × Memory F)
  map_page t s addr target = do
    (t', frames) ← expect (
        m.mapper.map_to s.frames t (addr / page_size)
          (record m.default_page { addr = align_down target; attr = m.mair.normal }))
    e ← expect (m.mapper.lookup t' (addr / page_size))
    done (e, t', record s { frames = frames })

  unfoldable pub unmap_page : T → ℕ → Outcome T
  unmap_page t addr = expect (m.mapper.unmap_page t (addr / page_size))

  unfoldable pub get_entry : T → ℕ → Option PageEntry
  get_entry t addr = m.mapper.lookup t (addr / page_size)

  -- A change of the entry through the reference that `get_entry` or `map` returned.
  unfoldable pub set_entry : T → ℕ → PageEntry → T
  set_entry t addr e = m.mapper.store t (addr / page_size) e

  -- `get_page_slice_mut`: the frame that holds the page of `addr`.
  unfoldable pub page_frame : T → ℕ → Outcome ℕ
  page_frame t addr = do e ← expect (m.mapper.lookup t (addr / page_size)); done e.addr

-- A write of a whole page of bytes.
abbrev pub set_page : {F : Type 0} → Memory F → ℕ → (ℕ → ℕ) → Memory F
set_page s frame bytes = record s { byte = λ f. if f == frame then bytes else s.byte f }
