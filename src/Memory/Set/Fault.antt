-- ===== src/Memory/Set/Fault.antt =====
-- A page fault that is served: kernel/src/memory/memory_set.rs, `handle_page_fault`, and the handlers
-- of kernel/src/memory/handler, seen by a program that reads its memory.
use queen.Base.{
  ℕ, ◌+◌, ◌-◌, ◌*◌, ◌/◌, ◌%◌, ◌^◌, ◌≤◌, ◌<◌, ◌≡◌, ◌≢◌, refl, ap, Bool, true, false, ◌==◌, ltb,
  if◌then◌else◌, Option, none, some, find, arith, inl, inr, done, Option-cases, Bool-cases,
}
use queen.Memory.Entry.{PageEntry, set_present, set_target}
use queen.Memory.Page.{align_down}
use queen.Memory.Table.{
  Machine, alloc_frame, frame_address, get_entry, set_entry, page_frame, set_page,
}
use queen.Memory.Handler.{
  Handler, linear, by_frame, delay, file, Space, read_size, file_offset, give_frame, fill_data,
  handler_page_fault,
}
use queen.Memory.Backing.{entry_at, is_eager}
use queen.Memory.Area.{MemoryArea, contains}
use queen.Memory.Set.{MemorySet, handle_page_fault}

module _ {T F : Type 0} (m : Machine T F) where
  -- The byte that a program reads at an address, if the page is present.
  abbrev pub user_byte : Space T F → ℕ → Option ℕ
  user_byte s x = elim (entry_at m s (x / 4096)) [
    | none ↦ none
    | some e ↦ if e.valid then some (s.memory.byte e.addr (x % 4096)) else none
  ]

  -- The byte that an area has at an address before the program has written there: that of the file
  -- up to the end of its part, and 0.
  abbrev pub first_byte : Handler → ℕ → ℕ
  first_byte (file inode mem_start file_start file_end) x =
      let i = x + file_start - mem_start in if ltb i file_end then m.file_byte inode i else 0
  first_byte _ x = 0

  -- The page of the file does not start before the file does.
  abbrev pub InFile : Handler → ℕ → Type 0
  InFile (file inode mem_start file_start file_end) addr =
      (mem_start ≤ addr / 4096 * 4096 + file_start)
      × (addr / 4096 * 4096 + file_start < 2 ^ 63)
      × (file_end < 2 ^ 63)
  InFile _ addr = Unit

  -- No page that is present has the frame.
  abbrev pub IsFresh : Space T F → ℕ → Type 0
  IsFresh s frame =
      (q : ℕ) (e : PageEntry) → entry_at m s q ≡ some e → e.valid ≡ true → e.addr ≢ frame

  abbrev pub page_is : ℕ → ℕ → Bool
  page_is addr x = x / 4096 == addr / 4096

  -- The space after a frame with some bytes was given to the page of `addr`.
  abbrev filled : Space T F → ℕ → PageEntry → F → ℕ → (ℕ → ℕ) → Space T F
  filled s addr e frames frame bytes = record {
    table = set_entry m s.table addr (set_present true (set_target frame e));
    memory = set_page (record s.memory { frames = frames }) frame bytes;
  }

  filled-user_byte :
      (s : Space T F) (addr : ℕ) (e : PageEntry) (frames : F) (frame : ℕ) (bytes : ℕ → ℕ) (x : ℕ)
      → entry_at m s (addr / 4096) ≡ some e
      → IsFresh s frame
      → user_byte (filled s addr e frames frame bytes) x
        ≡ (if page_is addr x then some (bytes (x % 4096)) else user_byte s x)
  unfolding set_entry set_present set_target
  filled-user_byte s addr e frames frame bytes x here fresh =
      let e' = set_present true (set_target frame e) in
      let stored = m.mapper.lookup-store s.table (addr / 4096) (x / 4096) e' e here in
      elim (Bool-cases (x / 4096 == addr / 4096)) [
        | inl same ↦ ground (arith, stored)
        | inr other ↦ elim (Option-cases (entry_at m s (x / 4096))) [
          | inl nothing ↦ ground (arith, stored)
          | inr (f, there) ↦ elim (Bool-cases f.valid) [
            | inl valid ↦ ground (arith, stored, fresh (x / 4096) f there valid)
            | inr invalid ↦ ground (arith, stored)
          ]
        ]
      ]

  -- The file has all that the area has of it: a read of that part is not short.
  abbrev pub ReadsInFull : Handler → Type 0
  ReadsInFull (file inode mem_start file_start file_end) =
      (i n : ℕ) → n ≤ file_end - i → m.read_at inode i n ≡ some n
  ReadsInFull _ = Unit

  -- What a fault at a page that waits for one is served by.
  pub record CanServe (s : Space T F) (h : Handler) (addr : ℕ) (e : PageEntry) (frame : ℕ)
      (frames : F) : Type 0 where
    pub lazy_page : is_eager h ≡ false
    pub here : entry_at m s (addr / 4096) ≡ some e
    pub waits : e.valid ≡ false
    pub taken : m.allocator.take_frame s.memory.frames ≡ some (frame, frames)
    pub fresh : IsFresh s (frame_address frame)
    pub full : ReadsInFull h
    pub in_file : InFile h addr

  -- The space after a new frame was given to the page of `addr`, with what was in it.
  abbrev given : Space T F → ℕ → PageEntry → ℕ → F → Space T F
  given s addr e frame frames = record {
    table = set_entry m s.table addr (set_present true (set_target (frame_address frame) e));
    memory = record s.memory { frames = frames };
  }

  give_frame-done :
      (s : Space T F) (addr : ℕ) (e : PageEntry) (frame : ℕ) (frames : F)
      → m.allocator.take_frame s.memory.frames ≡ some (frame, frames)
      → give_frame m s addr e ≡ done (given s addr e frame frames)
  unfolding give_frame alloc_frame
  give_frame-done s addr e frame frames taken = rw taken refl

  page_frame-store :
      (s : Space T F) (addr : ℕ) (e : PageEntry) (frame : ℕ)
      → entry_at m s (addr / 4096) ≡ some e
      → page_frame m (set_entry m s.table addr (set_present true (set_target frame e))) addr
        ≡ done frame
  unfolding page_frame set_entry set_present set_target
  page_frame-store s addr e frame here =
      let e' = set_present true (set_target frame e) in
      ground (arith, m.mapper.lookup-store s.table (addr / 4096) (addr / 4096) e' e here)

  set_entry-align_down :
      (t : T) (addr : ℕ) (e : PageEntry) → set_entry m t (align_down addr) e ≡ set_entry m t addr e
  unfolding set_entry
  set_entry-align_down t addr e = ap (λ p. m.mapper.store t p e) (omega arith)

  -- The fault goes through, with the first bytes of the page.
  abbrev Serves : Space T F → Handler → ℕ → PageEntry → ℕ → F → Type 0
  Serves s h addr e frame frames =
      (bytes : ℕ → ℕ) × (handler_page_fault m h s addr
        ≡ done (true, filled s addr e frames (frame_address frame) bytes))
      × ((x : ℕ) → page_is addr x ≡ true → bytes (x % 4096) ≡ first_byte h x)

  -- The bytes that `fill_data` writes, when the file has them.
  abbrev file_bytes : (inode mem_start file_start file_end addr : ℕ) → ℕ → ℕ
  file_bytes inode mem_start file_start file_end addr i =
      let offset = file_offset addr file_start mem_start in
      if ltb i (read_size file_end offset) then m.file_byte inode (offset + i) else 0

  fill_data-done :
      (inode mem_start file_start file_end addr : ℕ) (s : Space T F) (frame : ℕ)
      → page_frame m s.table addr ≡ done frame
      → ReadsInFull (file inode mem_start file_start file_end)
      → file_offset addr file_start mem_start < 2 ^ 63
      → file_end < 2 ^ 63
      → fill_data m inode mem_start file_start file_end s addr
        ≡ done (record s {
          memory = set_page s.memory frame (file_bytes inode mem_start file_start file_end addr);
        })
  unfolding fill_data
  fill_data-done inode mem_start file_start file_end addr s frame there full small ends =
      let offset = file_offset addr file_start mem_start in
      let asked : read_size file_end offset ≤ file_end - offset =
        unfold read_size in ground arith in
      rw (there, full offset (read_size file_end offset) asked) refl

  file_bytes-first :
      (inode mem_start file_start file_end addr x : ℕ)
      → InFile (file inode mem_start file_start file_end) addr
      → page_is addr x ≡ true
      → file_bytes inode mem_start file_start file_end (align_down addr) (x % 4096)
        ≡ first_byte (file inode mem_start file_start file_end) x
  unfolding read_size
  file_bytes-first inode mem_start file_start file_end addr x (starts, small, ends) same =
      let i = x % 4096 in
      let start = addr / 4096 * 4096 + file_start - mem_start in
      let offset : file_offset (align_down addr) file_start mem_start ≡ start = omega arith in
      let near : x / 4096 ≡ addr / 4096 = ground arith in
      let place : start + i ≡ x + file_start - mem_start = omega arith in
      rw (offset, place) (ground arith)

  handler_page_fault-Serves :
      (s : Space T F) (h : Handler) (addr : ℕ) (e : PageEntry) (frame : ℕ) (frames : F)
      → CanServe s h addr e frame frames
      → Serves s h addr e frame frames
  unfolding handler_page_fault get_entry
  handler_page_fault-Serves s (linear offset) addr e frame frames c = absurd (cc c.lazy_page)
  handler_page_fault-Serves s by_frame addr e frame frames c = absurd (cc c.lazy_page)
  handler_page_fault-Serves s delay addr e frame frames c = (
    λ i. 0,
    rw
        (
          c.here,
          give_frame-done s addr e frame frames c.taken,
          page_frame-store s addr e (frame_address frame) c.here,
          c.waits,
        )
        refl,
    λ x same. refl,
  )
  handler_page_fault-Serves s (file inode mem_start file_start file_end) addr e frame frames c =
      let page : align_down addr / 4096 ≡ addr / 4096 = omega arith in
      let here : entry_at m s (align_down addr / 4096) ≡ some e = rw page c.here in
      let offset_small : file_offset (align_down addr) file_start mem_start < 2 ^ 63 =
        omega (arith, c.in_file) in
      (
        file_bytes inode mem_start file_start file_end (align_down addr),
        rw
            (
              here,
              give_frame-done s (align_down addr) e frame frames c.taken,
              fill_data-done inode mem_start file_start file_end (align_down addr)
                  (given s (align_down addr) e frame frames) (frame_address frame)
                  (page_frame-store s (align_down addr) e (frame_address frame) here) c.full
                  offset_small c.in_file.2,
              set_entry-align_down s.table addr
                  (set_present true (set_target (frame_address frame) e)),
              c.waits,
            )
            refl,
        λ x same. file_bytes-first inode mem_start file_start file_end addr x c.in_file same,
      )

  -- A fault at a page of a lazy area that waits for one is served, if there is a free frame that no
  -- page has and, in an area with a file, the file is as long as the area takes it to be, the start
  -- of the page has an offset in the file that is not negative, and neither its address plus the
  -- offset of the area in the file nor the end of the area's part of the file reaches 2 ^ 63.
  -- Afterwards a program reads at each address of the page the byte of the file, or 0 behind its
  -- part and in an area without a file; at every other address it reads what it read before, and
  -- the areas stay.
  pub handle_page_fault-user_byte :
      (ms : MemorySet T F) (addr : ℕ) (a : MemoryArea) (e : PageEntry) (frame : ℕ) (frames : F)
      → find (λ b. contains b addr) ms.areas ≡ some a
      → CanServe ms.space a.handler addr e frame frames
      → (ms' : MemorySet T F) × (handle_page_fault m ms addr ≡ done (true, ms'))
        × (ms'.areas ≡ ms.areas)
        × ((x : ℕ)
            → user_byte ms'.space x
              ≡ (if page_is addr x then some (first_byte a.handler x) else user_byte ms.space x))
  unfolding handle_page_fault
  handle_page_fault-user_byte ms addr a e frame frames found c =
      let (bytes, served, first) =
        handler_page_fault-Serves ms.space a.handler addr e frame frames c in
      (
        record ms { space = filled ms.space addr e frames (frame_address frame) bytes },
        rw (found, served, handle_page_fault) refl,
        refl,
        λ x. elim (Bool-cases (page_is addr x)) [
          | inl same ↦
              rw
                (
                  filled-user_byte ms.space addr e frames (frame_address frame) bytes x c.here
                      c.fresh,
                  same,
                  first x same,
                )
                refl
          | inr other ↦
              rw
                (
                  filled-user_byte ms.space addr e frames (frame_address frame) bytes x c.here
                      c.fresh,
                  other,
                )
                refl
        ],
      )
