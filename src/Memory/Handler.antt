-- ===== src/Memory/Handler.antt =====
-- kernel/src/memory/handler: how the pages of an area are mapped, unmapped, cloned and filled.
-- Flushing the caches (`flush_cache_copy_user`) changes nothing here.
use queen.Base.{
  ℕ, ◌+◌, Bool, true, false, not, ◌&&◌, ltb, min, if◌then◌else◌, Outcome, done, expect, ◌>>=◌,
  add_word, sub_word, is_negative,
}
use queen.Memory.Entry.{MemoryAttr, PageEntry, apply, set_present, set_target}
use queen.Memory.Page.{align_down}
use queen.Memory.Table.{
  Machine, Memory, alloc_frame, dealloc_frame, map_page, unmap_page, get_entry, set_entry,
  page_frame, set_page,
}

-- The implementations of `MemoryHandler`. An `isize` offset is a word; a file is a number.
pub data Handler : Type 0 where
  linear : (offset : ℕ) → Handler
  by_frame : Handler
  delay : Handler
  file : (inode mem_start file_start file_end : ℕ) → Handler

-- The page table that a handler works on, with the memory.
pub record Space (T F : Type 0) : Type 0 where
  pub table : T
  pub memory : Memory F

-- The number of bytes that `File::fill_data` asks for: the rest of the file, as an `isize`, between
-- 0 and a page.
unfoldable pub read_size : ℕ → ℕ → ℕ
read_size file_end file_offset =
    let left = sub_word file_end file_offset in if is_negative left then 0 else min left 4096

-- `addr + self.file_start - self.mem_start`
abbrev pub file_offset : ℕ → ℕ → ℕ → ℕ
file_offset addr file_start mem_start = sub_word (add_word addr file_start) mem_start

module _ {T F : Type 0} (m : Machine T F) where
  -- `Linear::map`, and what `ByFrame` and `Delay` do with the frame at `target`.
  unfoldable pub map_at :
      Space T F → ℕ → ℕ → MemoryAttr → (PageEntry → PageEntry) → Outcome (Space T F)
  map_at s addr target attr change = do
    (e, t, memory) ← map_page m s.table s.memory addr target
    done (record { table = set_entry m t addr (apply m.mair attr (change e)); memory = memory })

  unfoldable pub handler_map : Handler → Space T F → ℕ → MemoryAttr → Outcome (Space T F)
  handler_map (linear offset) s addr attr = map_at s addr (add_word addr offset) attr (λ e. e)
  handler_map by_frame s addr attr = do
    (target, memory) ← alloc_frame m s.memory
    map_at (record s { memory = memory }) addr target attr (λ e. e)
  handler_map delay s addr attr = map_at s addr 0 attr (set_present false)
  handler_map (file inode mem_start file_start file_end) s addr attr =
      map_at s addr 0 attr (set_present false)

  -- `Delay::unmap` and `File::unmap`: the frame goes back if there is one, and the page is made
  -- present, which the page table's `unmap` asks for.
  unfoldable pub unmap_lazy : Space T F → ℕ → Outcome (Space T F)
  unmap_lazy s addr = do
    e ← expect (get_entry m s.table addr)
    let memory = if e.valid then dealloc_frame m s.memory e.addr else s.memory
    t ← unmap_page m (set_entry m s.table addr (set_present true e)) addr
    done (record { table = t; memory = memory })

  unfoldable pub handler_unmap : Handler → Space T F → ℕ → Outcome (Space T F)
  handler_unmap (linear offset) s addr = do
    t ← unmap_page m s.table addr
    done (record s { table = t })
  handler_unmap by_frame s addr = do
    e ← expect (get_entry m s.table addr)
    let memory = dealloc_frame m s.memory e.addr
    t ← unmap_page m s.table addr
    done (record { table = t; memory = memory })
  handler_unmap delay s addr = unmap_lazy s addr
  handler_unmap (file inode mem_start file_start file_end) s addr = unmap_lazy s addr

  -- The eager branch of `Delay::clone_map` and `File::clone_map`: a new frame with the page's data.
  unfoldable pub clone_eager : Space T F → T → ℕ → MemoryAttr → Outcome (Space T F)
  clone_eager s src addr attr = do
    from ← page_frame m src addr
    (target, memory) ← alloc_frame m s.memory
    s' ← map_at (record s { memory = memory }) addr target attr (λ e. e)
    to ← page_frame m s'.table addr
    done (record s' { memory = set_page s'.memory to (s'.memory.byte from) })

  -- `clone_map`, from the table `src` to the space `s`.
  unfoldable pub handler_clone_map : Handler → Space T F → T → ℕ → MemoryAttr → Outcome (Space T F)
  handler_clone_map (linear offset) s src addr attr = handler_map (linear offset) s addr attr
  handler_clone_map by_frame s src addr attr = do
    s' ← handler_map by_frame s addr attr
    from ← page_frame m src addr
    to ← page_frame m s'.table addr
    done (record s' { memory = set_page s'.memory to (s'.memory.byte from) })
  handler_clone_map delay s src addr attr = do
    e ← expect (get_entry m src addr)
    if e.valid then clone_eager s src addr attr else handler_map delay s addr attr
  handler_clone_map (file inode mem_start file_start file_end) s src addr attr = do
    e ← expect (get_entry m src addr)
    if e.valid && not attr.readonly
        then clone_eager s src addr attr
        else handler_map (file inode mem_start file_start file_end) s addr attr

  -- What both lazy handlers do first at a page that is not present: a frame of its own.
  unfoldable pub give_frame : Space T F → ℕ → PageEntry → Outcome (Space T F)
  give_frame s addr e = do
    (frame, memory) ← alloc_frame m s.memory
    done (record {
      table = set_entry m s.table addr (set_present true (set_target frame e));
      memory = memory;
    })

  -- `File::fill_data`: what is read of the file, and zeros.
  unfoldable pub fill_data : ℕ → ℕ → ℕ → ℕ → Space T F → ℕ → Outcome (Space T F)
  fill_data inode mem_start file_start file_end s addr = do
    frame ← page_frame m s.table addr
    let offset = file_offset addr file_start mem_start
    n ← expect (m.read_at inode offset (read_size file_end offset))
    done (record s {
      memory = set_page s.memory frame (λ i. if ltb i n then m.file_byte inode (offset + i) else 0);
    })

  -- `handle_page_fault`: whether the fault was served, and the space after it.
  unfoldable pub handler_page_fault : Handler → Space T F → ℕ → Outcome (Bool × Space T F)
  handler_page_fault (linear offset) s addr = done (false, s)
  handler_page_fault by_frame s addr = done (false, s)
  handler_page_fault delay s addr = do
    e ← expect (get_entry m s.table addr)
    if e.valid then done (false, s) else do
      s' ← give_frame s addr e
      frame ← page_frame m s'.table addr
      done (true, record s' { memory = set_page s'.memory frame (λ i. 0) })
  handler_page_fault (file inode mem_start file_start file_end) s address = do
    let addr = align_down address
    e ← expect (get_entry m s.table addr)
    if e.valid then done (false, s) else do
      s' ← give_frame s addr e
      s'' ← fill_data inode mem_start file_start file_end s' addr
      done (true, s'')
