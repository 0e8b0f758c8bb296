-- ===== src/Memory/Area.antt =====
-- kernel/src/memory/memory_set.rs, `MemoryArea`: a continuous range of addresses with one handler.
use queen.Base.{
  ℕ, ◌-◌, ◌*◌, Bool, not, ◌&&◌, ◌||◌, ltb, leb, min, max, if◌then◌else◌, List, [], ◌∷◌, Outcome,
  done, ◌>>=◌, String, add_word, sub_word,
}
use queen.Memory.Entry.{MemoryAttr}
use queen.Memory.Page
use queen.Memory.Page.{Page, page_size, of_addr, start_address, range_of, pages}
use queen.Memory.Table.{Machine}
use queen.Memory.Handler.{Handler, Space, handler_map, handler_unmap}

pub record MemoryArea : Type 0 where
  pub start_addr : ℕ
  pub end_addr : ℕ
  pub attr : MemoryAttr
  pub handler : Handler
  pub name : String

unfoldable pub contains : MemoryArea → ℕ → Bool
contains a addr = leb a.start_addr addr && ltb addr a.end_addr

-- `check_read_array::<S>(ptr, count)`, with the size of `S`.
unfoldable pub check_read : MemoryArea → ℕ → ℕ → ℕ → ℕ
check_read a size ptr count =
    let min_bound = max ptr (start_address (of_addr a.start_addr)) in
    let max_bound =
      min (add_word ptr (size * count))
        (start_address (of_addr (sub_word (add_word a.end_addr page_size) 1))) in
    if leb min_bound max_bound then max_bound - min_bound else 0

unfoldable pub check_write : MemoryArea → ℕ → ℕ → ℕ → ℕ
unfolding check_read
check_write a size ptr count = if a.attr.readonly then 0 else check_read a size ptr count

-- Whether the pages of the area meet those of `[start_addr, end_addr)`.
unfoldable pub is_overlap_with : MemoryArea → ℕ → ℕ → Bool
is_overlap_with a start_addr end_addr =
    let p0 = of_addr a.start_addr in
    let p1 = Page.add (of_addr (sub_word a.end_addr 1)) 1 in
    let p2 = of_addr start_addr in
    let p3 = Page.add (of_addr (sub_word end_addr 1)) 1 in
    not (leb p1.number p2.number || leb p3.number p0.number)

module _ {T F : Type 0} (m : Machine T F) where
  unfoldable pub map_pages : MemoryArea → List Page → Space T F → Outcome (Space T F)
  map_pages a [] s = done s
  map_pages a (p ∷ ps) s = do
    s' ← handler_map m a.handler s (start_address p) a.attr
    map_pages a ps s'

  -- `MemoryArea::map`
  unfoldable pub map_area : MemoryArea → Space T F → Outcome (Space T F)
  map_area a s = map_pages a (pages (range_of a.start_addr a.end_addr)) s

  unfoldable pub unmap_pages : MemoryArea → List Page → Space T F → Outcome (Space T F)
  unmap_pages a [] s = done s
  unmap_pages a (p ∷ ps) s = do
    s' ← handler_unmap m a.handler s (start_address p)
    unmap_pages a ps s'

  -- `MemoryArea::unmap`
  unfoldable pub unmap_area : MemoryArea → Space T F → Outcome (Space T F)
  unmap_area a s = unmap_pages a (pages (range_of a.start_addr a.end_addr)) s
