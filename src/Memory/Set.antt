-- ===== src/Memory/Set.antt =====
-- kernel/src/memory/memory_set.rs, `MemorySet`: areas in order of their start addresses, over one
-- page table. The unmapping of each part is done on the page table before the list changes.
pub mod View
pub mod Push
pub mod Split
pub mod Backed
pub mod Total
pub mod FreeArea
pub mod CheckArray
pub mod Fault
pub mod Refused
use queen.Base.{
  ℕ, zero, suc, ◌+◌, ◌-◌, ◌*◌, ◌/◌, ◌%◌, ◌^◌, ◌≤◌, ◌<◌, ◌≡◌, Bool, true, false, not, ◌&&◌, ◌||◌,
  ◌==◌, ltb, leb, if◌then◌else◌, List, [], ◌∷◌, ◌++◌, map, Option, none, some, length, get_elem?,
  insert_at, remove_at, find, Outcome, done, panic, assert, expect, ◌>>=◌, ◌>>◌, String, add_word,
  sub_word, mul_word,
}
use queen.Memory.Entry.{MemoryAttr}
use queen.Memory.Page.{page_size, align_down, align_up, Page, pages, range_of, start_address}
use queen.Memory.Table.{Machine, Memory, alloc_frame, dealloc_frame, get_entry}
use queen.Memory.Handler.{Handler, Space, handler_clone_map, handler_page_fault}
use queen.Memory.Area.{
  MemoryArea, contains, check_read, check_write, is_overlap_with, map_area, unmap_area,
}

-- `test_free_area`
unfoldable pub test_free_area : List MemoryArea → ℕ → ℕ → Bool
test_free_area areas start_addr end_addr =
    elim (find (λ a. is_overlap_with a start_addr end_addr) areas) [ none ↦ true | some _ ↦ false ]

-- The places that `find_free_area` tries: the hint and each area's end, rounded up to a page.
unfoldable pub candidates : ℕ → List MemoryArea → List ℕ
candidates addr_hint areas = map align_up (addr_hint ∷ map (λ a. a.end_addr) areas)

unfoldable pub find_free_area : List MemoryArea → ℕ → ℕ → Outcome ℕ
unfolding candidates
find_free_area areas addr_hint len =
    expect
      (find (λ addr. test_free_area areas addr (add_word addr len)) (candidates addr_hint areas))

-- The loops of `check_read_array` and `check_write_array`: whether some prefix of the areas covers
-- as many bytes as the array has. `true` is Ok, `false` is Err(InvalidPtr).
unfoldable pub check_loop : (MemoryArea → ℕ) → ℕ → ℕ → List MemoryArea → Bool
check_loop covers total valid_size [] = false
check_loop covers total valid_size (a ∷ areas) =
    let found = add_word valid_size (covers a) in
    elim (found == total) [ true ↦ true | false ↦ check_loop covers total found areas ]

unfoldable pub check_read_array : List MemoryArea → ℕ → ℕ → ℕ → Bool
check_read_array areas size ptr count =
    check_loop (λ a. check_read a size ptr count) (mul_word size count) 0 areas

unfoldable pub check_write_array : List MemoryArea → ℕ → ℕ → ℕ → Bool
check_write_array areas size ptr count =
    check_loop (λ a. check_write a size ptr count) (mul_word size count) 0 areas

-- The place of a new area: the first one that starts above it, or the end.
unfoldable pub insert_index : ℕ → List MemoryArea → ℕ
insert_index start_addr [] = 0
insert_index start_addr (a ∷ areas) =
    if ltb start_addr a.start_addr then 0 else suc (insert_index start_addr areas)

pub record MemorySet (T F : Type 0) : Type 0 where
  pub areas : List MemoryArea
  pub space : Space T F

-- What one round of `pop_with_split` does with the area at hand: the part to unmap and what stays.
pub record Cut : Type 0 where
  pub dead : MemoryArea
  pub keep : List MemoryArea

-- The four cases for an area that overlaps `[start_addr, end_addr)`.
unfoldable pub cut : ℕ → ℕ → MemoryArea → Cut
cut start_addr end_addr a =
    -- subset
    if leb start_addr a.start_addr && leb a.end_addr end_addr
    then record { dead = a; keep = [] }
    else
        -- prefix
        if leb start_addr a.start_addr && ltb a.start_addr end_addr
    then record {
      dead = record a { end_addr = end_addr };
      keep = record a { start_addr = end_addr } ∷ [];
    }
    else
        -- postfix
        if leb a.end_addr end_addr && ltb start_addr a.end_addr
    then record {
      dead = record a { start_addr = start_addr };
      keep = record a { end_addr = start_addr } ∷ [];
    }
    else
        -- superset
        record {
          dead = record a { start_addr = start_addr; end_addr = end_addr };
          keep = record a { end_addr = start_addr } ∷ record a { start_addr = end_addr } ∷ [];
        }

-- `Vec::insert` of the parts that stay, from index `i` on.
abbrev pub insert_all : List MemoryArea → ℕ → List MemoryArea → List MemoryArea
insert_all areas i [] = areas
insert_all areas i (a ∷ as') = insert_all (insert_at areas i a) (suc i) as'

module _ {T F : Type 0} (m : Machine T F) where
  -- `MemorySet::push`
  unfoldable pub push :
      MemorySet T F → ℕ → ℕ → MemoryAttr → Handler → String → Outcome (MemorySet T F)
  push ms start end attr handler name = if leb end start then done ms else do
    let start_addr = align_down start
    let end_addr = align_up end
    assert (ltb start_addr end_addr)
    assert (test_free_area ms.areas start_addr end_addr)
    let area : MemoryArea = record {
      start_addr = start_addr;
      end_addr = end_addr;
      attr = attr;
      handler = handler;
      name = name;
    }
    space ← map_area m area ms.space
    done (record {
      areas = insert_at ms.areas (insert_index start_addr ms.areas) area;
      space = space;
    })

  -- The loop of `pop`, from index `i` on.
  unfoldable pub pop_from : MemorySet T F → ℕ → ℕ → ℕ → List MemoryArea → Outcome (MemorySet T F)
  pop_from ms start_addr end_addr i [] = panic
  pop_from ms start_addr end_addr i (a ∷ rest) =
      elim ((a.start_addr == start_addr) && (a.end_addr == end_addr)) [
        | true ↦ unmap_area m a ms.space >>= λ space.
            done (record { areas = remove_at ms.areas i; space = space })
        | false ↦ pop_from ms start_addr end_addr (suc i) rest
      ]

  -- `MemorySet::pop`
  unfoldable pub pop : MemorySet T F → ℕ → ℕ → Outcome (MemorySet T F)
  unfolding pop_from
  pop ms start_addr end_addr = do
    assert (leb start_addr end_addr)
    pop_from ms start_addr end_addr 0 ms.areas

  -- One round of the loop of `pop_with_split` at index `i`: the set and the next index.
  unfoldable pub split_round : ℕ → ℕ → MemorySet T F → ℕ → MemoryArea → Outcome (MemorySet T F × ℕ)
  split_round start_addr end_addr ms i a =
      if is_overlap_with a start_addr end_addr
      then (let c = cut start_addr end_addr a in
          unmap_area m c.dead ms.space >>= λ space. done (
            record { areas = insert_all (remove_at ms.areas i) i c.keep; space = space },
            i + length c.keep,
          ))
      else done (ms, suc i)

  -- The loop `while i < self.areas.len()`. Without fuel it panics.
  unfoldable pub split_loop : ℕ → ℕ → ℕ → MemorySet T F → ℕ → Outcome (MemorySet T F)
  split_loop zero start_addr end_addr ms i = panic
  split_loop (suc fuel) start_addr end_addr ms i = elim (get_elem? ms.areas i) [
    | none ↦ done ms
    | some a ↦
        split_round start_addr end_addr ms i a >>= λ r. split_loop fuel start_addr end_addr r.0 r.1
  ]

  -- `MemorySet::pop_with_split`, with a round for each area and one to see the end.
  unfoldable pub pop_with_split : MemorySet T F → ℕ → ℕ → Outcome (MemorySet T F)
  pop_with_split ms start_addr end_addr = do
    assert (leb start_addr end_addr)
    split_loop (suc (length ms.areas)) start_addr end_addr ms 0

  unfoldable pub unmap_areas : List MemoryArea → Space T F → Outcome (Space T F)
  unmap_areas [] s = done s
  unmap_areas (a ∷ areas) s = do s' ← unmap_area m a s; unmap_areas areas s'

  -- `MemorySet::clear`
  unfoldable pub clear : MemorySet T F → Outcome (MemorySet T F)
  clear ms = do space ← unmap_areas ms.areas ms.space; done (record { areas = []; space = space })

  -- `MemorySet::translate`
  unfoldable pub translate : MemorySet T F → ℕ → Option ℕ
  translate ms addr = elim (get_entry m ms.space.table addr) [
    | none ↦ none
    | some e ↦ if e.ap_el0 then some e.addr else none
  ]

  -- `MemorySet::handle_page_fault`
  unfoldable pub handle_page_fault : MemorySet T F → ℕ → Outcome (Bool × MemorySet T F)
  handle_page_fault ms addr = elim (find (λ a. contains a addr) ms.areas) [
    | none ↦ done (false, ms)
    | some a ↦
        handler_page_fault m a.handler ms.space addr >>= λ r. done (r.0, record ms { space = r.1 })
  ]

  unfoldable pub clone_pages : MemoryArea → List Page → T → Space T F → Outcome (Space T F)
  clone_pages a [] src s = done s
  clone_pages a (p ∷ ps) src s = do
    s' ← handler_clone_map m a.handler s src (start_address p) a.attr
    clone_pages a ps src s'

  unfoldable pub clone_areas : List MemoryArea → T → Space T F → Outcome (Space T F)
  clone_areas [] src s = done s
  clone_areas (a ∷ areas) src s = do
    s' ← clone_pages a (pages (range_of a.start_addr a.end_addr)) src s
    clone_areas areas src s'

  -- `PageTableExt::new`: a root frame and a table with nothing mapped.
  unfoldable pub new_table : Memory F → Outcome (Space T F)
  new_table memory = do
    (root, memory') ← alloc_frame m memory
    done (record { table = m.mapper.bare; memory = memory' })

  -- `MemorySet::clone`: the new set. The memory is shared with the old one, whose areas and page
  -- table stay as they are.
  unfoldable pub clone : MemorySet T F → Outcome (MemorySet T F)
  clone ms = do
    s ← new_table ms.space.memory
    s' ← clone_areas ms.areas ms.space.table s
    done (record { areas = ms.areas; space = s' })
