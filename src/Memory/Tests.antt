-- ===== src/Memory/Tests.antt =====
-- Two areas on a small machine, on which the theorems on memory are applied.
use queen.Base.{
  ℕ, ◌/◌, ◌%◌, ◌^◌, ◌<◌, ◌≡◌, ◌≢◌, refl, true, false, ◌&&◌, ◌==◌, ltb, leb, if◌then◌else◌, List, [],
  ◌∷◌, none, some, arith, Outcome, done, panic, ◌↔◌,
}
use queen.Memory.SmallMachine.{FunctionTable, blank_entry, three_kinds, small_machine, value_or}
use queen.Memory.Page.{pages}
use queen.Memory.Entry.{IsDistinct, MemoryAttr, Applied, apply, apply-Applied, set_present}
use queen.Memory.Table.{alloc_frame, map_page, get_entry, unmap_page, set_entry}
use queen.Memory.Handler.{by_frame, delay, handler_map, map_at, handler_unmap, unmap_lazy}
use queen.Memory.Backing.{entry_at, in_pages}
use queen.Memory.Area.{
  MemoryArea, contains, is_overlap_with, map_area, map_pages, unmap_area, unmap_pages,
}
use queen.Memory.Set.{
  MemorySet, push, pop_with_split, clear, find_free_area, check_write_array, test_free_area,
  split_loop, split_round, cut,
}
use queen.Memory.Set.View.{IsPaged, IsValid, region, view, within}
use queen.Memory.Set.Push.{push-IsValid, view-push}
use queen.Memory.Set.Split.{pop_with_split-IsValid, view-pop_with_split}
use queen.Memory.Set.Backed.{Backed}
use queen.Memory.Set.Total.{pop_with_split-total, clear-total}
use queen.Memory.Set.FreeArea.{last_end, find_free_area-free, find_free_area-total}
use queen.Memory.Set.CheckArray.{check_write_array_iff, in_array, is_writable}

abbrev user_data : MemoryAttr
user_data = record { user = true; readonly = false; execute = false; mmio = 0 }

abbrev text_area : MemoryArea
text_area = record {
  start_addr = 0x1000;
  end_addr = 0x4000;
  attr = user_data;
  handler = delay;
  name = "text";
}

abbrev stack_area : MemoryArea
stack_area = record {
  start_addr = 0x8000;
  end_addr = 0x9000;
  attr = user_data;
  handler = by_frame;
  name = "stack";
}

abbrev two_areas : List MemoryArea
two_areas = text_area ∷ stack_area ∷ []

-- Pages 1 to 3 wait for a fault, page 8 is present.
abbrev two_areas_table : FunctionTable
two_areas_table q =
    if leb 1 q && ltb q 4
    then some (record blank_entry { valid = false })
    else if q == 8
    then some blank_entry
    else none

abbrev two_areas_set : MemorySet FunctionTable ℕ
two_areas_set = record {
  areas = two_areas;
  space = record { table = two_areas_table; memory = record { frames = 0; byte = λ f i. 0 } };
}

is_paged : (s e : ℕ) → s < e → e < 2 ^ 64 → s % 4096 ≡ 0 → e % 4096 ≡ 0 → IsPaged s e
is_paged s e h f a b = record { nonempty = h; fits = f; start_aligned = a; end_aligned = b }

two_areas-IsValid : IsValid two_areas
two_areas-IsValid = (
  omega arith,
  is_paged 0x1000 0x4000 (omega arith) (omega arith) (omega arith) (omega arith),
  (omega arith, is_paged 0x8000 0x9000 (omega arith) (omega arith) (omega arith) (omega arith), tt),
)

two_areas_set-Backed : Backed small_machine two_areas_set.space two_areas
two_areas_set-Backed = (λ q lo hi. ground arith, (λ q lo hi. ground arith, tt))

middle-IsPaged : IsPaged 0x2000 0x3000
middle-IsPaged = is_paged 0x2000 0x3000 (omega arith) (omega arith) (omega arith) (omega arith)

abbrev heap_push : Outcome (MemorySet FunctionTable ℕ)
heap_push = push small_machine two_areas_set 0x5000 0x5800 user_data by_frame "heap"

heap_push-done : heap_push ≡ done (value_or two_areas_set heap_push)
unfolding push test_free_area is_overlap_with map_area map_pages pages handler_map alloc_frame
    map_at map_page
heap_push-done = refl

push-IsValid_example : IsValid (value_or two_areas_set heap_push).areas
push-IsValid_example =
    push-IsValid small_machine two_areas_set 0x5000 0x5800 user_data by_frame "heap"
      (value_or two_areas_set heap_push) (omega arith) (omega arith) two_areas-IsValid
      heap_push-done

view-push_example : view (value_or two_areas_set heap_push).areas 0x5fff ≡ (
    if ltb 0x5000 0x5800 && within 0x5000 0x6000 0x5fff
    then some (record { attr = user_data; handler = by_frame; name = "heap" })
    else view two_areas 0x5fff)
view-push_example =
    view-push small_machine two_areas_set 0x5000 0x5800 user_data by_frame "heap"
      (value_or two_areas_set heap_push) 0x5fff (omega arith) (omega arith) two_areas-IsValid
      heap_push-done

text-view : view two_areas 0x3000 ≡ some (region text_area)
text-view = unfold contains in refl

abbrev middle_pop : Outcome (MemorySet FunctionTable ℕ)
middle_pop = pop_with_split small_machine two_areas_set 0x2000 0x3000

middle_pop-done : middle_pop ≡ done (value_or two_areas_set middle_pop)
unfolding pop_with_split split_loop split_round is_overlap_with unmap_area unmap_pages pages cut
    handler_unmap unmap_lazy get_entry unmap_page set_entry set_present
middle_pop-done = refl

pop_with_split-IsValid_example : IsValid (value_or two_areas_set middle_pop).areas
pop_with_split-IsValid_example =
    pop_with_split-IsValid small_machine 0x2000 0x3000 two_areas_set
      (value_or two_areas_set middle_pop) middle-IsPaged two_areas-IsValid middle_pop-done

view-pop_with_split_example :
    view (value_or two_areas_set middle_pop).areas 0x2100
    ≡ (if within 0x2000 0x3000 0x2100 then none else view two_areas 0x2100)
view-pop_with_split_example =
    view-pop_with_split small_machine 0x2000 0x3000 two_areas_set
      (value_or two_areas_set middle_pop) 0x2100 middle-IsPaged two_areas-IsValid middle_pop-done

pop_with_split-total_example :
    (ms' : MemorySet FunctionTable ℕ) × (middle_pop ≡ done ms')
    × IsValid ms'.areas
    × Backed small_machine ms'.space ms'.areas
    × ((q : ℕ)
        → in_pages small_machine (0x2000 / 4096) (0x3000 / 4096) q ≡ false
        → entry_at small_machine ms'.space q ≡ entry_at small_machine two_areas_set.space q)
pop_with_split-total_example =
    pop_with_split-total small_machine 0x2000 0x3000 two_areas_set middle-IsPaged two_areas-IsValid
      two_areas_set-Backed

clear-total_example :
    (ms' : MemorySet FunctionTable ℕ) × (clear small_machine two_areas_set ≡ done ms')
    × (ms'.areas ≡ [])
clear-total_example = clear-total small_machine two_areas_set two_areas-IsValid two_areas_set-Backed

found-0x4000 : find_free_area two_areas 0x1000 0x2000 ≡ done 0x4000
unfolding find_free_area test_free_area is_overlap_with
found-0x4000 = refl

find_free_area-free_example : (0x4000 % 4096 ≡ 0) × (view two_areas 0x5fff ≡ none)
find_free_area-free_example =
    find_free_area-free two_areas 0x1000 0x2000 0x4000 0x5fff two_areas-IsValid (omega arith)
      (omega arith) found-0x4000 refl

find_free_area-total_example : find_free_area two_areas 0x1000 0x2000 ≢ panic
find_free_area-total_example =
    find_free_area-total two_areas 0x1000 0x2000 two_areas-IsValid (omega arith)
      (unfold last_end in omega arith)

check_write_array_iff_example :
    (check_write_array two_areas 8 0x1ffc 4 ≡ true)
    ↔ ((x : ℕ) → in_array 8 0x1ffc 4 x ≡ true → is_writable two_areas x ≡ true)
check_write_array_iff_example =
    check_write_array_iff two_areas 8 0x1ffc 4 two_areas-IsValid (omega arith) (omega arith)

three_kinds-IsDistinct : IsDistinct three_kinds
three_kinds-IsDistinct = record {
  device-ne-normal = omega arith;
  non_cacheable-ne-normal = omega arith;
  non_cacheable-ne-device = omega arith;
}

apply-Applied_example :
    Applied three_kinds user_data blank_entry (apply three_kinds user_data blank_entry)
apply-Applied_example = apply-Applied three_kinds user_data blank_entry three_kinds-IsDistinct
