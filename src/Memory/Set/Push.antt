-- ===== src/Memory/Set/Push.antt =====
-- `MemorySet::push`: the new area lies in order among the others and answers for its addresses.
use queen.Base.{
  ℕ, ◌^◌, ◌≤◌, ◌<◌, ◌≡◌, refl, true, false, ◌&&◌, ltb, leb, if◌then◌else◌, List, [], ◌∷◌, some,
  String, arith, inl, inr, done, panic, insert_at, Bool-cases,
}
use queen.Memory.Entry.{MemoryAttr}
use queen.Memory.Page.{align_down, align_up}
use queen.Memory.Handler.{Handler}
use queen.Memory.Table.{Machine}
use queen.Memory.Area.{MemoryArea, contains}
use queen.Memory.Set.{MemorySet, test_free_area, insert_index, push}
use queen.Memory.Set.View.{
  IsPaged, Ordered, IsValid, Region, region, view, within, overlap_paged, free-view, test_free-cons,
}

-- The list that `push` makes.
abbrev inserted : MemoryArea → List MemoryArea → List MemoryArea
inserted new areas = insert_at areas (insert_index new.start_addr areas) new

inserted-Ordered :
    (low : ℕ) (new : MemoryArea) (areas : List MemoryArea)
    → Ordered low areas
    → low ≤ new.start_addr
    → IsPaged new.start_addr new.end_addr
    → test_free_area areas new.start_addr new.end_addr ≡ true
    → Ordered low (inserted new areas)
unfolding insert_index
inserted-Ordered low new [] v h p free = (h, p, tt)
inserted-Ordered low new (a ∷ areas) v h p free = ground (
  arith,
  test_free-cons a areas new.start_addr new.end_addr,
  overlap_paged a new.start_addr new.end_addr v.1 p,
  inserted-Ordered a.end_addr new areas v.2,
)

view-inserted :
    (low addr : ℕ) (new : MemoryArea) (areas : List MemoryArea)
    → Ordered low areas
    → IsPaged new.start_addr new.end_addr
    → test_free_area areas new.start_addr new.end_addr ≡ true
    → view (inserted new areas) addr
      ≡ (if within new.start_addr new.end_addr addr then some (region new) else view areas addr)
unfolding insert_index contains
view-inserted low addr new [] v p free = refl
view-inserted low addr new (a ∷ areas) v p free = ground (
  arith,
  test_free-cons a areas new.start_addr new.end_addr,
  overlap_paged a new.start_addr new.end_addr v.1 p,
  view-inserted a.end_addr addr new areas v.2 p,
)

aligned-IsPaged :
    (start end : ℕ)
    → start < 2 ^ 64
    → end < 2 ^ 64
    → ltb (align_down start) (align_up end) ≡ true
    → IsPaged (align_down start) (align_up end)
aligned-IsPaged start end hs he h = ground arith

module _ {T F : Type 0} (m : Machine T F) (ms : MemorySet T F) (start end : ℕ) where
  -- The record of a push that has gone through, after the test that the range is not empty.
  pushed :
      (attr : MemoryAttr) (handler : Handler) (name : String) (ms' : MemorySet T F)
      → leb end start ≡ false
      → push m ms start end attr handler name ≡ done ms'
      → let new : MemoryArea = record {
        start_addr = align_down start;
        end_addr = align_up end;
        attr = attr;
        handler = handler;
        name = name;
      } in
        (ltb (align_down start) (align_up end) ≡ true)
        × (test_free_area ms.areas (align_down start) (align_up end) ≡ true)
        × (ms'.areas ≡ inserted new ms.areas)
  unfolding push
  pushed attr handler name ms' some_pages e = ground arith

  skipped :
      (attr : MemoryAttr) (handler : Handler) (name : String) (ms' : MemorySet T F)
      → leb end start ≡ true
      → push m ms start end attr handler name ≡ done ms'
      → ms'.areas ≡ ms.areas
  unfolding push
  skipped attr handler name ms' empty e = ground arith

  -- A push that returns keeps the areas in order, page aligned and apart from one another.
  pub push-IsValid :
      (attr : MemoryAttr) (handler : Handler) (name : String) (ms' : MemorySet T F)
      → start < 2 ^ 64
      → end < 2 ^ 64
      → IsValid ms.areas
      → push m ms start end attr handler name ≡ done ms'
      → IsValid ms'.areas
  push-IsValid attr handler name ms' hs he v e = elim (Bool-cases (leb end start)) [
    | inl empty ↦ rw (skipped attr handler name ms' empty e) v
    | inr some_pages ↦
        let (ordered, free, shape) = pushed attr handler name ms' some_pages e in
        rw shape (
          inserted-Ordered 0 _ ms.areas v (omega arith) (aligned-IsPaged start end hs he ordered)
            free)
  ]

  -- After a push that returns, each address of the range, widened to whole pages, has the new
  -- region and every other address has the region that it had; an empty range changes nothing.
  pub view-push :
      (attr : MemoryAttr) (handler : Handler) (name : String) (ms' : MemorySet T F) (addr : ℕ)
      → start < 2 ^ 64
      → end < 2 ^ 64
      → IsValid ms.areas
      → push m ms start end attr handler name ≡ done ms'
      → view ms'.areas addr ≡ (
          if ltb start end && within (align_down start) (align_up end) addr
          then some (record { attr = attr; handler = handler; name = name })
          else view ms.areas addr)
  view-push attr handler name ms' addr hs he v e = elim (Bool-cases (leb end start)) [
    | inl empty ↦
        let unranged : ltb start end ≡ false = ground arith in
        rw (skipped attr handler name ms' empty e, unranged)
    | inr some_pages ↦
        let (ordered, free, shape) = pushed attr handler name ms' some_pages e in
        let ranged : ltb start end ≡ true = ground arith in
        rw (shape, ranged)
          (view-inserted 0 addr _ ms.areas v (aligned-IsPaged start end hs he ordered) free)
  ]

  -- A push over an address that has a region panics.
  pub push-overlap :
      (attr : MemoryAttr) (handler : Handler) (name : String) (addr : ℕ) (r : Region)
      → start < 2 ^ 64
      → end < 2 ^ 64
      → start < end
      → IsValid ms.areas
      → within (align_down start) (align_up end) addr ≡ true
      → view ms.areas addr ≡ some r
      → push m ms start end attr handler name ≡ panic
  unfolding push
  push-overlap attr handler name addr r hs he h v w taken =
      elim (Bool-cases (test_free_area ms.areas (align_down start) (align_up end))) [
        | inl free ↦
            let ordered : align_down start < align_up end = ground arith in
            let nothing =
              free-view 0 (align_down start) (align_up end) addr ms.areas v (omega arith)
                (omega arith) free w in
            cc
        | inr busy ↦ ground arith
      ]
