-- ===== src/Process/Elf/Segments.antt =====
-- Each segment that is loaded is mapped as its header says, and the program ends below the bias that
-- `make_memory_set` returns.
use queen.Base.{
  ℕ, ◌+◌, ◌%◌, ◌^◌, ◌≤◌, ◌<◌, ◌≡◌, ◌∙◌, true, ◌&&◌, ltb, if◌then◌else◌, List, [], ◌∷◌, String, some,
  done, panic, add_word, arith, inl, inr, Bool-cases, >>=-eq-done, get_elem?, zero, suc,
}
use queen.Memory.Page.{page_size, of_addr, start_address, align_down, align_up}
use queen.Memory.Table.{Machine}
use queen.Memory.Entry.{MemoryAttr}
use queen.Memory.Handler.{Handler}
use queen.Memory.Set.{MemorySet, push}
use queen.Memory.Set.View.{IsValid, Region, view, within}
use queen.Memory.Set.Push.{push-IsValid, view-push, push-overlap}
use queen.Process.Elf.{
  ProgramHeader, to_attr, is_load, segment_end, segment_handler, push_segment, push_segments,
  farthest, make_memory_set,
}

-- An address that has a region keeps it: an area over it would make the push panic.
pub push-keeps :
    {T F : Type 0} (m : Machine T F) (ms ms' : MemorySet T F) (start end : ℕ) (attr : MemoryAttr)
    (handler : Handler) (name : String) (addr : ℕ) (r : Region)
    → start < 2 ^ 64
    → end < 2 ^ 64
    → IsValid ms.areas
    → view ms.areas addr ≡ some r
    → push m ms start end attr handler name ≡ done ms'
    → view ms'.areas addr ≡ some r
push-keeps m ms ms' start end attr handler name addr r hs he v here e =
    let inside = ltb start end && within (align_down start) (align_up end) addr in
    let new = view-push m ms start end attr handler name ms' addr hs he v e in
    elim (Bool-cases inside) [
      | inr outside ↦ (rw outside at new) ∙ here
      | inl hit ↦
          let below : start < end = ground arith in
          let hit' : within (align_down start) (align_up end) addr ≡ true = ground arith in
          let no : push m ms start end attr handler name ≡ panic =
            push-overlap m ms start end attr handler name addr r hs he below v hit' here in
          cc
    ]

module _ {T F : Type 0} (m : Machine T F) (inode bias : ℕ) (name : String) where
  abbrev pub segment_region : ProgramHeader → Region
  segment_region ph = record {
    attr = to_attr ph;
    handler = segment_handler inode bias ph;
    name = name;
  }

  push_segment-IsValid :
      (ms ms' : MemorySet T F) (ph : ProgramHeader)
      → IsValid ms.areas
      → push_segment m inode bias name ms ph ≡ done ms'
      → IsValid ms'.areas
  unfolding push_segment
  push_segment-IsValid ms ms' ph v e =
      push-IsValid m ms (add_word ph.virtual_addr bias) (segment_end bias ph) (to_attr ph)
        (segment_handler inode bias ph) name ms' (omega arith) (omega arith) v e

  push_segment-keeps :
      (ms ms' : MemorySet T F) (ph : ProgramHeader) (addr : ℕ) (r : Region)
      → IsValid ms.areas
      → view ms.areas addr ≡ some r
      → push_segment m inode bias name ms ph ≡ done ms'
      → view ms'.areas addr ≡ some r
  unfolding push_segment
  push_segment-keeps ms ms' ph addr r v here e =
      push-keeps m ms ms' (add_word ph.virtual_addr bias) (segment_end bias ph) (to_attr ph)
        (segment_handler inode bias ph) name addr r (omega arith) (omega arith) v here e

  pub push_segments-IsValid :
      (phs : List ProgramHeader) (ms ms' : MemorySet T F)
      → IsValid ms.areas
      → push_segments m inode bias name phs ms ≡ done ms'
      → IsValid ms'.areas
  unfolding push_segments
  push_segments-IsValid [] ms ms' v e = (let same : ms ≡ ms' = cc in rw (← same) v)
  push_segments-IsValid (ph ∷ phs) ms ms' v e = elim (Bool-cases (is_load ph)) [
    | inr skip ↦ push_segments-IsValid phs ms ms' v (rw (skip, push_segments) at e)
    | inl loads ↦
        let (ms1, one, rest) =
          >>=-eq-done (push_segment m inode bias name ms ph) _ (rw (loads, push_segments) at e) in
        push_segments-IsValid phs ms1 ms' (push_segment-IsValid ms ms1 ph v one) rest
  ]

  pub push_segments-keeps :
      (phs : List ProgramHeader) (ms ms' : MemorySet T F) (addr : ℕ) (r : Region)
      → IsValid ms.areas
      → view ms.areas addr ≡ some r
      → push_segments m inode bias name phs ms ≡ done ms'
      → view ms'.areas addr ≡ some r
  unfolding push_segments
  push_segments-keeps [] ms ms' addr r v here e = (let same : ms ≡ ms' = cc in rw (← same) here)
  push_segments-keeps (ph ∷ phs) ms ms' addr r v here e = elim (Bool-cases (is_load ph)) [
    | inr skip ↦ push_segments-keeps phs ms ms' addr r v here (rw (skip, push_segments) at e)
    | inl loads ↦
        let (ms1, one, rest) =
          >>=-eq-done (push_segment m inode bias name ms ph) _ (rw (loads, push_segments) at e) in
        push_segments-keeps phs ms1 ms' addr r (push_segment-IsValid ms ms1 ph v one)
          (push_segment-keeps ms ms1 ph addr r v here one) rest
  ]

  push_segment-view :
      (ms ms' : MemorySet T F) (ph : ProgramHeader) (addr : ℕ)
      → IsValid ms.areas
      → push_segment m inode bias name ms ph ≡ done ms'
      → ph.virtual_addr + ph.mem_size + bias + 4095 < 2 ^ 64
      → within (ph.virtual_addr + bias) (ph.virtual_addr + ph.mem_size + bias) addr ≡ true
      → view ms'.areas addr ≡ some (segment_region ph)
  unfolding push_segment
  push_segment-view ms ms' ph addr v e fits inside =
      let start = add_word ph.virtual_addr bias in
      let end = segment_end bias ph in
      let at_start : start ≡ ph.virtual_addr + bias = omega arith in
      let at_end : end ≡ ph.virtual_addr + ph.mem_size + bias = omega arith in
      let hit : (ltb start end && within (align_down start) (align_up end) addr) ≡ true =
        ground arith in
      let new =
        view-push m ms start end (to_attr ph) (segment_handler inode bias ph) name ms' addr
          (omega arith) (omega arith) v e in
      rw hit at new

  pub push_segments-view :
      (phs : List ProgramHeader) (ms ms' : MemorySet T F) (i addr : ℕ) (ph : ProgramHeader)
      → IsValid ms.areas
      → push_segments m inode bias name phs ms ≡ done ms'
      → get_elem? phs i ≡ some ph
      → is_load ph ≡ true
      → ph.virtual_addr + ph.mem_size + bias + 4095 < 2 ^ 64
      → within (ph.virtual_addr + bias) (ph.virtual_addr + ph.mem_size + bias) addr ≡ true
      → view ms'.areas addr ≡ some (segment_region ph)
  unfolding push_segments
  push_segments-view [] ms ms' i addr ph v e here loads fits inside = cc
  push_segments-view (p ∷ phs) ms ms' zero addr ph v e here loads fits inside =
      let same : p ≡ ph = cc in
      let loads' : is_load p ≡ true = rw same loads in
      let (ms1, one, rest) =
        >>=-eq-done (push_segment m inode bias name ms p) _ (rw (loads', push_segments) at e) in
      let new : view ms1.areas addr ≡ some (segment_region ph) =
        push_segment-view ms ms1 ph addr v (rw (← same) one) fits inside in
      push_segments-keeps phs ms1 ms' addr (segment_region ph) (push_segment-IsValid ms ms1 p v one)
        new rest
  push_segments-view (p ∷ phs) ms ms' (suc i) addr ph v e here loads fits inside =
      elim (Bool-cases (is_load p)) [
        | inr skip ↦
            push_segments-view phs ms ms' i addr ph v (rw (skip, push_segments) at e) here loads
              fits inside
        | inl one_more ↦
            let (ms1, one, rest) =
              >>=-eq-done (push_segment m inode bias name ms p) _
                (rw (one_more, push_segments) at e) in
            push_segments-view phs ms1 ms' i addr ph (push_segment-IsValid ms ms1 p v one) rest here
              loads fits inside
      ]

farthest-above : (phs : List ProgramHeader) (far : ℕ) → far ≤ farthest phs far
unfolding farthest
farthest-above [] far = omega arith
farthest-above (ph ∷ phs) far = ground (
  arith,
  farthest-above phs (if is_load ph && ltb far (segment_end 0 ph) then segment_end 0 ph else far),
)

segment_end-le-farthest :
    (phs : List ProgramHeader) (far i : ℕ) (ph : ProgramHeader)
    → get_elem? phs i ≡ some ph
    → is_load ph ≡ true
    → segment_end 0 ph ≤ farthest phs far
unfolding farthest
segment_end-le-farthest [] far i ph h loads = cc
segment_end-le-farthest (p ∷ phs) far zero ph h loads =
    let same : p ≡ ph = cc in
    let far' = if is_load p && ltb far (segment_end 0 p) then segment_end 0 p else far in
    let reached : segment_end 0 ph ≤ far' = rw same (rw loads (ground arith)) in
    omega (arith, farthest-above phs far')
segment_end-le-farthest (p ∷ phs) far (suc i) ph h loads =
    segment_end-le-farthest phs
      (if is_load p && ltb far (segment_end 0 p) then segment_end 0 p else far) i ph h loads

pub make_memory_set-view :
    {T F : Type 0} (m : Machine T F) (inode : ℕ) (phs : List ProgramHeader) (ms ms' : MemorySet T F)
    (bias i addr : ℕ) (ph : ProgramHeader)
    → IsValid ms.areas
    → make_memory_set m inode phs ms ≡ done (ms', bias)
    → get_elem? phs i ≡ some ph
    → is_load ph ≡ true
    → ph.virtual_addr + ph.mem_size + 4095 < 2 ^ 64
    → within ph.virtual_addr (ph.virtual_addr + ph.mem_size) addr ≡ true
    → farthest phs 0 + 4096 < 2 ^ 64
    → IsValid ms'.areas
      × (view ms'.areas addr
          ≡ some (record { attr = to_attr ph; handler = segment_handler inode 0 ph; name = "elf" }))
      × (addr < bias)
      × (bias % 4096 ≡ 0)
unfolding make_memory_set
make_memory_set-view m inode phs ms ms' bias i addr ph v e here loads fits inside far =
    let (ms1, one, rest) = >>=-eq-done (push_segments m inode 0 "elf" phs ms) _ e in
    let same : ms1 ≡ ms' = cc in
    let number : start_address (of_addr (add_word (farthest phs 0) page_size)) ≡ bias = cc in
    let reached = segment_end-le-farthest phs 0 i ph here loads in
    let zero_bias : ph.virtual_addr + 0 ≡ ph.virtual_addr = omega arith in
    let zero_end : ph.virtual_addr + ph.mem_size + 0 ≡ ph.virtual_addr + ph.mem_size =
      omega arith in
    (
      rw (← same) (push_segments-IsValid m inode 0 "elf" phs ms ms1 v one),
      rw (← same) (
          push_segments-view m inode 0 "elf" phs ms ms1 i addr ph v one here loads (omega arith)
            (rw (zero_end, zero_bias) inside)),
      ground (arith, reached, number),
      omega (arith, number),
    )
