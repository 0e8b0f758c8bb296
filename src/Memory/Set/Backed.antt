-- ===== src/Memory/Set/Backed.antt =====
-- Every page of every area has an entry that can be taken away: so no unmapping panics.
use queen.Base.{
  ℕ, ◌+◌, ◌-◌, ◌/◌, ◌≤◌, ◌<◌, min, max, subst, ◌≡◌, refl, Bool, true, false, ◌&&◌, leb,
  if◌then◌else◌, List, [], ◌∷◌, arith, inl, inr, Outcome, done, panic, ◌>>=◌, Bool-cases, All,
}
use queen.Memory.Page.Walk.{numbers, pages-range_of}
use queen.Memory.Table.{Machine}
use queen.Memory.Handler.{Space}
use queen.Memory.Backing.{entry_at, Unmappable, Removes, in_pages, unmap_pages-Removes}
use queen.Memory.Area.{MemoryArea, is_overlap_with, unmap_area, unmap_pages}
use queen.Memory.Set.{cut}
use queen.Memory.Set.View.{IsPaged, Ordered, overlap_paged}
use queen.Memory.Set.Split.{unmap_dead}

module _ {T F : Type 0} (m : Machine T F) where
  abbrev pub Backs : Space T F → MemoryArea → Type 0
  Backs sp a =
      (q : ℕ)
      → a.start_addr / 4096 ≤ q
      → q < a.end_addr / 4096
      → Unmappable m a.handler (entry_at m sp q)

  abbrev pub Backed : Space T F → List MemoryArea → Type 0
  Backed sp = All (Backs sp)

  pub unmap_area-Removes :
      (a : MemoryArea) (sp : Space T F)
      → IsPaged a.start_addr a.end_addr
      → Backs sp a
      → Removes m (in_pages m (a.start_addr / 4096) (a.end_addr / 4096)) sp (unmap_area m a sp)
  unfolding unmap_area
  unmap_area-Removes a sp p backs =
      let first = a.start_addr / 4096 in
      let (walked, same) =
        pages-range_of a.start_addr a.end_addr (a.end_addr / 4096 + 2) p.nonempty p.fits
          (omega arith) in
      let count : (a.end_addr - 1) / 4096 + 1 - a.start_addr / 4096 ≡ a.end_addr / 4096 - first =
        omega arith in
      let last : first + (a.end_addr / 4096 - first) ≡ a.end_addr / 4096 = omega arith in
      let gone =
        unmap_pages-Removes m a (a.end_addr / 4096 - first) first sp (omega arith)
          (λ q lo hi. backs q lo (omega arith)) in
      rw (same, walked, count)
        (subst
          (λ k.
            Removes m (in_pages m first k) sp
              (unmap_pages m a (numbers first (a.end_addr / 4096 - first)) sp))
          last gone)

  -- The step went through, and the entries of the pages that the test does not name are as before.
  abbrev pub Leaves : (ℕ → Bool) → Space T F → Outcome (Space T F) → Type 0
  Leaves touched sp panic = ⊥
  Leaves touched sp (done sp') = (q : ℕ) → touched q ≡ false → entry_at m sp' q ≡ entry_at m sp q

  module _ (s e : ℕ) where
    -- The part that is unmapped of an area that overlaps whole pages.
    dead_shape :
        (a : MemoryArea)
        → IsPaged s e
        → IsPaged a.start_addr a.end_addr
        → is_overlap_with a s e ≡ true
        → let d = (cut s e a).dead in
          (d.start_addr ≡ max s a.start_addr)
          × (d.end_addr ≡ min e a.end_addr)
          × (d.handler ≡ a.handler)
          × (max s a.start_addr < min e a.end_addr)
    unfolding cut
    dead_shape a p q over = ground (arith, overlap_paged a s e q p)

    abbrev pub touches : ℕ → ℕ → ℕ → Bool
    touches low high q =
        in_pages m (s / 4096) (e / 4096) q && in_pages m (low / 4096) (high / 4096) q

    -- A step that removes only pages of the range and of the area leaves all others.
    Removes-Leaves :
        (first last low high : ℕ) (sp : Space T F) (step : Outcome (Space T F))
        → s / 4096 ≤ first
        → low / 4096 ≤ first
        → last ≤ e / 4096
        → last ≤ high / 4096
        → Removes m (in_pages m first last) sp step
        → Leaves (touches low high) sp step
    Removes-Leaves first last low high sp panic h1 h2 h3 h4 gone = absurd gone
    Removes-Leaves first last low high sp (done sp') h1 h2 h3 h4 gone =
        λ q t. ground (arith, gone q)

    dead-Leaves :
        (a : MemoryArea) (sp : Space T F)
        → IsPaged s e
        → IsPaged a.start_addr a.end_addr
        → Backs sp a
        → is_overlap_with a s e ≡ true
        → Leaves (touches a.start_addr a.end_addr) sp (unmap_area m (cut s e a).dead sp)
    dead-Leaves a sp p q backs over =
        let (start, end, handler, some_pages) = dead_shape a p q over in
        let d = (cut s e a).dead in
        let paged : IsPaged d.start_addr d.end_addr = omega arith in
        let behind : Backs sp d = λ k lo hi. rw handler (backs k (omega arith) (omega arith)) in
        Removes-Leaves (d.start_addr / 4096) (d.end_addr / 4096) a.start_addr a.end_addr sp
          (unmap_area m d sp) (omega arith) (omega arith) (omega arith) (omega arith)
          (unmap_area-Removes d sp paged behind)

    -- One round of the loop, whether the area overlaps the range or not.
    round-Leaves :
        (a : MemoryArea) (sp : Space T F)
        → IsPaged s e
        → IsPaged a.start_addr a.end_addr
        → Backs sp a
        → Leaves
            (touches a.start_addr a.end_addr)
            sp
            (if is_overlap_with a s e then unmap_area m (cut s e a).dead sp else done sp)
    round-Leaves a sp p q backs = elim (Bool-cases (is_overlap_with a s e)) [
      | inl over ↦ rw over (dead-Leaves a sp p q backs over)
      | inr apart ↦ rw apart (λ k t. refl)
    ]

    -- Areas from `low` on stay backed by a table that is the same from `low` on.
    pub Backed-same :
        (low : ℕ) (areas : List MemoryArea) (sp sp' : Space T F)
        → Ordered low areas
        → ((q : ℕ) → low / 4096 ≤ q → entry_at m sp' q ≡ entry_at m sp q)
        → Backed sp areas
        → Backed sp' areas
    Backed-same low [] sp sp' v same backs = tt
    Backed-same low (a ∷ areas) sp sp' v same backs = (
      λ q lo hi. rw (same q (omega arith)) (backs.0 q lo hi),
      Backed-same a.end_addr areas sp sp' v.2 (λ q lo. same q (omega arith)) backs.1,
    )

    abbrev pub above : ℕ → ℕ → Bool
    above low q = in_pages m (s / 4096) (e / 4096) q && leb (low / 4096) q

    rest-Leaves :
        (low : ℕ) (a : MemoryArea) (areas : List MemoryArea) (sp : Space T F)
        (round : Outcome (Space T F))
        → low ≤ a.start_addr
        → a.start_addr < a.end_addr
        → Leaves (touches a.start_addr a.end_addr) sp round
        → ((sp' : Space T F)
            → ((q : ℕ)
                → touches a.start_addr a.end_addr q ≡ false
                → entry_at m sp' q ≡ entry_at m sp q)
            → Leaves (above a.end_addr) sp' (unmap_dead m s e areas sp'))
        → Leaves (above low) sp (round >>= λ sp'. unmap_dead m s e areas sp')
    rest-Leaves low a areas sp panic h h' l rest = absurd l
    rest-Leaves low a areas sp (done sp') h h' l rest =
        both (unmap_dead m s e areas sp') (rest sp' l)
      where
        both : (r : Outcome (Space T F)) → Leaves (above a.end_addr) sp' r → Leaves (above low) sp r
        both panic k = absurd k
        both (done sp'') k = λ q t. ground (arith, k q, l q)

    pub unmap_dead-Leaves :
        (low : ℕ) (areas : List MemoryArea) (sp : Space T F)
        → IsPaged s e
        → Ordered low areas
        → Backed sp areas
        → Leaves (above low) sp (unmap_dead m s e areas sp)
    unfolding unmap_dead
    unmap_dead-Leaves low [] sp p v backs = λ q t. refl
    unmap_dead-Leaves low (a ∷ areas) sp p v backs =
        rest-Leaves low a areas sp _ v.0 v.1.nonempty (round-Leaves a sp p v.1 backs.0) (λ sp' same.
          unmap_dead-Leaves a.end_addr areas sp' p v.2
            (Backed-same a.end_addr areas sp sp' v.2 (λ q lo. same q (ground arith)) backs.1))
