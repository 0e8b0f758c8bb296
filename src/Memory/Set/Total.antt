-- ===== src/Memory/Set/Total.antt =====
-- On a set whose pages are all backed, `pop_with_split` and `clear` return, and what they leave is
-- backed again.
use queen.Base.{
  ℕ, ◌/◌, ◌≤◌, ◌≡◌, ◌≢◌, refl, false, List, [], ◌∷◌, ◌++◌, arith, inl, inr, Outcome, done, panic,
  ◌>>=◌,
}
use queen.Memory.Table.{Machine}
use queen.Memory.Handler.{Space}
use queen.Memory.Backing.{entry_at, Removes, in_pages}
use queen.Memory.Area.{MemoryArea, unmap_area}
use queen.Memory.Set.{MemorySet, pop_with_split, clear, unmap_areas}
use queen.Memory.Set.View.{IsPaged, Ordered, IsValid}
use queen.Memory.Set.Split.{
  kept, kept_shapes, split_all, split_all-Ordered, unmap_dead, pop_with_split-split_all,
}
use queen.Memory.Set.Backed.{
  Backs, Backed, Backed-same, Leaves, above, unmap_dead-Leaves, unmap_area-Removes,
}

module _ {T F : Type 0} (m : Machine T F) (s e : ℕ) where
  -- A table that keeps the entries outside the range.
  abbrev KeepsOutside : Space T F → Space T F → Type 0
  KeepsOutside sp sp' =
      (q : ℕ) → in_pages m (s / 4096) (e / 4096) q ≡ false → entry_at m sp' q ≡ entry_at m sp q

  kept-Backed :
      (a : MemoryArea) (rest : List MemoryArea) (sp sp' : Space T F)
      → IsPaged s e
      → IsPaged a.start_addr a.end_addr
      → KeepsOutside sp sp'
      → Backs m sp a
      → Backed m sp' rest
      → Backed m sp' (kept s e a ++ rest)
  kept-Backed a rest sp sp' p q same backs behind = elim (kept_shapes s e a p q) [
    | inl (all, inl before) ↦ rw all (λ k l h. rw (same k (ground arith)) (backs k l h), behind)
    | inl (all, inr after) ↦ rw all (λ k l h. rw (same k (ground arith)) (backs k l h), behind)
    | inr (inl nothing) ↦ rw nothing behind
    | inr (inr (inl (prefix, lo, hi))) ↦
        rw prefix
          (λ k l h. rw (same k (ground arith)) (backs k (omega arith) (omega arith)), behind)
    | inr (inr (inr (inl (postfix, lo, hi)))) ↦
        rw postfix
          (λ k l h. rw (same k (ground arith)) (backs k (omega arith) (omega arith)), behind)
    | inr (inr (inr (inr (superset, lo, hi)))) ↦ rw superset (
      λ k l h. rw (same k (ground arith)) (backs k (omega arith) (omega arith)),
      (λ k l h. rw (same k (ground arith)) (backs k (omega arith) (omega arith)), behind),
    )
  ]

  split_all-Backed :
      (low : ℕ) (areas : List MemoryArea) (sp sp' : Space T F)
      → IsPaged s e
      → Ordered low areas
      → KeepsOutside sp sp'
      → Backed m sp areas
      → Backed m sp' (split_all s e areas)
  unfolding split_all
  split_all-Backed low [] sp sp' p v same backs = tt
  split_all-Backed low (a ∷ areas) sp sp' p v same backs =
      kept-Backed a (split_all s e areas) sp sp' p v.1 same backs.0
        (split_all-Backed a.end_addr areas sp sp' p v.2 same backs.1)

  -- On an ordered set whose pages are all backed by entries, taking out whole pages returns: the set
  -- is again ordered and backed, and the page table is as before outside the range.
  pub pop_with_split-total :
      (ms : MemorySet T F)
      → IsPaged s e
      → IsValid ms.areas
      → Backed m ms.space ms.areas
      → (ms' : MemorySet T F) × (pop_with_split m ms s e ≡ done ms')
        × IsValid ms'.areas
        × Backed m ms'.space ms'.areas
        × ((q : ℕ)
            → in_pages m (s / 4096) (e / 4096) q ≡ false
            → entry_at m ms'.space q ≡ entry_at m ms.space q)
  pop_with_split-total ms p v backs =
      finish (unmap_dead m s e ms.areas ms.space) refl
        (unmap_dead-Leaves m s e 0 ms.areas ms.space p v backs)
    where
      finish :
          (r : Outcome (Space T F))
          → unmap_dead m s e ms.areas ms.space ≡ r
          → Leaves m (above m s e 0) ms.space r
          → (ms' : MemorySet T F) × (pop_with_split m ms s e ≡ done ms')
            × IsValid ms'.areas
            × Backed m ms'.space ms'.areas
            × KeepsOutside ms.space ms'.space
      finish panic h l = absurd l
      finish (done sp') h l =
          let same : KeepsOutside ms.space sp' = λ q out. l q (ground arith) in
          (
            record { areas = split_all s e ms.areas; space = sp' },
            rw (pop_with_split-split_all m s e ms (omega arith), h),
            split_all-Ordered s e 0 ms.areas p v,
            split_all-Backed 0 ms.areas ms.space sp' p v same backs,
            same,
          )

module _ {T F : Type 0} (m : Machine T F) where
  Removes-same :
      (first last : ℕ) (sp : Space T F) (step : Outcome (Space T F))
      (then_do : Space T F → Outcome (Space T F))
      → Removes m (in_pages m first last) sp step
      → ((sp' : Space T F)
          → ((q : ℕ) → last ≤ q → entry_at m sp' q ≡ entry_at m sp q)
          → then_do sp' ≢ panic)
      → (step >>= then_do) ≢ panic
  Removes-same first last sp panic then_do gone rest = absurd gone
  Removes-same first last sp (done sp') then_do gone rest =
      rest sp' (λ q lo. ground (arith, gone q))

  unmap_areas-ne-panic :
      (low : ℕ) (areas : List MemoryArea) (sp : Space T F)
      → Ordered low areas
      → Backed m sp areas
      → unmap_areas m areas sp ≢ panic
  unfolding unmap_areas
  unmap_areas-ne-panic low [] sp v backs = λ e. cc
  unmap_areas-ne-panic low (a ∷ areas) sp v backs =
      Removes-same (a.start_addr / 4096) (a.end_addr / 4096) sp (unmap_area m a sp) _
        (unmap_area-Removes m a sp v.1 backs.0)
        (λ sp' same.
          unmap_areas-ne-panic a.end_addr areas sp' v.2
            (Backed-same m 0 0 a.end_addr areas sp sp' v.2 same backs.1))

  -- Clearing an ordered set whose pages are all backed never panics, and leaves no area.
  pub clear-total :
      (ms : MemorySet T F)
      → IsValid ms.areas
      → Backed m ms.space ms.areas
      → (ms' : MemorySet T F) × (clear m ms ≡ done ms') × (ms'.areas ≡ [])
  unfolding clear
  clear-total ms v backs =
      finish (unmap_areas m ms.areas ms.space) refl
        (unmap_areas-ne-panic 0 ms.areas ms.space v backs)
    where
      finish :
          (r : Outcome (Space T F))
          → unmap_areas m ms.areas ms.space ≡ r
          → r ≢ panic
          → (ms' : MemorySet T F) × (clear m ms ≡ done ms') × (ms'.areas ≡ [])
      finish panic h l = absurd (l refl)
      finish (done sp') h l = (record { areas = []; space = sp' }, rw (h, clear), refl)
