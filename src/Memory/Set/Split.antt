-- ===== src/Memory/Set/Split.antt =====
-- `MemorySet::pop_with_split`: the index loop is a recursion over the areas, and takes the range out
-- of the view.
use queen.Base.{
  ℕ, zero, suc, ◌≤◌, ◌<◌, ◌≡◌, refl, sym, ◌∙◌, true, not, ◌&&◌, leb, if◌then◌else◌, List, [], ◌∷◌,
  ◌++◌, none, some, arith, inl, inr, Outcome, done, ◌⊎◌, panic, ◌>>=◌, length, length-append,
  Bool-cases, >>=-eq-done, get_elem?-append, get_elem?-append_nil, remove_at-append,
  insert_at-append,
}
use mathlib.Core.List.{append_assoc}
use queen.Memory.Table.{Machine}
use queen.Memory.Handler.{Space}
use queen.Memory.Area.{MemoryArea, contains, is_overlap_with, unmap_area}
use queen.Memory.Set.{MemorySet, cut, insert_all, split_round, split_loop, pop_with_split}
use queen.Memory.Set.View.{
  IsPaged, Ordered, IsValid, region, view, within, overlap_paged, Ordered-mono,
}

insert_all-append :
    (xs ys ks : List MemoryArea) → insert_all (xs ++ ys) (length xs) ks ≡ xs ++ (ks ++ ys)
insert_all-append xs ys [] = refl
insert_all-append xs ys (k ∷ ks) =
    let longer : suc (length xs) ≡ length (xs ++ k ∷ []) =
      omega (arith, length-append xs (k ∷ [])) in
    rw (insert_at-append xs ys k, longer, ← append_assoc xs (k ∷ []) ys)
      (insert_all-append (xs ++ k ∷ []) ys ks ∙ append_assoc xs (k ∷ []) (ks ++ ys))

-- What stays of one area.
unfoldable pub kept : ℕ → ℕ → MemoryArea → List MemoryArea
unfolding cut
kept s e a = if is_overlap_with a s e then (cut s e a).keep else a ∷ []

unfoldable pub split_all : ℕ → ℕ → List MemoryArea → List MemoryArea
split_all s e [] = []
split_all s e (a ∷ areas) = kept s e a ++ split_all s e areas

-- The shapes of what stays, with the bounds that each has.
pub kept_shapes :
    (s e : ℕ) (a : MemoryArea)
    → IsPaged s e
    → IsPaged a.start_addr a.end_addr
    → ((kept s e a ≡ a ∷ []) × ((e ≤ a.start_addr) ⊎ (a.end_addr ≤ s)))
      ⊎ (kept s e a ≡ [])
      ⊎ ((kept s e a ≡ record a { start_addr = e } ∷ []) × (a.start_addr < e) × (e < a.end_addr))
      ⊎ ((kept s e a ≡ record a { end_addr = s } ∷ []) × (a.start_addr < s) × (s < a.end_addr))
      ⊎ ((kept s e a ≡ record a { end_addr = s } ∷ record a { start_addr = e } ∷ [])
          × (a.start_addr < s)
          × (e < a.end_addr))
unfolding kept
kept_shapes s e a p q = ground (arith, overlap_paged a s e q p)

kept-Ordered :
    (s e low : ℕ) (a : MemoryArea) (rest : List MemoryArea)
    → IsPaged s e
    → low ≤ a.start_addr
    → IsPaged a.start_addr a.end_addr
    → Ordered a.end_addr rest
    → Ordered low (kept s e a ++ rest)
kept-Ordered s e low a rest p h q r = elim (kept_shapes s e a p q) [
  | inl (all, apart) ↦ rw all (h, q, r)
  | inr (inl nothing) ↦ rw nothing (Ordered-mono a.end_addr low rest (omega arith) r)
  | inr (inr (inl (prefix, lo, hi))) ↦ rw prefix (omega arith, omega arith, r)
  | inr (inr (inr (inl (postfix, lo, hi)))) ↦
      rw postfix (h, omega arith, Ordered-mono a.end_addr s rest (omega arith) r)
  | inr (inr (inr (inr (superset, lo, hi)))) ↦
      rw superset (h, omega arith, (omega arith, omega arith, r))
]

-- Taking whole pages out leaves the areas in order, page aligned and apart from one another.
pub split_all-Ordered :
    (s e low : ℕ) (areas : List MemoryArea)
    → IsPaged s e
    → Ordered low areas
    → Ordered low (split_all s e areas)
unfolding split_all
split_all-Ordered s e low [] p v = tt
split_all-Ordered s e low (a ∷ areas) p v =
    kept-Ordered s e low a _ p v.0 v.1 (split_all-Ordered s e a.end_addr areas p v.2)

view-kept :
    (s e low addr : ℕ) (a : MemoryArea) (rest : List MemoryArea)
    → IsPaged s e
    → IsPaged a.start_addr a.end_addr
    → view (kept s e a ++ rest) addr
      ≡ (if contains a addr && not (within s e addr) then some (region a) else view rest addr)
unfolding kept contains
view-kept s e low addr a rest p q = ground (arith, overlap_paged a s e q p)

pub view-split_all :
    (s e low addr : ℕ) (areas : List MemoryArea)
    → IsPaged s e
    → Ordered low areas
    → view (split_all s e areas) addr ≡ (if within s e addr then none else view areas addr)
unfolding split_all contains
view-split_all s e low addr [] p v = ground arith
view-split_all s e low addr (a ∷ areas) p v = ground (
  arith,
  view-kept s e low addr a (split_all s e areas) p v.1,
  view-split_all s e a.end_addr addr areas p v.2,
)

module _ {T F : Type 0} (m : Machine T F) (s e : ℕ) where
  -- The unmapping that the loop does on the way.
  unfoldable pub unmap_dead : List MemoryArea → Space T F → Outcome (Space T F)
  unmap_dead [] sp = done sp
  unmap_dead (a ∷ areas) sp =
      (if is_overlap_with a s e then unmap_area m (cut s e a).dead sp else done sp) >>= λ sp'.
      unmap_dead areas sp'

  round-kept :
      (before rest : List MemoryArea) (a : MemoryArea) (sp : Space T F)
      → split_round m s e (record { areas = before ++ a ∷ rest; space = sp }) (length before) a ≡ (
          (if is_overlap_with a s e then unmap_area m (cut s e a).dead sp else done sp) >>= λ sp'.
          done (
            record { areas = (before ++ kept s e a) ++ rest; space = sp' },
            length (before ++ kept s e a),
          ))
  unfolding split_round kept
  round-kept before rest a sp = elim (Bool-cases (is_overlap_with a s e)) [
    | inl over ↦ rw (
      over,
      remove_at-append before a rest,
      insert_all-append before rest (cut s e a).keep,
      length-append before (cut s e a).keep,
      append_assoc before (cut s e a).keep rest,
    )
    | inr apart ↦
        let next : suc (length before) ≡ length (before ++ a ∷ []) =
          omega (arith, length-append before (a ∷ [])) in
        rw (apart, next, append_assoc before (a ∷ []) rest)
  ]

  -- The rest of the loop, after a round that has unmapped its part or has panicked.
  rest-loop :
      (fuel : ℕ) (before rest keep : List MemoryArea) (round : Outcome (Space T F))
      → ((sp : Space T F)
          → split_loop m fuel s e
              (record { areas = (before ++ keep) ++ rest; space = sp })
              (length (before ++ keep))
            ≡ (unmap_dead rest sp >>= λ sp'.
                done (record { areas = (before ++ keep) ++ split_all s e rest; space = sp' })))
      → ◌>>=◌ {A = MemorySet T F × ℕ}
          (round >>= λ sp'.
            done
              (record { areas = (before ++ keep) ++ rest; space = sp' }, length (before ++ keep)))
          (λ r. split_loop m fuel s e r.0 r.1)
        ≡ ((round >>= λ sp'. unmap_dead rest sp') >>= λ sp'.
            done (record { areas = before ++ (keep ++ split_all s e rest); space = sp' }))
  rest-loop fuel before rest keep (done sp) h =
      rw (← append_assoc before keep (split_all s e rest)) (h sp)
  rest-loop fuel before rest keep panic h = refl

  split_loop-lem :
      (fuel : ℕ) (before rest : List MemoryArea) (sp : Space T F)
      → length rest < fuel
      → split_loop m fuel s e (record { areas = before ++ rest; space = sp }) (length before) ≡ (
          unmap_dead rest sp >>= λ sp'.
          done (record { areas = before ++ split_all s e rest; space = sp' }))
  unfolding split_loop split_all unmap_dead
  split_loop-lem zero before rest sp h = absurd (omega arith)
  split_loop-lem (suc fuel) before [] sp h = rw (get_elem?-append_nil before, split_loop)
  split_loop-lem (suc fuel) before (a ∷ rest) sp h =
      rw (get_elem?-append before a rest, split_loop, round-kept before rest a sp)
        (rest-loop fuel before rest (kept s e a) _
          (λ sp'. split_loop-lem fuel (before ++ kept s e a) rest sp' (omega arith)))

  pub pop_with_split-split_all :
      (ms : MemorySet T F)
      → s ≤ e
      → pop_with_split m ms s e ≡ (
          unmap_dead ms.areas ms.space >>= λ sp.
          done (record { areas = split_all s e ms.areas; space = sp }))
  unfolding pop_with_split
  pop_with_split-split_all ms h =
      let fine : leb s e ≡ true = ground arith in
      rw fine (split_loop-lem (suc (length ms.areas)) [] ms.areas ms.space (omega arith))

  -- The list of areas that a `pop_with_split` leaves.
  pub areas-pop_with_split :
      (ms ms' : MemorySet T F)
      → s ≤ e
      → pop_with_split m ms s e ≡ done ms'
      → ms'.areas ≡ split_all s e ms.areas
  areas-pop_with_split ms ms' h r =
      let (sp, _, last) =
        >>=-eq-done (unmap_dead ms.areas ms.space) _ (sym (pop_with_split-split_all ms h) ∙ r) in
      ground arith

  -- Taking out whole pages, when it returns, leaves the areas in order, page aligned and apart.
  pub pop_with_split-IsValid :
      (ms ms' : MemorySet T F)
      → IsPaged s e
      → IsValid ms.areas
      → pop_with_split m ms s e ≡ done ms'
      → IsValid ms'.areas
  pop_with_split-IsValid ms ms' p v r =
      rw (areas-pop_with_split ms ms' (omega arith) r) (split_all-Ordered s e 0 ms.areas p v)

  -- Taking out whole pages, when it returns, leaves no region at the addresses of the range, and at
  -- every other address the region that was there.
  pub view-pop_with_split :
      (ms ms' : MemorySet T F) (addr : ℕ)
      → IsPaged s e
      → IsValid ms.areas
      → pop_with_split m ms s e ≡ done ms'
      → view ms'.areas addr ≡ (if within s e addr then none else view ms.areas addr)
  view-pop_with_split ms ms' addr p v r =
      rw (areas-pop_with_split ms ms' (omega arith) r) (view-split_all s e 0 addr ms.areas p v)
