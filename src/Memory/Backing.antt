-- ===== src/Memory/Backing.antt =====
-- The page table entries behind an area: what `map` sets up, and what `unmap` finds.
use queen.Base.{
  ℕ, zero, suc, ◌+◌, ◌^◌, ◌≤◌, ◌<◌, ◌≡◌, refl, ap, Bool, true, false, ◌&&◌, ◌==◌, ltb, leb,
  if◌then◌else◌, Option, none, some, arith, inl, inr, Outcome, done, panic, expect, ◌>>=◌,
  Option-cases,
}
use queen.Memory.Entry.{PageEntry, set_present}
use queen.Memory.Page.{start_address}
use queen.Memory.Page.Walk.{page, numbers}
use queen.Memory.Table.{Machine, unmap_page, get_entry, set_entry}
use queen.Memory.Handler.{Handler, linear, by_frame, delay, file, Space, handler_unmap, unmap_lazy}
use queen.Memory.Area.{MemoryArea, unmap_pages}

-- The handlers whose pages are present from the start.
abbrev pub is_eager : Handler → Bool
is_eager (linear _) = true
is_eager by_frame = true
is_eager delay = false
is_eager (file _ _ _ _) = false

module _ {T F : Type 0} (m : Machine T F) where
  abbrev pub entry_at : Space T F → ℕ → Option PageEntry
  entry_at sp n = m.mapper.lookup sp.table n

  -- An entry that `handler_unmap` can take away.
  abbrev pub Unmappable : Handler → Option PageEntry → Type 0
  Unmappable h none = ⊥
  Unmappable h (some e) = is_eager h ≡ true → e.valid ≡ true

  -- The step went through, and took away the entries of the pages that the test names.
  abbrev pub Removes : (ℕ → Bool) → Space T F → Outcome (Space T F) → Type 0
  Removes gone sp panic = ⊥
  Removes gone sp (done sp') = (q : ℕ) → entry_at sp' q ≡ (if gone q then none else entry_at sp q)

  unmap_page-Removes :
      (t : T) (n : ℕ) (e : PageEntry)
      → m.mapper.lookup t n ≡ some e
      → e.valid ≡ true
      → (t' : T) × (m.mapper.unmap_page t n ≡ some t')
        × ((q : ℕ) → m.mapper.lookup t' q ≡ (if n == q then none else m.mapper.lookup t q))
  unmap_page-Removes t n e here valid = elim (Option-cases (m.mapper.unmap_page t n)) [
    | inl failed ↦ absurd (m.mapper.unmap_page-present t n e here valid failed)
    | inr (t', gone) ↦ (t', gone, λ q. m.mapper.lookup-unmap_page t t' n q gone)
  ]

  get_entry-page :
      (t : T) (n : ℕ) → n < 2 ^ 52 → get_entry m t (start_address (page n)) ≡ m.mapper.lookup t n
  unfolding get_entry
  get_entry-page t n small = ap (m.mapper.lookup t) (omega arith)

  set_entry-page :
      (t : T) (n : ℕ) (e : PageEntry)
      → n < 2 ^ 52
      → set_entry m t (start_address (page n)) e ≡ m.mapper.store t n e
  unfolding set_entry
  set_entry-page t n e small = ap (λ k. m.mapper.store t k e) (omega arith)

  unmap_page-page :
      (t : T) (n : ℕ)
      → n < 2 ^ 52
      → unmap_page m t (start_address (page n)) ≡ expect (m.mapper.unmap_page t n)
  unfolding unmap_page
  unmap_page-page t n small = ap (λ k. expect (m.mapper.unmap_page t k)) (omega arith)

  -- The lazy handlers make the page present first, so that `unmap` finds it.
  unmap_lazy-Removes :
      (sp : Space T F) (n : ℕ) (e : PageEntry)
      → n < 2 ^ 52
      → entry_at sp n ≡ some e
      → Removes (λ q. n == q) sp (unmap_lazy m sp (start_address (page n)))
  unfolding unmap_lazy
  unmap_lazy-Removes sp n e small here =
      let e' = set_present true e in
      let stored = λ (q : ℕ). m.mapper.lookup-store sp.table n q e' e here in
      let found : m.mapper.lookup (m.mapper.store sp.table n e') n ≡ some e' =
        ground (arith, stored n) in
      let (t', gone, law) =
        unmap_page-Removes (m.mapper.store sp.table n e') n e' found (unfold set_present in refl) in
      rw
        (
          get_entry-page sp.table n small,
          here,
          set_entry-page sp.table n e' small,
          unmap_page-page (m.mapper.store sp.table n e') n small,
          gone,
        )
        (λ q. ground (arith, law q, stored q))

  handler_unmap-Removes :
      (h : Handler) (sp : Space T F) (n : ℕ) (e : PageEntry)
      → n < 2 ^ 52
      → entry_at sp n ≡ some e
      → (is_eager h ≡ true → e.valid ≡ true)
      → Removes (λ q. n == q) sp (handler_unmap m h sp (start_address (page n)))
  unfolding handler_unmap
  handler_unmap-Removes (linear offset) sp n e small here valid =
      let (t', gone, law) = unmap_page-Removes sp.table n e here (valid refl) in
      rw (unmap_page-page sp.table n small, gone) law
  handler_unmap-Removes by_frame sp n e small here valid =
      let (t', gone, law) = unmap_page-Removes sp.table n e here (valid refl) in
      rw (get_entry-page sp.table n small, here, unmap_page-page sp.table n small, gone) law
  handler_unmap-Removes delay sp n e small here valid = unmap_lazy-Removes sp n e small here
  handler_unmap-Removes (file _ _ _ _) sp n e small here valid =
      unmap_lazy-Removes sp n e small here

  abbrev pub in_pages : ℕ → ℕ → ℕ → Bool
  in_pages first last q = leb first q && ltb q last

  -- The rest of the pages, after one that has been unmapped.
  next-Removes :
      (a : MemoryArea) (count first : ℕ) (sp : Space T F) (step : Outcome (Space T F))
      → Removes (λ q. first == q) sp step
      → ((sp' : Space T F)
          → ((q : ℕ) → entry_at sp' q ≡ (if first == q then none else entry_at sp q))
          → Removes
              (in_pages (first + 1) (first + 1 + count))
              sp'
              (unmap_pages m a (numbers (first + 1) count) sp'))
      → Removes
          (in_pages first (first + suc count))
          sp
          (step >>= λ sp'. unmap_pages m a (numbers (first + 1) count) sp')
  next-Removes a count first sp panic gone rest = absurd gone
  next-Removes a count first sp (done sp') gone rest =
      both (unmap_pages m a (numbers (first + 1) count) sp') (rest sp' gone)
    where
      both :
          (r : Outcome (Space T F))
          → Removes (in_pages (first + 1) (first + 1 + count)) sp' r
          → Removes (in_pages first (first + suc count)) sp r
      both panic h = absurd h
      both (done sp'') h = λ q. ground (arith, h q, gone q)

  pub unmap_pages-Removes :
      (a : MemoryArea) (count first : ℕ) (sp : Space T F)
      → first + count ≤ 2 ^ 52
      → ((q : ℕ) → first ≤ q → q < first + count → Unmappable a.handler (entry_at sp q))
      → Removes (in_pages first (first + count)) sp (unmap_pages m a (numbers first count) sp)
  unfolding unmap_pages
  unmap_pages-Removes a zero first sp small backed = λ q. ground arith
  unmap_pages-Removes a (suc count) first sp small backed =
      next-Removes a count first sp (handler_unmap m a.handler sp (start_address (page first)))
        (one (entry_at sp first) refl (backed first (omega arith) (omega arith)))
        (λ sp' gone. unmap_pages-Removes a count (first + 1) sp' (omega arith) (λ q lo hi.
          let same : entry_at sp' q ≡ entry_at sp q = ground (arith, gone q) in
          rw same (backed q (omega arith) (omega arith))))
    where
      one :
          (o : Option PageEntry)
          → entry_at sp first ≡ o
          → Unmappable a.handler o
          → Removes (λ q. first == q) sp (handler_unmap m a.handler sp (start_address (page first)))
      one none here h = absurd h
      one (some e) here h = handler_unmap-Removes a.handler sp first e (omega arith) here h
