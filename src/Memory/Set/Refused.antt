-- ===== src/Memory/Set/Refused.antt =====
-- A page fault that is not served: kernel/src/memory/memory_set.rs, `handle_page_fault`.
use queen.Base.{
  ℕ, ◌≡◌, ◌≢◌, ◌↔◌, refl, sym, ap, none, some, arith, Bool, true, false, if◌then◌else◌, find, inl,
  inr, Outcome, done, expect, ◌>>=◌, Option-cases, >>=-eq-done, expect-eq-done,
}
use queen.Memory.Page.{align_down}
use queen.Memory.Table.{Machine, get_entry, page_frame, set_page}
use queen.Memory.Handler.{
  Handler, linear, by_frame, delay, file, Space, give_frame, fill_data, handler_page_fault,
}
use queen.Memory.Area.{contains}
use queen.Memory.Set.{MemorySet, handle_page_fault}

module _ {T F : Type 0} (m : Machine T F) where
  -- What ends as served is no refusal.
  abbrev serve : Space T F → Outcome (Bool × Space T F)
  serve s = done (true, s)

  served-ne-refused :
      {A B : Type 0} (o : Outcome A) (g : A → Outcome B) (f : A → B → Space T F) (s : Space T F)
      → (o >>= λ a. g a >>= λ b. serve (f a b)) ≢ done (false, s)
  served-ne-refused o g f s h =
      let (a, _, h') = >>=-eq-done o (λ a. g a >>= λ b. serve (f a b)) h in
      let (b, _, h'') = >>=-eq-done (g a) (λ b. serve (f a b)) h' in cc h''

  -- At a page that is present or not, when the rest serves the fault.
  refused-kept :
      (valid : Bool) (rest : Outcome (Bool × Space T F)) (s s' : Space T F)
      → rest ≢ done (false, s')
      → (if valid then done (false, s) else rest) ≡ done (false, s')
      → (s' ≡ s) × (valid ≡ true)
  refused-kept true rest s s' serves h = (cc h, refl)
  refused-kept false rest s s' serves h = absurd (serves h)

  -- Whether the entry of an address is there and present.
  abbrev is_valid : Space T F → ℕ → Bool
  is_valid s addr = elim (get_entry m s.table addr) [ none ↦ false | some e ↦ e.valid ]

  -- The faults of a handler that are not to be served: any, where the pages are there from the start,
  -- and those at a page that is present.
  abbrev pub is_refused_by : Handler → Space T F → ℕ → Bool
  is_refused_by (linear offset) s addr = true
  is_refused_by by_frame s addr = true
  is_refused_by delay s addr = is_valid s addr
  is_refused_by (file inode mem_start file_start file_end) s addr = is_valid s (align_down addr)

  -- The faults of a set that are not to be served: besides those, the ones outside every area.
  abbrev pub is_refused : MemorySet T F → ℕ → Bool
  is_refused ms addr = elim (find (λ b. contains b addr) ms.areas) [
    | none ↦ true
    | some a ↦ is_refused_by a.handler ms.space addr
  ]

  handler_page_fault-refused :
      (h : Handler) (s s' : Space T F) (addr : ℕ)
      → handler_page_fault m h s addr ≡ done (false, s')
      → (s' ≡ s) × (is_refused_by h s addr ≡ true)
  unfolding handler_page_fault
  handler_page_fault-refused (linear offset) s s' addr r = (cc r, refl)
  handler_page_fault-refused by_frame s s' addr r = (cc r, refl)
  handler_page_fault-refused delay s s' addr r =
      let (e, here, r') = >>=-eq-done (expect (get_entry m s.table addr)) _ r in
      let (kept, valid) =
        refused-kept e.valid _ s s'
          (served-ne-refused (give_frame m s addr e) (λ u. page_frame m u.table addr)
            (λ u frame. record u { memory = set_page u.memory frame (λ i. 0) }) s')
          r' in
      (kept, rw (expect-eq-done _ e here, is_valid) valid)
  handler_page_fault-refused (file inode mem_start file_start file_end) s s' address r =
      let (e, here, r') = >>=-eq-done (expect (get_entry m s.table (align_down address))) _ r in
      let (kept, valid) =
        refused-kept e.valid _ s s'
          (served-ne-refused (give_frame m s (align_down address) e)
            (λ u. fill_data m inode mem_start file_start file_end u (align_down address))
            (λ u filled_space. filled_space) s')
          r' in
      (kept, rw (expect-eq-done _ e here, is_valid) valid)

  refuses :
      (h : Handler) (s : Space T F) (addr : ℕ)
      → is_refused_by h s addr ≡ true
      → handler_page_fault m h s addr ≡ done (false, s)
  unfolding handler_page_fault
  refuses (linear offset) s addr r = refl
  refuses by_frame s addr r = refl
  refuses delay s addr r = elim (Option-cases (get_entry m s.table addr)) [
    | inl missing ↦ absurd (ground arith)
    | inr (e, here) ↦ let valid : e.valid ≡ true = rw (here, is_valid) at r in rw (here, valid) refl
  ]
  refuses (file inode mem_start file_start file_end) s address r =
      elim (Option-cases (get_entry m s.table (align_down address))) [
        | inl missing ↦ absurd (ground arith)
        | inr (e, here) ↦
            let valid : e.valid ≡ true = rw (here, is_valid) at r in rw (here, valid) refl
      ]

  -- A fault is answered as not served, and leaves the memory as it was, exactly in these cases:
  -- outside every area, in an area whose pages are there from the start, and at a page of a lazy
  -- area whose entry is present, where the program has done what the page does not allow. So a fault
  -- in another case is served or panics, and one in these cases does not panic.
  pub handle_page_fault-refused :
      (ms ms' : MemorySet T F) (addr : ℕ)
      → (handle_page_fault m ms addr ≡ done (false, ms'))
        ↔ ((ms' ≡ ms) × (is_refused ms addr ≡ true))
  unfolding handle_page_fault
  handle_page_fault-refused ms ms' addr =
      elim (Option-cases (find (λ b. contains b addr) ms.areas)) [
        | inl nowhere ↦ (
          λ h. (cc (rw (nowhere, handle_page_fault) at h), rw (nowhere, is_refused) refl),
          λ (same, _). rw (nowhere, handle_page_fault) (ap (λ u. done (false, u)) (sym same)),
        )
        | inr (a, found) ↦ (
          λ h.
              let ((flag, s'), faulted, h') =
                >>=-eq-done (handler_page_fault m a.handler ms.space addr) _
                  (rw (found, handle_page_fault) at h) in
              let (same, refused) = refused-set flag s' a.handler h' faulted in
              (same, rw (found, is_refused) refused),
          λ (same, refused).
              let kept = refuses a.handler ms.space addr (rw (found, is_refused) at refused) in
              rw (found, kept, handle_page_fault) (ap (λ u. done (false, u)) (sym same)),
        )
      ]
    where
      answer : Bool → Space T F → Outcome (Bool × MemorySet T F)
      answer flag s' = done (flag, record ms { space = s' })

      refused-set :
          (flag : Bool) (s' : Space T F) (h : Handler)
          → answer flag s' ≡ done (false, ms')
          → handler_page_fault m h ms.space addr ≡ done (flag, s')
          → (ms' ≡ ms) × (is_refused_by h ms.space addr ≡ true)
      refused-set true s' h same faulted = cc same
      refused-set false s' h same faulted =
          let (kept, refused) = handler_page_fault-refused h ms.space s' addr faulted in
          (cc (same, kept), refused)
