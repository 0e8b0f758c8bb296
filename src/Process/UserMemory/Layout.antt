-- ===== src/Process/UserMemory/Layout.antt =====
-- The memory of a new program has its segments and its stack, whether or not it has an interpreter.
use queen.Base.{
  ℕ, ◌+◌, ◌^◌, ◌≤◌, ◌<◌, ◌≡◌, refl, ap, ◌∙◌, Bool, true, false, ltb, ◌&&◌, if◌then◌else◌,
  Bool-cases, inl, inr, List, [], String, Option, none, some, Option-cases, get_elem?, Outcome,
  done, >>=-eq-done, arith,
}
use queen.Kernel.FileHandle.{Result, ok, err}
use queen.Memory.Handler.{by_frame, delay}
use queen.Memory.Page.{align_down, align_up}
use queen.Memory.Table.{Machine}
use queen.Memory.Set.{MemorySet, push, clear, unmap_areas}
use queen.Memory.Set.View.{IsValid, Region, view, within}
use queen.Memory.Set.Push.{push-IsValid, view-push}
use queen.Process.Elf.{ProgramHeader, to_attr, is_load, segment_handler, make_memory_set, farthest}
use queen.Process.Elf.Segments.{
  push-keeps, push_segments-IsValid, push_segments-keeps, make_memory_set-view,
}
use queen.Process.Stack.{Memory, StackWriter, push_at}
use queen.Process.UserMemory.{
  ElfFile, Loaded, get_interpreter, user_stack_offset, stack_top, stack_split, stack_attr, or_fail,
  check_elf, load_interpreter, push_stack, finish_vm, new_user_vm,
}

or_fail-eq-ok :
    {A B : Type 0} (r : Result String A) (f : A → Outcome (Result String B)) {b : B}
    → or_fail r f ≡ done (ok b)
    → (a : A) × (r ≡ ok a) × (f a ≡ done (ok b))
or_fail-eq-ok (ok a) f h = (a, refl, h)
or_fail-eq-ok (err e) f h = cc

-- The stack at an address: pages on demand, and the last four at once.
abbrev pub stack_region : ℕ → Region
stack_region addr =
    if ltb addr stack_split
    then record { attr = stack_attr; handler = delay; name = "user_stack_delay" }
    else record { attr = stack_attr; handler = by_frame; name = "user_stack" }

abbrev pub is_some : {A : Type 0} → Option A → Bool
is_some none = false
is_some (some a) = true

done_ok-injective :
    {E A : Type 0} (a b : A) → ◌≡◌ {A = Outcome (Result E A)} (done (ok a)) (done (ok b)) → a ≡ b
done_ok-injective a b e = cc

emptied :
    {T F : Type 0} (m : Machine T F) (vm vm' : MemorySet T F)
    → clear m vm ≡ done vm'
    → IsValid vm'.areas
unfolding clear
emptied {T} {F} m vm vm' e =
    let (space, unmapped, rest) = >>=-eq-done (unmap_areas m vm.areas vm.space) _ e in
    let same : ◌≡◌ {A = MemorySet T F} (record { areas = []; space = space }) vm' = cc in
    rw (← same) tt

module _ {T F : Type 0} (m : Machine T F) (read_elf : ℕ → Result String ElfFile)
    (lookup_follow : List ℕ → Result String ℕ) where
  -- The interpreter goes beside what is mapped.
  load_interpreter-keeps :
      (elf : ElfFile) (vm : MemorySet T F) (bias addr : ℕ) (r : Region) (l : Loaded T F)
      → IsValid vm.areas
      → view vm.areas addr ≡ some r
      → load_interpreter m read_elf lookup_follow elf vm bias ≡ done (ok l)
      → IsValid l.vm.areas × (view l.vm.areas addr ≡ some r)
  unfolding load_interpreter
  load_interpreter-keeps elf vm bias addr r l v here e = elim (Option-cases (get_interpreter elf)) [
    | inl nothing ↦ let same : vm ≡ l.vm = ground arith in rw (← same) (v, here)
    | inr (path, named) ↦
        let (inode, found, e1) =
          or_fail-eq-ok (lookup_follow path) _ (rw (named, load_interpreter) at e) in
        let (interp, parsed, e2) = or_fail-eq-ok (read_elf inode) _ e1 in
        let (vm', pushed, e3) = >>=-eq-done _ _ e2 in
        let same : vm' ≡ l.vm = ground arith in
        rw (← same) (
          push_segments-IsValid m inode bias "elf-interp" interp.headers vm vm' v pushed,
          push_segments-keeps m inode bias "elf-interp" interp.headers vm vm' addr r v here pushed,
        )
  ]

  load_interpreter-entry :
      (elf : ElfFile) (vm : MemorySet T F) (bias : ℕ) (l : Loaded T F)
      → load_interpreter m read_elf lookup_follow elf vm bias ≡ done (ok l)
      → (if is_some (get_interpreter elf) then elf.entry_point else l.entry_addr) ≡ elf.entry_point
  unfolding load_interpreter
  load_interpreter-entry elf vm bias l e = elim (Option-cases (get_interpreter elf)) [
    | inl nothing ↦ ground arith
    | inr (path, named) ↦ rw named refl
  ]

  push_stack-view :
      (vm vm' : MemorySet T F) (addr at : ℕ) (r : Region)
      → IsValid vm.areas
      → view vm.areas addr ≡ some r
      → user_stack_offset ≤ at
      → at < stack_top
      → push_stack m vm ≡ done vm'
      → IsValid vm'.areas
        × (view vm'.areas addr ≡ some r)
        × (view vm'.areas at ≡ some (stack_region at))
  unfolding push_stack
  push_stack-view vm vm' addr at r v here low high e =
      let (vm1, one, two) =
        >>=-eq-done (push m vm user_stack_offset stack_split stack_attr delay "user_stack_delay") _
          e in
      let v1 =
        push-IsValid m vm user_stack_offset stack_split stack_attr delay "user_stack_delay" vm1
          (omega arith) (omega arith) v one in
      let seen1 =
        view-push m vm user_stack_offset stack_split stack_attr delay "user_stack_delay" vm1 at
          (omega arith) (omega arith) v one in
      let seen2 =
        view-push m vm1 stack_split stack_top stack_attr by_frame "user_stack" vm' at (omega arith)
          (omega arith) v1 two in
      let kept1 =
        push-keeps m vm vm1 user_stack_offset stack_split stack_attr delay "user_stack_delay" addr r
          (omega arith) (omega arith) v here one in
      (
        push-IsValid m vm1 stack_split stack_top stack_attr by_frame "user_stack" vm' (omega arith)
            (omega arith) v1 two,
        push-keeps m vm1 vm' stack_split stack_top stack_attr by_frame "user_stack" addr r
            (omega arith) (omega arith) v1 kept1 two,
        elim (Bool-cases (ltb at stack_split)) [
          | inl lower ↦
              let out : (ltb stack_split stack_top
                    && within (align_down stack_split) (align_up stack_top) at)
                  ≡ false =
                ground arith in
              let hit : (ltb user_stack_offset stack_split
                    && within (align_down user_stack_offset) (align_up stack_split) at)
                  ≡ true =
                ground arith in
              rw lower ((rw out at seen2) ∙ (rw hit at seen1))
          | inr upper ↦
              let hit : (ltb stack_split stack_top
                    && within (align_down stack_split) (align_up stack_top) at)
                  ≡ true =
                ground arith in
              rw upper (rw hit at seen2)
        ],
      )

  finish_vm-view :
      (args envs : List (List ℕ)) (mem : Memory) (l : Loaded T F) (vm' : MemorySet T F) (entry : ℕ)
      (w : StackWriter) (addr at : ℕ) (r : Region)
      → IsValid l.vm.areas
      → view l.vm.areas addr ≡ some r
      → user_stack_offset ≤ at
      → at < stack_top
      → finish_vm m args envs mem l ≡ done (ok (vm', entry, w))
      → IsValid vm'.areas
        × (view vm'.areas addr ≡ some r)
        × (view vm'.areas at ≡ some (stack_region at))
        × (push_at args envs l.auxv (record { sp = stack_top; mem = mem }) ≡ done w)
        × (l.entry_addr ≡ entry)
  unfolding finish_vm
  finish_vm-view args envs mem l vm' entry w addr at r v here low high e =
      let (vm3, stacked, e1) = >>=-eq-done (push_stack m l.vm) _ e in
      let (w1, written, e2) =
        >>=-eq-done (push_at args envs l.auxv (record { sp = stack_top; mem = mem })) _ e1 in
      let results = done_ok-injective (vm3, l.entry_addr, w1) (vm', entry, w) e2 in
      let same_vm : vm3 ≡ vm' = ap (λ t. t.0) results in
      let (v4, kept, stack) = push_stack-view l.vm vm3 addr at r v here low high stacked in
      (
        rw (← same_vm) v4,
        rw (← same_vm) kept,
        rw (← same_vm) stack,
        written ∙ ap done (ap (λ t. t.2) results),
        ap (λ t. t.1) results,
      )

  -- The memory of a new program, when there is an ELF file for it and nothing panics, if its
  -- farthest segment ends a page below the end of the address space: the areas are in order; each
  -- address of each segment to be loaded has the region of its header, also when an interpreter is
  -- loaded beside it, if that segment's end can be rounded up to a page below 2 ^ 64; each address
  -- of the stack has its region, and what `push_at` makes of the arguments and the environment lies
  -- below the top of the stack. Without an interpreter the program starts at its own entry point.
  pub new_user_vm-view :
      (inode : ℕ) (args envs : List (List ℕ)) (mem : Memory) (vm vm' : MemorySet T F) (entry : ℕ)
      (w : StackWriter) (elf : ElfFile) (i addr at : ℕ) (ph : ProgramHeader)
      → read_elf inode ≡ ok elf
      → new_user_vm m read_elf lookup_follow inode args envs mem vm ≡ done (ok (vm', entry, w))
      → get_elem? elf.headers i ≡ some ph
      → is_load ph ≡ true
      → ph.virtual_addr + ph.mem_size + 4095 < 2 ^ 64
      → within ph.virtual_addr (ph.virtual_addr + ph.mem_size) addr ≡ true
      → farthest elf.headers 0 + 4096 < 2 ^ 64
      → user_stack_offset ≤ at
      → at < stack_top
      → IsValid vm'.areas
        × (view vm'.areas addr
            ≡ some
                (record { attr = to_attr ph; handler = segment_handler inode 0 ph; name = "elf" }))
        × (view vm'.areas at ≡ some (stack_region at))
        × ((l : Loaded T F) × (push_at args envs l.auxv (record { sp = stack_top; mem = mem })
              ≡ done w)
            × (l.entry_addr ≡ entry)
            × ((if is_some (get_interpreter elf) then elf.entry_point else entry)
                ≡ elf.entry_point))
  unfolding new_user_vm
  new_user_vm-view inode args envs mem vm vm' entry w elf i addr at ph parsed e here loads fits
        inside far low high =
      let (checked, checks, e1) = or_fail-eq-ok (check_elf elf) _ (rw (parsed, new_user_vm) at e) in
      let (vm1, cleared, e2) = >>=-eq-done (clear m vm) _ e1 in
      let ((vm2, bias), mapped, e3) = >>=-eq-done (make_memory_set m inode elf.headers vm1) _ e2 in
      let (loaded, interp, e4) =
        >>=-eq-done (load_interpreter m read_elf lookup_follow elf vm2 bias) _ e3 in
      let (l, is_loaded, e5) = or_fail-eq-ok loaded _ e4 in
      let empty : IsValid vm1.areas = emptied m vm vm1 cleared in
      let interp' = interp ∙ ap done is_loaded in
      let (v2, seen, below, aligned) =
        make_memory_set-view m inode elf.headers vm1 vm2 bias i addr ph empty mapped here loads fits
          inside far in
      let (v3, seen3) = load_interpreter-keeps elf vm2 bias addr _ l v2 seen interp' in
      let (v4, kept, stack, written, starts) =
        finish_vm-view args envs mem l vm' entry w addr at _ v3 seen3 low high e5 in
      let start = load_interpreter-entry elf vm2 bias l interp' in
      (v4, kept, stack, (l, written, starts, rw (← starts) start))
