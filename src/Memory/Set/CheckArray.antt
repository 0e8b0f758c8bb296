-- ===== src/Memory/Set/CheckArray.antt =====
-- `check_read_array` and `check_write_array`: they accept exactly the arrays whose bytes all lie in
-- areas of the right kind.
use queen.Base.{
  ℕ, ◌+◌, ◌-◌, ◌*◌, ◌^◌, ◌≤◌, ◌<◌, ◌≡◌, refl, Bool, true, false, not, ◌&&◌, ◌||◌, ltb, leb, min,
  max, if◌then◌else◌, List, [], ◌∷◌, none, some, arith, inl, inr, ◌↔◌, add_word, mul_word,
  Bool-cases,
}
use queen.Memory.Area.{MemoryArea, contains, check_read, check_write}
use queen.Memory.Set.{check_loop, check_read_array, check_write_array}
use queen.Memory.Set.View.{IsPaged, Ordered, IsValid, view}

-- The bytes of `[p, q)` that an area holds.
abbrev span : ℕ → ℕ → MemoryArea → ℕ
span p q a = min q a.end_addr - max p a.start_addr

-- The same for the areas of a kind only.
abbrev granted_span : (MemoryArea → Bool) → ℕ → ℕ → MemoryArea → ℕ
granted_span kind p q a = if kind a then span p q a else 0

-- Whether an address lies in an area of the kind.
pub granted : (MemoryArea → Bool) → List MemoryArea → ℕ → Bool
granted kind [] x = false
granted kind (a ∷ areas) x = (contains a x && kind a) || granted kind areas x

check_read-span :
    (a : MemoryArea) (size ptr count : ℕ)
    → IsPaged a.start_addr a.end_addr
    → ptr + size * count < 2 ^ 64
    → check_read a size ptr count ≡ span ptr (ptr + size * count) a
unfolding check_read
check_read-span a size ptr count h fits = ground arith

module _ (kind : MemoryArea → Bool) where
  total : ℕ → ℕ → List MemoryArea → ℕ
  total p q [] = 0
  total p q (a ∷ areas) = granted_span kind p q a + total p q areas

  total-le :
      (low p q : ℕ) (areas : List MemoryArea) → Ordered low areas → total p q areas ≤ q - max p low
  unfolding total
  total-le low p q [] v = omega arith
  total-le low p q (a ∷ areas) v = ground (arith, total-le a.end_addr p q areas v.2)

  -- One address that is not granted is one byte short.
  total-lt :
      (low p q x : ℕ) (areas : List MemoryArea)
      → Ordered low areas
      → max p low ≤ x
      → x < q
      → granted kind areas x ≡ false
      → total p q areas < q - max p low
  unfolding total granted contains
  total-lt low p q x [] v lo hi none_here = omega arith
  total-lt low p q x (a ∷ areas) v lo hi none_here = elim (Bool-cases (ltb x a.end_addr)) [
    | inl before ↦ ground (arith, total-le a.end_addr p q areas v.2)
    | inr after ↦ ground (arith, total-lt a.end_addr p q x areas v.2)
  ]

  -- The loop does not accept while the sum stays short.
  check_loop-short :
      (p q goal acc : ℕ) (areas : List MemoryArea)
      → goal < 2 ^ 64
      → acc + total p q areas < goal
      → check_loop (granted_span kind p q) goal acc areas ≡ false
  unfolding check_loop total
  check_loop-short p q goal acc [] fits h = refl
  check_loop-short p q goal acc (a ∷ areas) fits h =
      let no_wrap : add_word acc (granted_span kind p q a) ≡ acc + granted_span kind p q a =
        ground arith in
      let rest =
        check_loop-short p q goal (acc + granted_span kind p q a) areas fits (omega arith) in
      ground (arith, no_wrap, rest)

  granted_below :
      (low x : ℕ) (areas : List MemoryArea)
      → Ordered low areas
      → x < low
      → granted kind areas x ≡ false
  unfolding granted contains
  granted_below low x [] v h = refl
  granted_below low x (a ∷ areas) v h = ground (arith, granted_below a.end_addr x areas v.2)

  granted-after :
      (x : ℕ) (a : MemoryArea) (areas : List MemoryArea)
      → a.end_addr ≤ x
      → granted kind (a ∷ areas) x ≡ true
      → granted kind areas x ≡ true
  unfolding granted contains
  granted-after x a areas h g = ground arith

  granted-first :
      (low x : ℕ) (a : MemoryArea) (areas : List MemoryArea)
      → Ordered low (a ∷ areas)
      → x < a.end_addr
      → granted kind (a ∷ areas) x ≡ true
      → (a.start_addr ≤ x) × (kind a ≡ true)
  unfolding granted contains
  granted-first low x a areas v h g = ground (arith, granted_below a.end_addr x areas v.2)

  -- The loop accepts once the bytes up to the end have been found, each granted.
  check_loop-full :
      (low p q acc : ℕ) (areas : List MemoryArea)
      → q < 2 ^ 64
      → Ordered low areas
      → max p low < q
      → acc ≡ max p low - p
      → ((x : ℕ) → max p low ≤ x → x < q → granted kind areas x ≡ true)
      → check_loop (granted_span kind p q) (q - p) acc areas ≡ true
  unfolding check_loop granted contains
  check_loop-full low p q acc [] fits v h e all = cc (all (max p low) (omega arith) h)
  check_loop-full low p q acc (a ∷ areas) fits v h e all =
      let here = all (max p low) (omega arith) h in
      let later = λ (x : ℕ) (lo : max p a.end_addr ≤ x) (hi : x < q).
        granted-after x a areas (omega arith) (all x (omega arith) hi) in
      let rest = check_loop-full a.end_addr p q (acc + granted_span kind p q a) areas fits v.2 in
      let no_wrap : add_word acc (granted_span kind p q a) ≡ acc + granted_span kind p q a =
        ground arith in
      elim (Bool-cases (leb a.end_addr (max p low))) [
        | inl past ↦
            let le : a.end_addr ≤ max p low = ground arith in
            let step = rest (omega arith) (ground arith) later in ground (arith, no_wrap, step)
        | inr within ↦
            let (start, right_kind) = granted-first low (max p low) a areas v (ground arith) here in
            elim (Bool-cases (leb q a.end_addr)) [
              | inl reached ↦ ground (arith, no_wrap)
              | inr on ↦
                  let step = rest (ground arith) (ground arith) later in
                  ground (arith, no_wrap, step)
            ]
      ]

-- The bytes of an array, as a test on addresses.
abbrev pub in_array : ℕ → ℕ → ℕ → ℕ → Bool
in_array size ptr count x = leb ptr x && ltb x (ptr + size * count)

abbrev any_kind : MemoryArea → Bool
any_kind a = true

abbrev writable_kind : MemoryArea → Bool
writable_kind a = not a.attr.readonly

check_loop-cong :
    (f g : MemoryArea → ℕ) (goal acc low : ℕ) (areas : List MemoryArea)
    → Ordered low areas
    → ((a : MemoryArea) → IsPaged a.start_addr a.end_addr → f a ≡ g a)
    → check_loop f goal acc areas ≡ check_loop g goal acc areas
unfolding check_loop
check_loop-cong f g goal acc low [] v h = refl
check_loop-cong f g goal acc low (a ∷ areas) v h =
    ground (arith, h a v.1, check_loop-cong f g goal (add_word acc (g a)) a.end_addr areas v.2 h)

-- Both loops, through the spans of the areas.
module _ (kind : MemoryArea → Bool) (covers : MemoryArea → ℕ) (areas : List MemoryArea)
    (size ptr count : ℕ) where
  loop-granted :
      IsValid areas
      → 0 < size * count
      → ptr + size * count < 2 ^ 64
      → ((a : MemoryArea)
          → IsPaged a.start_addr a.end_addr
          → covers a ≡ granted_span kind ptr (ptr + size * count) a)
      → (check_loop covers (mul_word size count) 0 areas ≡ true)
        ↔ ((x : ℕ) → in_array size ptr count x ≡ true → granted kind areas x ≡ true)
  loop-granted v some_bytes fits h =
      let end = ptr + size * count in
      let goal : mul_word size count ≡ end - ptr = omega arith in
      let same = check_loop-cong covers (granted_span kind ptr end) (end - ptr) 0 0 areas v h in
      (
        λ accepted x inside. elim (Bool-cases (granted kind areas x)) [
          | inl yes_granted ↦ yes_granted
          | inr missing ↦
              let short = total-lt kind 0 ptr end x areas v (ground arith) (ground arith) missing in
              let refused =
                check_loop-short kind ptr end (end - ptr) 0 areas (omega arith) (omega arith) in
              cc (rw goal at accepted)
        ],
        λ all.
            rw (goal, same)
              (check_loop-full kind 0 ptr end 0 areas fits v (omega arith) (omega arith)
                (λ x lo hi. all x (ground arith))),
      )

-- Whether an address lies in some area, and in one that may be written.
abbrev pub is_readable : List MemoryArea → ℕ → Bool
is_readable areas x = elim (view areas x) [ none ↦ false | some r ↦ true ]

abbrev pub is_writable : List MemoryArea → ℕ → Bool
is_writable areas x = elim (view areas x) [ none ↦ false | some r ↦ not r.attr.readonly ]

granted-is_readable :
    (x : ℕ) (areas : List MemoryArea) → granted any_kind areas x ≡ is_readable areas x
unfolding granted
granted-is_readable x [] = refl
granted-is_readable x (a ∷ areas) = ground (arith, granted-is_readable x areas)

granted-is_writable :
    (low x : ℕ) (areas : List MemoryArea)
    → Ordered low areas
    → granted writable_kind areas x ≡ is_writable areas x
unfolding granted contains
granted-is_writable low x [] v = refl
granted-is_writable low x (a ∷ areas) v = ground (
  arith,
  granted-is_writable a.end_addr x areas v.2,
  granted_below writable_kind a.end_addr x areas v.2,
)

module _ (areas : List MemoryArea) (size ptr count : ℕ) where
  -- On an ordered set, `check_read_array` accepts an array of at least one byte, below the end of the
  -- address space, exactly when each of its bytes lies in some area.
  check_read_array_iff :
      IsValid areas
      → 0 < size * count
      → ptr + size * count < 2 ^ 64
      → (check_read_array areas size ptr count ≡ true)
        ↔ ((x : ℕ) → in_array size ptr count x ≡ true → is_readable areas x ≡ true)
  unfolding check_read_array
  check_read_array_iff v some_bytes fits =
      let (to, from) =
        loop-granted any_kind (λ a. check_read a size ptr count) areas size ptr count v some_bytes
          fits (λ a h. check_read-span a size ptr count h fits) in
      (
        λ c x h. rw (← granted-is_readable x areas) (to c x h),
        λ all. from (λ x h. rw (granted-is_readable x areas) (all x h)),
      )

  -- On an ordered set, `check_write_array` accepts an array of at least one byte, below the end of
  -- the address space, exactly when each of its bytes lies in an area that is not read-only.
  pub check_write_array_iff :
      IsValid areas
      → 0 < size * count
      → ptr + size * count < 2 ^ 64
      → (check_write_array areas size ptr count ≡ true)
        ↔ ((x : ℕ) → in_array size ptr count x ≡ true → is_writable areas x ≡ true)
  unfolding check_write_array check_write
  check_write_array_iff v some_bytes fits =
      let (to, from) =
        loop-granted writable_kind (λ a. check_write a size ptr count) areas size ptr count v
          some_bytes fits (λ a h. ground (arith, check_read-span a size ptr count h fits)) in
      (
        λ c x h. rw (← granted-is_writable 0 x areas v) (to c x h),
        λ all. from (λ x h. rw (granted-is_writable 0 x areas v) (all x h)),
      )
