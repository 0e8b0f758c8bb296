-- ===== src/Memory/Set/FreeArea.antt =====
-- `MemorySet::find_free_area`: what it finds is free, and it finds something while there is room
-- above the last area.
use queen.Base.{
  ℕ, ◌+◌, ◌%◌, ◌^◌, ◌≤◌, ◌<◌, ◌≡◌, ◌≢◌, refl, Bool, true, List, [], ◌∷◌, map, Option, none, some,
  arith, inl, inr, done, panic, expect, find, add_word, Bool-cases,
}
use queen.Memory.Page.{align_up}
use queen.Memory.Area.{MemoryArea}
use queen.Memory.Set.{test_free_area, candidates, find_free_area}
use queen.Memory.Set.View.{
  Ordered, IsValid, view, within, is_overlap_with-within, test_free-cons, free-view,
}

find_sound {ℓ} : {A : Type ℓ} (p : A → Bool) (xs : List A) (x : A) → find p xs ≡ some x → p x ≡ true
find_sound p [] x h = cc
find_sound p (y ∷ xs) x h = elim (Bool-cases (p y)) [
  | inl hit ↦ ground arith
  | inr miss ↦ find_sound p xs x (rw (miss, find) at h)
]

-- Each candidate is the start of a page.
find-aligned :
    (p : ℕ → Bool) (xs : List ℕ) (x : ℕ) → find p (map align_up xs) ≡ some x → x % 4096 ≡ 0
find-aligned p [] x h = cc
find-aligned p (y ∷ xs) x h = elim (Bool-cases (p (align_up y))) [
  | inl hit ↦ ground arith
  | inr miss ↦ find-aligned p xs x (rw (miss, find) at h)
]

expect-done {ℓ} : {A : Type ℓ} (o : Option A) (a : A) → expect o ≡ done a → o ≡ some a
expect-done none a h = cc
expect-done (some b) a h = cc

expect-panic {ℓ} : {A : Type ℓ} (o : Option A) → expect o ≡ panic → o ≡ none
expect-panic none h = refl
expect-panic (some b) h = cc

-- What `find_free_area` returns is the start of a page, and no address of the `len` bytes from it
-- on has a region, if they lie below the end of the address space.
pub find_free_area-free :
    (areas : List MemoryArea) (addr_hint len addr x : ℕ)
    → IsValid areas
    → 0 < len
    → addr + len < 2 ^ 64
    → find_free_area areas addr_hint len ≡ done addr
    → within addr (addr + len) x ≡ true
    → (addr % 4096 ≡ 0) × (view areas x ≡ none)
unfolding find_free_area
find_free_area-free areas addr_hint len addr x v pos fits found inside =
    let test = λ (a : ℕ). test_free_area areas a (add_word a len) in
    let some_found = expect-done (find test (candidates addr_hint areas)) addr found in
    let no_wrap : (addr + len) % 2 ^ 64 ≡ addr + len = omega arith in
    let free = find_sound test (candidates addr_hint areas) addr some_found in
    (
      find-aligned test (addr_hint ∷ map (λ a. a.end_addr) areas) addr some_found,
      free-view 0 addr (addr + len) x areas v (omega arith) fits (rw no_wrap at free) inside,
    )

-- Where the last area ends, or `low` if there is none.
unfoldable pub last_end : ℕ → List MemoryArea → ℕ
last_end low [] = low
last_end low (a ∷ areas) = last_end a.end_addr areas

le-last_end : (low : ℕ) (areas : List MemoryArea) → Ordered low areas → low ≤ last_end low areas
unfolding last_end
le-last_end low [] v = omega arith
le-last_end low (a ∷ areas) v = omega (arith, v.1.nonempty, le-last_end a.end_addr areas v.2)

test_free-above :
    (low s e : ℕ) (areas : List MemoryArea)
    → Ordered low areas
    → last_end low areas ≤ s
    → s < e
    → e < 2 ^ 64
    → test_free_area areas s e ≡ true
unfolding last_end
test_free-above low s e [] v h o f = unfold test_free_area in refl
test_free-above low s e (a ∷ areas) v h o f = ground (
  arith,
  test_free-cons a areas s e,
  is_overlap_with-within a s e v.1 o f,
  le-last_end a.end_addr areas v.2,
  test_free-above a.end_addr s e areas v.2 h o f,
)

find-last :
    (p : ℕ → Bool) (low : ℕ) (areas : List MemoryArea)
    → p (align_up (last_end low areas)) ≡ true
    → find p (map align_up (low ∷ map (λ a. a.end_addr) areas)) ≢ none
unfolding last_end
find-last p low [] h = λ e. ground arith
find-last p low (a ∷ areas) h = elim (Bool-cases (p (align_up low))) [
  | inl hit ↦ λ e. ground arith
  | inr miss ↦ rw miss (find-last p a.end_addr areas h)
]

last_end_mono : (low : ℕ) (areas : List MemoryArea) → last_end 0 areas ≤ last_end low areas
unfolding last_end
last_end_mono low [] = omega arith
last_end_mono low (a ∷ areas) = omega arith

-- While `len` bytes are left above the last area, rounded up to a page (above the hint, if there is
-- no area), `find_free_area` finds a place: its `expect` does not panic.
pub find_free_area-total :
    (areas : List MemoryArea) (addr_hint len : ℕ)
    → IsValid areas
    → 0 < len
    → last_end addr_hint areas + 4095 + len < 2 ^ 64
    → find_free_area areas addr_hint len ≢ panic
unfolding find_free_area
find_free_area-total areas addr_hint len v pos room =
    let top = last_end addr_hint areas in
    let test = λ (a : ℕ). test_free_area areas a (add_word a len) in
    let free : test (align_up top) ≡ true =
      test_free-above 0 (align_up top) (add_word (align_up top) len) areas v
        (omega (arith, last_end_mono addr_hint areas)) (omega arith) (omega arith) in
    λ e. find-last test addr_hint areas free (expect-panic _ e)
