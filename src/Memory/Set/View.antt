-- ===== src/Memory/Set/View.antt =====
-- Well-formed lists of areas, and what they say of each address.
use queen.Base.{
  ℕ, ◌%◌, ◌^◌, ◌≤◌, ◌<◌, ◌≡◌, refl, Bool, true, not, ◌&&◌, ltb, leb, if◌then◌else◌, List, [], ◌∷◌,
  Option, none, some, String, arith,
}
use queen.Memory.Entry.{MemoryAttr}
use queen.Memory.Handler.{Handler}
use queen.Memory.Area.{MemoryArea, contains, is_overlap_with}
use queen.Memory.Set.{test_free_area}

-- A range of whole pages that is not empty and ends within the address space.
pub record IsPaged (start end : ℕ) : Type 0 where
  pub nonempty : start < end
  pub fits : end < 2 ^ 64
  pub start_aligned : start % 4096 ≡ 0
  pub end_aligned : end % 4096 ≡ 0

-- Areas of whole pages from `low` on, in order and apart from one another.
abbrev pub Ordered : ℕ → List MemoryArea → Type 0
Ordered low [] = Unit {0}
Ordered low (a ∷ areas) =
    (low ≤ a.start_addr) × IsPaged a.start_addr a.end_addr × Ordered a.end_addr areas

abbrev pub IsValid : List MemoryArea → Type 0
IsValid = Ordered 0

-- What an area says of its addresses.
pub record Region : Type 0 where
  pub attr : MemoryAttr
  pub handler : Handler
  pub name : String

abbrev pub region : MemoryArea → Region
region a = record { attr = a.attr; handler = a.handler; name = a.name }

-- The abstract view of a set: the region of an address, by the area that a page fault would find.
abbrev pub view : List MemoryArea → ℕ → Option Region
view [] addr = none
view (a ∷ areas) addr = if contains a addr then some (region a) else view areas addr

abbrev pub within : ℕ → ℕ → ℕ → Bool
within start end addr = leb start addr && ltb addr end

-- Against an area of whole pages the page-wise test is the test on addresses.
pub is_overlap_with-within :
    (a : MemoryArea) (s e : ℕ)
    → IsPaged a.start_addr a.end_addr
    → s < e
    → e < 2 ^ 64
    → is_overlap_with a s e ≡ (ltb a.start_addr e && ltb s a.end_addr)
unfolding is_overlap_with
is_overlap_with-within a s e h k fits = ground arith

pub overlap_paged :
    (a : MemoryArea) (s e : ℕ)
    → IsPaged a.start_addr a.end_addr
    → IsPaged s e
    → is_overlap_with a s e ≡ (ltb a.start_addr e && ltb s a.end_addr)
overlap_paged a s e h k = is_overlap_with-within a s e h k.nonempty k.fits

-- An area below `low` holds no address of the areas from `low` on.
pub view_below :
    (low addr : ℕ) (areas : List MemoryArea)
    → Ordered low areas
    → addr < low
    → view areas addr ≡ none
unfolding contains
view_below low addr [] v h = refl
view_below low addr (a ∷ areas) v h = ground (arith, view_below a.end_addr addr areas)

pub Ordered-mono : (l k : ℕ) (areas : List MemoryArea) → k ≤ l → Ordered l areas → Ordered k areas
Ordered-mono l k [] h v = tt
Ordered-mono l k (a ∷ areas) h v = (omega arith, v.1, v.2)

-- No area meets the range, as a test on the head and the tail.
pub test_free-cons :
    (a : MemoryArea) (areas : List MemoryArea) (s e : ℕ)
    → test_free_area (a ∷ areas) s e ≡ (not (is_overlap_with a s e) && test_free_area areas s e)
unfolding test_free_area
test_free-cons a areas s e = ground arith

-- No address of a free range has a region.
pub free-view :
    (low s e addr : ℕ) (areas : List MemoryArea)
    → Ordered low areas
    → s < e
    → e < 2 ^ 64
    → test_free_area areas s e ≡ true
    → within s e addr ≡ true
    → view areas addr ≡ none
unfolding contains
free-view low s e addr [] v h fits free w = refl
free-view low s e addr (a ∷ areas) v h fits free w = ground (
  arith,
  test_free-cons a areas s e,
  is_overlap_with-within a s e v.1 h fits,
  free-view a.end_addr s e addr areas v.2 h fits,
)
