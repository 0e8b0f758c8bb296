-- ===== src/Memory/Page.antt =====
-- kernel/src/memory/paging.rs, `Page` and `PageRange`; address arithmetic of kernel/src/memory/mod.rs.
pub mod Walk
use queen.Base.{
  ℕ, zero, suc, ◌+◌, ◌-◌, ◌*◌, ◌/◌, ◌%◌, ◌^◌, Bool, Option, none, some, List, [], ◌∷◌, leb,
  if◌then◌else◌, add_word, sub_word, mul_word,
}

abbrev pub page_size : ℕ
page_size = 4096

-- `x & !(PAGE_SIZE - 1)`.
abbrev pub align_down : ℕ → ℕ
align_down x = x / 4096 * 4096

-- `(x + PAGE_SIZE - 1) & !(PAGE_SIZE - 1)`.
abbrev pub align_up : ℕ → ℕ
align_up x = (x + 4095) % 2 ^ 64 / 4096 * 4096

abbrev pub physical_memory_offset : ℕ
physical_memory_offset = 0xffff_8000_0000_0000

abbrev pub kernel_offset : ℕ
kernel_offset = 0xffff_0000_0000_0000

abbrev pub phys_to_virt : ℕ → ℕ
phys_to_virt addr = add_word addr physical_memory_offset

abbrev pub virt_to_phys : ℕ → ℕ
virt_to_phys addr = sub_word addr physical_memory_offset

-- `addr & !KERNEL_OFFSET`: the offset is the high 16 bits.
abbrev pub as_lower_range : ℕ → ℕ
as_lower_range addr = addr % 2 ^ 48

-- `addr | KERNEL_OFFSET`
abbrev pub as_upper_range : ℕ → ℕ
as_upper_range addr = addr % 2 ^ 48 + kernel_offset

pub record Page : Type 0 where
  pub number : ℕ

abbrev pub start_address : Page → ℕ
start_address p = mul_word p.number 4096

abbrev pub of_addr : ℕ → Page
of_addr addr = record { number = addr / 4096 }

-- `impl Add<usize> for Page`.
abbrev pub add : Page → ℕ → Page
add p n = record { number = add_word p.number n }

pub record PageRange : Type 0 where
  pub start : Page
  pub end : Page

abbrev pub range_of : ℕ → ℕ → PageRange
range_of begin end = record { start = of_addr begin; end = of_addr (sub_word end 1) }

-- `Iterator::next`: the page returned and the range that is left.
unfoldable pub next : PageRange → Option (Page × PageRange)
next r =
    if leb r.start.number r.end.number
    then some (r.start, record r { start = add r.start 1 })
    else none

-- The pages that a `for` loop over the range visits, by `next` on fuel.
unfoldable pub walk : ℕ → PageRange → List Page
unfolding next
walk zero r = []
walk (suc fuel) r = elim (next r) [ none ↦ [] | some (p, rest) ↦ p ∷ walk fuel rest ]

-- One round for each page number between the ends, and one to see the end.
unfoldable pub pages : PageRange → List Page
unfolding walk
pages r = walk (r.end.number + 2 - r.start.number) r
