-- ===== src/Memory/Entry.antt =====
-- kernel/src/arch/aarch64/paging.rs, `impl Entry for PageEntry`, and `MemoryAttr` of
-- kernel/src/memory/memory_set.rs. Each flag of the entry is a bit of its own; what flushes the TLB
-- (`update`) changes no entry.
use queen.Base.{ℕ, ◌≤◌, ◌<◌, ◌≡◌, ◌≢◌, Bool, true, false, not, ◌&&◌, ◌==◌, if◌then◌else◌, arith}

-- The flags `EF` of an entry, with its output address and its attribute index.
pub record PageEntry : Type 0 where
  pub valid : Bool
  pub af : Bool
  pub write : Bool
  pub ap_ro : Bool
  pub dirty_bit : Bool
  pub ap_el0 : Bool
  pub ng : Bool
  pub uxn : Bool
  pub pxn : Bool
  pub swapped_bit : Bool
  pub shared_write : Bool
  pub shared_read : Bool
  pub addr : ℕ
  pub attr : ℕ

-- The attribute values that the `aarch64` crate gives to the three kinds of memory.
pub record Mair : Type 0 where
  pub normal : ℕ
  pub device : ℕ
  pub non_cacheable : ℕ

pub record IsDistinct (m : Mair) : Type 0 where
  pub device-ne-normal : m.device ≢ m.normal
  pub non_cacheable-ne-normal : m.non_cacheable ≢ m.normal
  pub non_cacheable-ne-device : m.non_cacheable ≢ m.device

abbrev pub present : PageEntry → Bool
present e = e.valid

abbrev pub accessed : PageEntry → Bool
accessed e = e.af

abbrev pub writable : PageEntry → Bool
writable e = e.write

abbrev pub read_only : PageEntry → Bool
read_only e = e.ap_ro

abbrev pub hw_dirty : PageEntry → Bool
hw_dirty e = writable e && not (read_only e)

abbrev pub sw_dirty : PageEntry → Bool
sw_dirty e = e.dirty_bit

abbrev pub dirty : PageEntry → Bool
dirty e = hw_dirty e && sw_dirty e

abbrev pub user : PageEntry → Bool
user e = e.ap_el0

abbrev pub execute : PageEntry → Bool
execute e = if user e then not e.uxn else not e.pxn

abbrev pub mmio : Mair → PageEntry → ℕ
mmio m e =
    if e.attr == m.normal
    then 0
    else if e.attr == m.device
    then 1
    else if e.attr == m.non_cacheable
    then 2
    else 3

pub clear_accessed : PageEntry → PageEntry
clear_accessed e = record e { af = false }

pub clear_dirty : PageEntry → PageEntry
clear_dirty e = record e { dirty_bit = false; ap_ro = true }

unfoldable pub set_writable : Bool → PageEntry → PageEntry
set_writable value e = record e { ap_ro = not value; write = value }

unfoldable pub set_present : Bool → PageEntry → PageEntry
set_present value e = record e { valid = value }

unfoldable pub set_target : ℕ → PageEntry → PageEntry
set_target target e = record e { addr = target }

pub set_shared : Bool → PageEntry → PageEntry
set_shared writable e = record e { shared_write = writable; shared_read = not writable }

pub clear_shared : PageEntry → PageEntry
clear_shared e = record e { shared_write = false; shared_read = false }

pub set_swapped : Bool → PageEntry → PageEntry
set_swapped value e = record e { swapped_bit = value }

unfoldable pub set_user : Bool → PageEntry → PageEntry
set_user value e = record e { ap_el0 = value; ng = value }

unfoldable pub set_execute : Bool → PageEntry → PageEntry
set_execute value e =
    if user e
    then record e { uxn = not value; pxn = true }
    else record e { pxn = not value; uxn = true }

unfoldable pub set_mmio : Mair → ℕ → PageEntry → PageEntry
set_mmio m value e =
    if value == 0
    then record e { attr = m.normal }
    else if value == 1
    then record e { attr = m.device }
    else if value == 2
    then record e { attr = m.non_cacheable }
    else e

pub record MemoryAttr : Type 0 where
  pub user : Bool
  pub readonly : Bool
  pub execute : Bool
  pub mmio : ℕ

-- `MemoryAttr::user`, `readonly`, `writable`, `execute` and `mmio`, which build attributes.
abbrev pub with_user : MemoryAttr → MemoryAttr
with_user a = record a { user = true }

abbrev pub with_readonly : MemoryAttr → MemoryAttr
with_readonly a = record a { readonly = true }

abbrev pub with_writable : MemoryAttr → MemoryAttr
with_writable a = record a { readonly = false }

abbrev pub with_execute : MemoryAttr → MemoryAttr
with_execute a = record a { execute = true }

abbrev pub with_mmio : ℕ → MemoryAttr → MemoryAttr
with_mmio value a = record a { mmio = value }

-- `MemoryAttr::apply`.
unfoldable pub apply : Mair → MemoryAttr → PageEntry → PageEntry
unfolding set_user set_writable set_execute set_mmio
apply m a e =
    set_mmio m a.mmio (set_execute a.execute (set_writable (not a.readonly) (set_user a.user e)))

-- What `apply` promises of an entry `e` that has become `e'`.
pub record Applied (m : Mair) (a : MemoryAttr) (e e' : PageEntry) : Type 0 where
  pub user_set : user e' ≡ a.user
  pub writable_set : writable e' ≡ not a.readonly
  pub read_only_set : read_only e' ≡ a.readonly
  pub execute_set : execute e' ≡ a.execute
  pub mmio_set : a.mmio ≤ 2 → mmio m e' ≡ a.mmio
  pub mmio_kept : 2 < a.mmio → e'.attr ≡ e.attr
  pub kernel_never_runs_user : a.user ≡ true → e'.pxn ≡ true
  pub user_never_runs_kernel : a.user ≡ false → e'.uxn ≡ true
  pub target_kept : e'.addr ≡ e.addr
  pub present_kept : present e' ≡ present e

-- After `apply` an entry reads back as the attributes say: its user, writable and execute bits and,
-- for a memory type from 0 to 2 under distinct attribute values, its memory type (any other type
-- leaves the attribute alone). A user page is never executable by the kernel, nor a kernel page by
-- the user, and neither the output address nor the present bit changes.
pub apply-Applied :
    (m : Mair) (a : MemoryAttr) (e : PageEntry) → IsDistinct m → Applied m a e (apply m a e)
unfolding apply
apply-Applied m a e d = ground arith
