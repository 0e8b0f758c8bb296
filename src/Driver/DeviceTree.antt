-- ===== src/Driver/DeviceTree.antt =====
-- kernel/src/drivers/device_tree.rs: properties, address ranges and interrupts of nodes. The crate
-- `fdt_rs` reads the tree: its nodes, their properties and the numbers in them are parameters.
pub mod Ranges
use queen.Base.{
  ℕ, zero, suc, ◌+◌, ◌*◌, ◌/◌, ◌%◌, ◌^◌, Bool, true, false, ◌==◌, leb, if◌then◌else◌, List, [], ◌∷◌,
  String, Option, none, some, Outcome, done, panic, assert, ◌>>=◌, ◌>>◌, add_word,
}

-- What the crate gives: nodes `N` and properties `P`. An iteration is the list of what it yields, none
-- is an error.
pub record Fdt (N P : Type 0) : Type 0 where
  pub nodes : List (Option N)
  pub root : Option N
  pub props : N → List (Option P)
  -- `prop.name()?.eq(name)` and `prop.str()?.eq(value)`
  pub has_name : P → String → Option Bool
  pub has_str : P → String → Option Bool
  -- `length`, and the 32-bit or 64-bit number at an index
  pub length : P → ℕ
  pub u32 : P → ℕ → Option ℕ
  pub u64 : P → ℕ → Option ℕ

-- `FallibleIterator::find(..).ok().flatten()`
unfoldable pub find_ok : {A : Type 0} → (A → Option Bool) → List (Option A) → Option A
find_ok test [] = none
find_ok test (none ∷ items) = none
find_ok test (some a ∷ items) =
    let rest = find_ok test items in
    elim (test a) [ none ↦ none | some found ↦ if found then some a else rest ]

-- `FallibleIterator::any`
unfoldable pub any_ok : {A : Type 0} → (A → Option Bool) → List (Option A) → Option Bool
any_ok test [] = some false
any_ok test (none ∷ items) = none
any_ok test (some a ∷ items) =
    let rest = any_ok test items in
    elim (test a) [ none ↦ none | some found ↦ if found then some true else rest ]

abbrev or_else : {A : Type 0} → Option A → Option A → Option A
or_else (some a) o = some a
or_else none o = o

-- The range `start..end`.
pub record Range : Type 0 where
  pub start : ℕ
  pub end : ℕ

-- `RegRangeIter`
pub record RegRangeIter (P : Type 0) : Type 0 where
  pub reg_prop : P
  pub cells : ℕ
  pub curr_range : ℕ
  pub range_count : ℕ

pub record InterruptCell : Type 0 where
  pub interrupt_type : ℕ
  pub interrupt_number : ℕ
  pub flag : ℕ

-- `irq_number`, in 32 bits
unfoldable pub irq_number : InterruptCell → Outcome ℕ
irq_number c =
    if c.interrupt_type == 0
    then done ((c.interrupt_number + 32) % 2 ^ 32)
    else if c.interrupt_type == 1
    then done ((c.interrupt_number + 16) % 2 ^ 32)
    else panic

module _ {N P : Type 0} (fdt : Fdt N P) where
  unfoldable pub find_prop_by_name : N → String → Option P
  find_prop_by_name node name = find_ok (λ p. fdt.has_name p name) (fdt.props node)

  -- `read_node_prop_u32`
  unfoldable pub read_node_prop_u32 : N → String → ℕ → Option ℕ
  read_node_prop_u32 node name index = elim (find_prop_by_name node name) [
    | none ↦ none
    | some p ↦ fdt.u32 p index
  ]

  -- `root_size_cells` and `root_address_cells`, by the name of the property
  unfoldable pub root_cells : String → Option ℕ
  root_cells name = elim fdt.root [ none ↦ none | some node ↦ read_node_prop_u32 node name 0 ]

  -- `node_size_cells` and `node_address_cells`
  unfoldable pub node_cells : N → String → Option ℕ
  node_cells node name = or_else (read_node_prop_u32 node name 0) (root_cells name)

  -- `find_node_with_prop`
  unfoldable pub find_node_with_prop : (P → Option Bool) → Option N
  find_node_with_prop test = find_ok (λ node. any_ok test (fdt.props node)) fdt.nodes

  -- `node_reg_range_iter`. The number of cells is divided by; that the two are equal is asserted
  -- only in a debug build.
  unfoldable pub node_reg_range_iter : N → Outcome (Option (RegRangeIter P))
  node_reg_range_iter node = elim (node_cells node "#address-cells") [
    | none ↦ done none
    | some address_cells ↦ elim (node_cells node "#size-cells") [
      | none ↦ done none
      | some size_cells ↦ elim (find_prop_by_name node "reg") [
        | none ↦ done none
        | some reg_prop ↦
            if address_cells == 0
            then panic
            else done (
                some (record {
                  reg_prop = reg_prop;
                  cells = address_cells;
                  curr_range = 0;
                  range_count = fdt.length reg_prop / 4 / address_cells / 2;
                }))
      ]
    ]
  ]

  -- The pair of numbers of a range, and their range.
  abbrev pub range_at : (ℕ → Option ℕ) → ℕ → Option Range
  range_at number curr = elim (number curr) [
    | none ↦ none
    | some addr ↦ elim (number (curr + 1)) [
      | none ↦ none
      | some len ↦ some (record { start = addr; end = add_word addr len })
    ]
  ]

  -- `RegRangeIter::next`: the range, and the iterator after it.
  unfoldable pub next : RegRangeIter P → Outcome (Option Range × RegRangeIter P)
  next it =
      if it.curr_range == it.range_count
      then done (none, it)
      else (let curr = it.curr_range * 2 in
          let it' = record it { curr_range = it.curr_range + 1 } in
          if it.cells == 1
          then done (range_at (fdt.u32 it.reg_prop) curr, it')
          else if it.cells == 2
          then done (range_at (fdt.u64 it.reg_prop) curr, it')
          else panic)

  -- `node_interrupt_cell`
  unfoldable pub node_interrupt_cell : N → Outcome (Option InterruptCell)
  node_interrupt_cell node = elim (find_prop_by_name node "interrupts") [
    | none ↦ done none
    | some p ↦
        assert (leb 12 (fdt.length p))
        >> done (elim (fdt.u32 p 0) [
          | none ↦ none
          | some kind ↦ elim (fdt.u32 p 1) [
            | none ↦ none
            | some number ↦ elim (fdt.u32 p 2) [
              | none ↦ none
              | some flag ↦
                  some (record { interrupt_type = kind; interrupt_number = number; flag = flag })
            ]
          ]
        ])
  ]

  -- What `probe_memory` looks for.
  abbrev pub is_memory : P → Option Bool
  is_memory p = elim (fdt.has_name p "device_type") [
    | none ↦ none
    | some named ↦ if named then fdt.has_str p "memory" else some false
  ]

  -- `probe_memory`
  unfoldable pub probe_memory : Outcome (Option Range)
  probe_memory = elim (find_node_with_prop is_memory) [
    | none ↦ done none
    | some node ↦ node_reg_range_iter node >>= λ found. elim found [
      | none ↦ done none
      | some it ↦ next it >>= λ r. done r.0
    ]
  ]
