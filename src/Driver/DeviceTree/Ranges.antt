-- ===== src/Driver/DeviceTree/Ranges.antt =====
-- The ranges that the iteration over the property `reg` of a node gives:
-- kernel/src/drivers/device_tree.rs, `node_reg_range_iter` and `RegRangeIter::next`.
use queen.Base.{
  ℕ, zero, suc, ◌+◌, ◌*◌, ◌/◌, ◌≤◌, ◌≡◌, ◌==◌, if◌then◌else◌, List, [], ◌∷◌, Option, none, some,
  length, Outcome, done, panic, ◌>>=◌,
}
use queen.Driver.DeviceTree.{Fdt, Range, RegRangeIter, range_at, next}

module _ {N P : Type 0} (fdt : Fdt N P) where
  -- `for range in iter`, on fuel: what the iterator yields before its first none.
  unfoldable pub collect : ℕ → RegRangeIter P → Outcome (List Range)
  collect zero it = panic
  collect (suc fuel) it = next fdt it >>= λ r. elim r.0 [
    | none ↦ done []
    | some range ↦ collect fuel r.1 >>= λ ranges. done (range ∷ ranges)
  ]

  -- A number of as many bytes as the cells have.
  abbrev pub number : P → ℕ → ℕ → Option ℕ
  number p cells i = if cells == 1 then fdt.u32 p i else fdt.u64 p i

  -- Reading inside a property does not fail.
  abbrev pub Readable : P → ℕ → Type 0
  Readable p cells =
      (i : ℕ) → 4 * cells * (i + 1) ≤ fdt.length p → (v : ℕ) × (number p cells i ≡ some v)

  -- The ranges in turn, from `k` on, are those of the pairs of numbers of the property.
  abbrev pub ArePairs : P → ℕ → ℕ → List Range → Type 0
  ArePairs p cells k [] = Unit
  ArePairs p cells k (r ∷ ranges) =
      (range_at fdt (number p cells) (k * 2) ≡ some r) × ArePairs p cells (k + 1) ranges

  -- The iteration goes on to its end.
  Collects : ℕ → ℕ → RegRangeIter P → Type 0
  Collects fuel left it =
      (ranges : List Range) × (collect fuel it ≡ done ranges)
      × (length ranges ≡ left)
      × ArePairs it.reg_prop it.cells it.curr_range ranges

  -- An iterator that has just been made.
  abbrev IsNew : Outcome (Option (RegRangeIter P)) → Type 0
  IsNew (done (some it)) =
      (it.curr_range ≡ 0) × (it.range_count ≡ fdt.length it.reg_prop / 4 / it.cells / 2)
  IsNew _ = Unit
