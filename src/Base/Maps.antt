-- ===== src/Base/Maps.antt =====
-- `BTreeMap<usize, V>` as a list in the order of its keys.
use Prim.Native.Nat.{ℕ, zero, suc, ◌≤◌, ◌<◌}
use mathlib.Core.Path.{◌≡◌, refl}
use mathlib.Core.Logic.{inl, inr}
use mathlib.Core.Bool.{Bool, true, false}
use mathlib.Core.List.{List, [], ◌∷◌}
use mathlib.Core.Option.{Option, none, some}
use native.Mathlib.Omega.{arith}
use queen.Base.Tests.{ltb, leb, ◌==◌, if◌then◌else◌, Bool-cases}
use queen.Base.Lists.{length}

abbrev pub Map {ℓ} : Type ℓ → Type ℓ
Map V = List (ℕ × V)

module _ {ℓ} {V : Type ℓ} where
  -- `BTreeMap::get`
  unfoldable pub lookup : Map V → ℕ → Option V
  lookup [] k = none
  lookup ((j, v) ∷ m) k = if j == k then some v else lookup m k

  -- `BTreeMap::insert`
  unfoldable pub insert : Map V → ℕ → V → Map V
  insert [] k v = (k, v) ∷ []
  insert ((j, w) ∷ m) k v =
      if k == j then (k, v) ∷ m else if ltb k j then (k, v) ∷ (j, w) ∷ m else (j, w) ∷ insert m k v

  -- `BTreeMap::remove`
  unfoldable pub erase : Map V → ℕ → Map V
  erase [] k = []
  erase ((j, w) ∷ m) k = let rest = erase m k in if j == k then rest else (j, w) ∷ rest

  pub lookup-insert :
      (m : Map V) (k : ℕ) (v : V) (u : ℕ)
      → lookup (insert m k v) u ≡ (if k == u then some v else lookup m u)
  unfolding lookup insert
  lookup-insert [] k v u = refl
  lookup-insert ((j, w) ∷ m) k v u = ground (arith, lookup-insert m k v u)

  pub lookup-erase :
      (m : Map V) (k u : ℕ) → lookup (erase m k) u ≡ (if k == u then none else lookup m u)
  unfolding lookup erase
  lookup-erase [] k u = ground arith
  lookup-erase ((j, w) ∷ m) k u = ground (arith, lookup-erase m k u)

  abbrev pub contains_key : Map V → ℕ → Bool
  contains_key m k = elim (lookup m k) [ none ↦ false | some _ ↦ true ]

  -- `(start..).find(|i| !map.contains_key(i))`, on fuel; the search ends at a free key.
  unfoldable pub free_within : ℕ → Map V → ℕ → ℕ
  free_within zero m start = start
  free_within (suc fuel) m start = elim (contains_key m start) [
    | true ↦ free_within fuel m (suc start)
    | false ↦ start
  ]

  -- One round for each key, and one more.
  unfoldable pub free_from : Map V → ℕ → ℕ
  free_from m start = free_within (suc (length m)) m start

  -- The number of keys from `start` on.
  above : ℕ → Map V → ℕ
  above start [] = 0
  above start ((j, w) ∷ m) = if leb start j then suc (above start m) else above start m

  above-le-length : (start : ℕ) (m : Map V) → above start m ≤ length m
  unfolding above
  above-le-length start [] = omega arith
  above-le-length start ((j, w) ∷ m) = ground (arith, above-le-length start m)

  above_mono : (start : ℕ) (m : Map V) → above (suc start) m ≤ above start m
  unfolding above
  above_mono start [] = omega arith
  above_mono start ((j, w) ∷ m) = ground (arith, above_mono start m)

  above-suc :
      (start : ℕ) (m : Map V) → contains_key m start ≡ true → above (suc start) m < above start m
  unfolding above lookup
  above-suc start [] h = cc
  above-suc start ((j, w) ∷ m) h = ground (arith, above-suc start m, above_mono start m)

  -- A key that the search ends at, with more rounds than there are keys from `start` on.
  pub record IsFree (m : Map V) (start k : ℕ) : Type ℓ where
    pub free : lookup m k ≡ none
    pub from : start ≤ k
    pub least : (i : ℕ) → start ≤ i → i < k → contains_key m i ≡ true

  free_within-IsFree :
      (fuel : ℕ) (m : Map V) (start : ℕ)
      → above start m < fuel
      → IsFree m start (free_within fuel m start)
  unfolding free_within
  free_within-IsFree zero m start h = absurd (omega arith)
  free_within-IsFree (suc fuel) m start h = elim (Bool-cases (contains_key m start)) [
    | inl taken ↦
        let rest = free_within-IsFree fuel m (suc start) (omega (arith, above-suc start m taken)) in
        rw (taken, free_within)
          (record {
            free = rest.free;
            from = omega (arith, rest.from);
            least = λ i lo hi. elim (Bool-cases (i == start)) [
              | inl same ↦ let e : i ≡ start = ground arith in rw e taken
              | inr later ↦ rest.least i (ground arith) hi
            ];
          })
    | inr open_key ↦
        rw (open_key, free_within)
          (record {
            free = ground arith;
            from = omega arith;
            least = λ i lo hi. absurd (omega arith);
          })
  ]

  pub free_from-IsFree : (m : Map V) (start : ℕ) → IsFree m start (free_from m start)
  unfolding free_from
  free_from-IsFree m start =
      free_within-IsFree (suc (length m)) m start (omega (arith, above-le-length start m))

  pub IsFree-unique : (m : Map V) (start k j : ℕ) → IsFree m start k → IsFree m start j → k ≡ j
  IsFree-unique m start k j f g = elim (Bool-cases (ltb k j)) [
    | inl below ↦ ground (arith, g.least k f.from, f.free)
    | inr above_it ↦ elim (Bool-cases (ltb j k)) [
      | inl below ↦ ground (arith, f.least j g.from, g.free)
      | inr equal ↦ ground arith
    ]
  ]
