-- ===== src/Base/Lists.antt =====
-- Lists measured and indexed by native numbers, under the library's names, and the operations of
-- `Vec` that take an index.
use Prim.Native.Nat.{ℕ, zero, suc, ◌+◌}
use mathlib.Core.Path.{◌≡◌, refl, ap}
use mathlib.Core.Bool.{Bool, true, false}
use mathlib.Core.List.{List, [], ◌∷◌, ◌++◌}
use mathlib.Core.Option.{Option, none, some}
use native.Mathlib.Omega.{arith}

module _ {ℓ} {A : Type ℓ} where
  abbrev pub length : List A → ℕ
  length [] = 0
  length (x ∷ xs) = suc (length xs)

  abbrev pub get_elem? : List A → ℕ → Option A
  get_elem? [] i = none
  get_elem? (x ∷ xs) zero = some x
  get_elem? (x ∷ xs) (suc i) = get_elem? xs i

  -- `Vec::insert`, at an index within the list.
  abbrev pub insert_at : List A → ℕ → A → List A
  insert_at xs zero v = v ∷ xs
  insert_at [] (suc i) v = v ∷ []
  insert_at (x ∷ xs) (suc i) v = x ∷ insert_at xs i v

  -- `Vec::remove`, which also returns the element that the caller has read by `get_elem?`.
  abbrev pub remove_at : List A → ℕ → List A
  remove_at [] i = []
  remove_at (x ∷ xs) zero = xs
  remove_at (x ∷ xs) (suc i) = x ∷ remove_at xs i

  pub length-append : (xs ys : List A) → length (xs ++ ys) ≡ length xs + length ys
  length-append [] ys = omega arith
  length-append (x ∷ xs) ys = omega (arith, length-append xs ys)

  -- `all`, as a Boolean test and as a type.
  abbrev pub all : (A → Bool) → List A → Bool
  all p [] = true
  all p (x ∷ xs) = elim (p x) [ true ↦ all p xs | false ↦ false ]

  -- `Iterator::find`.
  abbrev pub find : (A → Bool) → List A → Option A
  find p [] = none
  find p (x ∷ xs) = elim (p x) [ true ↦ some x | false ↦ find p xs ]

-- Each element satisfies the predicate; it computes to a tuple.
abbrev pub All {ℓ κ} : {A : Type ℓ} → (A → Type κ) → List A → Type κ
All P [] = Unit
All P (x ∷ xs) = P x × All P xs

-- At an index that splits a list.
module _ {ℓ} {A : Type ℓ} where
  pub get_elem?-append :
      (xs : List A) (x : A) (ys : List A) → get_elem? (xs ++ x ∷ ys) (length xs) ≡ some x
  get_elem?-append [] x ys = refl
  get_elem?-append (y ∷ xs) x ys = get_elem?-append xs x ys

  pub get_elem?-append_nil : (xs : List A) → get_elem? (xs ++ []) (length xs) ≡ none
  get_elem?-append_nil [] = refl
  get_elem?-append_nil (y ∷ xs) = get_elem?-append_nil xs

  pub remove_at-append :
      (xs : List A) (x : A) (ys : List A) → remove_at (xs ++ x ∷ ys) (length xs) ≡ xs ++ ys
  remove_at-append [] x ys = refl
  remove_at-append (y ∷ xs) x ys = ap (◌∷◌ y) (remove_at-append xs x ys)

  pub insert_at-append :
      (xs ys : List A) (x : A) → insert_at (xs ++ ys) (length xs) x ≡ xs ++ x ∷ ys
  insert_at-append [] ys x = refl
  insert_at-append (y ∷ xs) ys x = ap (◌∷◌ y) (insert_at-append xs ys x)
