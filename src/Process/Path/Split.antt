-- ===== src/Process/Path/Split.antt =====
-- `split_path` cuts a path at its last slash.
use queen.Base.{
  ℕ, ◌≡◌, ◌≢◌, refl, ap, ◌⊎◌, true, ◌==◌, [], ◌∷◌, ◌++◌, Option, none, some, arith, inl, inr,
  Bool-cases,
}
use queen.Process.Path.{Bytes, trim_end, rsplit, before_cut, or_here, split_path, no_slash}

-- What `rsplit` promises of a path.
abbrev Rejoins : Bytes → Option Bytes × Bytes → Type 0
Rejoins path (none, name) = (name ≡ path) × (no_slash name ≡ true)
Rejoins path (some before, name) = (before ++ b'/' ∷ name ≡ path) × (no_slash name ≡ true)

before_cut-Rejoins :
    (c : ℕ) (cs : Bytes) (r : Option Bytes × Bytes)
    → Rejoins cs r
    → Rejoins (c ∷ cs) (before_cut c r)
before_cut-Rejoins c cs (some before, name) h = (ap (◌∷◌ c) h.0, h.1)
before_cut-Rejoins c cs (none, name) h = elim (Bool-cases (c == b'/')) [
  | inl slash ↦ let e : c ≡ b'/' = ground arith in rw slash (rw (e, h.0) refl, h.1)
  | inr other ↦ rw other (rw h.0 refl, ground arith)
]

rsplit-Rejoins : (path : Bytes) → Rejoins path (rsplit path)
unfolding rsplit
rsplit-Rejoins [] = (refl, refl)
rsplit-Rejoins (c ∷ cs) = before_cut-Rejoins c cs (rsplit cs) (rsplit-Rejoins cs)

-- A cut of a path, without the slashes at its end, into a directory and a name.
abbrev pub IsCut : Bytes → Bytes × Bytes → Type 0
IsCut trimmed (dir, name) =
    (no_slash name ≡ true)
    × (((dir ≡ b'.' ∷ []) × (name ≡ trimmed))
        ⊎ ((dir ≡ b'/' ∷ []) × (b'/' ∷ name ≡ trimmed))
        ⊎ ((dir ≢ []) × (dir ++ b'/' ∷ name ≡ trimmed)))

or_here-IsCut : (path : Bytes) (r : Option Bytes × Bytes) → Rejoins path r → IsCut path (or_here r)
or_here-IsCut path (none, name) h = (h.1, inl (refl, h.0))
or_here-IsCut path (some [], name) h = (h.1, inr (inl (refl, h.0)))
or_here-IsCut path (some (c ∷ cs), name) h = (h.1, inr (inr (λ e. cc, h.0)))

-- Without the slashes at its end, a path is cut into a directory and a name that has no slash: the
-- name is the whole path, in the directory `.`; or the path is a slash and the name, in the root; or
-- the directory is not empty and, joined to the name by a slash, gives the path again.
pub split_path-IsCut : (path : Bytes) → IsCut (trim_end path) (split_path path)
unfolding split_path
split_path-IsCut path =
    or_here-IsCut (trim_end path) (rsplit (trim_end path)) (rsplit-Rejoins (trim_end path))
