-- ===== src/Process/Path.antt =====
-- kernel/src/syscall/fs.rs: paths as bytes, `split_path`, and the working directory that `sys_chdir`
-- makes.
pub mod Cwd
pub mod Split
use queen.Base.{
  ℕ, suc, ◌≡◌, ◌≢◌, refl, sym, ap, ◌∙◌, Bool, true, false, not, ◌&&◌, ◌||◌, ◌==◌, if◌then◌else◌,
  List, [], ◌∷◌, ◌++◌, Option, none, some, All, arith, inl, inr, Bool-cases,
}
use queen.Kernel.FileHandle.{ok, err, then_ok}
use queen.Process.Calls.{SysResult, enotdir}

abbrev pub Bytes : Type 0
Bytes = List ℕ

abbrev pub cons_head : ℕ → List Bytes → List Bytes
cons_head c [] = (c ∷ []) ∷ []
cons_head c (part ∷ parts) = (c ∷ part) ∷ parts

-- `split("/")`
unfoldable pub split_slash : Bytes → List Bytes
split_slash [] = [] ∷ []
split_slash (c ∷ cs) =
    let rest = split_slash cs in if c == b'/' then [] ∷ rest else cons_head c rest

-- `filter(|&x| x != "")`
unfoldable pub non_empty : List Bytes → List Bytes
non_empty [] = []
non_empty ([] ∷ parts) = non_empty parts
non_empty ((c ∷ cs) ∷ parts) = (c ∷ cs) ∷ non_empty parts

unfoldable pub segments : Bytes → List Bytes
unfolding split_slash non_empty
segments path = non_empty (split_slash path)

abbrev pub is_dot : Bytes → Bool
is_dot (c ∷ []) = c == b'.'
is_dot _ = false

abbrev pub is_dot_dot : Bytes → Bool
is_dot_dot (c ∷ d ∷ []) = (c == b'.') && (d == b'.')
is_dot_dot _ = false

-- `Vec::pop`
abbrev pub pop_last : List Bytes → List Bytes
pop_last [] = []
pop_last (x ∷ []) = []
pop_last (x ∷ y ∷ xs) = x ∷ pop_last (y ∷ xs)

abbrev pub enter : List Bytes → Bytes → List Bytes
enter cwd_vec seg =
    if is_dot_dot seg then pop_last cwd_vec else if is_dot seg then cwd_vec else cwd_vec ++ seg ∷ []

-- The loop over the segments of the path.
unfoldable pub walk : List Bytes → List Bytes → List Bytes
walk cwd_vec [] = cwd_vec
walk cwd_vec (seg ∷ segs) = walk (enter cwd_vec seg) segs

-- The loop that writes the new working directory.
unfoldable pub join : List Bytes → Bytes
join [] = []
join (seg ∷ segs) = b'/' ∷ seg ++ join segs

abbrev pub or_root : Bytes → Bytes
or_root [] = b'/' ∷ []
or_root (c ∷ cs) = c ∷ cs

-- The directory that a path starts from.
abbrev pub base : Bytes → Bytes → Bytes
base cwd [] = cwd
base cwd (c ∷ cs) = if c == b'/' then b'/' ∷ [] else cwd

unfoldable pub new_cwd : Bytes → Bytes → Bytes
unfolding walk join
new_cwd cwd [] = cwd
new_cwd cwd (c ∷ cs) = or_root (join (walk (segments (base cwd (c ∷ cs))) (segments (c ∷ cs))))

-- `sys_chdir`: the lookup of the path says whether it is a directory.
unfoldable pub sys_chdir : (Bytes → SysResult Bool) → Bytes → Bytes → SysResult Bytes
unfolding new_cwd
sys_chdir is_dir cwd path =
    then_ok (is_dir path) (λ dir. if not dir then err enotdir else ok (new_cwd cwd path))

-- `trim_end_matches('/')`
unfoldable pub trim_end : Bytes → Bytes
trim_end [] = []
trim_end (c ∷ cs) = elim (trim_end cs) [
  | [] ↦ if c == b'/' then [] else c ∷ []
  | d ∷ ds ↦ c ∷ d ∷ ds
]

-- A byte in front of what the last slash cuts.
abbrev pub before_cut : ℕ → Option Bytes × Bytes → Option Bytes × Bytes
before_cut c (some before, name) = (some (c ∷ before), name)
before_cut c (none, name) = if c == b'/' then (some [], name) else (none, c ∷ name)

-- `rsplitn(2, '/')`: what stands before the last slash, if there is one, and what stands behind it.
unfoldable pub rsplit : Bytes → Option Bytes × Bytes
rsplit [] = (none, [])
rsplit (c ∷ cs) = before_cut c (rsplit cs)

-- The defaults for a path without a directory, and for one in the root.
abbrev pub or_here : Option Bytes × Bytes → Bytes × Bytes
or_here (none, file_name) = (b'.' ∷ [], file_name)
or_here (some [], file_name) = (b'/' ∷ [], file_name)
or_here (some (c ∷ cs), file_name) = (c ∷ cs, file_name)

-- `split_path`
unfoldable pub split_path : Bytes → Bytes × Bytes
unfolding trim_end rsplit
split_path path = or_here (rsplit (trim_end path))

abbrev pub no_slash : Bytes → Bool
no_slash [] = true
no_slash (c ∷ cs) = not (c == b'/') && no_slash cs
