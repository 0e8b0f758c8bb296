-- ===== src/Process/Directory/Entries.antt =====
-- What the calls that make and remove entries leave in a directory.
use queen.Base.{ℕ, ◌≡◌, refl, Bool, true, false, not, Bool-cases, inl, inr, ◌⊎◌, ◌∙◌, arith}
use queen.Kernel.FileHandle.{Result, ok, err, then_ok}
use queen.Process.Calls.{SysError, enotdir, eisdir}
use queen.Process.Path.{Bytes, split_path}
use queen.Process.Directory.{
  Vfs, entry_not_found, other_error, FsResult, dir, sym_link, Caller, is_type, lift,
  lookup_inode_at, lookup_inode, mkdir_in, sys_mkdir_at, remove_in, sys_rmdir, sys_unlink_at,
  symlink_in, sys_symlink_at,
}

-- Inversion of a successful chain.
pub then_ok-eq-ok :
    {E A B : Type 0} (m : Result E A) (f : A → Result E B) {b : B}
    → then_ok m f ≡ ok b
    → (a : A) × (m ≡ ok a) × (f a ≡ ok b)
then_ok-eq-ok (ok a) f h = (a, refl, h)
then_ok-eq-ok (err e) f h = cc

pub Result-cases :
    {E A : Type 0} (r : Result E A) → ((a : A) × (r ≡ ok a)) ⊎ ((e : E) × (r ≡ err e))
Result-cases (ok a) = inl (a, refl)
Result-cases (err e) = inr (e, refl)

abbrev pub is_ok : {E A : Type 0} → Result E A → Bool
is_ok (ok a) = true
is_ok (err e) = false

module _ {V : Type 0} (s : Vfs V) where
  pub lift-eq-ok : {A : Type 0} (r : FsResult A) (a : A) → lift s r ≡ ok a → r ≡ ok a
  lift-eq-ok (ok b) a h = cc
  lift-eq-ok (err e) a h = cc

  -- Two updates of times change no entry and no type.
  pub touched :
      (v v' : V) (i d now at j : ℕ) (name : Bytes)
      → s.update_time (s.update_time v i now) d now ≡ v'
      → (s.find v' at name ≡ s.find v at name) × (s.file_type v' j ≡ s.file_type v j)
  touched v v' i d now at j name e =
      let w = s.update_time v i now in
      rw (← e) (
        s.find-update_time w d now at name ∙ s.find-update_time v i now at name,
        s.type-update_time w d now j ∙ s.type-update_time v i now j,
      )

  mkdir_in-made :
      (v v' : V) (d mode now : ℕ) (name : Bytes)
      → mkdir_in s v d name mode now ≡ ok v'
      → (i : ℕ) × (is_ok (s.find v d name) ≡ false)
        × (s.find v' d name ≡ ok i)
        × (s.file_type v' i ≡ ok dir)
  unfolding mkdir_in
  mkdir_in-made v v' d mode now name e = elim (Result-cases (s.find v d name)) [
    | inl (i, there) ↦ absurd (ground arith)
    | inr (missing, none_there) ↦
        let ((i, v1), made, rest) =
          then_ok-eq-ok (lift s (s.create v d name dir mode)) _ (rw (none_there, mkdir_in) at e) in
        let new =
          s.find-create v v1 d i mode name dir
            (lift-eq-ok (s.create v d name dir mode) (i, v1) made) in
        let same = touched v1 v' i d now d i name (ground arith) in
        (i, rw none_there refl, same.0 ∙ new.0, same.1 ∙ new.1)
  ]

  -- A directory that is made was not there before, and is then found as a directory under the last part
  -- of the path, in the directory that the rest of it names.
  pub sys_mkdir_at-made :
      (v v' : V) (p : Caller) (dir_fd mode now : ℕ) (path : Bytes)
      → sys_mkdir_at s v p dir_fd path mode now ≡ ok v'
      → let (dir_path, name) = split_path path in
        (d i : ℕ) × (lookup_inode_at s v p dir_fd dir_path true ≡ ok d)
        × (is_ok (s.find v d name) ≡ false)
        × (s.find v' d name ≡ ok i)
        × (s.file_type v' i ≡ ok dir)
  unfolding sys_mkdir_at
  sys_mkdir_at-made v v' p dir_fd mode now path e =
      let (d, found, rest) =
        then_ok-eq-ok (lookup_inode_at s v p dir_fd (split_path path).0 true) _ e in
      let (i, missing, made, is_dir) = mkdir_in-made v v' d mode now (split_path path).1 rest in
      (d, i, found, missing, made, is_dir)

  remove_in-removed :
      (v v' : V) (d : ℕ) (name : Bytes) (is_dir : Bool) (wrong other : SysError)
      → remove_in s v d name is_dir wrong ≡ ok v'
      → (s.find v' d name ≡ err entry_not_found)
        × (remove_in s v d name (not is_dir) other ≡ err other)
  unfolding remove_in
  remove_in-removed v v' d name is_dir wrong other e =
      let (i, found, e1) = then_ok-eq-ok (lift s (s.find v d name)) _ e in
      let (t, typed, e2) = then_ok-eq-ok (lift s (s.file_type v i)) _ e1 in
      elim (Bool-cases (is_type t dir)) [
        | inl directory ↦ elim (Bool-cases is_dir) [
          | inl asked ↦
              let gone = lift-eq-ok (s.unlink v d name) v' (rw (directory, asked) at e2) in
              (s.find-unlink v v' d name gone, rw (found, typed, directory, asked) refl)
          | inr not_asked ↦ absurd (ground arith)
        ]
        | inr no_directory ↦ elim (Bool-cases is_dir) [
          | inl asked ↦ absurd (ground arith)
          | inr not_asked ↦
              let gone = lift-eq-ok (s.unlink v d name) v' (rw (no_directory, not_asked) at e2) in
              (s.find-unlink v v' d name gone, rw (found, typed, no_directory, not_asked) refl)
        ]
      ]

  -- What `sys_rmdir` removes is no longer found in the directory where it was, and `sys_unlink_at` would
  -- have refused to remove it, since it is a directory.
  pub sys_rmdir-removed :
      (v v' : V) (p : Caller) (path : Bytes)
      → sys_rmdir s v p path ≡ ok v'
      → let (dir_path, name) = split_path path in
        (d : ℕ) × (lookup_inode s v p dir_path ≡ ok d)
        × (s.find v' d name ≡ err entry_not_found)
        × (sys_unlink_at s v p s.at_fdcwd path ≡ err eisdir)
  unfolding sys_rmdir sys_unlink_at
  sys_rmdir-removed v v' p path e =
      let (d, found, rest) = then_ok-eq-ok (lookup_inode s v p (split_path path).0) _ e in
      let (gone, refused) = remove_in-removed v v' d (split_path path).1 true enotdir eisdir rest in
      (d, found, gone, rw found refused)

  symlink_in-missing :
      (v v' : V) (d now n : ℕ) (name target : Bytes) (found : FsResult ℕ)
      → s.find v d name ≡ found
      → symlink_in s v d name target now ≡ (ok n, v')
      → s.find v d name ≡ err entry_not_found
  unfolding symlink_in
  symlink_in-missing v v' d now n name target (ok i) there e = absurd (ground arith)
  symlink_in-missing v v' d now n name target (err entry_not_found) there e = there
  symlink_in-missing v v' d now n name target (err (other_error k)) there e = absurd (ground arith)

  symlink_in-made :
      (v v' : V) (d now n : ℕ) (name target : Bytes)
      → symlink_in s v d name target now ≡ (ok n, v')
      → (i : ℕ) × (s.find v d name ≡ err entry_not_found)
        × (s.find v' d name ≡ ok i)
        × (s.file_type v' i ≡ ok sym_link)
  unfolding symlink_in
  symlink_in-made v v' d now n name target e =
      let none_there = symlink_in-missing v v' d now n name target (s.find v d name) refl e in
      elim (Result-cases (s.create v d name sym_link 0o777)) [
        | inr (error, fails) ↦ absurd (ground arith)
        | inl ((i, v1), made) ↦ elim (Result-cases (s.write_at v1 i 0 target)) [
          | inr (error, fails) ↦ absurd (ground arith)
          | inl ((m, v2), written) ↦
              let new = s.find-create v v1 d i 0o777 name sym_link made in
              let filled = s.find-write_at v1 v2 i 0 m d target name written in
              let same = touched v2 v' i d now d i name (ground arith) in
              (i, none_there, same.0 ∙ filled.0 ∙ new.0, same.1 ∙ filled.1 ∙ new.1)
        ]
      ]

  -- A symbolic link that is made does not take the place of an entry: there was none of the name, and
  -- afterwards there is one that is a symbolic link.
  pub sys_symlink_at-made :
      (v v' : V) (p : Caller) (target path : Bytes) (dir_fd now n : ℕ)
      → sys_symlink_at s v p target dir_fd path now ≡ (ok n, v')
      → let (dir_path, name) = split_path path in
        (d i : ℕ) × (lookup_inode_at s v p dir_fd dir_path true ≡ ok d)
        × (s.find v d name ≡ err entry_not_found)
        × (s.find v' d name ≡ ok i)
        × (s.file_type v' i ≡ ok sym_link)
  unfolding sys_symlink_at
  sys_symlink_at-made v v' p target path dir_fd now n e =
      elim (Result-cases (lookup_inode_at s v p dir_fd (split_path path).0 true)) [
        | inr (error, fails) ↦ absurd (ground arith)
        | inl (d, found) ↦
            let (i, missing, made, is_link) =
              symlink_in-made v v' d now n (split_path path).1 target
                (rw (found, sys_symlink_at) at e) in
            (d, i, found, missing, made, is_link)
      ]
