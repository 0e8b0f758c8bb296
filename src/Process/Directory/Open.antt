-- ===== src/Process/Directory/Open.antt =====
-- What `sys_open_at` opens, and when it refuses.
use queen.Base.{
  ℕ, ◌≡◌, refl, ap, Bool, true, false, ◌&&◌, ◌==◌, ltb, if◌then◌else◌, Bool-cases, inl, inr, none,
  some, ◌∙◌, arith,
}
use queen.Base.Maps.{lookup, insert, contains_key, lookup-insert, free_from, free_from-IsFree}
use queen.Kernel.FileHandle.{Result, ok, err, then_ok, Store, FileHandle}
use queen.Kernel.FileHandle
use queen.Process.Calls.{SysResult}
use queen.Process.Files.{Files, add_file}
use queen.Process.Path.{Bytes, split_path}
use queen.Process.Directory.{
  Vfs, entry_not_found, other_error, FsResult, file, Caller, OpenFlags, to_options, lift,
  lookup_inode_at, truncated, open_or_create, open_inode, sys_open_at,
}
use queen.Process.Directory.Entries.{then_ok-eq-ok, Result-cases, lift-eq-ok, touched, is_ok}

module _ {V : Type 0} (s : Vfs V) where
  truncated-find :
      (v : V) (i d : ℕ) (name : Bytes) → s.find (truncated s v i) d name ≡ s.find v d name
  truncated-find v i d name = elim (Result-cases (s.resize v i 0)) [
    | inl (v', resized) ↦ rw (resized, truncated) (s.find-resize v v' i 0 d name resized)
    | inr (e, fails) ↦ rw (fails, truncated) refl
  ]

  open_or_create-found :
      (v v' : V) (d i mode now : ℕ) (name : Bytes) (flags : OpenFlags) (found : FsResult ℕ)
      → s.find v d name ≡ found
      → open_or_create s v d name flags mode now ≡ ok (i, v')
      → (s.find v' d name ≡ ok i) × ((flags.exclusive && is_ok (s.find v d name)) ≡ false)
  unfolding open_or_create
  open_or_create-found v v' d i mode now name flags (ok j) there e =
      elim (Bool-cases flags.exclusive) [
        | inl exclusive ↦ absurd (ground arith)
        | inr shared ↦
            let same : j ≡ i = ground arith in
            let after : (if flags.truncate then truncated s v j else v) ≡ v' = ground arith in
            let kept : s.find (if flags.truncate then truncated s v j else v) d name
                ≡ s.find v d name =
              elim (Bool-cases flags.truncate) [
                | inl cut ↦ rw cut (truncated-find v j d name)
                | inr whole ↦ rw whole refl
              ] in
            (rw (← after) (kept ∙ there ∙ (rw same refl)), rw shared refl)
      ]
  open_or_create-found v v' d i mode now name flags (err entry_not_found) missing e =
      let ((j, v1), made, rest) =
        then_ok-eq-ok (lift s (s.create v d name file mode)) _
          (rw (missing, open_or_create) at e) in
      let new =
        s.find-create v v1 d j mode name file
          (lift-eq-ok s (s.create v d name file mode) (j, v1) made) in
      let same = touched s v1 v' j d now d j name (ground arith) in
      let number : j ≡ i = ground arith in (same.0 ∙ new.0 ∙ (rw number refl), ground arith)
  open_or_create-found v v' d i mode now name flags (err (other_error k)) fails e =
      absurd (ground arith)

  -- The inode that a path leads to in the state `after` of the file systems: with CREATE, the entry of
  -- its last part in the directory of the rest.
  abbrev pub led_to : V → V → Caller → ℕ → Bytes → Bool → SysResult ℕ
  led_to v after p dir_fd path create =
      let (dir_path, name) = split_path path in
      if create
      then then_ok (lookup_inode_at s v p dir_fd dir_path true) (λ d. lift s (s.find after d name))
      else lookup_inode_at s v p dir_fd path true

  open_inode-led_to :
      (v v' : V) (p : Caller) (dir_fd i mode now : ℕ) (path : Bytes) (flags : OpenFlags)
      → open_inode s v p dir_fd path flags mode now ≡ ok (i, v')
      → (led_to v v' p dir_fd path flags.create ≡ ok i)
        × ((flags.create && flags.exclusive && is_ok (led_to v v p dir_fd path flags.create))
            ≡ false)
        × ((if flags.create then v else v') ≡ v)
  unfolding open_inode
  open_inode-led_to v v' p dir_fd i mode now path flags e = elim (Bool-cases flags.create) [
    | inl creates ↦
        let (d, found, rest) =
          then_ok-eq-ok (lookup_inode_at s v p dir_fd (split_path path).0 true) _
            (rw (creates, open_inode) at e) in
        let name = (split_path path).1 in
        let (there, fresh) =
          open_or_create-found v v' d i mode now name flags (s.find v d name) refl rest in
        let lifted : is_ok (lift s (s.find v d name)) ≡ is_ok (s.find v d name) =
          elim (Result-cases (s.find v d name)) [
            | inl (j, h) ↦ rw h refl
            | inr (error, h) ↦ rw h refl
          ] in
        (rw (creates, found, there) refl, rw (creates, found, lifted) fresh, rw creates refl)
    | inr plain ↦
        let (j, found, rest) =
          then_ok-eq-ok (lookup_inode_at s v p dir_fd path true) _ (rw (plain, open_inode) at e) in
        let same : j ≡ i = ground arith in
        (rw (plain, found, same) refl, rw plain refl, rw plain (ground arith))
  ]

  -- A successful open gives the lowest free descriptor (it was free, and each below it was in use) a
  -- new description at offset 0, on the inode that the path leads to after the call; every other
  -- descriptor is as before. With CREATE and EXCLUSIVE the path led nowhere before, and without CREATE
  -- nothing changes in the file systems.
  pub sys_open_at-opens :
      (v v' : V) (p : Caller) (store store' : Store) (files' : Files)
      (at dir_fd fd mode now other i : ℕ) (path : Bytes) (flags : OpenFlags)
      → sys_open_at s v p store at dir_fd path flags mode now ≡ ok (fd, v', store', files')
      → (handle : FileHandle) × (led_to v v' p dir_fd path flags.create ≡ ok handle.inode)
        × ((flags.create && flags.exclusive && is_ok (led_to v v p dir_fd path flags.create))
            ≡ false)
        × ((if flags.create then v else v') ≡ v)
        × (lookup p.files fd ≡ none)
        × (ltb i fd ≡ contains_key p.files i && ltb i fd)
        × (lookup files' other ≡ (if fd == other then some handle else lookup p.files other))
        × (store' handle.description ≡ record { offset = 0; options = to_options flags })
        × (handle.fd_cloexec ≡ flags.cloexec)
  unfolding sys_open_at add_file
  sys_open_at-opens v v' p store store' files' at dir_fd fd mode now other i path flags e =
      let ((found, v1), opened, rest) =
        then_ok-eq-ok (open_inode s v p dir_fd path flags mode now) _ e in
      let same : v1 ≡ v' = ground arith in
      let opened' : open_inode s v p dir_fd path flags mode now ≡ ok (found, v') =
        opened ∙ ap (λ w. ok (found, w)) same in
      let (leads, fresh, kept) =
        open_inode-led_to v v' p dir_fd found mode now path flags opened' in
      let free = free_from p.files 0 in
      let lowest = free_from-IsFree p.files 0 in
      let handle : FileHandle = record {
        inode = found;
        description = at;
        path = path;
        fd_cloexec = flags.cloexec;
      } in
      let number : free ≡ fd = ground arith in
      let table : insert p.files free handle ≡ files' = ground arith in
      let stored : (FileHandle.new store at found (to_options flags) path flags.cloexec).0
          ≡ store' =
        ground arith in
      (
        handle,
        leads,
        fresh,
        kept,
        rw (← number) lowest.free,
        elim (Bool-cases (ltb i fd)) [
          | inl below ↦
              let taken : contains_key p.files i ≡ true =
                lowest.least i (omega arith) (ground arith) in
              rw (below, taken) refl
          | inr above ↦ rw above (ground arith)
        ],
        rw (← table, ← number) (lookup-insert p.files free handle other),
        rw (← stored) (ground arith),
        refl,
      )
