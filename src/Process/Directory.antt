-- ===== src/Process/Directory.antt =====
-- kernel/src/syscall/fs.rs: the calls that look paths up and change directories. The virtual file system
-- of the crate `queen_fs` is a parameter with laws; its inodes are numbers. The crate `queen_syscall`
-- decodes flags: they are given decoded.
pub mod Open
pub mod Entries
use queen.Base.{
  ℕ, ◌+◌, ◌<◌, ◌≡◌, Bool, true, false, not, ◌==◌, ltb, if◌then◌else◌, length, List, [], ◌∷◌,
}
use queen.Kernel.FileHandle.{Result, ok, err, then_ok, Store, FileHandle, OpenOptions}
use queen.Kernel.FileHandle
use queen.Memory.Area.{MemoryArea}
use queen.Memory.Set.{check_write_array}
use queen.Process.Calls.{SysError, SysResult, enotdir, efault, einval, erange, eexist, eisdir}
use queen.Process.Files.{Files, get_file, add_file}
use queen.Process.Path.{Bytes, split_path}
use queen.Process.Stack.{Memory, write_cstr}

pub data FsError : Type 0 where
  entry_not_found : FsError
  other_error : ℕ → FsError

pub data FileType : Type 0 where
  file dir sym_link other_type : FileType

abbrev pub FsResult : Type 0 → Type 0
FsResult = Result FsError

-- `queen_fs`, over the states `V` of all file systems. The laws are those of a directory: an entry that
-- is made or removed is there or gone, and times, sizes and contents have no part in what is found.
pub record Vfs (V : Type 0) : Type 0 where
  pub root : ℕ
  pub follow_max_depth : ℕ
  pub at_fdcwd : ℕ
  pub lookup : V → ℕ → Bytes → FsResult ℕ
  pub lookup_follow : V → ℕ → Bytes → ℕ → FsResult ℕ
  pub find : V → ℕ → Bytes → FsResult ℕ
  pub file_type : V → ℕ → FsResult FileType
  pub create : V → ℕ → Bytes → FileType → ℕ → FsResult (ℕ × V)
  pub link : V → ℕ → Bytes → ℕ → FsResult V
  pub unlink : V → ℕ → Bytes → FsResult V
  pub move : V → ℕ → Bytes → ℕ → Bytes → FsResult V
  pub resize : V → ℕ → ℕ → FsResult V
  pub read_at : V → ℕ → ℕ → ℕ → FsResult Bytes
  pub write_at : V → ℕ → ℕ → Bytes → FsResult (ℕ × V)
  pub update_time : V → ℕ → ℕ → V
  -- `SysError::from`
  pub to_sys : FsError → SysError
  pub find-create :
      (v v' : V) (d i mode : ℕ) (name : Bytes) (t : FileType)
      → create v d name t mode ≡ ok (i, v')
      → (find v' d name ≡ ok i) × (file_type v' i ≡ ok t)
  pub find-unlink :
      (v v' : V) (d : ℕ) (name : Bytes)
      → unlink v d name ≡ ok v'
      → find v' d name ≡ err entry_not_found
  pub find-link :
      (v v' : V) (d i : ℕ) (name : Bytes) → link v d name i ≡ ok v' → find v' d name ≡ ok i
  pub find-update_time :
      (v : V) (i now d : ℕ) (name : Bytes) → find (update_time v i now) d name ≡ find v d name
  pub type-update_time : (v : V) (i now j : ℕ) → file_type (update_time v i now) j ≡ file_type v j
  pub find-resize :
      (v v' : V) (i len d : ℕ) (name : Bytes)
      → resize v i len ≡ ok v'
      → find v' d name ≡ find v d name
  pub find-write_at :
      (v v' : V) (i offset n d : ℕ) (buf name : Bytes)
      → write_at v i offset buf ≡ ok (n, v')
      → (find v' d name ≡ find v d name) × (file_type v' i ≡ file_type v i)

-- The flags of `OpenFlags` and those of `AtFlags` that this code tests
pub record OpenFlags : Type 0 where
  pub create : Bool
  pub exclusive : Bool
  pub truncate : Bool
  pub cloexec : Bool
  pub readable : Bool
  pub writable : Bool
  pub is_append : Bool

-- `From<OpenFlags> for OpenOptions`
abbrev pub to_options : OpenFlags → OpenOptions
to_options flag = record { read = flag.readable; write = flag.writable; append = flag.is_append }

-- The directory and the descriptors of the calling process.
pub record Caller : Type 0 where
  pub files : Files
  pub cwd : Bytes

abbrev is_type : FileType → FileType → Bool
is_type dir dir = true
is_type sym_link sym_link = true
is_type _ _ = false

module _ {V : Type 0} (s : Vfs V) where
  open s use {
    root, follow_max_depth, at_fdcwd, lookup, lookup_follow, find, file_type, link, unlink, move,
    resize, read_at, write_at, update_time, to_sys,
  }

  -- The operator `?`, which converts the error.
  abbrev pub lift : {A : Type 0} → FsResult A → SysResult A
  lift (ok a) = ok a
  lift (err e) = err (to_sys e)

  -- `Process::lookup_inode_at`, `follow` for the links, and `lookup_inode`
  unfoldable pub lookup_inode_at : V → Caller → ℕ → Bytes → Bool → SysResult ℕ
  lookup_inode_at v p dir_fd path follow =
      let follow_max = if follow then follow_max_depth else 0 in
      if dir_fd == at_fdcwd
      then then_ok (lift (lookup v root p.cwd)) (λ d. lift (lookup_follow v d path follow_max))
      else then_ok (get_file p.files dir_fd) (λ h. lift (lookup_follow v h.inode path follow_max))

  abbrev pub lookup_inode : V → Caller → Bytes → SysResult ℕ
  lookup_inode v p path = lookup_inode_at v p at_fdcwd path true

  -- `resize(0).ok()`
  abbrev pub truncated : V → ℕ → V
  truncated v i = elim (resize v i 0) [ ok v' ↦ v' | err e ↦ v ]

  -- What `sys_open_at` does with CREATE in the directory `d`.
  unfoldable pub open_or_create : V → ℕ → Bytes → OpenFlags → ℕ → ℕ → SysResult (ℕ × V)
  open_or_create v d file_name flags mode now = elim (find v d file_name) [
    | ok i ↦
        if flags.exclusive then err eexist else ok (i, if flags.truncate then truncated v i else v)
    | err entry_not_found ↦
        then_ok (lift (s.create v d file_name file mode))
          (λ r. ok (r.0, update_time (update_time r.1 r.0 now) d now))
    | err e ↦ err (to_sys e)
  ]

  -- The inode that `sys_open_at` opens.
  unfoldable pub open_inode : V → Caller → ℕ → Bytes → OpenFlags → ℕ → ℕ → SysResult (ℕ × V)
  unfolding open_or_create lookup_inode_at split_path
  open_inode v p dir_fd path flags mode now =
      if flags.create
      then (let (dir_path, file_name) = split_path path in
          then_ok (lookup_inode_at v p dir_fd dir_path true)
            (λ d. open_or_create v d file_name flags mode now))
      else then_ok (lookup_inode_at v p dir_fd path true) (λ i. ok (i, v))

  -- `sys_open_at`: the descriptor, and the file systems, descriptions and descriptors after it. The new
  -- description lies at `at`.
  unfoldable pub sys_open_at :
      V → Caller → Store → ℕ → ℕ → Bytes → OpenFlags → ℕ → ℕ → SysResult (ℕ × V × Store × Files)
  unfolding add_file
  sys_open_at v p store at dir_fd path flags mode now =
      then_ok (open_inode v p dir_fd path flags mode now) λ r.
        let (store', handle) = FileHandle.new store at r.0 (to_options flags) path flags.cloexec in
        let (fd, files) = add_file p.files handle in ok (fd, r.1, store', files)

  -- `sys_faccess_at`
  unfoldable pub sys_faccess_at : V → Caller → ℕ → Bytes → Bool → SysResult ℕ
  sys_faccess_at v p dir_fd path nofollow =
      then_ok (lookup_inode_at v p dir_fd path (not nofollow)) (λ i. ok 0)

  -- `sys_read_link_at`: the bytes for the buffer at `base` with their number
  unfoldable pub sys_read_link_at :
      V → Caller → List MemoryArea → ℕ → Bytes → ℕ → ℕ → SysResult (ℕ × Bytes)
  sys_read_link_at v p areas dir_fd path base len =
      if not (check_write_array areas 1 base len)
      then err efault
      else then_ok (lookup_inode_at v p dir_fd path false) (λ i.
        then_ok (lift (file_type v i)) (λ t.
          if is_type t sym_link
          then then_ok (lift (read_at v i 0 len)) (λ bytes. ok (length bytes, bytes))
          else err einval))

  -- `sys_truncate`
  unfoldable pub sys_truncate : V → Caller → Bytes → ℕ → SysResult V
  sys_truncate v p path len = then_ok (lookup_inode v p path) (λ i. lift (resize v i len))

  -- `sys_rename_at`
  unfoldable pub sys_rename_at : V → Caller → ℕ → Bytes → ℕ → Bytes → SysResult V
  unfolding split_path
  sys_rename_at v p old_dir_fd old_path new_dir_fd new_path =
      let (old_dir_path, old_file_name) = split_path old_path in
      let (new_dir_path, new_file_name) = split_path new_path in
      then_ok (lookup_inode_at v p old_dir_fd old_dir_path false) (λ old_dir.
        then_ok (lookup_inode_at v p new_dir_fd new_dir_path false)
          (λ new_dir. lift (move v old_dir old_file_name new_dir new_file_name)))

  -- `sys_mkdir_at`, from the lookup of the directory on
  unfoldable pub mkdir_in : V → ℕ → Bytes → ℕ → ℕ → SysResult V
  mkdir_in v d file_name mode now = elim (find v d file_name) [
    | ok i ↦ err eexist
    | err e ↦
        then_ok (lift (s.create v d file_name dir mode))
          (λ r. ok (update_time (update_time r.1 r.0 now) d now))
  ]

  unfoldable pub sys_mkdir_at : V → Caller → ℕ → Bytes → ℕ → ℕ → SysResult V
  unfolding mkdir_in split_path
  sys_mkdir_at v p dir_fd path mode now =
      let (dir_path, file_name) = split_path path in
      then_ok (lookup_inode_at v p dir_fd dir_path true) (λ d. mkdir_in v d file_name mode now)

  -- `sys_rmdir` and `sys_unlink_at`, from the lookup of the directory on: `is_dir` is the kind of entry
  -- that is removed, and `wrong` the error for others.
  unfoldable pub remove_in : V → ℕ → Bytes → Bool → SysError → SysResult V
  remove_in v d file_name is_dir wrong = then_ok (lift (find v d file_name)) (λ i.
      then_ok (lift (file_type v i)) (λ t.
        if is_type t dir
        then (if is_dir then lift (unlink v d file_name) else err wrong)
        else (if is_dir then err wrong else lift (unlink v d file_name))))

  unfoldable pub sys_rmdir : V → Caller → Bytes → SysResult V
  unfolding remove_in split_path
  sys_rmdir v p path =
      let (dir_path, file_name) = split_path path in
      then_ok (lookup_inode v p dir_path) (λ d. remove_in v d file_name true enotdir)

  unfoldable pub sys_unlink_at : V → Caller → ℕ → Bytes → SysResult V
  unfolding remove_in split_path
  sys_unlink_at v p dir_fd path =
      let (dir_path, file_name) = split_path path in
      then_ok (lookup_inode_at v p dir_fd dir_path true) (λ d. remove_in v d file_name false eisdir)

  -- `sys_link_at`
  unfoldable pub sys_link_at : V → Caller → ℕ → Bytes → ℕ → Bytes → SysResult V
  unfolding split_path
  sys_link_at v p old_dir_fd old_path new_dir_fd new_path =
      let (new_dir_path, new_file_name) = split_path new_path in
      then_ok (lookup_inode_at v p old_dir_fd old_path true) (λ i.
        then_ok (lookup_inode_at v p new_dir_fd new_dir_path true)
          (λ new_dir. lift (link v new_dir new_file_name i)))

  -- What `sys_symlink_at` does once the link is there: the file systems also after a failed write.
  abbrev pub fill_link : V → ℕ → ℕ → Bytes → ℕ → SysResult ℕ × V
  fill_link v d symlink target now = elim (write_at v symlink 0 target) [
    | ok (n, v') ↦ (ok 0, update_time (update_time v' symlink now) d now)
    | err e ↦ (err (to_sys e), v)
  ]

  unfoldable pub symlink_in : V → ℕ → Bytes → Bytes → ℕ → SysResult ℕ × V
  symlink_in v d filename target now = elim (find v d filename) [
    | ok i ↦ (err eexist, v)
    | err entry_not_found ↦ elim (s.create v d filename sym_link 0o777) [
      | ok (symlink, v') ↦ fill_link v' d symlink target now
      | err e ↦ (err (to_sys e), v)
    ]
    | err e ↦ (err (to_sys e), v)
  ]

  -- `sys_symlink_at`
  unfoldable pub sys_symlink_at : V → Caller → Bytes → ℕ → Bytes → ℕ → SysResult ℕ × V
  unfolding symlink_in split_path
  sys_symlink_at v p target new_dir_fd link_path now =
      let (dir_path, filename) = split_path link_path in
      elim (lookup_inode_at v p new_dir_fd dir_path true) [
        | ok d ↦ symlink_in v d filename target now
        | err e ↦ (err e, v)
      ]

-- `sys_get_cwd`: the address, and user memory after it
unfoldable pub sys_get_cwd : Bytes → Memory → ℕ → ℕ → SysResult (ℕ × Memory)
unfolding write_cstr
sys_get_cwd cwd mem buf len =
    if ltb len (length cwd + 1) then err erange else ok (buf, write_cstr mem buf cwd)
