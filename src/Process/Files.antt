-- ===== src/Process/Files.antt =====
-- The descriptor table of a process: kernel/src/process/mod.rs and the calls of
-- kernel/src/syscall/fs.rs that use it.
use queen.Base.{
  ℕ, ◌≡◌, not, ◌&&◌, ◌==◌, ltb, if◌then◌else◌, none, some, List, arith, inl, inr, Bool-cases,
  Option-cases,
}
use queen.Base.Maps.{
  Map, lookup, insert, erase, contains_key, free_from, lookup-insert, lookup-erase,
  free_from-IsFree,
}
use queen.Memory.Area.{MemoryArea}
use queen.Memory.Set.{check_read_array}
use queen.Kernel.FileHandle
use queen.Kernel.FileHandle.{
  Result, ok, err, then_ok, FileHandle, Store, INode, SeekFrom, from_start, dup, update,
}
use queen.Process.Calls.{SysError, SysResult, ebadf, efault}

-- A descriptor table.
abbrev pub Files : Type 0
Files = Map FileHandle

-- `get_free_fd` and `get_free_fd_from`
abbrev pub get_free_fd : Files → ℕ
get_free_fd files = free_from files 0

abbrev pub get_free_fd_from : Files → ℕ → ℕ
get_free_fd_from files arg = free_from files arg

-- `Process::add_file`
unfoldable pub add_file : Files → FileHandle → ℕ × Files
add_file files file = let fd = get_free_fd files in (fd, insert files fd file)

-- `get_file` and `get_file_mut`
abbrev pub get_file : Files → ℕ → SysResult FileHandle
get_file files fd = elim (lookup files fd) [ none ↦ err ebadf | some h ↦ ok h ]

-- `sys_close`
unfoldable pub sys_close : Files → ℕ → SysResult Files
sys_close files fd = elim (lookup files fd) [ none ↦ err ebadf | some h ↦ ok (erase files fd) ]

-- `sys_dup3`: the result, and the table after it, also after an error.
unfoldable pub sys_dup3 : Files → ℕ → ℕ → ℕ → SysResult ℕ × Files
sys_dup3 files fd1 fd2 flags =
    let files' = erase files fd2 in
    elim (lookup files' fd1) [
      | none ↦ (err ebadf, files')
      | some h ↦ (ok fd2, insert files' fd2 (dup h (not (flags == 0))))
    ]

-- `sys_dup2`
abbrev pub sys_dup2 : Files → ℕ → ℕ → SysResult ℕ × Files
sys_dup2 files fd1 fd2 = sys_dup3 files fd1 fd2 0

-- Over the inodes that the handles are open on.
module _ {I : Type 0} (v : INode I SysError) where
  -- `sys_write`: the check of the buffer, the descriptor, then the write. `bytes` reads user memory.
  unfoldable pub sys_write :
      List MemoryArea → Files → Store → I → (ℕ → ℕ → List ℕ) → ℕ → ℕ → ℕ → SysResult (ℕ × I × Store)
  sys_write areas files store inode bytes fd base len =
      if not (check_read_array areas 1 base len)
      then err efault
      else then_ok (get_file files fd) (λ h. FileHandle.write v h store inode (bytes base len))

  -- `sys_pwrite`
  unfoldable pub sys_pwrite :
      List MemoryArea → Files → Store → I → (ℕ → ℕ → List ℕ) → ℕ → ℕ → ℕ → ℕ → SysResult (ℕ × I)
  sys_pwrite areas files store inode bytes fd base len pos =
      if not (check_read_array areas 1 base len)
      then err efault
      else then_ok (get_file files fd)
          (λ h. FileHandle.write_at v h store inode pos (bytes base len))

  -- `sys_lseek`. No constant SEEK_SET is in scope, so the first pattern of the match on `whence` is
  -- a variable and takes every value.
  unfoldable pub sys_lseek : Files → Store → I → ℕ → ℕ → ℕ → SysResult (ℕ × Store)
  sys_lseek files store inode fd offset whence =
      then_ok (get_file files fd) (λ h. FileHandle.seek v h store inode (from_start offset))

  -- `sys_ftruncate`
  unfoldable pub sys_ftruncate : Files → Store → I → ℕ → ℕ → SysResult I
  sys_ftruncate files store inode fd len =
      then_ok (get_file files fd) (λ h. FileHandle.set_len v h store inode len)

-- A file is added at the lowest free descriptor: it was not in use, all below it are, and afterwards
-- it has the file while every other descriptor is as before.
add_file-lowest :
    (files : Files) (file : FileHandle) (i : ℕ)
    → let (fd, files') = add_file files file in
      (lookup files fd ≡ none)
      × (ltb i fd ≡ contains_key files i && ltb i fd)
      × (lookup files' i ≡ (if fd == i then some file else lookup files i))
unfolding add_file
add_file-lowest files file i =
    let fd = free_from files 0 in
    let f = free_from-IsFree files 0 in
    (
      f.free,
      elim (Bool-cases (ltb i fd)) [
        | inl below ↦ ground (arith, f.least i)
        | inr above ↦ ground arith
      ],
      lookup-insert files fd file i,
    )

-- A duplicate onto another descriptor: with a file at the old one the new one shares its description,
-- whatever it was, closed on exec as the flags say, and all else is as before; without, the error is
-- EBADF, but the new descriptor is closed all the same. Onto itself, the descriptor is closed and
-- the error is EBADF even if it had a file.
pub sys_dup3-outcome :
    (files : Files) (fd1 fd2 flags i : ℕ)
    → let (result, files') = sys_dup3 files fd1 fd2 flags in
      (result ≡ (if contains_key files fd1 && not (fd1 == fd2) then ok fd2 else err ebadf))
      × (lookup files' i ≡ (
          if fd2 == i
          then (if fd1 == fd2 then none else elim (lookup files fd1) [
            | none ↦ none
            | some h ↦ some (record h { fd_cloexec = not (flags == 0) })
          ])
          else lookup files i))
unfolding sys_dup3
sys_dup3-outcome files fd1 fd2 flags i =
    let gone = lookup-erase files fd2 in
    elim (Option-cases (lookup (erase files fd2) fd1)) [
      | inl empty ↦ rw (empty, sys_dup3) (ground (arith, gone fd1, gone i))
      | inr (h, here) ↦
          let new = dup h (not (flags == 0)) in
          rw (here, sys_dup3)
            (ground (arith, gone fd1, gone i, lookup-insert (erase files fd2) fd2 new i))
    ]
