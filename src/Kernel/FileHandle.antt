-- ===== src/Kernel/FileHandle.antt =====
-- kernel/src/fs/file.rs: file handles, which share a description with an offset when they are
-- duplicated. Descriptions lie in a store. The reads, which wait, are not modelled.
use queen.Base.{
  ℕ, ◌^◌, ◌<◌, ◌≡◌, ◌≢◌, Bool, true, false, not, ◌==◌, if◌then◌else◌, arith, String, add_word, List,
}

-- `Result` of the virtual file system, with the errors `E`.
pub data Result (E A : Type 0) : Type 0 where
  ok : A → Result E A
  err : E → Result E A

abbrev pub then_ok : {E A B : Type 0} → Result E A → (A → Result E B) → Result E B
then_ok (ok a) f = f a
then_ok (err e) f = err e

pub record OpenOptions : Type 0 where
  pub read : Bool
  pub write : Bool
  pub append : Bool

pub record OpenFileDescription : Type 0 where
  pub offset : ℕ
  pub options : OpenOptions

abbrev pub Store : Type 0
Store = ℕ → OpenFileDescription

-- A handle names its inode and its description, which it shares with duplicates. A path is its bytes.
pub record FileHandle : Type 0 where
  pub inode : ℕ
  pub description : ℕ
  pub path : List ℕ
  pub fd_cloexec : Bool

-- An offset of `End` and `Current` is a word that is read as an `i64`.
pub data SeekFrom : Type 0 where
  from_start : (offset : ℕ) → SeekFrom
  from_end : (offset : ℕ) → SeekFrom
  from_current : (offset : ℕ) → SeekFrom

-- What handles use of an inode: its size, and a write at an offset that gives the number of bytes
-- written.
pub record INode (I E : Type 0) : Type 0 where
  pub size : I → Result E ℕ
  pub write_at : I → ℕ → List ℕ → Result E (ℕ × I)
  pub resize : I → ℕ → Result E I
  pub get_entry : I → ℕ → Result E String
  pub invalid_param : E

abbrev pub update : Store → ℕ → ℕ → Store
update store d offset k = if k == d then record (store d) { offset = offset } else store k

-- `OpenFileDescription::create`
abbrev pub create : OpenOptions → OpenFileDescription
create options = record { offset = 0; options = options }

-- `FileHandle::new`, with a description that lies at `d`
abbrev pub new : Store → ℕ → ℕ → OpenOptions → List ℕ → Bool → Store × FileHandle
new store d inode options path fd_cloexec = (
  λ k. if k == d then create options else store k,
  record { inode = inode; description = d; path = path; fd_cloexec = fd_cloexec },
)

-- `FileHandle::dup`
abbrev pub dup : FileHandle → Bool → FileHandle
dup h fd_cloexec = record h { fd_cloexec = fd_cloexec }

module _ {I E : Type 0} (v : INode I E) where
  -- `FileHandle::write_at`
  unfoldable pub write_at : FileHandle → Store → I → ℕ → List ℕ → Result E (ℕ × I)
  write_at h store inode offset buf =
      if not (store h.description).options.write
      then err v.invalid_param
      else v.write_at inode offset buf

  -- `FileHandle::write`: the length, the inode and the store. On an error nothing changes.
  unfoldable pub write : FileHandle → Store → I → List ℕ → Result E (ℕ × I × Store)
  unfolding write_at
  write h store inode buf =
      let d = store h.description in
      then_ok (if d.options.append then v.size inode else ok d.offset) (λ offset.
        then_ok (write_at h store inode offset buf)
          (λ r. ok (r.0, r.1, update store h.description (add_word d.offset r.0))))

  -- `FileHandle::seek`
  unfoldable pub seek : FileHandle → Store → I → SeekFrom → Result E (ℕ × Store)
  seek h store inode pos =
      let d = store h.description in
      let target : Result E ℕ = elim pos [
        | from_start offset ↦ ok offset
        | from_end offset ↦ then_ok (v.size inode) (λ size. ok (add_word size offset))
        | from_current offset ↦ ok (add_word d.offset offset)
      ] in
      then_ok target (λ offset. ok (offset, update store h.description offset))

  -- `FileHandle::set_len`
  unfoldable pub set_len : FileHandle → Store → I → ℕ → Result E I
  set_len h store inode len =
      if not (store h.description).options.write then err v.invalid_param else v.resize inode len

  -- `FileHandle::read_entry`
  unfoldable pub read_entry : FileHandle → Store → I → Result E (String × Store)
  read_entry h store inode =
      let d = store h.description in
      if not d.options.read
      then err v.invalid_param
      else then_ok (v.get_entry inode d.offset)
          (λ name. ok (name, update store h.description (add_word d.offset 1)))

  -- A seek to the start and then a write, through a handle that is open for writing and not for
  -- appending, writes at that offset; the offset behind what was written is seen by a duplicate of
  -- the handle, and no other description changes.
  write-seek :
      (h : FileHandle) (store store' : Store) (inode inode' : I) (offset at len other : ℕ)
      (buf : List ℕ) (cloexec : Bool)
      → (store h.description).options.write ≡ true
      → (store h.description).options.append ≡ false
      → seek h store inode (from_start offset) ≡ ok (at, store')
      → v.write_at inode offset buf ≡ ok (len, inode')
      → other ≢ h.description
      → (store'' : Store) × (write h store' inode buf ≡ ok (len, inode', store''))
        × ((store'' (dup h cloexec).description).offset ≡ add_word offset len)
        × (store'' other ≡ store other)
  unfolding seek write
  write-seek h store store' inode inode' offset at len other buf cloexec writable plain sought
        written apart =
      (update store' h.description (add_word offset len), ground arith, ground arith, ground arith)

  -- A write through a handle that appends goes to the end of the file but moves the offset on from
  -- where it was: if that was not the end, the offset is not behind what was written.
  pub write-append :
      (h : FileHandle) (store : Store) (inode inode' : I) (end len : ℕ) (buf : List ℕ)
      → (store h.description).options.write ≡ true
      → (store h.description).options.append ≡ true
      → v.size inode ≡ ok end
      → v.write_at inode end buf ≡ ok (len, inode')
      → end < 2 ^ 64
      → (store h.description).offset < 2 ^ 64
      → (store h.description).offset ≢ end
      → (store' : Store) × (write h store inode buf ≡ ok (len, inode', store'))
        × ((store' h.description).offset ≢ add_word end len)
  unfolding write
  write-append h store inode inode' end len buf writable appends size written small small' apart = (
    update store h.description (add_word (store h.description).offset len),
    ground arith,
    ground arith,
  )
