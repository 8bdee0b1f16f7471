-- ===== src/Fs/Dirs.antt =====
-- Directories and path names of fs.c. A name is a list of characters; the name field of a directory
-- entry is its 14 bytes.
pub mod Walks
pub mod Names
use operating_systems_projec.Base.{
  ℕ, zero, suc, ◌+◌, ◌*◌, ◌/◌, ◌%◌, Bool, true, false, ◌&&◌, not, Option, none, some, List, [], ◌∷◌,
  ltb, ◌==◌, if◌then◌else◌, length, get_or, drop, ℤ, pos, negsuc,
}
use operating_systems_projec.Fs.{at, dirsiz, t_dir, M, ◌>>=◌, ◌>>◌, pure, fails}
use operating_systems_projec.Fs.Path.{slash, skipelem}
use operating_systems_projec.Fs.Inodes.{iget, idup, ilock, iunlock, iput, iunlockput}
use operating_systems_projec.Fs.Content.{Devsw, readi, writei}

-- Whether strncmp on `n` bytes is 0; behind its end a string is read as 0.
unfoldable pub same_name : ℕ → List ℕ → List ℕ → Bool
same_name zero s t = true
same_name (suc n) s t =
    let c = get_or s 0 0 in
    let d = get_or t 0 0 in
    let rest = same_name n (drop 1 s) (drop 1 t) in if not (c == 0) && c == d then rest else c == d

unfoldable pub namecmp : List ℕ → List ℕ → Bool
namecmp s t = same_name dirsiz s t

pub record Dirent : Type 0 where
  pub inum : ℕ
  pub name : List ℕ

-- A directory entry takes 16 bytes.
abbrev pub entry_size : ℕ
entry_size = 16

abbrev pub decode : List ℕ → Dirent
decode bytes = record { inum = get_or bytes 0 0 + 256 * get_or bytes 1 0; name = drop 2 bytes }

-- strncpy into the name field.
unfoldable pub pad_name : ℕ → List ℕ → List ℕ
pad_name zero s = []
pad_name (suc n) [] = 0 ∷ pad_name n []
pad_name (suc n) (c ∷ s) = c ∷ pad_name n s

abbrev pub encode : ℕ → List ℕ → List ℕ
encode inum name = inum % 256 ∷ inum / 256 % 256 ∷ pad_name dirsiz name

abbrev pub is_entry : ℤ × List ℕ → Bool
is_entry (pos n, bytes) = n == entry_size
is_entry (negsuc n, bytes) = false

-- `readi(dp, &de, off, sizeof(de))`, or a panic.
unfoldable pub read_entry : Devsw → ℕ → ℕ → M Dirent
read_entry devsw dp off = do
  r ← readi devsw dp off entry_size
  (if is_entry r then pure (decode (r.1)) else fails)

-- dirlookup's loop from `off` on, with `k` entries to go: the entry's number and offset.
unfoldable pub lookup_from : ℕ → Devsw → ℕ → List ℕ → ℕ → M (Option (ℕ × ℕ))
lookup_from zero devsw dp name off s = pure none s
lookup_from (suc k) devsw dp name off s =
    let round = do
      de ← read_entry devsw dp off
      (if de.inum == 0
          then lookup_from k devsw dp name (off + entry_size)
          else if namecmp name de.name
          then pure (some (de.inum, off))
          else lookup_from k devsw dp name (off + entry_size))
    in if ltb off (at s dp).size then round s else pure none s

abbrev pub rounds : ℕ → ℕ
rounds size = size / entry_size + 1

-- The inode and the offset of its entry.
unfoldable pub dirlookup : Devsw → ℕ → List ℕ → M (Option (ℕ × ℕ))
dirlookup devsw dp name s =
    let found = do
      r ← lookup_from (rounds (at s dp).size) devsw dp name 0
      elim r [
        | none ↦ pure none
        | some (inum, off) ↦ iget (at s dp).dev inum >>= λ ip. pure (some (ip, off))
      ]
    in if not ((at s dp).type == t_dir) then fails s else found s

-- dirlink's loop: the offset of an empty entry, or of the end.
unfoldable pub empty_from : ℕ → Devsw → ℕ → ℕ → M ℕ
empty_from zero devsw dp off s = pure off s
empty_from (suc k) devsw dp off s =
    let round = do
      de ← read_entry devsw dp off
      (if de.inum == 0 then pure off else empty_from k devsw dp (off + entry_size))
    in if ltb off (at s dp).size then round s else pure off s

abbrev pub is_written : ℤ → Bool
is_written (pos n) = n == entry_size
is_written (negsuc n) = false

unfoldable pub add_entry : Devsw → ℕ → List ℕ → ℕ → M ℤ
add_entry devsw dp name inum s =
    (do
      off ← empty_from (rounds (at s dp).size) devsw dp 0
      r ← writei devsw dp off (encode inum name)
      (if is_written r then pure (pos 0) else fails))
      s

unfoldable pub dirlink : Devsw → ℕ → List ℕ → ℕ → M ℤ
dirlink devsw dp name inum = do
  found ← dirlookup devsw dp name
  elim found [ some (ip, off) ↦ iput ip >> pure (negsuc 0) | none ↦ add_entry devsw dp name inum ]

abbrev pub is_root : List ℕ → Bool
is_root [] = false
is_root (c ∷ path) = c == slash

abbrev pub is_last : List ℕ → Bool
is_last [] = true
is_last (c ∷ path) = false

-- One round of namex at a directory that is locked. `parent` is nameiparent.
unfoldable pub enter :
    Devsw → Bool → List ℕ → List ℕ → ℕ → (ℕ → M (Option (ℕ × List ℕ))) → M (Option (ℕ × List ℕ))
enter devsw parent name rest ip next s =
    let down = do
      found ← dirlookup devsw ip name
      elim found [
        | none ↦ iunlockput ip >> pure none
        | some (child, off) ↦ iunlockput ip >> next child
      ]
    in if not ((at s ip).type == t_dir)
      then (iunlockput ip >> pure none) s
      else if parent && is_last rest
      then (iunlock ip >> pure (some (ip, name))) s
      else down s

-- namex's loop at the inode `ip`, on fuel; the last name comes with the inode.
unfoldable pub walk : ℕ → Devsw → Bool → List ℕ → List ℕ → ℕ → M (Option (ℕ × List ℕ))
walk zero devsw parent path name ip = fails
walk (suc f) devsw parent path name ip = elim (skipelem path) [
  | none ↦ if parent then iput ip >> pure none else pure (some (ip, name))
  | some (elem, rest) ↦
      ilock ip >> enter devsw parent elem rest ip (λ child. walk f devsw parent rest elem child)
]

-- ROOTDEV and ROOTINO are 1.
unfoldable pub namex : Devsw → ℕ → List ℕ → Bool → M (Option (ℕ × List ℕ))
namex devsw cwd path parent = do
  ip ← (if is_root path then iget 1 1 else idup cwd)
  walk (length path + 1) devsw parent path [] ip

unfoldable pub namei : Devsw → ℕ → List ℕ → M (Option ℕ)
namei devsw cwd path = namex devsw cwd path false >>= λ r. elim r [
  | none ↦ pure none
  | some (ip, name) ↦ pure (some ip)
]

unfoldable pub nameiparent : Devsw → ℕ → List ℕ → M (Option (ℕ × List ℕ))
nameiparent devsw cwd path = namex devsw cwd path true
