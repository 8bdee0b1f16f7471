-- ===== src/Sysfile/Create.antt =====
-- create, sys_open, sys_mkdir, sys_mknod and sys_chdir of sysfile.c.
use operating_systems_projec.Base.{
  ℕ, ◌+◌, ◌-◌, ◌%◌, Bool, ◌&&◌, ◌||◌, not, Option, none, some, List, ◌==◌, if◌then◌else◌, set, ℤ,
  pos, negsuc,
}
use Prim.Native.Nat.{bit_and}
use operating_systems_projec.Fs.{
  at, put, t_dir, t_file, t_dev, M, ◌>>=◌, ◌>>◌, pure, fails, current, modify,
}
use operating_systems_projec.Fs.Inodes.{ialloc, iupdate, ilock, iunlock, iput, iunlockput}
use operating_systems_projec.Fs.Content.{Devsw}
use operating_systems_projec.Fs.Dirs.{dirlookup, dirlink, namei, nameiparent}
use operating_systems_projec.File.{
  at as file_at, File, FileType, FileTable, Descriptors, Reply, failed, filealloc, fileclose,
  fdalloc,
}
use operating_systems_projec.Sysfile.{Env, begin_op, end_op, failed_op, is_negative, lift, finish}
use operating_systems_projec.Sysfile.Links.{dot, dot_dot}

-- A call of dirlink that must succeed.
abbrev pub must_link : Devsw → ℕ → List ℕ → ℕ → M (Unit {0})
must_link devsw dp name inum =
    dirlink devsw dp name inum >>= λ r. if is_negative r then fails else pure tt

-- The entries `.` and `..` of a new directory.
unfoldable pub create_dots : Devsw → ℕ → ℕ → M (Unit {0})
create_dots devsw dp ip = do
  modify (λ s. put dp (record (at s dp) { nlink = ((at s dp).nlink + 1) % 65536 }) s)
  iupdate dp
  s ← current
  must_link devsw ip dot (at s ip).inum
  s' ← current
  must_link devsw ip dot_dot (at s' dp).inum

-- create from ialloc on.
unfoldable pub create_new : Devsw → ℕ → List ℕ → ℕ → ℕ → ℕ → M (Option ℕ)
create_new devsw dp name type major minor = do
  s ← current
  ip ← ialloc (at s dp).dev type
  ilock ip
  modify (λ t. put ip (record (at t ip) { major = major; minor = minor; nlink = 1 }) t)
  iupdate ip
  (if type == t_dir then create_dots devsw dp ip else pure tt)
  s' ← current
  must_link devsw dp name (at s' ip).inum
  iunlockput dp
  pure (some ip)

-- create when the name is there.
unfoldable pub create_found : ℕ → ℕ → ℕ → M (Option ℕ)
create_found dp ip type = do
  iunlockput dp
  ilock ip
  s ← current
  (if type == t_file && (at s ip).type == t_file
      then pure (some ip)
      else iunlockput ip >> pure none)

unfoldable pub create_in : Devsw → ℕ → List ℕ → ℕ → ℕ → ℕ → M (Option ℕ)
create_in devsw dp name type major minor = do
  ilock dp
  r ← dirlookup devsw dp name
  elim r [
    | some (ip, off) ↦ create_found dp ip type
    | none ↦ create_new devsw dp name type major minor
  ]

unfoldable pub create : Devsw → ℕ → List ℕ → ℕ → ℕ → ℕ → M (Option ℕ)
create devsw cwd path type major minor = do
  r ← nameiparent devsw cwd path
  elim r [ none ↦ pure none | some (dp, name) ↦ create_in devsw dp name type major minor ]

abbrev pub o_wronly : ℕ
o_wronly = 1

abbrev pub o_rdwr : ℕ
o_rdwr = 2

abbrev pub o_create : ℕ
o_create = 512

-- `omode` is given by its 32 bits.
abbrev pub has_flag : ℕ → ℕ → Bool
has_flag omode flag = not (bit_and omode flag == 0)

-- `namei` and the check of directories in sys_open; the inode is locked.
unfoldable pub open_found : Devsw → ℕ → List ℕ → ℕ → M (Option ℕ)
open_found devsw cwd path omode = do
  r ← namei devsw cwd path
  elim r [
    | none ↦ pure none
    | some ip ↦ do
      ilock ip
      s ← current
      (if (at s ip).type == t_dir && not (omode == 0)
          then iunlockput ip >> pure none
          else pure (some ip))
  ]

abbrev pub opened : File → ℕ → ℕ → File
opened f ip omode = record f {
  type = FileType.fd_inode;
  ip = ip;
  off = 0;
  readable = not (has_flag omode o_wronly);
  writable = has_flag omode o_wronly || has_flag omode o_rdwr;
}

-- sys_open from fdalloc on, with the file `f` of the table `t`.
unfoldable pub open_fd : Env → Descriptors → FileTable → ℕ → ℕ → ℕ → M Reply
open_fd env o t f ip omode = elim (fdalloc o f) [
  | none ↦ do r ← lift (fileclose t f); finish env r.0; iunlockput ip; end_op; pure (failed o r.1)
  | some (fd, o') ↦ do
    iunlock ip
    end_op
    pure (pos fd, o', set t f (opened (file_at t f) ip omode))
]

unfoldable pub open_inode : Env → Descriptors → FileTable → ℕ → ℕ → M Reply
open_inode env o t ip omode = elim (filealloc t) [
  | none ↦ iunlockput ip >> (end_op >> pure (failed o t))
  | some (f, t') ↦ open_fd env o t' f ip omode
]

unfoldable pub open_path : Env → ℕ → Descriptors → FileTable → List ℕ → ℕ → M Reply
open_path env cwd o t path omode = do
  begin_op
  r ←
      (if has_flag omode o_create
        then create env.devsw cwd path t_file 0 0
        else open_found env.devsw cwd path omode)
  elim r [ none ↦ (end_op >> pure (failed o t)) | some ip ↦ open_inode env o t ip omode ]

unfoldable pub sys_open : Env → ℕ → Descriptors → FileTable → Option (List ℕ) → Option ℕ → M Reply
sys_open env cwd o t none omode = pure (failed o t)
sys_open env cwd o t (some path) none = pure (failed o t)
sys_open env cwd o t (some path) (some omode) = open_path env cwd o t path omode

-- The end of sys_mkdir and sys_mknod.
unfoldable pub put_created : Option ℕ → M (ℤ × Unit {0})
put_created none = failed_op tt
put_created (some ip) = do iunlockput ip; end_op; pure (pos 0, tt)

unfoldable pub sys_mkdir : Devsw → ℕ → Option (List ℕ) → M (ℤ × Unit {0})
sys_mkdir devsw cwd arg = do
  begin_op
  r ← elim arg [ none ↦ pure none | some path ↦ create devsw cwd path t_dir 0 0 ]
  put_created r

-- An int as a short, by its 16 bits.
abbrev pub to_short : ℤ → ℕ
to_short (pos n) = n % 65536
to_short (negsuc n) = 65535 - n % 65536

unfoldable pub create_device : Devsw → ℕ → Option (List ℕ) → Option ℤ → Option ℤ → M (Option ℕ)
create_device devsw cwd none major minor = pure none
create_device devsw cwd (some path) none minor = pure none
create_device devsw cwd (some path) (some major) none = pure none
create_device devsw cwd (some path) (some major) (some minor) =
    create devsw cwd path t_dev (to_short major) (to_short minor)

unfoldable pub sys_mknod : Devsw → ℕ → Option (List ℕ) → Option ℤ → Option ℤ → M (ℤ × Unit {0})
sys_mknod devsw cwd arg major minor = do
  begin_op
  r ← create_device devsw cwd arg major minor
  put_created r

-- sys_chdir once the inode is locked; the reply has the new current directory.
unfoldable pub change_dir : ℕ → ℕ → M (ℤ × ℕ)
change_dir cwd ip s =
    let changed = do iunlock ip; iput cwd; end_op; pure (pos 0, ip)
    in if not ((at s ip).type == t_dir) then (iunlockput ip >> failed_op cwd) s else changed s

unfoldable pub sys_chdir : Devsw → ℕ → Option (List ℕ) → M (ℤ × ℕ)
sys_chdir devsw cwd arg = do
  begin_op
  r ← elim arg [ none ↦ pure none | some path ↦ namei devsw cwd path ]
  elim r [ none ↦ failed_op cwd | some ip ↦ ilock ip >> change_dir cwd ip ]
