-- ===== src/Sysfile/Io.antt =====
-- fileread, filewrite and filestat of file.c, and the system calls on top of them. The bytes that a
-- program reads or writes are lists.
use operating_systems_projec.Base.{
  ℕ, zero, suc, ◌+◌, ◌-◌, ◌*◌, ◌/◌, Bool, true, false, not, Option, none, some, List, [], ◌∷◌, ◌==◌,
  if◌then◌else◌, length, set, take, drop, ℤ, pos, negsuc,
}
use operating_systems_projec.Fs.{at, M, ◌>>=◌, ◌>>◌, pure, fails, current}
use operating_systems_projec.Fs.Inodes.{ilock, iunlock, Stat, stati}
use operating_systems_projec.Fs.Content.{readi, writei}
use operating_systems_projec.File.{at as file_at, FileType, FileTable, Descriptors, argfd}
use operating_systems_projec.Sysfile.{Env, begin_op, end_op}

-- `if((r = ...) > 0) f->off += r;`
abbrev pub advance : FileTable → ℕ → ℤ → FileTable
advance t f (pos r) = set t f (record (file_at t f) { off = (file_at t f).off + r })
advance t f (negsuc r) = t

unfoldable pub read_inode : Env → FileTable → ℕ → ℕ → M (ℤ × List ℕ × FileTable)
read_inode env t f n = do
  ilock (file_at t f).ip
  (r, bytes) ← readi env.devsw (file_at t f).ip (file_at t f).off n
  iunlock (file_at t f).ip
  pure (r, bytes, advance t f r)

unfoldable pub fileread : Env → FileTable → ℕ → ℕ → M (ℤ × List ℕ × FileTable)
fileread env t f n =
    if not (file_at t f).readable then pure (negsuc 0, [], t) else elim (file_at t f).type [
      | FileType.fd_pipe ↦ env.piperead (file_at t f).pipe n >>= λ r. pure (r.0, r.1, t)
      | FileType.fd_inode ↦ read_inode env t f n
      | FileType.fd_none ↦ fails
    ]

-- The bytes that filewrite hands to one call of writei at most: LOGSIZE is 30.
abbrev pub max_chunk : ℕ
max_chunk = (30 - 1 - 1 - 2) / 2 * 512

-- One transaction of filewrite.
unfoldable pub write_chunk : Env → FileTable → ℕ → List ℕ → M (ℤ × FileTable)
write_chunk env t f chunk = do
  begin_op
  ilock (file_at t f).ip
  r ← writei env.devsw (file_at t f).ip (file_at t f).off chunk
  iunlock (file_at t f).ip
  end_op
  pure (r, advance t f r)

abbrev pub is_count : ℕ → ℤ → Bool
is_count n (pos r) = r == n
is_count n (negsuc r) = false

abbrev pub went_wrong : ℤ → Bool
went_wrong (pos r) = false
went_wrong (negsuc r) = true

-- filewrite's loop over the bytes that are left: whether all are written. Each round writes one at
-- least.
unfoldable pub write_chunks : ℕ → Env → FileTable → ℕ → List ℕ → M (Bool × FileTable)
write_chunks zero env t f src = pure (false, t)
write_chunks (suc k) env t f [] = pure (true, t)
write_chunks (suc k) env t f (c ∷ src) = do
  (r, t') ← write_chunk env t f (take max_chunk (c ∷ src))
  (if went_wrong r
      then pure (false, t')
      else if not (is_count (length (take max_chunk (c ∷ src))) r)
      then fails
      else write_chunks k env t' f (drop max_chunk (c ∷ src)))

unfoldable pub filewrite : Env → FileTable → ℕ → List ℕ → M (ℤ × FileTable)
filewrite env t f src =
    if not (file_at t f).writable then pure (negsuc 0, t) else elim (file_at t f).type [
      | FileType.fd_pipe ↦ env.pipewrite (file_at t f).pipe src >>= λ r. pure (r, t)
      | FileType.fd_inode ↦ do
        (all, t') ← write_chunks (length src + 1) env t f src
        pure (if all then pos (length src) else negsuc 0, t')
      | FileType.fd_none ↦ fails
    ]

unfoldable pub stat_inode : ℕ → M (ℤ × Option Stat)
stat_inode ip = do ilock ip; s ← current; iunlock ip; pure (pos 0, some (stati (at s ip)))

unfoldable pub filestat : FileTable → ℕ → M (ℤ × Option Stat)
filestat t f = elim (file_at t f).type [
  | FileType.fd_inode ↦ stat_inode (file_at t f).ip
  | FileType.fd_pipe ↦ pure (negsuc 0, none)
  | FileType.fd_none ↦ pure (negsuc 0, none)
]

-- `n` is `none` if argint or argptr failed.
unfoldable pub sys_read : Env → Descriptors → FileTable → ℤ → Option ℕ → M (ℤ × List ℕ × FileTable)
sys_read env o t fd n = elim (argfd o fd) [
  | none ↦ pure (negsuc 0, [], t)
  | some (k, f) ↦ elim n [ none ↦ pure (negsuc 0, [], t) | some m ↦ fileread env t f m ]
]

unfoldable pub sys_write : Env → Descriptors → FileTable → ℤ → Option (List ℕ) → M (ℤ × FileTable)
sys_write env o t fd src = elim (argfd o fd) [
  | none ↦ pure (negsuc 0, t)
  | some (k, f) ↦ elim src [ none ↦ pure (negsuc 0, t) | some bytes ↦ filewrite env t f bytes ]
]

-- `st` is whether argptr accepted the address of the result.
unfoldable pub sys_fstat : Descriptors → FileTable → ℤ → Bool → M (ℤ × Option Stat)
sys_fstat o t fd st = elim (argfd o fd) [
  | none ↦ pure (negsuc 0, none)
  | some (k, f) ↦ if st then filestat t f else pure (negsuc 0, none)
]
