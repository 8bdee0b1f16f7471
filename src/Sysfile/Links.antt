-- ===== src/Sysfile/Links.antt =====
-- sys_link and sys_unlink of sysfile.c.
use operating_systems_projec.Base.{
  ℕ, zero, suc, ◌+◌, ◌*◌, ◌%◌, Bool, true, false, ◌||◌, not, Option, none, some, List, [], ◌∷◌, ltb,
  leb, ◌==◌, if◌then◌else◌, replicate, ℤ, pos, negsuc,
}
use operating_systems_projec.Fs.{at, put, t_dir, M, ◌>>=◌, ◌>>◌, pure, fails, current, modify}
use operating_systems_projec.Fs.Inodes.{iupdate, ilock, iunlock, iput, iunlockput}
use operating_systems_projec.Fs.Content.{Devsw, writei}
use operating_systems_projec.Fs.Dirs.{
  namecmp, entry_size, read_entry, rounds, is_written, dirlookup, dirlink, namei, nameiparent,
}
use operating_systems_projec.Sysfile.{begin_op, end_op, failed_op, is_negative}

-- `nlink` is a short: an inode's count of links after `++`, and after `--`.
abbrev pub link_more : ℕ → M (Unit {0})
link_more i = modify (λ s. put i (record (at s i) { nlink = ((at s i).nlink + 1) % 65536 }) s)

abbrev pub link_less : ℕ → M (Unit {0})
link_less i = modify (λ s. put i (record (at s i) { nlink = ((at s i).nlink + 65535) % 65536 }) s)

-- The end of sys_link at `bad`.
unfoldable pub undo_link : ℕ → M (ℤ × Unit {0})
undo_link ip = do ilock ip; link_less ip; iupdate ip; iunlockput ip; failed_op tt

unfoldable pub link_into : Devsw → ℕ → List ℕ → ℕ → M (ℤ × Unit {0})
link_into devsw dp name ip = do
  ilock dp
  s ← current
  r ←
      (if (at s dp).dev == (at s ip).dev
        then dirlink devsw dp name (at s ip).inum
        else pure (negsuc 0))
  (if is_negative r
      then iunlockput dp >> undo_link ip
      else (do iunlockput dp; iput ip; end_op; pure (pos 0, tt)))

-- sys_link once the inode of `old` is locked.
unfoldable pub link_inode : Devsw → ℕ → List ℕ → ℕ → M (ℤ × Unit {0})
link_inode devsw cwd new ip s =
    let linked = do
      link_more ip
      iupdate ip
      iunlock ip
      r ← nameiparent devsw cwd new
      elim r [ none ↦ undo_link ip | some (dp, name) ↦ link_into devsw dp name ip ]
    in if (at s ip).type == t_dir then (iunlockput ip >> failed_op tt) s else linked s

unfoldable pub link_paths : Devsw → ℕ → List ℕ → List ℕ → M (ℤ × Unit {0})
link_paths devsw cwd old new = do
  begin_op
  r ← namei devsw cwd old
  elim r [ none ↦ failed_op tt | some ip ↦ ilock ip >> link_inode devsw cwd new ip ]

unfoldable pub sys_link : Devsw → ℕ → Option (List ℕ) → Option (List ℕ) → M (ℤ × Unit {0})
sys_link devsw cwd none new = pure (negsuc 0, tt)
sys_link devsw cwd (some old) none = pure (negsuc 0, tt)
sys_link devsw cwd (some old) (some new) = link_paths devsw cwd old new

-- isdirempty's loop from `off` on, with `k` entries to go.
unfoldable pub empty_dir_from : ℕ → Devsw → ℕ → ℕ → M Bool
empty_dir_from zero devsw dp off s = pure true s
empty_dir_from (suc k) devsw dp off s =
    let round = do
      de ← read_entry devsw dp off
      (if not (de.inum == 0) then pure false else empty_dir_from k devsw dp (off + entry_size))
    in if ltb off (at s dp).size then round s else pure true s

unfoldable pub isdirempty : Devsw → ℕ → M Bool
isdirempty devsw dp s = empty_dir_from (rounds (at s dp).size) devsw dp (2 * entry_size) s

abbrev pub dot : List ℕ
dot = 46 ∷ []

abbrev pub dot_dot : List ℕ
dot_dot = 46 ∷ 46 ∷ []

-- The end of sys_unlink at `bad`.
unfoldable pub unlink_bad : ℕ → M (ℤ × Unit {0})
unlink_bad dp = iunlockput dp >> failed_op tt

-- sys_unlink from the writing of an empty entry on.
unfoldable pub clear_entry : Devsw → ℕ → ℕ → ℕ → M (ℤ × Unit {0})
clear_entry devsw dp ip off = do
  r ← writei devsw dp off (replicate entry_size 0)
  (if is_written r then pure tt else fails)
  s ← current
  (if (at s ip).type == t_dir then link_less dp >> iupdate dp else pure tt)
  iunlockput dp
  link_less ip
  iupdate ip
  iunlockput ip
  end_op
  pure (pos 0, tt)

-- sys_unlink once the inode is locked. A count of links below 1 is 0 or, as a short, negative.
unfoldable pub unlink_inode : Devsw → ℕ → ℕ → ℕ → M (ℤ × Unit {0})
unlink_inode devsw dp ip off s =
    let go_on = do
      empty ← (if (at s ip).type == t_dir then isdirempty devsw ip else pure true)
      (if not empty then iunlockput ip >> unlink_bad dp else clear_entry devsw dp ip off)
    in if ltb (at s ip).nlink 1 || leb 32768 (at s ip).nlink then fails s else go_on s

unfoldable pub unlink_name : Devsw → ℕ → List ℕ → M (ℤ × Unit {0})
unlink_name devsw dp name =
    let found = do
      r ← dirlookup devsw dp name
      elim r [ none ↦ unlink_bad dp | some (ip, off) ↦ ilock ip >> unlink_inode devsw dp ip off ]
    in if namecmp name dot || namecmp name dot_dot then unlink_bad dp else found

unfoldable pub unlink_path : Devsw → ℕ → List ℕ → M (ℤ × Unit {0})
unlink_path devsw cwd path = do
  begin_op
  r ← nameiparent devsw cwd path
  elim r [ none ↦ failed_op tt | some (dp, name) ↦ ilock dp >> unlink_name devsw dp name ]

unfoldable pub sys_unlink : Devsw → ℕ → Option (List ℕ) → M (ℤ × Unit {0})
sys_unlink devsw cwd none = pure (negsuc 0, tt)
sys_unlink devsw cwd (some path) = unlink_path devsw cwd path
