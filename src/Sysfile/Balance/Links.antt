-- ===== src/Sysfile/Balance/Links.antt =====
-- sys_link and sys_unlink end the transaction that they begin.
use operating_systems_projec.Base.{
  ℕ, zero, suc, ◌+◌, ◌-◌, ◌*◌, refl, true, ◌||◌, not, Option, none, some, List, ltb, leb, ◌==◌,
  replicate, pos, negsuc,
}
use operating_systems_projec.Fs.{at, t_dir, ◌>>◌, pure, fails, current}
use operating_systems_projec.Fs.Inodes.{iupdate, ilock, iunlock, iput, iunlockput}
use operating_systems_projec.Fs.Content.{Devsw, writei}
use operating_systems_projec.Fs.Dirs.{
  namecmp, entry_size, read_entry, rounds, is_written, dirlookup, dirlink, namei, nameiparent,
}
use operating_systems_projec.Fs.Open.{
  Keeps, Leaves-if, Keeps->>=, Keeps->>, Keeps-if, Keeps-current,
}
use operating_systems_projec.Fs.Open.Inodes.{
  Keeps-iupdate, Keeps-ilock, Keeps-iunlock, Keeps-iput, Keeps-iunlockput,
}
use operating_systems_projec.Fs.Open.Content.{DevswKeeps, Keeps-writei}
use operating_systems_projec.Fs.Open.Dirs.{
  Keeps-read_entry, Keeps-dirlookup, Keeps-dirlink, Keeps-namei, Keeps-nameiparent,
}
use operating_systems_projec.Sysfile.{is_negative}
use operating_systems_projec.Sysfile.Links.{
  link_more, link_less, undo_link, link_into, link_inode, link_paths, sys_link, empty_dir_from,
  isdirempty, dot, dot_dot, unlink_bad, clear_entry, unlink_inode, unlink_name, unlink_path,
  sys_unlink,
}
use operating_systems_projec.Sysfile.Balance.{
  Closes, Closes->>=, Closes-if, Closes-option, Closes-end_op, Keeps-begin_op,
}

Closes-undo_link : (ip : ℕ) → Closes (undo_link ip)
unfolding undo_link
Closes-undo_link ip = Closes->>= (ilock ip) _ (Keeps-ilock ip) (λ a.
    Closes->>= (link_less ip) _ (λ s. refl)
      (λ b. Closes->>= (iupdate ip) _ (Keeps-iupdate ip) (λ c.
        Closes->>= (iunlockput ip) _ (Keeps-iunlockput ip) (λ d. Closes-end_op (negsuc 0, tt)))))

module _ (devsw : Devsw) (d : DevswKeeps devsw) where
  Closes-link_into : (dp : ℕ) (name : List ℕ) (ip : ℕ) → Closes (link_into devsw dp name ip)
  unfolding link_into
  Closes-link_into dp name ip = Closes->>= (ilock dp) _ (Keeps-ilock dp) (λ a.
      Closes->>= current _ Keeps-current (λ s.
        Closes->>= _ _
          (Keeps-if ((at s dp).dev == (at s ip).dev) (dirlink devsw dp name (at s ip).inum)
            (pure (negsuc 0)) (Keeps-dirlink devsw d dp name (at s ip).inum) (λ t. refl))
          (λ r.
            Closes-if (is_negative r) _ _
              (Closes->>= (iunlockput dp) _ (Keeps-iunlockput dp) (λ u. Closes-undo_link ip))
              (Closes->>= (iunlockput dp) _ (Keeps-iunlockput dp)
                (λ u. Closes->>= (iput ip) _ (Keeps-iput ip) (λ v. Closes-end_op (pos 0, tt)))))))

  Closes-link_inode : (cwd : ℕ) (new : List ℕ) (ip : ℕ) → Closes (link_inode devsw cwd new ip)
  unfolding link_inode
  Closes-link_inode cwd new ip s =
      Leaves-if (s.outstanding - 1) ((at s ip).type == t_dir) _ _
        (Closes->>= (iunlockput ip) _ (Keeps-iunlockput ip) (λ u. Closes-end_op (negsuc 0, tt)) s)
        (Closes->>= (link_more ip) _ (λ t. refl)
          (λ a. Closes->>= (iupdate ip) _ (Keeps-iupdate ip) (λ b.
            Closes->>= (iunlock ip) _ (Keeps-iunlock ip) (λ c.
              Closes->>= (nameiparent devsw cwd new) _ (Keeps-nameiparent devsw d cwd new) (λ r.
                Closes-option r _ _ (Closes-undo_link ip) (λ e. Closes-link_into (e.0) (e.1) ip)))))
          s)

  pub Keeps-sys_link : (cwd : ℕ) (old new : Option (List ℕ)) → Keeps (sys_link devsw cwd old new)
  unfolding sys_link link_paths
  Keeps-sys_link cwd none new = λ s. refl
  Keeps-sys_link cwd (some old) none = λ s. refl
  Keeps-sys_link cwd (some old) (some new) = Keeps-begin_op _ (
      Closes->>= (namei devsw cwd old) _ (Keeps-namei devsw d cwd old) (λ r.
        Closes-option r _ _ (Closes-end_op (negsuc 0, tt))
          (λ ip. Closes->>= (ilock ip) _ (Keeps-ilock ip) (λ u. Closes-link_inode cwd new ip))))

  Keeps-empty_dir_from : (k dp off : ℕ) → Keeps (empty_dir_from k devsw dp off)
  unfolding empty_dir_from
  Keeps-empty_dir_from zero dp off = λ s. refl
  Keeps-empty_dir_from (suc k) dp off = λ s.
      Leaves-if s.outstanding (ltb off (at s dp).size) _ _
        (Keeps->>= (read_entry devsw dp off) _ (Keeps-read_entry devsw d dp off)
          (λ de.
            Keeps-if (not (de.inum == 0)) _ _ (λ t. refl)
              (Keeps-empty_dir_from k dp (off + entry_size)))
          s)
        refl

  Keeps-isdirempty : (dp : ℕ) → Keeps (isdirempty devsw dp)
  unfolding isdirempty
  Keeps-isdirempty dp s = Keeps-empty_dir_from (rounds (at s dp).size) dp (2 * entry_size) s

  Closes-clear_entry : (dp ip off : ℕ) → Closes (clear_entry devsw dp ip off)
  unfolding clear_entry
  Closes-clear_entry dp ip off =
      Closes->>= (writei devsw dp off (replicate entry_size 0)) _
        (Keeps-writei devsw d dp off (replicate entry_size 0))
        (λ r. Closes->>= _ _ (Keeps-if (is_written r) (pure tt) fails (λ t. refl) (λ t. tt)) (λ a.
          Closes->>= current _ Keeps-current (λ s.
            Closes->>= _ _
              (Keeps-if ((at s ip).type == t_dir) (link_less dp >> iupdate dp) (pure tt)
                (Keeps->> (link_less dp) (iupdate dp) (λ t. refl) (Keeps-iupdate dp)) (λ t. refl))
              (λ b. Closes->>= (iunlockput dp) _ (Keeps-iunlockput dp) (λ c.
                Closes->>= (link_less ip) _ (λ t. refl)
                  (λ e. Closes->>= (iupdate ip) _ (Keeps-iupdate ip) (λ f.
                    Closes->>= (iunlockput ip) _ (Keeps-iunlockput ip)
                      (λ g. Closes-end_op (pos 0, tt)))))))))

  Closes-unlink_bad : (dp : ℕ) → Closes (unlink_bad dp)
  unfolding unlink_bad
  Closes-unlink_bad dp =
      Closes->>= (iunlockput dp) _ (Keeps-iunlockput dp) (λ u. Closes-end_op (negsuc 0, tt))

  Closes-unlink_inode : (dp ip off : ℕ) → Closes (unlink_inode devsw dp ip off)
  unfolding unlink_inode
  Closes-unlink_inode dp ip off s =
      Leaves-if (s.outstanding - 1) (ltb (at s ip).nlink 1 || leb 32768 (at s ip).nlink) _ _ tt (
        Closes->>= _ _
          (Keeps-if ((at s ip).type == t_dir) (isdirempty devsw ip) (pure true)
            (Keeps-isdirempty ip) (λ t. refl))
          (λ empty.
            Closes-if (not empty) _ _
              (Closes->>= (iunlockput ip) _ (Keeps-iunlockput ip) (λ u. Closes-unlink_bad dp))
              (Closes-clear_entry dp ip off))
          s)

  Closes-unlink_name : (dp : ℕ) (name : List ℕ) → Closes (unlink_name devsw dp name)
  unfolding unlink_name
  Closes-unlink_name dp name =
      Closes-if (namecmp name dot || namecmp name dot_dot) _ _ (Closes-unlink_bad dp) (
        Closes->>= (dirlookup devsw dp name) _ (Keeps-dirlookup devsw d dp name) (λ r.
          Closes-option r _ _ (Closes-unlink_bad dp) (λ e.
            Closes->>= (ilock (e.0)) _ (Keeps-ilock (e.0))
              (λ u. Closes-unlink_inode dp (e.0) (e.1)))))

  pub Keeps-sys_unlink : (cwd : ℕ) (path : Option (List ℕ)) → Keeps (sys_unlink devsw cwd path)
  unfolding sys_unlink unlink_path
  Keeps-sys_unlink cwd none = λ s. refl
  Keeps-sys_unlink cwd (some path) = Keeps-begin_op _ (
      Closes->>= (nameiparent devsw cwd path) _ (Keeps-nameiparent devsw d cwd path) (λ r.
        Closes-option r _ _ (Closes-end_op (negsuc 0, tt)) (λ e.
          Closes->>= (ilock (e.0)) _ (Keeps-ilock (e.0)) (λ u. Closes-unlink_name (e.0) (e.1)))))
