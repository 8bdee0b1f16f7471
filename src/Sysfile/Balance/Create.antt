-- ===== src/Sysfile/Balance/Create.antt =====
-- create, sys_mkdir, sys_mknod and sys_chdir in their transactions.
use operating_systems_projec.Base.{
  ℕ, ◌+◌, ◌-◌, ◌%◌, refl, ◌&&◌, not, Option, none, some, List, ◌==◌, ℤ, pos, negsuc,
}
use operating_systems_projec.Fs.{at, put, t_dir, t_file, t_dev, pure, fails, current, modify}
use operating_systems_projec.Fs.Inodes.{iupdate, ilock, iunlock, iput, iunlockput, ialloc}
use operating_systems_projec.Fs.Content.{Devsw}
use operating_systems_projec.Fs.Dirs.{dirlookup, dirlink, namei, nameiparent}
use operating_systems_projec.Fs.Open.{
  Keeps, Leaves-if, Keeps->>=, Keeps-if, Keeps-option, Keeps-current,
}
use operating_systems_projec.Fs.Open.Inodes.{
  Keeps-iupdate, Keeps-ilock, Keeps-iunlock, Keeps-iput, Keeps-iunlockput, Keeps-ialloc,
}
use operating_systems_projec.Fs.Open.Content.{DevswKeeps}
use operating_systems_projec.Fs.Open.Dirs.{
  Keeps-dirlookup, Keeps-dirlink, Keeps-namei, Keeps-nameiparent,
}
use operating_systems_projec.Sysfile.{is_negative}
use operating_systems_projec.Sysfile.Links.{dot, dot_dot}
use operating_systems_projec.Sysfile.Create.{
  must_link, create_dots, create_new, create_found, create_in, create, open_found, put_created,
  sys_mkdir, to_short, create_device, sys_mknod, change_dir, sys_chdir,
}
use operating_systems_projec.Sysfile.Balance.{
  Closes, Closes->>=, Closes-option, Closes-end_op, Keeps-begin_op,
}

module _ (devsw : Devsw) (d : DevswKeeps devsw) where
  Keeps-must_link : (dp : ℕ) (name : List ℕ) (inum : ℕ) → Keeps (must_link devsw dp name inum)
  Keeps-must_link dp name inum =
      Keeps->>= (dirlink devsw dp name inum) _ (Keeps-dirlink devsw d dp name inum)
        (λ r. Keeps-if (is_negative r) fails (pure tt) (λ t. tt) (λ t. refl))

  Keeps-create_dots : (dp ip : ℕ) → Keeps (create_dots devsw dp ip)
  unfolding create_dots
  Keeps-create_dots dp ip =
      Keeps->>=
        (modify (λ s. put dp (record (at s dp) { nlink = ((at s dp).nlink + 1) % 65536 }) s)) _
        (λ t. refl)
        (λ a. Keeps->>= (iupdate dp) _ (Keeps-iupdate dp) (λ b.
          Keeps->>= current _ Keeps-current (λ s.
            Keeps->>= (must_link devsw ip dot (at s ip).inum) _
              (Keeps-must_link ip dot (at s ip).inum)
              (λ c.
                Keeps->>= current _ Keeps-current
                  (λ s'. Keeps-must_link ip dot_dot (at s' dp).inum)))))

  Keeps-create_new :
      (dp : ℕ) (name : List ℕ) (type major minor : ℕ)
      → Keeps (create_new devsw dp name type major minor)
  unfolding create_new
  Keeps-create_new dp name type major minor = Keeps->>= current _ Keeps-current (λ s.
      Keeps->>= (ialloc (at s dp).dev type) _ (Keeps-ialloc (at s dp).dev type) (λ ip.
        Keeps->>= (ilock ip) _ (Keeps-ilock ip) (λ a.
          Keeps->>=
            (modify (λ t. put ip (record (at t ip) { major = major; minor = minor; nlink = 1 }) t))
            _ (λ t. refl)
            (λ b. Keeps->>= (iupdate ip) _ (Keeps-iupdate ip) (λ c.
              Keeps->>= _ _
                (Keeps-if (type == t_dir) (create_dots devsw dp ip) (pure tt)
                  (Keeps-create_dots dp ip) (λ t. refl))
                (λ e. Keeps->>= current _ Keeps-current (λ s'.
                  Keeps->>= (must_link devsw dp name (at s' ip).inum) _
                    (Keeps-must_link dp name (at s' ip).inum)
                    (λ f.
                      Keeps->>= (iunlockput dp) (λ g. pure (some ip)) (Keeps-iunlockput dp)
                        (λ g t. refl)))))))))

  Keeps-create_found : (dp ip type : ℕ) → Keeps (create_found dp ip type)
  unfolding create_found
  Keeps-create_found dp ip type = Keeps->>= (iunlockput dp) _ (Keeps-iunlockput dp) (λ a.
      Keeps->>= (ilock ip) _ (Keeps-ilock ip) (λ b. Keeps->>= current _ Keeps-current (λ s.
        Keeps-if (type == t_file && (at s ip).type == t_file) _ _ (λ t. refl)
          (Keeps->>= (iunlockput ip) _ (Keeps-iunlockput ip) (λ c t. refl)))))

  pub Keeps-create :
      (cwd : ℕ) (path : List ℕ) (type major minor : ℕ)
      → Keeps (create devsw cwd path type major minor)
  unfolding create create_in
  Keeps-create cwd path type major minor =
      Keeps->>= (nameiparent devsw cwd path) _ (Keeps-nameiparent devsw d cwd path) (λ r.
        Keeps-option r _ _ (λ t. refl)
          (λ e. Keeps->>= (ilock (e.0)) _ (Keeps-ilock (e.0)) (λ a.
            Keeps->>= (dirlookup devsw (e.0) (e.1)) _ (Keeps-dirlookup devsw d (e.0) (e.1)) (λ q.
              Keeps-option q _ _ (Keeps-create_new (e.0) (e.1) type major minor)
                (λ f. Keeps-create_found (e.0) (f.0) type)))))

  pub Keeps-open_found :
      (cwd : ℕ) (path : List ℕ) (omode : ℕ) → Keeps (open_found devsw cwd path omode)
  unfolding open_found
  Keeps-open_found cwd path omode =
      Keeps->>= (namei devsw cwd path) _ (Keeps-namei devsw d cwd path) (λ r.
        Keeps-option r _ _ (λ t. refl)
          (λ ip. Keeps->>= (ilock ip) _ (Keeps-ilock ip) (λ a.
            Keeps->>= current _ Keeps-current (λ s.
              Keeps-if ((at s ip).type == t_dir && not (omode == 0)) _ _
                (Keeps->>= (iunlockput ip) _ (Keeps-iunlockput ip) (λ c t. refl)) (λ t. refl)))))

  Closes-put_created : (r : Option ℕ) → Closes (put_created r)
  unfolding put_created
  Closes-put_created none = Closes-end_op (negsuc 0, tt)
  Closes-put_created (some ip) =
      Closes->>= (iunlockput ip) _ (Keeps-iunlockput ip) (λ u. Closes-end_op (pos 0, tt))

  pub Keeps-sys_mkdir : (cwd : ℕ) (path : Option (List ℕ)) → Keeps (sys_mkdir devsw cwd path)
  unfolding sys_mkdir
  Keeps-sys_mkdir cwd path = Keeps-begin_op _ (
      Closes->>= _ _
        (Keeps-option path (pure none) (λ p. create devsw cwd p t_dir 0 0) (λ t. refl)
          (λ p. Keeps-create cwd p t_dir 0 0))
        Closes-put_created)

  Keeps-create_device :
      (cwd : ℕ) (path : Option (List ℕ)) (major minor : Option ℤ)
      → Keeps (create_device devsw cwd path major minor)
  unfolding create_device
  Keeps-create_device cwd none major minor = λ s. refl
  Keeps-create_device cwd (some path) none minor = λ s. refl
  Keeps-create_device cwd (some path) (some major) none = λ s. refl
  Keeps-create_device cwd (some path) (some major) (some minor) =
      Keeps-create cwd path t_dev (to_short major) (to_short minor)

  pub Keeps-sys_mknod :
      (cwd : ℕ) (path : Option (List ℕ)) (major minor : Option ℤ)
      → Keeps (sys_mknod devsw cwd path major minor)
  unfolding sys_mknod
  Keeps-sys_mknod cwd path major minor = Keeps-begin_op _ (
      Closes->>= (create_device devsw cwd path major minor) _
        (Keeps-create_device cwd path major minor) Closes-put_created)

  Closes-change_dir : (cwd ip : ℕ) → Closes (change_dir cwd ip)
  unfolding change_dir
  Closes-change_dir cwd ip s =
      Leaves-if (s.outstanding - 1) (not ((at s ip).type == t_dir)) _ _
        (Closes->>= (iunlockput ip) _ (Keeps-iunlockput ip) (λ u. Closes-end_op (negsuc 0, cwd)) s)
        (Closes->>= (iunlock ip) _ (Keeps-iunlock ip)
          (λ a. Closes->>= (iput cwd) _ (Keeps-iput cwd) (λ b. Closes-end_op (pos 0, ip))) s)

  pub Keeps-sys_chdir : (cwd : ℕ) (path : Option (List ℕ)) → Keeps (sys_chdir devsw cwd path)
  unfolding sys_chdir
  Keeps-sys_chdir cwd path = Keeps-begin_op _ (
      Closes->>= _ _
        (Keeps-option path (pure none) (λ p. namei devsw cwd p) (λ t. refl)
          (λ p. Keeps-namei devsw d cwd p))
        (λ r.
          Closes-option r _ _ (Closes-end_op (negsuc 0, cwd))
            (λ ip. Closes->>= (ilock ip) _ (Keeps-ilock ip) (λ u. Closes-change_dir cwd ip))))
