-- ===== src/Fs/Open/Dirs.antt =====
-- The operations on directories and paths leave the transactions as they are.
use operating_systems_projec.Base.{
  ℕ, zero, suc, ◌+◌, refl, Bool, true, false, ◌&&◌, not, Option, List, [], ltb, ◌==◌, length,
}
use operating_systems_projec.Fs.{M, at, t_dir, pure, fails, panics}
use operating_systems_projec.Fs.Path.{skipelem}
use operating_systems_projec.Fs.Inodes.{iget, idup, ilock, iunlock, iput, iunlockput}
use operating_systems_projec.Fs.Content.{Devsw, readi, writei}
use operating_systems_projec.Fs.Dirs.{
  namecmp, entry_size, decode, encode, is_entry, read_entry, lookup_from, rounds, dirlookup,
  empty_from, is_written, add_entry, dirlink, is_root, is_last, enter, walk, namex, namei,
  nameiparent,
}
use operating_systems_projec.Fs.Open.{Keeps, Leaves-if, Keeps->>=, Keeps-if, Keeps-option}
use operating_systems_projec.Fs.Open.Inodes.{
  Keeps-iget, Keeps-idup, Keeps-ilock, Keeps-iunlock, Keeps-iput, Keeps-iunlockput,
}
use operating_systems_projec.Fs.Open.Content.{DevswKeeps, Keeps-readi, Keeps-writei}

module _ (devsw : Devsw) (d : DevswKeeps devsw) where
  pub Keeps-read_entry : (dp off : ℕ) → Keeps (read_entry devsw dp off)
  unfolding read_entry
  Keeps-read_entry dp off =
      Keeps->>= (readi devsw dp off entry_size) _ (Keeps-readi devsw d dp off entry_size)
        (λ r. Keeps-if (is_entry r) (pure (decode (r.1))) fails (λ t. refl) (λ s. tt))

  Keeps-lookup_from : (k dp : ℕ) (name : List ℕ) (off : ℕ) → Keeps (lookup_from k devsw dp name off)
  unfolding lookup_from
  Keeps-lookup_from zero dp name off s = refl
  Keeps-lookup_from (suc k) dp name off s =
      Leaves-if s.outstanding (ltb off (at s dp).size) _ _
        (Keeps->>= (read_entry devsw dp off) _ (Keeps-read_entry dp off)
          (λ de. Keeps-if (de.inum == 0) _ _ (Keeps-lookup_from k dp name (off + entry_size)) (
            Keeps-if (namecmp name de.name) _ _ (λ t. refl)
              (Keeps-lookup_from k dp name (off + entry_size))))
          s)
        refl

  pub Keeps-dirlookup : (dp : ℕ) (name : List ℕ) → Keeps (dirlookup devsw dp name)
  unfolding dirlookup
  Keeps-dirlookup dp name s = Leaves-if s.outstanding (not ((at s dp).type == t_dir)) panics _ tt (
      Keeps->>= (lookup_from (rounds (at s dp).size) devsw dp name 0) _
        (Keeps-lookup_from (rounds (at s dp).size) dp name 0)
        (λ r.
          Keeps-option r _ _ (λ t. refl)
            (λ e.
              Keeps->>= (iget (at s dp).dev (e.0)) _ (Keeps-iget (at s dp).dev (e.0))
                (λ ip t. refl)))
        s)

  Keeps-empty_from : (k dp off : ℕ) → Keeps (empty_from k devsw dp off)
  unfolding empty_from
  Keeps-empty_from zero dp off s = refl
  Keeps-empty_from (suc k) dp off s =
      Leaves-if s.outstanding (ltb off (at s dp).size) _ _
        (Keeps->>= (read_entry devsw dp off) _ (Keeps-read_entry dp off)
          (λ de. Keeps-if (de.inum == 0) _ _ (λ t. refl) (Keeps-empty_from k dp (off + entry_size)))
          s)
        refl

  Keeps-add_entry : (dp : ℕ) (name : List ℕ) (inum : ℕ) → Keeps (add_entry devsw dp name inum)
  unfolding add_entry
  Keeps-add_entry dp name inum s =
      Keeps->>= (empty_from (rounds (at s dp).size) devsw dp 0) _
        (Keeps-empty_from (rounds (at s dp).size) dp 0)
        (λ off.
          Keeps->>= (writei devsw dp off (encode inum name)) _
            (Keeps-writei devsw d dp off (encode inum name))
            (λ r. Keeps-if (is_written r) _ fails (λ t. refl) (λ t. tt)))
        s

  pub Keeps-dirlink : (dp : ℕ) (name : List ℕ) (inum : ℕ) → Keeps (dirlink devsw dp name inum)
  unfolding dirlink
  Keeps-dirlink dp name inum = Keeps->>= (dirlookup devsw dp name) _ (Keeps-dirlookup dp name) (λ r.
      Keeps-option r _ _ (Keeps-add_entry dp name inum)
        (λ e. Keeps->>= (iput (e.0)) _ (Keeps-iput (e.0)) (λ u t. refl)))

  Keeps-enter :
      (parent : Bool) (name rest : List ℕ) (ip : ℕ) (next : ℕ → M (Option (ℕ × List ℕ)))
      → ((child : ℕ) → Keeps (next child))
      → Keeps (enter devsw parent name rest ip next)
  unfolding enter
  Keeps-enter parent name rest ip next h s =
      Leaves-if s.outstanding (not ((at s ip).type == t_dir)) _ _
        (Keeps->>= (iunlockput ip) _ (Keeps-iunlockput ip) (λ u t. refl) s)
        (Leaves-if s.outstanding (parent && is_last rest) _ _
          (Keeps->>= (iunlock ip) _ (Keeps-iunlock ip) (λ u t. refl) s)
          (Keeps->>= (dirlookup devsw ip name) _ (Keeps-dirlookup ip name)
            (λ r.
              Keeps-option r _ _ (Keeps->>= (iunlockput ip) _ (Keeps-iunlockput ip) (λ u t. refl))
                (λ e. Keeps->>= (iunlockput ip) _ (Keeps-iunlockput ip) (λ u. h (e.0))))
            s))

  Keeps-walk :
      (f : ℕ) (parent : Bool) (path name : List ℕ) (ip : ℕ)
      → Keeps (walk f devsw parent path name ip)
  unfolding walk
  Keeps-walk zero parent path name ip = λ s. tt
  Keeps-walk (suc f) parent path name ip =
      Keeps-option (skipelem path) _ _
        (Keeps-if parent _ _ (Keeps->>= (iput ip) _ (Keeps-iput ip) (λ u t. refl)) (λ t. refl))
        (λ e. Keeps->>= (ilock ip) _ (Keeps-ilock ip) (λ u.
          Keeps-enter parent (e.0) (e.1) ip _ (λ child. Keeps-walk f parent (e.1) (e.0) child)))

  Keeps-namex : (cwd : ℕ) (path : List ℕ) (parent : Bool) → Keeps (namex devsw cwd path parent)
  unfolding namex
  Keeps-namex cwd path parent =
      Keeps->>= _ _
        (Keeps-if (is_root path) (iget 1 1) (idup cwd) (Keeps-iget 1 1) (Keeps-idup cwd))
        (λ ip. Keeps-walk (length path + 1) parent path [] ip)

  pub Keeps-namei : (cwd : ℕ) (path : List ℕ) → Keeps (namei devsw cwd path)
  unfolding namei
  Keeps-namei cwd path =
      Keeps->>= (namex devsw cwd path false) _ (Keeps-namex cwd path false)
        (λ r. Keeps-option r _ _ (λ t. refl) (λ e t. refl))

  pub Keeps-nameiparent : (cwd : ℕ) (path : List ℕ) → Keeps (nameiparent devsw cwd path)
  unfolding nameiparent
  Keeps-nameiparent cwd path = Keeps-namex cwd path true
