-- ===== src/Fs/Open/Inodes.antt =====
-- The operations on inodes leave the transactions as they are.
use operating_systems_projec.Base.{
  ℕ, zero, suc, ◌+◌, ◌%◌, refl, ◌&&◌, ◌||◌, not, ltb, ◌==◌, get_or, set,
}
use operating_systems_projec.Fs.{at, put, ◌>>◌, modify, panics, waits, log_write}
use operating_systems_projec.Fs.Blocks.{bfree}
use operating_systems_projec.Fs.Inodes.{
  iblock, dinode, fresh_dinode, load_dinode, find_inode, find_empty, iupdate, iget, idup,
  ialloc_from, ialloc, ilock, iunlock, free_direct, free_indirect, itrunc, drop_ref, free_inode,
  iput, iunlockput,
}
use operating_systems_projec.Fs.Open.{
  Keeps-current, Leaves-option, Keeps, Leaves-if, Keeps->>=, Keeps->>, Keeps-if, Keeps-modify,
  Keeps-bfree, Keeps-log_write,
}

pub Keeps-iupdate : (i : ℕ) → Keeps (iupdate i)
unfolding iupdate
Keeps-iupdate i s = Keeps-log_write _ _ s

pub Keeps-idup : (i : ℕ) → Keeps (idup i)
unfolding idup
Keeps-idup i s = refl

pub Keeps-iget : (dev inum : ℕ) → Keeps (iget dev inum)
unfolding iget
Keeps-iget dev inum s =
    Leaves-option s.outstanding (find_inode s.inodes 0 dev inum) _ _
      (Leaves-option s.outstanding (find_empty s.inodes 0) panics _ tt (λ i. refl)) (λ i. refl)

Keeps-ialloc_from : (k inum dev type : ℕ) → Keeps (ialloc_from k inum dev type)
unfolding ialloc_from
Keeps-ialloc_from zero inum dev type s = tt
Keeps-ialloc_from (suc k) inum dev type s =
    let bno = iblock inum s.sb in
    Leaves-if s.outstanding (not (ltb inum s.sb.ninodes)) panics _ tt (
      Leaves-if s.outstanding (s.blocks bno (dinode inum) % 65536 == 0) _ _
        (Keeps->> (log_write bno (fresh_dinode (s.blocks bno) (dinode inum) type)) (iget dev inum)
          (Keeps-log_write bno (fresh_dinode (s.blocks bno) (dinode inum) type))
          (Keeps-iget dev inum) s)
        (Keeps-ialloc_from k (inum + 1) dev type s))

pub Keeps-ialloc : (dev type : ℕ) → Keeps (ialloc dev type)
unfolding ialloc
Keeps-ialloc dev type s = Keeps-ialloc_from s.sb.ninodes 1 dev type s

pub Keeps-ilock : (i : ℕ) → Keeps (ilock i)
unfolding ilock
Keeps-ilock i s = Leaves-if s.outstanding (ltb (at s i).ref 1) panics _ tt (
    Leaves-if s.outstanding (at s i).busy (waits i) _ tt (
      Leaves-if s.outstanding (at s i).valid _ _ refl (
        Leaves-if s.outstanding
          ((load_dinode (s.blocks (iblock (at s i).inum s.sb)) (dinode (at s i).inum) (at s i)).type
            == 0)
          panics _ tt refl)))

pub Keeps-iunlock : (i : ℕ) → Keeps (iunlock i)
unfolding iunlock
Keeps-iunlock i s =
    Leaves-if s.outstanding (not (at s i).busy || ltb (at s i).ref 1) panics _ tt refl

pub Keeps-free_direct : (i n k : ℕ) → Keeps (free_direct i n k)
unfolding free_direct
Keeps-free_direct i zero k s = refl
Keeps-free_direct i (suc n) k s =
    let addr = get_or (at s i).addrs k 0 in
    let clear = modify (λ s'. put i (record (at s' i) { addrs = set (at s' i).addrs k 0 }) s') in
    Leaves-if s.outstanding (addr == 0) _ _ (Keeps-free_direct i n (k + 1) s) (
      Keeps->> (bfree addr >> clear) (free_direct i n (k + 1))
        (Keeps->> (bfree addr) clear (Keeps-bfree addr) (λ t. refl)) (Keeps-free_direct i n (k + 1))
        s)

Keeps-free_indirect : (b n j : ℕ) → Keeps (free_indirect b n j)
unfolding free_indirect
Keeps-free_indirect b zero j s = refl
Keeps-free_indirect b (suc n) j s =
    Leaves-if s.outstanding (s.blocks b j == 0) _ _ (Keeps-free_indirect b n (j + 1) s) (
      Keeps->> (bfree (s.blocks b j)) (free_indirect b n (j + 1)) (Keeps-bfree (s.blocks b j))
        (Keeps-free_indirect b n (j + 1)) s)

pub Keeps-itrunc : (i : ℕ) → Keeps (itrunc i)
unfolding itrunc
Keeps-itrunc i =
    search
      (
        Keeps->>=, Keeps->>, Keeps-if, Keeps-free_direct, Keeps-free_indirect, Keeps-bfree,
        Keeps-iupdate, Keeps-current,
      )
      depth 12

Keeps-free_inode : (i : ℕ) → Keeps (free_inode i)
unfolding free_inode
Keeps-free_inode i = search (Keeps->>=, Keeps-itrunc, Keeps-iupdate, Keeps-modify)

pub Keeps-iput : (i : ℕ) → Keeps (iput i)
unfolding iput
Keeps-iput i s =
    Leaves-if s.outstanding ((at s i).ref == 1 && (at s i).valid && (at s i).nlink == 0) _ _
      (Leaves-if s.outstanding (at s i).busy panics _ tt
        (Keeps->> (free_inode i) (drop_ref i) (Keeps-free_inode i) (λ t. refl) s))
      refl

pub Keeps-iunlockput : (i : ℕ) → Keeps (iunlockput i)
unfolding iunlockput
Keeps-iunlockput i = Keeps->> (iunlock i) (iput i) (Keeps-iunlock i) (Keeps-iput i)
