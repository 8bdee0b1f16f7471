-- ===== src/Fs/Inodes.antt =====
-- The inodes of fs.c: the cache of inodes in memory, and their copies on the disk.
pub mod Disk
pub mod Locks
pub mod Cache
use operating_systems_projec.Base.{
  ℕ, zero, suc, ◌+◌, ◌-◌, ◌*◌, ◌/◌, ◌%◌, true, false, ◌&&◌, ◌||◌, not, Option, none, some, List, [],
  ◌∷◌, ltb, leb, ◌==◌, if◌then◌else◌, get_or, set,
}
use operating_systems_projec.Log.{Block}
use operating_systems_projec.Fs.{
  Superblock, Inode, Fs, at, put, ipb, ndirect, nindirect, log_write, M, ◌>>=◌, ◌>>◌, pure, fails,
  current, modify, done, panics, waits,
}
use operating_systems_projec.Fs.Blocks.{bfree, readsb}

unfoldable pub iinit : Fs → Fs
iinit s = record s { sb = readsb s.blocks }

-- The block that contains inode `i`, and the first of the 16 words of its dinode there.
abbrev pub iblock : ℕ → Superblock → ℕ
iblock i sb = i / ipb + sb.inodestart

abbrev pub dinode : ℕ → ℕ
dinode inum = inum % ipb * 16

-- Word `k` of a dinode: type and major, minor and nlink, the size, and the addresses.
abbrev pub dinode_word : Inode → ℕ → ℕ
dinode_word ip k =
    if k == 0
    then ip.type % 65536 + 65536 * (ip.major % 65536)
    else if k == 1
    then ip.minor % 65536 + 65536 * (ip.nlink % 65536)
    else if k == 2
    then ip.size
    else get_or ip.addrs (k - 3) 0

unfoldable pub put_dinode : Block → ℕ → Inode → Block
put_dinode blk o ip w = if leb o w && ltb w (o + 16) then dinode_word ip (w - o) else blk w

unfoldable pub words : Block → ℕ → ℕ → List ℕ
words blk o zero = []
words blk o (suc n) = blk o ∷ words blk (o + 1) n

-- What ilock copies from a dinode at `o`.
unfoldable pub load_dinode : Block → ℕ → Inode → Inode
load_dinode blk o ip = record ip {
  type = blk o % 65536;
  major = blk o / 65536;
  minor = blk (o + 1) % 65536;
  nlink = blk (o + 1) / 65536;
  size = blk (o + 2);
  addrs = words blk (o + 3) (ndirect + 1);
}

unfoldable pub iupdate : ℕ → M (Unit {0})
iupdate i s =
    let ip = at s i in
    let bno = iblock ip.inum s.sb in log_write bno (put_dinode (s.blocks bno) (dinode ip.inum) ip) s

unfoldable pub find_inode : List Inode → ℕ → ℕ → ℕ → Option ℕ
find_inode [] i dev inum = none
find_inode (ip ∷ ips) i dev inum =
    if ltb 0 ip.ref && ip.dev == dev && ip.inum == inum
    then some i
    else find_inode ips (i + 1) dev inum

unfoldable pub find_empty : List Inode → ℕ → Option ℕ
find_empty [] i = none
find_empty (ip ∷ ips) i = if ip.ref == 0 then some i else find_empty ips (i + 1)

unfoldable pub iget : ℕ → ℕ → M ℕ
iget dev inum s = elim (find_inode s.inodes 0 dev inum) [
  | some i ↦ done i (put i (record (at s i) { ref = (at s i).ref + 1 }) s)
  | none ↦ elim (find_empty s.inodes 0) [
    | none ↦ panics
    | some i ↦
        done i (
          put i (record (at s i) { dev = dev; inum = inum; ref = 1; busy = false; valid = false })
            s)
  ]
]

unfoldable pub idup : ℕ → M ℕ
idup i s = done i (put i (record (at s i) { ref = (at s i).ref + 1 }) s)

-- A cleared dinode at `o`, of the type.
unfoldable pub fresh_dinode : Block → ℕ → ℕ → Block
fresh_dinode blk o type w =
    if w == o then type % 65536 else if ltb o w && ltb w (o + 16) then 0 else blk w

-- ialloc's loop from inode `inum` on, with `k` inodes to go; a free inode has type 0.
unfoldable pub ialloc_from : ℕ → ℕ → ℕ → ℕ → M ℕ
ialloc_from zero inum dev type s = fails s
ialloc_from (suc k) inum dev type s =
    let bno = iblock inum s.sb in
    let rest = ialloc_from k (inum + 1) dev type s in
    if not (ltb inum s.sb.ninodes)
    then fails s
    else if s.blocks bno (dinode inum) % 65536 == 0
    then (log_write bno (fresh_dinode (s.blocks bno) (dinode inum) type) >> iget dev inum) s
    else rest

unfoldable pub ialloc : ℕ → ℕ → M ℕ
ialloc dev type s = ialloc_from s.sb.ninodes 1 dev type s

unfoldable pub ilock : ℕ → M (Unit {0})
ilock i s =
    let ip = at s i in
    let bno = iblock ip.inum s.sb in
    let loaded = load_dinode (s.blocks bno) (dinode ip.inum) ip in
    if ltb ip.ref 1
    then panics
    else if ip.busy
    then waits i
    else if ip.valid
    then done tt (put i (record ip { busy = true }) s)
    else if loaded.type == 0
    then panics
    else done tt (put i (record loaded { busy = true; valid = true }) s)

unfoldable pub iunlock : ℕ → M (Unit {0})
iunlock i s =
    let ip = at s i in
    if not ip.busy || ltb ip.ref 1 then panics else done tt (put i (record ip { busy = false }) s)

-- itrunc's loop over the direct addresses, from `k` on, `n` to go.
unfoldable pub free_direct : ℕ → ℕ → ℕ → M (Unit {0})
free_direct i zero k s = done tt s
free_direct i (suc n) k s =
    let addr = get_or (at s i).addrs k 0 in
    let freed =
      bfree addr
      >> modify (λ s'. put i (record (at s' i) { addrs = set (at s' i).addrs k 0 }) s') in
    if addr == 0 then free_direct i n (k + 1) s else (freed >> free_direct i n (k + 1)) s

-- The loop over the entries of the indirect block `b`, from `j` on.
unfoldable pub free_indirect : ℕ → ℕ → ℕ → M (Unit {0})
free_indirect b zero j s = done tt s
free_indirect b (suc n) j s =
    let rest = free_indirect b n (j + 1) in
    if s.blocks b j == 0 then rest s else (bfree (s.blocks b j) >> rest) s

unfoldable pub itrunc : ℕ → M (Unit {0})
itrunc i = do
  free_direct i ndirect 0
  s ← current
  let b = get_or (at s i).addrs ndirect 0
  (if b == 0 then pure tt else (do
    free_indirect b nindirect 0
    bfree b
    modify (λ s'. put i (record (at s' i) { addrs = set (at s' i).addrs ndirect 0 }) s')))
  modify (λ s'. put i (record (at s' i) { size = 0 }) s')
  iupdate i

abbrev pub drop_ref : ℕ → M (Unit {0})
drop_ref i = modify (λ s. put i (record (at s i) { ref = (at s i).ref - 1 }) s)

-- The body of iput for an inode with no links and no other reference.
unfoldable pub free_inode : ℕ → M (Unit {0})
free_inode i = do
  modify (λ s. put i (record (at s i) { busy = true }) s)
  itrunc i
  modify (λ s. put i (record (at s i) { type = 0 }) s)
  iupdate i
  modify (λ s. put i (record (at s i) { busy = false; valid = false }) s)

unfoldable pub iput : ℕ → M (Unit {0})
iput i s =
    let ip = at s i in
    if ip.ref == 1 && ip.valid && ip.nlink == 0
    then (if ip.busy then panics else (free_inode i >> drop_ref i) s)
    else drop_ref i s

unfoldable pub iunlockput : ℕ → M (Unit {0})
iunlockput i = iunlock i >> iput i

pub record Stat : Type 0 where
  pub dev : ℕ
  pub ino : ℕ
  pub type : ℕ
  pub nlink : ℕ
  pub size : ℕ

unfoldable pub stati : Inode → Stat
stati ip = record { dev = ip.dev; ino = ip.inum; type = ip.type; nlink = ip.nlink; size = ip.size }
