-- ===== src/Mkfs.antt =====
-- mkfs.c: the builder of the file system's image. Its integers are kept as the kernel reads them,
-- since xint and xshort put them into the kernel's byte order. The host's files are given by the
-- pieces that read returns for them; a failure of the host's open, read, write or lseek ends the
-- build.
pub mod Bitmap
mod Tests
use operating_systems_projec.Base.{
  ℕ, zero, suc, ◌+◌, ◌-◌, ◌*◌, ◌/◌, ◌%◌, ◌^◌, ◌≤◌, ◌<◌, min, ◌≡◌, refl, sym, ap, subst, ◌∙◌, ◌≢◌,
  ◌↔◌, ◌⊎◌, inl, inr, Bool, true, false, ◌&&◌, ◌||◌, not, Option, none, some, List, [], ◌∷◌, ◌++◌,
  append-nil, append_assoc, arith, ltb, leb, ◌==◌, if◌then◌else◌, ltb→lt, lt→ltb, leb→le, ==→eq,
  ==_refl, ==_ne, tests, Bool-cases, Option-cases, update, length, get_elem?, get_or, set, take,
  drop, replicate, length-append, length-set, get_elem?-set_self, get_elem?-set_ne, get_or-set_self,
  get_or-set_ne, length-replicate, length-take, take-append-drop, length-drop, get_or-take,
  get_or-drop, All-take, All-drop, All, NotIn, Distinct, Result, ok, panic, ◌>>=◌, >>=-eq-ok, ℤ,
  pos, negsuc,
}
use operating_systems_projec.Log.{Block, logsize}
use operating_systems_projec.Fs.{
  Superblock, Inode, blank, bsize, ipb, ndirect, maxfile, t_dir, t_file,
}
use operating_systems_projec.Fs.Path.{slash}
use operating_systems_projec.Fs.Bytes.{get_byte, put_byte, put_bytes}
use operating_systems_projec.Fs.Blocks.{set_bit}
use operating_systems_projec.Fs.Inodes.{iblock, dinode, put_dinode, load_dinode}
use operating_systems_projec.Fs.Dirs.{encode}
use operating_systems_projec.Bio.{fssize}

abbrev pub ninodes : ℕ
ninodes = 200

abbrev pub nbitmap : ℕ
nbitmap = fssize / (bsize * 8) + 1

abbrev pub ninodeblocks : ℕ
ninodeblocks = ninodes / ipb + 1

abbrev pub nmeta : ℕ
nmeta = 2 + logsize + ninodeblocks + nbitmap

abbrev pub sb : Superblock
sb = record {
  size = fssize;
  nblocks = fssize - nmeta;
  ninodes = ninodes;
  nlog = logsize;
  logstart = 2;
  inodestart = 2 + logsize;
  bmapstart = 2 + logsize + ninodeblocks;
}

-- The image, and the next inode and the next block that are free.
pub record Image : Type 0 where
  pub blocks : ℕ → Block
  pub freeinode : ℕ
  pub freeblock : ℕ

unfoldable pub wsect : ℕ → Block → Image → Image
wsect sec buf m = record m { blocks = update m.blocks sec buf }

unfoldable pub winode : ℕ → Inode → Image → Image
winode inum din m =
    let bn = iblock inum sb in wsect bn (put_dinode (m.blocks bn) (dinode inum) din) m

unfoldable pub rinode : ℕ → Image → Inode
rinode inum m = load_dinode (m.blocks (iblock inum sb)) (dinode inum) blank

unfoldable pub ialloc : ℕ → Image → ℕ × Image
ialloc type m = (
  m.freeinode,
  winode m.freeinode (record blank { type = type; nlink = 1 })
      (record m { freeinode = m.freeinode + 1 }),
)

-- balloc's loop from bit `i` on, `n` rounds.
unfoldable pub set_bits : ℕ → ℕ → Block → Block
set_bits zero i buf = buf
set_bits (suc n) i buf = set_bits n (i + 1) (set_bit buf i)

unfoldable pub balloc : ℕ → Image → Result Image
balloc used m =
    if not (ltb used (bsize * 8))
    then panic
    else ok (wsect sb.bmapstart (set_bits used 0 (λ w. 0)) m)

-- The address `k` of the inode, which takes the next free block if it has none.
unfoldable pub claim : ℕ → Inode × Image → Inode × Image
claim k (din, m) =
    if get_or din.addrs k 0 == 0
    then (
      record din { addrs = set din.addrs k m.freeblock },
      record m { freeblock = m.freeblock + 1 },
    )
    else (din, m)

-- The entry of the indirect block at `ind`, in the same way.
unfoldable pub claim_indirect : ℕ → ℕ → Image → Image
claim_indirect ind k m =
    if m.blocks ind k == 0
    then wsect ind (update (m.blocks ind) k m.freeblock) (record m { freeblock = m.freeblock + 1 })
    else m

-- The block of the file's block number `fbn`, and the inode and the image with it.
unfoldable pub place : ℕ → Inode × Image → ℕ × Inode × Image
place fbn s =
    if ltb fbn ndirect
    then (let (din, m) = claim fbn s in (get_or din.addrs fbn 0, din, m))
    else let (din, m) = claim ndirect s in
      let ind = get_or din.addrs ndirect 0 in
      let m' = claim_indirect ind (fbn - ndirect) m in (m'.blocks ind (fbn - ndirect), din, m')

-- iappend's loop, on fuel, over the bytes that are left; each round fills a block.
unfoldable pub append_from : ℕ → ℕ → List ℕ → Inode × Image → Result (ℕ × Inode × Image)
append_from zero off bytes s = ok (off, s.0, s.1)
append_from (suc f) off [] s = ok (off, s.0, s.1)
append_from (suc f) off (c ∷ bytes) s =
    let fbn = off / bsize in
    let (x, din, m) = place fbn s in
    let n1 = min (length (c ∷ bytes)) ((fbn + 1) * bsize - off) in
    let buf = put_bytes (m.blocks x) (off - fbn * bsize) (take n1 (c ∷ bytes)) in
    let rest = append_from f (off + n1) (drop n1 (c ∷ bytes)) (din, wsect x buf m) in
    if leb maxfile fbn then panic else rest

unfoldable pub iappend : ℕ → List ℕ → Image → Result Image
iappend inum bytes m = do
  let din = rinode inum m
  (off, din', m') ← append_from (length bytes) din.size bytes (din, m)
  ok (winode inum (record din' { size = off }) m')

unfoldable pub iappend_all : ℕ → List (List ℕ) → Image → Result Image
iappend_all inum [] m = ok m
iappend_all inum (bytes ∷ pieces) m = iappend inum bytes m >>= iappend_all inum pieces

unfoldable pub has_slash : List ℕ → Bool
has_slash [] = false
has_slash (c ∷ name) = c == slash || has_slash name

-- A leading `_` is left away.
abbrev pub file_name : List ℕ → List ℕ
file_name [] = []
file_name (c ∷ name) = if c == b'_' then name else c ∷ name

-- The loop over the files, by their names and pieces; `root` is the root directory.
unfoldable pub add_files : ℕ → List (List ℕ × List (List ℕ)) → Image → Result Image
add_files root [] m = ok m
add_files root ((name, pieces) ∷ files) m = if has_slash name then panic else do
  let (inum, m1) = ialloc t_file m
  m2 ← iappend root (encode inum (file_name name)) m1
  m3 ← iappend_all inum pieces m2
  add_files root files m3

unfoldable pub round_root : ℕ → Image → Image
round_root root m =
    let din = rinode root m in winode root (record din { size = (din.size / bsize + 1) * bsize }) m

-- The zeroed image with its superblock.
unfoldable pub fresh : Image
fresh =
    wsect 1
      (λ w.
        get_or
          (sb.size ∷ sb.nblocks ∷ sb.ninodes ∷ sb.nlog ∷ sb.logstart ∷ sb.inodestart ∷ sb.bmapstart
            ∷ [])
          w 0)
      (record { blocks = λ b w. 0; freeinode = 1; freeblock = nmeta })

-- The root's entries are `.` and `..`, which are itself; ROOTINO is 1.
unfoldable pub mkfs : List (List ℕ × List (List ℕ)) → Result Image
mkfs files =
    let (root, m) = ialloc t_dir fresh in
    if not (root == 1) then panic else do
      m1 ← iappend root (encode root (b'.' ∷ [])) m
      m2 ← iappend root (encode root (b'.' ∷ b'.' ∷ [])) m1
      m3 ← add_files root files m2
      let m4 = round_root root m3
      balloc m4.freeblock m4
