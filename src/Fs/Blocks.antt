-- ===== src/Fs/Blocks.antt =====
-- The blocks of fs.c: readsb, bzero, and the bitmap of free blocks.
pub mod Bitmap
pub mod Alloc
pub mod Free
use operating_systems_projec.Base.{
  ℕ, zero, suc, ◌+◌, ◌-◌, ◌*◌, ◌/◌, ◌%◌, ◌^◌, ◌≤◌, ◌<◌, min, ◌≡◌, refl, sym, ap, subst, ◌∙◌, ◌≢◌,
  ◌↔◌, ◌⊎◌, inl, inr, Bool, true, false, ◌&&◌, ◌||◌, not, Option, none, some, List, [], ◌∷◌, ◌++◌,
  append-nil, append_assoc, arith, ltb, leb, ◌==◌, if◌then◌else◌, ltb→lt, lt→ltb, leb→le, ==→eq,
  ==_refl, ==_ne, tests, Bool-cases, Option-cases, update, length, get_elem?, get_or, set, take,
  drop, replicate, length-append, length-set, get_elem?-set_self, get_elem?-set_ne, get_or-set_self,
  get_or-set_ne, length-replicate, length-take, take-append-drop, length-drop, get_or-take,
  get_or-drop, All-take, All-drop, All, NotIn, Distinct, Result, ok, panic, ◌>>=◌, >>=-eq-ok, ℤ,
  pos, negsuc,
}
use Prim.Native.Nat.{bit_and, bit_or}
use operating_systems_projec.Log.{Block}
use operating_systems_projec.Fs.{
  Superblock, bpb, log_write, M, ◌>>◌, pure, fails, modify, done, panics,
}
use operating_systems_projec.Fs.Bytes.{get_byte, put_byte}

-- The superblock is block 1.
unfoldable pub readsb : (ℕ → Block) → Superblock
readsb blocks =
    let w = blocks 1 in
    record {
      size = w 0;
      nblocks = w 1;
      ninodes = w 2;
      nlog = w 3;
      logstart = w 4;
      inodestart = w 5;
      bmapstart = w 6;
    }

unfoldable pub bzero : ℕ → M (Unit {0})
bzero bno = log_write bno (λ w. 0)

-- The block of the bitmap that has the bit of block `b`.
abbrev pub bblock : ℕ → Superblock → ℕ
bblock b sb = b / bpb + sb.bmapstart

-- `data[bi/8] & m`, with m = 1 << (bi % 8).
unfoldable pub bit_of : Block → ℕ → ℕ
bit_of blk bi = bit_and (get_byte blk (bi / 8)) (2 ^ (bi % 8))

unfoldable pub set_bit : Block → ℕ → Block
set_bit blk bi = put_byte blk (bi / 8) (bit_or (get_byte blk (bi / 8)) (2 ^ (bi % 8)))

-- `data[bi/8] &= ~m`, in the byte.
unfoldable pub clear_bit : Block → ℕ → Block
clear_bit blk bi = put_byte blk (bi / 8) (bit_and (get_byte blk (bi / 8)) (255 - 2 ^ (bi % 8)))

-- balloc's inner loop: the first free block from bit `bi` on, with `k` bits to go in this block.
unfoldable pub free_bit : Block → ℕ → ℕ → ℕ → ℕ → Option ℕ
free_bit blk size b zero bi = none
free_bit blk size b (suc k) bi =
    let rest = free_bit blk size b k (bi + 1) in
    if not (ltb (b + bi) size) then none else if bit_of blk bi == 0 then some bi else rest

unfoldable pub take_block : ℕ → ℕ → M ℕ
take_block b bi s =
    let bno = bblock b s.sb in
    (log_write bno (set_bit (s.blocks bno) bi) >> bzero (b + bi) >> pure (b + bi)) s

-- balloc's outer loop, from bit `b` on, with `k` blocks of the bitmap to go.
unfoldable pub balloc_from : ℕ → ℕ → M ℕ
balloc_from zero b s = fails s
balloc_from (suc k) b s =
    let rest = balloc_from k (b + bpb) s in
    if not (ltb b s.sb.size)
    then fails s
    else elim (free_bit (s.blocks (bblock b s.sb)) s.sb.size b bpb 0) [
      | some bi ↦ take_block b bi s
      | none ↦ rest
    ]

unfoldable pub balloc : M ℕ
balloc s = balloc_from (s.sb.size / bpb + 1) 0 s

-- bfree reads the superblock again.
unfoldable pub bfree : ℕ → M (Unit {0})
bfree b s =
    let sb = readsb s.blocks in
    let bno = bblock b sb in
    let bi = b % bpb in
    if bit_of (s.blocks bno) bi == 0
    then panics
    else log_write bno (clear_bit (s.blocks bno) bi) (record s { sb = sb })
