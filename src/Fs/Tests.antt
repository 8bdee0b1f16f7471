-- ===== src/Fs/Tests.antt =====
-- Runs of the file system's operations, and a disk to which its theorems apply.
use operating_systems_projec.Base.{
  ℕ, zero, suc, ◌+◌, ◌*◌, ◌≤◌, ◌<◌, ◌≡◌, refl, sym, subst, ◌∙◌, ◌≢◌, ◌↔◌, ◌⊎◌, true, false, none,
  some, List, [], ◌∷◌, arith, ◌==◌, if◌then◌else◌, length, get_or, take, replicate, pos, negsuc,
}
use operating_systems_projec.Log.{Block}
use operating_systems_projec.Fs.{
  put, dirsiz, HasRoom, log_write, lh_n, is_logged, Superblock, Inode, Fs, at, blank, done, panics,
  bsize,
}
use operating_systems_projec.Fs.Bytes.{get_byte, byte_of, get_bytes}
use operating_systems_projec.Fs.Blocks.{
  readsb, bblock, bit_of, free_bit, take_block, balloc_from, balloc, bzero, bfree,
}
use operating_systems_projec.Fs.Blocks.Alloc.{free, allocated, Allocates, balloc_lem}
use operating_systems_projec.Fs.Blocks.Free.{Layout, FreedAgain, freed, bfree_lem, balloc-bfree}
use operating_systems_projec.Fs.Inodes.{iblock, dinode, load_dinode, iupdate, ilock, iget}
use operating_systems_projec.Fs.Inodes.Cache.{IsFor, Unique, Igets, iget-Unique}
use operating_systems_projec.Fs.Inodes.Disk.{IsStorable, copied, locked, iupdate-ilock}
use operating_systems_projec.Fs.Content.{Devsw, readi, read_from, bmap, direct_block, writei, word}
use operating_systems_projec.Fs.Content.Reads.{addr_of, IsMapped, content, slice, IsFile, readi_lem}
use operating_systems_projec.Fs.Content.Places.{IsPlaced}
use operating_systems_projec.Fs.Content.Grow.{HomeApart, Written, writei_lem}
use operating_systems_projec.Fs.Content.RoundTrip.{writei-readi}
use operating_systems_projec.Fs.Dirs.{namecmp, encode, decode}
use operating_systems_projec.Fs.Dirs.Names.{namecmp-encode}
use operating_systems_projec.Fs.Inodes.Locks.{Holds, ilock-Holds}
use operating_systems_projec.Fs.Path.{skipelem, take_elem, skip_slashes, split_elem, slash}

-- "///a//bb" gives "a" and "bb".
two_elements :
    skipelem (slash ∷ slash ∷ slash ∷ 97 ∷ slash ∷ slash ∷ 98 ∷ 98 ∷ [])
    ≡ some (97 ∷ [], 98 ∷ 98 ∷ [])
unfolding skipelem take_elem skip_slashes split_elem
two_elements = refl

only_slashes : skipelem (slash ∷ slash ∷ []) ≡ none
unfolding skipelem take_elem skip_slashes
only_slashes = refl

-- A disk of 6 blocks: the start, the superblock, one of inodes, the bitmap, and two of data; the
-- last is free. Inode 1 has the 3 bytes at the start of block 4.
abbrev sample_sb : Superblock
sample_sb = record {
  size = 6;
  nblocks = 2;
  ninodes = 8;
  nlog = 30;
  logstart = 2;
  inodestart = 2;
  bmapstart = 3;
}

abbrev sample_blocks : ℕ → Block
sample_blocks b w =
    if b == 1
    then get_or (6 ∷ 2 ∷ 8 ∷ 30 ∷ 2 ∷ 2 ∷ 3 ∷ []) w 0
    else if b == 3
    then get_or (31 ∷ []) w 0
    else if b == 4
    then get_or (6513249 ∷ []) w 0
    else 0

abbrev sample_inode : Inode
sample_inode = record {
  dev = 1;
  inum = 1;
  ref = 1;
  busy = false;
  valid = true;
  type = 2;
  major = 0;
  minor = 0;
  nlink = 1;
  size = 3;
  addrs = 4 ∷ replicate 12 0;
}

abbrev sample : Fs
sample = record {
  sb = sample_sb;
  blocks = sample_blocks;
  logged = [];
  inodes = sample_inode ∷ blank ∷ [];
  outstanding = 1;
}

sample-HasRoom : (k : ℕ) → k ≤ 29 → HasRoom k sample
unfolding lh_n
sample-HasRoom k h = record {
  open_op = omega arith;
  header = omega (arith, h);
  space = omega (arith, h);
}

abbrev no_devices : Devsw
no_devices = record { read = λ n. none; write = λ n. none }

balloc_run : balloc sample ≡ done 5 (allocated 5 sample)
unfolding balloc balloc_from take_block free_bit bit_of get_byte byte_of bzero log_write lh_n
    is_logged
balloc_run = refl

sample-free : free sample 5 ≡ true
unfolding bit_of get_byte byte_of
sample-free = refl

readi_run : readi no_devices 0 1 9 sample ≡ done (pos 2, 98 ∷ 99 ∷ []) sample
unfolding readi read_from bmap direct_block get_bytes get_byte byte_of
readi_run = refl

sample-Layout : Layout sample
unfolding readsb bit_of get_byte byte_of
sample-Layout = record {
  same = refl;
  below = omega arith;
  super_taken = refl;
  bitmap_taken = λ c h.
      let e : bblock c sample_sb ≡ 3 = omega (arith, h) in
      subst (λ b. free sample b ≡ false) (sym e) refl;
}

balloc_lem_example : Allocates sample 0 (balloc sample)
balloc_lem_example = balloc_lem sample (sample-HasRoom 2 (omega arith))

balloc-bfree_example : FreedAgain sample 5 (allocated 5 sample)
balloc-bfree_example =
    balloc-bfree sample (allocated 5 sample) 5 (sample-HasRoom 3 (omega arith)) sample-Layout
      balloc_run

-- Block 4 is taken.
bfree_lem_example :
    ((free sample 4 ≡ true) × (bfree 4 sample ≡ panics))
    ⊎ ((free sample 4 ≡ false)
        × (bfree 4 sample ≡ done tt (freed 4 sample))
        × ((c : ℕ) → free (freed 4 sample) c ≡ (if 4 == c then true else free sample c)))
bfree_lem_example = bfree_lem sample 4 (sample-HasRoom 1 (omega arith)) (sample-Layout.same)

used_slot : (i dev inum : ℕ) → IsFor dev inum (at sample i) → i ≡ 0
used_slot zero dev inum u = refl
used_slot (suc zero) dev inum u = absurd (omega (arith, u.used))
used_slot (suc (suc i)) dev inum u = absurd (omega (arith, u.used))

sample-Unique : Unique sample
sample-Unique i j dev inum u v = used_slot i dev inum u ∙ sym (used_slot j dev inum v)

iget-Unique_example : Igets sample 1 7 (iget 1 7 sample)
iget-Unique_example = iget-Unique sample 1 7 sample-Unique

sample-IsStorable : IsStorable sample_inode
sample-IsStorable = record {
  type_lt = omega arith;
  major_lt = omega arith;
  minor_lt = omega arith;
  nlink_lt = omega arith;
  addrs_length = refl;
}

iupdate-ilock_example :
    (s' : Fs) × (iupdate 0 sample ≡ done tt s')
    × ((j : ℕ)
        → (at s' j).inum ≡ 1
        → 0 < (at s' j).ref
        → (at s' j).busy ≡ false
        → (at s' j).valid ≡ false
        → ilock j s' ≡ done tt (locked j (copied sample_inode (at s' j)) s'))
    × ((n : ℕ) (jp : Inode)
        → n ≢ 1
        → load_dinode (s'.blocks (iblock n sample_sb)) (dinode n) jp
          ≡ load_dinode (sample_blocks (iblock n sample_sb)) (dinode n) jp)
iupdate-ilock_example =
    iupdate-ilock sample 0 (sample-HasRoom 1 (omega arith)) sample-IsStorable
      (λ e. absurd (omega (arith, e)))

one_block : (k : ℕ) → k * bsize < 512 → k ≡ 0
one_block k h = omega (arith, h)

sample-IsMapped : (k : ℕ) → k * bsize < 512 → IsMapped sample 0 k
sample-IsMapped k h = subst (IsMapped sample 0) (sym (one_block k h)) (record {
  in_place = λ e. absurd (omega (arith, e));
  indirect = λ l. absurd (omega (arith, l));
})

sample-IsFile : IsFile sample 0
sample-IsFile = record {
  no_device = λ e. absurd (omega (arith, e));
  size_le = omega arith;
  mapped = λ k h. sample-IsMapped k (omega (arith, h));
}

readi_lem_example :
    ((3 < 1) ⊎ (word ≤ 1 + 9) → readi no_devices 0 1 9 sample ≡ done (negsuc 0, []) sample)
    × (1 ≤ 3
        → 1 + 9 < word
        → readi no_devices 0 1 9 sample ≡ done (pos 2, slice (content sample 0) 1 2) sample)
readi_lem_example = readi_lem no_devices sample 0 1 9 (omega arith) (omega arith) sample-IsFile

sample-IsPlaced : IsPlaced sample 0 512
sample-IsPlaced = record {
  mapped = sample-IsMapped;
  apart = λ k l hk hl e. one_block k hk ∙ sym (one_block l hl);
  table_apart = λ k h.
      subst (λ j. addr_of sample 0 j ≢ 0) (sym (one_block k h)) (λ e. absurd (omega (arith, e)));
}

sample-HomeApart : HomeApart sample 0 512
sample-HomeApart = record {
  home = λ k h.
      subst (λ j. addr_of sample 0 j ≢ 2) (sym (one_block k h)) (λ e. absurd (omega (arith, e)));
  table_home = λ e. absurd (omega (arith, e));
}

not_device : (at sample 0).type ≢ 3
not_device e = absurd (omega (arith, e))

writei_lem_example :
    (t : Fs) × (writei no_devices 0 2 (7 ∷ 8 ∷ []) sample ≡ done (pos 2) t)
    × Written sample t 0 2 (7 ∷ 8 ∷ []) 512
writei_lem_example =
    writei_lem no_devices sample 0 2 512 1 (7 ∷ 8 ∷ []) (sample-HasRoom 2 (omega arith))
      (omega arith) (omega arith) not_device (omega arith) (omega arith) (omega arith)
      (omega arith, (omega arith, tt)) sample-IsPlaced sample-HomeApart

writei-readi_example :
    (t : Fs) × (writei no_devices 0 2 (7 ∷ 8 ∷ []) sample ≡ done (pos 2) t)
    × (readi no_devices 0 2 2 t ≡ done (pos 2, 7 ∷ 8 ∷ []) t)
writei-readi_example =
    writei-readi no_devices sample 0 2 512 1 (7 ∷ 8 ∷ []) (sample-HasRoom 2 (omega arith))
      (omega arith) (omega arith) not_device (omega arith) (omega arith) (omega arith) (omega arith)
      (omega arith, (omega arith, tt)) sample-IsPlaced sample-HomeApart

abbrev locked_sample : Fs
locked_sample = put 0 (record sample_inode { busy = true }) sample

ilock_run : ilock 0 sample ≡ done tt locked_sample
unfolding ilock
ilock_run = refl

ilock-Holds_example : Holds 0 locked_sample
ilock-Holds_example = ilock-Holds sample locked_sample 0 (omega arith) ilock_run

abbrev long_name : List ℕ
long_name = 97 ∷ 98 ∷ []

abbrev short_name : List ℕ
short_name = 97 ∷ []

namecmp-encode_example :
    (length (encode 7 long_name) ≡ 16)
    × ((decode (encode 7 long_name)).inum ≡ 7)
    × ((namecmp short_name (decode (encode 7 long_name)).name ≡ true)
        ↔ (take dirsiz short_name ≡ take dirsiz long_name))
namecmp-encode_example =
    namecmp-encode 7 long_name short_name (omega arith)
      ((λ e. absurd (omega (arith, e))), ((λ e. absurd (omega (arith, e))), tt))
      ((λ e. absurd (omega (arith, e))), tt)
