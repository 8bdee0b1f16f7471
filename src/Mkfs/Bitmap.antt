-- ===== src/Mkfs/Bitmap.antt =====
-- The bitmap that mkfs.c writes, as fs.c reads it.
use operating_systems_projec.Base.{
  ℕ, zero, suc, ◌+◌, ◌*◌, ◌/◌, ◌%◌, ◌^◌, ◌≤◌, ◌<◌, ◌≡◌, refl, ap, ◌∙◌, ◌≢◌, inl, inr, true, false,
  ◌&&◌, some, arith, ltb, leb, ◌==◌, if◌then◌else◌, lt→ltb, ==_ne, Bool-cases, ok,
}
use Prim.Native.Nat.{bit_and}
use operating_systems_projec.Log.{Block}
use operating_systems_projec.Fs.{bsize}
use operating_systems_projec.Fs.Blocks.{
  set_bit, free_bit, bit_of, bblock, balloc, balloc_from, take_block,
}
use operating_systems_projec.Fs.{Fs, done, bpb, HasRoom}
use operating_systems_projec.Fs.Blocks.Alloc.{take_block-done}
use operating_systems_projec.Fs.Blocks.Bitmap.{is_free, is_free-set_bit}
use operating_systems_projec.Mkfs.{Image, sb, set_bits, wsect}
use operating_systems_projec.Mkfs
use operating_systems_projec.Fs.Bytes.{get_byte, byte_of}

set_bits-is_free :
    (n i : ℕ) (buf : Block) (j : ℕ)
    → is_free (set_bits n i buf) j ≡ (if leb i j && ltb j (i + n) then false else is_free buf j)
unfolding set_bits
set_bits-is_free zero i buf j = ground arith
set_bits-is_free (suc n) i buf j =
    set_bits-is_free n (i + 1) (set_bit buf i) j ∙ rw (is_free-set_bit buf i j) (ground arith)

-- The kernel's search finds the first bit that is free.
free_bit-first :
    (blk : Block) (size k bi used : ℕ)
    → bi ≤ used
    → used < bi + k
    → used < size
    → ((j : ℕ) → is_free blk j ≡ leb used j)
    → free_bit blk size 0 k bi ≡ some used
unfolding free_bit
free_bit-first blk size zero bi used l h z f = absurd (omega arith)
free_bit-first blk size (suc k) bi used l h z f = elim (Bool-cases (bi == used)) [
  | inl e ↦ ground (arith, e, f bi)
  | inr e ↦ let ih = free_bit-first blk size k (bi + 1) used in ground (arith, e, f bi, ih)
]

bit_and_zero : (i : ℕ) → i < 8 → bit_and 0 (2 ^ i) ≡ 0
bit_and_zero zero h = refl
bit_and_zero (suc zero) h = refl
bit_and_zero (suc (suc zero)) h = refl
bit_and_zero (suc (suc (suc zero))) h = refl
bit_and_zero (suc (suc (suc (suc zero)))) h = refl
bit_and_zero (suc (suc (suc (suc (suc zero))))) h = refl
bit_and_zero (suc (suc (suc (suc (suc (suc zero)))))) h = refl
bit_and_zero (suc (suc (suc (suc (suc (suc (suc zero))))))) h = refl
bit_and_zero (suc (suc (suc (suc (suc (suc (suc (suc i)))))))) h = absurd (omega arith)

bit_of_zero : (j : ℕ) → bit_of (λ w. 0) j ≡ 0
unfolding bit_of get_byte byte_of
bit_of_zero j = let z = bit_and_zero (j % 8) (omega arith) in ground (arith, z)

-- What the kernel's balloc answers on a bitmap that begins with `used` bits set, and no other.
takes-first :
    (s : Fs) (used : ℕ)
    → HasRoom 2 s
    → s.sb ≡ sb
    → ((j : ℕ) → is_free (s.blocks sb.bmapstart) j ≡ leb used j)
    → used < sb.size
    → (s' : Fs) × (balloc s ≡ done used s')
unfolding balloc balloc_from take_block
takes-first s used room q f h =
    let e =
      free_bit-first (s.blocks sb.bmapstart) sb.size bpb 0 used (omega arith) (omega arith) h f in
    let found : free_bit (s.blocks (bblock 0 s.sb)) s.sb.size 0 bpb 0 ≡ some used =
      ap (λ b. free_bit (s.blocks (bblock 0 b)) b.size 0 bpb 0) q ∙ e in
    let one : s.sb.size / bpb + 1 ≡ 1 = ap (λ b. b.size / bpb + 1) q in
    let some_bits : ltb 0 s.sb.size ≡ true = ap (λ b. ltb 0 b.size) q in
    let t : (s' : Fs) × (take_block 0 used s ≡ done (0 + used) s') =
      (_, take_block-done 0 used s room) in
    (
      t.0,
      ap (λ n. balloc_from n 0 s) one
          ∙ rw (some_bits, found) (t.1 ∙ ap (λ b. done b t.0) (omega arith)),
    )

-- mkfs's balloc of fewer blocks than the bitmap's block has bits does not panic; it takes exactly
-- the first `used` blocks in the bitmap, it changes no other block of the image, and the next block
-- that the kernel allocates from the image, in a transaction with room for two blocks in the log,
-- is `used` if that lies on the disk.
pub balloc-next :
    (used : ℕ) (m : Image)
    → used < bsize * 8
    → (m' : Image) × (Mkfs.balloc used m ≡ ok m')
      × ((j : ℕ) → is_free (m'.blocks sb.bmapstart) j ≡ leb used j)
      × ((b : ℕ) → b ≢ sb.bmapstart → m'.blocks b ≡ m.blocks b)
      × ((s : Fs)
          → HasRoom 2 s
          → s.sb ≡ sb
          → s.blocks ≡ m'.blocks
          → used < sb.size
          → (s' : Fs) × (balloc s ≡ done used s'))
unfolding Mkfs.balloc wsect
balloc-next used m h =
    let bits = set_bits-is_free used 0 (λ w. 0) in
    let free : (j : ℕ) → is_free (set_bits used 0 (λ w. 0)) j ≡ leb used j =
      λ j. bits j ∙ rw (bit_of_zero j) (ground arith) in
    (
      wsect sb.bmapstart (set_bits used 0 (λ w. 0)) m,
      rw (lt→ltb used (bsize * 8) h) refl,
      free,
      (λ b ne. rw (==_ne b sb.bmapstart ne) refl),
      (λ s room q e lt.
          takes-first s used room q (λ j. ap (λ bl. is_free (bl sb.bmapstart) j) e ∙ free j) lt),
    )
