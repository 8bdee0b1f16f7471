-- ===== src/Fs/Blocks/Alloc.antt =====
-- Allocation of blocks: balloc against the set of free blocks.
use operating_systems_projec.Base.{
  ℕ, zero, suc, ◌+◌, ◌-◌, ◌*◌, ◌/◌, ◌%◌, ◌≤◌, ◌<◌, ◌≡◌, subst, ◌∙◌, inl, inr, Bool, true, false,
  Option, none, some, arith, ltb, ◌==◌, ltb→lt, ==→eq, Bool-cases,
}
use operating_systems_projec.Log.{Block}
use operating_systems_projec.Fs.{
  done, panics, write_block, Run, Fs, bpb, HasRoom, pure, log_write, ◌>>◌, >>=-done, log_write-done,
  write_block-HasRoom,
}
use operating_systems_projec.Fs.Blocks.{
  balloc, bzero, set_bit, take_block, balloc_from, bblock, free_bit,
}
use operating_systems_projec.Fs.Blocks.Bitmap.{is_free}

-- Block `b` has a clear bit in the bitmap.
abbrev pub free : Fs → ℕ → Bool
free s b = is_free (s.blocks (bblock b s.sb)) (b % bpb)

-- The first free bit from `bi` on, of `k` bits, or none.
data First (blk : Block) (size b k bi : ℕ) : Option ℕ → Type 0 where
  nowhere :
      ((j : ℕ) → bi ≤ j → j < bi + k → b + j < size → is_free blk j ≡ false)
      → First blk size b k bi none
  found :
      (j : ℕ)
      → bi ≤ j
      → j < bi + k
      → b + j < size
      → is_free blk j ≡ true
      → ((i : ℕ) → bi ≤ i → i < j → is_free blk i ≡ false)
      → First blk size b k bi (some j)

free_bit_lem : (blk : Block) (size b k bi : ℕ) → First blk size b k bi (free_bit blk size b k bi)
unfolding free_bit
free_bit_lem blk size b zero bi = nowhere (λ j l h lt. absurd (omega arith))
free_bit_lem blk size b (suc k) bi = elim (Bool-cases (ltb (b + bi) size)) [
  | inr e ↦ rw e (nowhere (λ j l h lt. absurd (ground (arith, e))))
  | inl e ↦ rw e (elim (Bool-cases (is_free blk bi)) [
    | inl f ↦
        rw f (
          found bi (omega arith) (omega arith) (ground (arith, e)) f
            (λ i l h. absurd (omega arith)))
    | inr f ↦ rw f (later e f (free_bit blk size b k (bi + 1)) (free_bit_lem blk size b k (bi + 1)))
  ])
]
  where
    from :
        (j : ℕ)
        → is_free blk bi ≡ false
        → (bi + 1 ≤ j → is_free blk j ≡ false)
        → bi ≤ j
        → is_free blk j ≡ false
    from j f h l = elim (Bool-cases (bi == j)) [
      | inl e ↦ subst (λ i. is_free blk i ≡ false) (==→eq bi j e) f
      | inr e ↦ h (ground (arith, e))
    ]

    later :
        ltb (b + bi) size ≡ true
        → is_free blk bi ≡ false
        → (r : Option ℕ) → First blk size b k (bi + 1) r
        → First blk size b (suc k) bi r
    later e f none (nowhere h) = nowhere (λ j l lt s. from j f (λ l'. h j l' (omega arith) s) l)
    later e f (some j) (found j' l lt s t h) =
        found j' (omega arith) (omega arith) s t (λ i l' lt'. from i f (λ l''. h i l'' lt') l')

-- The file system once block `b` is taken and zeroed, each recorded in the log.
abbrev pub allocated : ℕ → Fs → Fs
allocated b s =
    let bno = bblock b s.sb in
    write_block b (λ w. 0) (write_block bno (set_bit (s.blocks bno) (b % bpb)) s)

-- What balloc gives, of the blocks from `b` on: a panic if none is free, else the first free one.
pub data Allocates (s : Fs) (b : ℕ) : Run ℕ → Type 0 where
  full : ((c : ℕ) → b ≤ c → c < s.sb.size → free s c ≡ false) → Allocates s b panics
  takes :
      (c : ℕ)
      → b ≤ c
      → c < s.sb.size
      → free s c ≡ true
      → ((d : ℕ) → b ≤ d → d < c → free s d ≡ false)
      → Allocates s b (done c (allocated c s))

-- Bit `j` of a block of the bitmap.
free_at :
    (s : Fs) (q c : ℕ) (v : Bool)
    → q * bpb ≤ c
    → c < q * bpb + bpb
    → is_free (s.blocks (bblock (q * bpb) s.sb)) (c - q * bpb) ≡ v
    → free s c ≡ v
free_at s q c v l h e =
    let p : c / bpb ≡ q * bpb / bpb = omega arith in
    let r : c % bpb ≡ c - q * bpb = omega arith in rw (p, r) e

-- In a transaction with room for two more blocks in the log, bit `bi` is set and its block zeroed.
pub take_block-done :
    (b bi : ℕ) (s : Fs)
    → HasRoom 2 s
    → let bno = bblock b s.sb in
      take_block b bi s
      ≡ done
          (b + bi)
          (write_block (b + bi) (λ w. 0) (write_block bno (set_bit (s.blocks bno) bi) s))
unfolding take_block bzero
take_block-done b bi s room =
    let bno = bblock b s.sb in
    let x = set_bit (s.blocks bno) bi in
    let s1 = write_block bno x s in
    let z : Block = λ w. 0 in
    >>=-done (log_write bno x >> log_write (b + bi) z) (λ u. pure (b + bi)) s
      (write_block (b + bi) z s1) tt
      (>>=-done (log_write bno x) (λ u. log_write (b + bi) z) s s1 tt
          (log_write-done 1 bno x s room)
        ∙ log_write-done 0 (b + bi) z s1 (write_block-HasRoom 1 bno x s room))

take_block_lem :
    (s : Fs) (q j : ℕ)
    → HasRoom 2 s
    → j < bpb
    → take_block (q * bpb) j s ≡ done (q * bpb + j) (allocated (q * bpb + j) s)
take_block_lem s q j room h =
    let p : (q * bpb + j) / bpb ≡ q * bpb / bpb = omega arith in
    let r : (q * bpb + j) % bpb ≡ j = omega arith in rw (p, r) (take_block-done (q * bpb) j s room)

balloc_from_lem :
    (s : Fs) (k q : ℕ)
    → HasRoom 2 s
    → s.sb.size ≤ (q + k) * bpb
    → Allocates s (q * bpb) (balloc_from k (q * bpb) s)
unfolding balloc_from
balloc_from_lem s zero q room h = full (λ c l lt. absurd (omega arith))
balloc_from_lem s (suc k) q room h = elim (Bool-cases (ltb (q * bpb) s.sb.size)) [
  | inr e ↦ rw e (full (λ c l lt. absurd (ground (arith, e))))
  | inl e ↦ rw e (
      block (free_bit (s.blocks (bblock (q * bpb) s.sb)) s.sb.size (q * bpb) bpb 0)
        (free_bit_lem (s.blocks (bblock (q * bpb) s.sb)) s.sb.size (q * bpb) bpb 0)
        (balloc_from k (q * bpb + bpb) s)
        (subst (λ b. Allocates s b (balloc_from k b s)) next
          (balloc_from_lem s k (q + 1) room (omega arith))))
]
  where
    next : (q + 1) * bpb ≡ q * bpb + bpb
    next = omega arith

    before :
        ((j : ℕ)
          → 0 ≤ j
          → j < bpb
          → q * bpb + j < s.sb.size
          → is_free (s.blocks (bblock (q * bpb) s.sb)) j ≡ false)
        → (c : ℕ) → q * bpb ≤ c
        → c < q * bpb + bpb
        → c < s.sb.size
        → free s c ≡ false
    before n c l lt sz =
        free_at s q c false l lt (n (c - q * bpb) (omega arith) (omega arith) (omega arith))

    beyond :
        ((j : ℕ)
          → 0 ≤ j
          → j < bpb
          → q * bpb + j < s.sb.size
          → is_free (s.blocks (bblock (q * bpb) s.sb)) j ≡ false)
        → (c : ℕ) → q * bpb ≤ c
        → c < s.sb.size
        → (q * bpb + bpb ≤ c → free s c ≡ false)
        → free s c ≡ false
    beyond n c l sz h = elim (Bool-cases (ltb c (q * bpb + bpb))) [
      | inl e ↦ before n c l (ltb→lt c _ e) sz
      | inr e ↦ h (ground (arith, e))
    ]

    block :
        (r : Option ℕ)
        → First (s.blocks (bblock (q * bpb) s.sb)) s.sb.size (q * bpb) bpb 0 r
        → (rest : Run ℕ) → Allocates s (q * bpb + bpb) rest
        → Allocates s (q * bpb) (elim r [ some bi ↦ take_block (q * bpb) bi s | none ↦ rest ])
    block (some j) (found j' l lt sz t n) rest a = rw (take_block_lem s q j room lt) (
        takes (q * bpb + j) (omega arith) sz
          (free_at s q (q * bpb + j) true (omega arith) (omega arith)
            (let e : q * bpb + j - q * bpb ≡ j = omega arith in rw e t))
          (λ d l' lt'.
            free_at s q d false l' (omega arith) (n (d - q * bpb) (omega arith) (omega arith))))
    block none (nowhere n) rest (full h) = full (λ c l sz. beyond n c l sz (λ l'. h c l' sz))
    block none (nowhere n) rest (takes c l sz t h) =
        takes c (omega arith) sz t (λ d l' lt'. beyond n d l' (omega arith) (λ l''. h d l'' lt'))

-- In a transaction, with room for two more blocks in the log, balloc panics if no block is free.
-- Else it gives the first free block, which is then taken in the bitmap and zeroed, both recorded
-- in the log.
pub balloc_lem : (s : Fs) → HasRoom 2 s → Allocates s 0 (balloc s)
unfolding balloc
balloc_lem s room = balloc_from_lem s (s.sb.size / bpb + 1) 0 room (omega arith)
