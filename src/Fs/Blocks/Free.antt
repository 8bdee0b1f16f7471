-- ===== src/Fs/Blocks/Free.antt =====
-- The freeing of blocks: bfree against the set of free blocks, and after balloc.
use operating_systems_projec.Base.{
  ℕ, ◌/◌, ◌%◌, ◌<◌, ◌≡◌, refl, sym, ap, subst, ◌∙◌, ◌≢◌, ◌⊎◌, inl, inr, Bool, true, false, arith,
  ◌==◌, if◌then◌else◌, ==→eq, ==_refl, ==_ne, Bool-cases, update,
}
use operating_systems_projec.Log.{Block}
use operating_systems_projec.Fs.{
  Fs, Run, bpb, write_block, done, panics, waits, HasRoom, HasRoom-less, log_write-done,
  write_block-HasRoom,
}
use operating_systems_projec.Fs.Blocks.{readsb, bblock, set_bit, clear_bit, balloc, bfree}
use operating_systems_projec.Fs.Blocks.Bitmap.{is_free, is_free-set_bit, is_free-clear_bit}
use operating_systems_projec.Fs.Blocks.Alloc.{free, allocated, Allocates, full, takes, balloc_lem}

-- The superblock in memory is the one on the disk, and its block and those of the bitmap are taken.
pub record Layout (s : Fs) : Type 0 where
  pub same : readsb s.blocks ≡ s.sb
  pub below : 1 < s.sb.bmapstart
  pub super_taken : free s 1 ≡ false
  pub bitmap_taken : (c : ℕ) → c < s.sb.size → free s (bblock c s.sb) ≡ false

not_taken : (s : Fs) (b c : ℕ) → free s b ≡ true → free s c ≡ false → b ≢ c
not_taken s b c t f e = absurd (cc (ap (free s) e, t, f))

same_place :
    (b c : ℕ) (v x y : Bool)
    → b / bpb ≡ c / bpb
    → x ≡ y
    → (if b % bpb == c % bpb then v else x) ≡ (if b == c then v else y)
same_place b c v x y p q = elim (Bool-cases (b == c)) [
  | inl e ↦ ground (arith, e)
  | inr e ↦ ground (arith, e, p, q)
]

-- A bit of the bitmap once the bit of block `b` is changed: the others are as before.
changed_bit :
    (s : Fs) (f : Block → Block) (b c : ℕ) (v : Bool)
    → ((blk : Block) (j : ℕ) → is_free (f blk) j ≡ (if b % bpb == j then v else is_free blk j))
    → is_free
        (update s.blocks (bblock b s.sb) (f (s.blocks (bblock b s.sb))) (bblock c s.sb))
        (c % bpb)
      ≡ (if b == c then v else free s c)
changed_bit s f b c v h = elim (Bool-cases (bblock c s.sb == bblock b s.sb)) [
  | inl e ↦
      let p : bblock b s.sb ≡ bblock c s.sb = sym (==→eq _ _ e) in
      rw (e, h)
        (same_place b c v (is_free (s.blocks (bblock b s.sb)) (c % bpb)) (free s c)
          (omega (arith, p)) (ap (λ k. is_free (s.blocks k) (c % bpb)) p))
  | inr e ↦
      rw e
        (elim (Bool-cases (b == c)) [ inl f ↦ absurd (ground (arith, e, f)) | inr f ↦ rw f refl ])
]

-- Taking a free block leaves the others free or taken as they were, and the superblock in its place.
pub allocated_lem :
    (s : Fs) (b : ℕ)
    → Layout s
    → free s b ≡ true
    → ((c : ℕ) → c < s.sb.size → free (allocated b s) c ≡ (if b == c then false else free s c))
      × (readsb (allocated b s).blocks ≡ s.sb)
unfolding readsb
allocated_lem s b l f = (
  λ c lt.
      rw
        (==_ne (bblock c s.sb) b
          (λ e. not_taken s b (bblock c s.sb) f (l.bitmap_taken c lt) (sym e)))
        (changed_bit s (λ blk. set_bit blk (b % bpb)) b c false
          (λ blk j. is_free-set_bit blk (b % bpb) j)),
  rw
      (
        ==_ne 1 b (λ e. not_taken s b 1 f l.super_taken (sym e)),
        ==_ne 1 (bblock b s.sb) (λ e. omega (arith, e, l.below)),
      )
      l.same,
)

abbrev pub freed : ℕ → Fs → Fs
freed b s = let bno = bblock b s.sb in write_block bno (clear_bit (s.blocks bno) (b % bpb)) s

-- In a transaction, with room for one more block in the log, and with the superblock in memory as
-- it is on the disk: bfree panics on a free block, and it clears the bit of any other block, and no
-- other bit.
pub bfree_lem :
    (s : Fs) (b : ℕ)
    → HasRoom 1 s
    → readsb s.blocks ≡ s.sb
    → ((free s b ≡ true) × (bfree b s ≡ panics))
      ⊎ ((free s b ≡ false)
          × (bfree b s ≡ done tt (freed b s))
          × ((c : ℕ) → free (freed b s) c ≡ (if b == c then true else free s c)))
unfolding bfree
bfree_lem s b room same = elim (Bool-cases (free s b)) [
  | inl e ↦ inl (e, rw (same, e) refl)
  | inr e ↦ inr (
    e,
    rw (same, e)
        (log_write-done 0 (bblock b s.sb) (clear_bit (s.blocks (bblock b s.sb)) (b % bpb)) s room),
    λ c.
        changed_bit s (λ blk. clear_bit blk (b % bpb)) b c true
          (λ blk j. is_free-clear_bit blk (b % bpb) j),
  )
]

-- bfree of the block gives a state where each block is free or taken as in the first state.
abbrev pub FreedAgain : Fs → ℕ → Fs → Type 0
FreedAgain s b s' =
    (s'' : Fs) × (bfree b s' ≡ done tt s'') × ((c : ℕ) → c < s.sb.size → free s'' c ≡ free s c)

allocated-FreedAgain :
    (s : Fs) (b : ℕ)
    → HasRoom 3 s
    → Layout s
    → b < s.sb.size
    → free s b ≡ true
    → FreedAgain s b (allocated b s)
allocated-FreedAgain s b room l lt f =
    let bno = bblock b s.sb in
    let x = set_bit (s.blocks bno) (b % bpb) in
    let left : HasRoom 1 (allocated b s) =
      write_block-HasRoom 1 b (λ w. 0) (write_block bno x s) (write_block-HasRoom 2 bno x s room) in
    let (bits, same) = allocated_lem s b l f in
    elim (bfree_lem (allocated b s) b left same) [
      | inl (t, p) ↦ absurd (cc (t, bits b lt, ==_refl b))
      | inr (t, d, after) ↦ (
        freed b (allocated b s),
        d,
        λ c h. after c ∙ elim (Bool-cases (b == c)) [
          | inl e ↦ rw e (sym f ∙ ap (free s) (==→eq b c e))
          | inr e ↦ rw e (bits c h ∙ rw e refl)
        ],
      )
    ]

-- In a transaction with room for three more blocks in the log, on a disk with a proper layout,
-- freeing the block that balloc gave succeeds, and then every block is free or taken as it was at
-- first.
pub balloc-bfree :
    (s s' : Fs) (b : ℕ) → HasRoom 3 s → Layout s → balloc s ≡ done b s' → FreedAgain s b s'
balloc-bfree s s' b room l h =
    go (balloc s) h (balloc_lem s (HasRoom-less 2 3 s (omega arith) room))
  where
    go : (r : Run ℕ) → r ≡ done b s' → Allocates s 0 r → FreedAgain s b s'
    go panics e (full n) = absurd (cc e)
    go (waits i) e a = elim a [ ]
    go (done c t) e (takes c' g lt f n) =
        let p : c ≡ b = cc e in
        let q : allocated c s ≡ s' = cc e in
        subst (λ d. FreedAgain s d s') p
          (subst (FreedAgain s c) q (allocated-FreedAgain s c room l lt f))
