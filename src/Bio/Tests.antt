-- ===== src/Bio/Tests.antt =====
-- A cache of two buffers, and the theorems on it.
use operating_systems_projec.Base.{
  ℕ, zero, suc, ◌<◌, ◌≡◌, refl, ◌≢◌, ◌⊎◌, inl, true, false, ◌||◌, none, some, [], ◌∷◌, arith,
  length, All, ok, panic,
}
use operating_systems_projec.Bio.{
  Buf, Cache, Disks, new_buf, at, no_dev, is_block, bread, bwrite, write_block, binit, binit_from,
  nbuf,
}
use operating_systems_projec.Bio.Cached.{IsCache, IsOurs}
use operating_systems_projec.Bio.Blocks.{bread_lem, bwrite_lem}

-- Word `w` of block `b` of a device is `b`.
abbrev disks : Disks
disks dev b w = b

-- Block 5 is with a caller, the other buffer is free.
abbrev held : Buf
held = record {
  id = 1;
  dev = 0;
  blockno = 5;
  busy = true;
  valid = true;
  dirty = false;
  block_data = λ w. 5;
}

abbrev cache : Cache
cache = held ∷ new_buf 0 ∷ []

cache-IsCache : IsCache cache disks
cache-IsCache = record { unique = apart; clean = same; written = kept }
  where
    apart :
        (i j : ℕ)
        → i < 2
        → j < 2
        → i ≢ j
        → (at cache i).dev ≢ no_dev
        → is_block (at cache i).dev (at cache i).blockno (at cache j) ≡ false
    apart zero zero hi hj ne dev = absurd (ne refl)
    apart zero (suc zero) hi hj ne dev = refl
    apart zero (suc (suc j)) hi hj ne dev = absurd (omega arith)
    apart (suc zero) j hi hj ne dev = absurd (dev refl)
    apart (suc (suc i)) j hi hj ne dev = absurd (omega arith)

    same :
        (i : ℕ)
        → i < 2
        → (at cache i).valid ≡ true
        → (at cache i).dirty ≡ false
        → (at cache i).block_data ≡ disks (at cache i).dev (at cache i).blockno
    same zero h vl cl = refl
    same (suc zero) h vl cl = absurd (ground (arith, vl))
    same (suc (suc i)) h vl cl = absurd (omega arith)

    kept : (i : ℕ) → i < 2 → (at cache i).dirty ≡ true → (at cache i).valid ≡ true
    kept zero h w = refl
    kept (suc zero) h w = absurd (ground (arith, w))
    kept (suc (suc i)) h w = absurd (omega arith)

held-IsOurs : IsOurs cache 0 0 5
held-IsOurs = record { inside = omega arith; block = refl; busy = refl }

bread_lem_example :
    ((i : ℕ) × (c' : Cache) × (bread false cache disks 0 7 ≡ ok (some (i, c', disks)))
      × IsCache c' disks
      × IsOurs c' i 0 7
      × ((at c' i).valid ≡ true)
      × ((at c' i).dirty ≡ false → (at c' i).block_data ≡ disks 0 7))
    ⊎ ((i : ℕ) × (bread false cache disks 0 7 ≡ ok none) × IsOurs cache i 0 7)
    ⊎ ((bread false cache disks 0 7 ≡ panic) × All (λ (b : Buf). (b.busy || b.dirty) ≡ true) cache)
bread_lem_example =
    bread_lem false cache disks 0 7 cache-IsCache (omega arith) (omega arith) (inl refl)

bwrite_lem_example :
    (c' : Cache) × (bwrite false cache disks 0 ≡ ok (c', write_block disks 0 5 (λ w. 5)))
    × IsCache c' (write_block disks 0 5 (λ w. 5))
    × IsOurs c' 0 0 5
bwrite_lem_example =
    bwrite_lem false cache disks 0 0 5 cache-IsCache held-IsOurs (omega arith) (omega arith)
      (inl refl) refl

initial : length binit ≡ nbuf
unfolding binit binit_from
initial = refl
