-- ===== src/Bio/Cached.antt =====
-- What the cache of disk blocks promises: a block has one buffer at most, and a buffer that is valid
-- and clean holds what its disk does.
use operating_systems_projec.Base.{
  ℕ, zero, suc, ◌+◌, ◌<◌, ◌≡◌, refl, sym, ap, subst, ◌∙◌, ◌≢◌, ◌⊎◌, inl, inr, true, false, ◌&&◌,
  ◌||◌, not, none, some, [], ◌∷◌, arith, ◌==◌, if◌then◌else◌, ==→eq, Bool-cases, length, set,
  length-set, get_or-set_self, get_or-set_ne, All, ok, panic,
}
use operating_systems_projec.Bio.{
  Buf, Cache, Disks, granted, sleeps, new_buf, at, no_dev, is_block, find_cached, find_unused,
  recycle, bget,
}

pub record IsCache (c : Cache) (d : Disks) : Type 0 where
  pub unique :
      (i j : ℕ)
      → i < length c
      → j < length c
      → i ≢ j
      → (at c i).dev ≢ no_dev
      → is_block (at c i).dev (at c i).blockno (at c j) ≡ false
  pub clean :
      (i : ℕ)
      → i < length c
      → (at c i).valid ≡ true
      → (at c i).dirty ≡ false
      → (at c i).block_data ≡ d (at c i).dev (at c i).blockno
  pub written : (i : ℕ) → i < length c → (at c i).dirty ≡ true → (at c i).valid ≡ true

at-set :
    (c : Cache) (i j : ℕ) (b : Buf)
    → i < length c
    → at (set c i b) j ≡ (if i == j then b else at c j)
at-set c i j b h = elim (Bool-cases (i == j)) [
  | inl e ↦
      rw e (subst (λ n. at (set c i b) n ≡ b) (==→eq i j e) (get_or-set_self c i b (new_buf 0) h))
  | inr e ↦ rw e (get_or-set_ne c i j b (new_buf 0) (ground arith))
]

find_cached_lem :
    (c : Cache) (i dev blockno : ℕ)
    → ((find_cached c i dev blockno ≡ none)
        × ((j : ℕ) → j < length c → is_block dev blockno (at c j) ≡ false))
      ⊎ ((j : ℕ) × (find_cached c i dev blockno ≡ some (i + j))
          × (j < length c)
          × (is_block dev blockno (at c j) ≡ true))
unfolding find_cached
find_cached_lem [] i dev blockno = inl (refl, λ j. λ h. absurd (omega arith))
find_cached_lem (b ∷ c) i dev blockno = elim (Bool-cases (is_block dev blockno b)) [
  | inl e ↦ inr (0, rw e (ap some (omega arith)), omega arith, e)
  | inr e ↦ elim (find_cached_lem c (i + 1) dev blockno) [
    | inl (n, a) ↦ inl (rw e n, below b c e a)
    | inr (j, s, l, z) ↦ inr (suc j, rw (e, s) (ap some (omega arith)), omega arith, z)
  ]
]
  where
    below :
        (b : Buf) (c : Cache)
        → is_block dev blockno b ≡ false
        → ((j : ℕ) → j < length c → is_block dev blockno (at c j) ≡ false)
        → (j : ℕ) → j < suc (length c)
        → is_block dev blockno (at (b ∷ c) j) ≡ false
    below b c e a zero h = e
    below b c e a (suc j) h = a j (omega arith)

find_unused_lem :
    (c : Cache) (i : ℕ)
    → ((find_unused c i ≡ none) × All (λ (b : Buf). (b.busy || b.dirty) ≡ true) c)
      ⊎ ((j : ℕ) × (find_unused c i ≡ some (i + j))
          × (j < length c)
          × ((at c j).busy ≡ false)
          × ((at c j).dirty ≡ false))
unfolding find_unused
find_unused_lem [] i = inl (refl, tt)
find_unused_lem (b ∷ c) i = elim (find_unused_lem c (i + 1)) [
  | inr (j, s, l, u, v) ↦ inr (suc j, rw s (ap some (omega arith)), omega arith, u, v)
  | inl (n, a) ↦ elim (Bool-cases (not b.busy && not b.dirty)) [
    | inl e ↦
        inr
          (0, rw (n, e) (ap some (omega arith)), omega arith, ground (arith, e), ground (arith, e))
    | inr e ↦ inl (rw (n, e) refl, (ground (arith, e), a))
  ]
]

-- A buffer may be replaced by one whose block has no other, and which holds its disk's data if
-- clean.
pub replace-IsCache :
    (c : Cache) (d : Disks) (i : ℕ) (b : Buf)
    → IsCache c d
    → i < length c
    → ((j : ℕ) → j < length c → i ≢ j → is_block b.dev b.blockno (at c j) ≡ false)
    → (b.valid ≡ true → b.dirty ≡ false → b.block_data ≡ d b.dev b.blockno)
    → (b.dirty ≡ true → b.valid ≡ true)
    → IsCache (set c i b) d
replace-IsCache c d i b ok_c lt alone holds full = record {
  unique =
      λ m n hm hn ne dev. distinct m n hm hn ne dev (Bool-cases (i == m)) (Bool-cases (i == n));
  clean = λ m hm v cl. stays m hm v cl (Bool-cases (i == m));
  written = λ m hm dt. kept m hm dt (Bool-cases (i == m));
}
  where
    other : (m : ℕ) → (i == m) ≡ false → at (set c i b) m ≡ at c m
    other m p = rw (at-set c i m b lt, p)

    same : (m : ℕ) → (i == m) ≡ true → at (set c i b) m ≡ b
    same m p = rw (at-set c i m b lt, p)

    distinct :
        (m n : ℕ)
        → m < length (set c i b)
        → n < length (set c i b)
        → m ≢ n
        → (at (set c i b) m).dev ≢ no_dev
        → ((i == m) ≡ true) ⊎ ((i == m) ≡ false)
        → ((i == n) ≡ true) ⊎ ((i == n) ≡ false)
        → is_block (at (set c i b) m).dev (at (set c i b) m).blockno (at (set c i b) n) ≡ false
    distinct m n hm hn ne dev (inl p) (inl q) = absurd (ne (sym (==→eq i m p) ∙ ==→eq i n q))
    distinct m n hm hn ne dev (inl p) (inr q) =
        rw (at-set c i m b lt, at-set c i n b lt, p, q)
          (alone n (omega (arith, hn, length-set c i b)) (ground (arith, q)))
    distinct m n hm hn ne dev (inr p) (inl q) =
        let sym_block = alone m (omega (arith, hm, length-set c i b)) (ground (arith, p)) in
        rw (at-set c i m b lt, at-set c i n b lt, p, q) (ground (arith, sym_block))
    distinct m n hm hn ne dev (inr p) (inr q) =
        let dev' : (at c m).dev ≢ no_dev = subst (λ (x : Buf). x.dev ≢ no_dev) (other m p) dev in
        rw (at-set c i m b lt, at-set c i n b lt, p, q)
          (ok_c.unique m n (omega (arith, hm, length-set c i b))
            (omega (arith, hn, length-set c i b)) ne dev')

    stays :
        (m : ℕ)
        → m < length (set c i b)
        → (at (set c i b) m).valid ≡ true
        → (at (set c i b) m).dirty ≡ false
        → ((i == m) ≡ true) ⊎ ((i == m) ≡ false)
        → (at (set c i b) m).block_data ≡ d (at (set c i b) m).dev (at (set c i b) m).blockno
    stays m hm v cl (inl p) = rw (same m p) (
        holds (subst (λ (x : Buf). x.valid ≡ true) (same m p) v)
          (subst (λ (x : Buf). x.dirty ≡ false) (same m p) cl))
    stays m hm v cl (inr p) = rw (other m p) (
        ok_c.clean m (omega (arith, hm, length-set c i b))
          (subst (λ (x : Buf). x.valid ≡ true) (other m p) v)
          (subst (λ (x : Buf). x.dirty ≡ false) (other m p) cl))

    kept :
        (m : ℕ)
        → m < length (set c i b)
        → (at (set c i b) m).dirty ≡ true
        → ((i == m) ≡ true) ⊎ ((i == m) ≡ false)
        → (at (set c i b) m).valid ≡ true
    kept m hm dt (inl p) = rw (same m p) (full (subst (λ (x : Buf). x.dirty ≡ true) (same m p) dt))
    kept m hm dt (inr p) = rw (other m p) (
        ok_c.written m (omega (arith, hm, length-set c i b))
          (subst (λ (x : Buf). x.dirty ≡ true) (other m p) dt))

-- The buffer at `i` is the caller's, for the block.
pub record IsOurs (c : Cache) (i dev blockno : ℕ) : Type 0 where
  pub inside : i < length c
  pub block : is_block dev blockno (at c i) ≡ true
  pub busy : (at c i).busy ≡ true

pub at_new : (c : Cache) (i : ℕ) (b : Buf) → i < length c → at (set c i b) i ≡ b
at_new c i b h = get_or-set_self c i b (new_buf 0) h

pub set-IsOurs :
    (c : Cache) (i dev blockno : ℕ) (b : Buf)
    → i < length c
    → is_block dev blockno b ≡ true
    → b.busy ≡ true
    → IsOurs (set c i b) i dev blockno
set-IsOurs c i dev blockno b h e f = record {
  inside = omega (arith, h, length-set c i b);
  block = rw (at_new c i b h) e;
  busy = rw (at_new c i b h) f;
}

-- bget of a real device's block grants a buffer that was not busy, keeping the cache's promises, or
-- sleeps on the buffer for the block, which is busy, or panics when no buffer is for the block and
-- none is neither busy nor dirty.
pub bget_lem :
    (c : Cache) (d : Disks) (dev blockno : ℕ)
    → IsCache c d
    → dev ≢ no_dev
    → ((i : ℕ) × (c' : Cache) × (bget c dev blockno ≡ ok (granted i c'))
        × ((at c i).busy ≡ false)
        × IsCache c' d
        × IsOurs c' i dev blockno)
      ⊎ ((i : ℕ) × (bget c dev blockno ≡ ok (sleeps (at c i).id)) × IsOurs c i dev blockno)
      ⊎ ((bget c dev blockno ≡ panic)
          × ((j : ℕ) → j < length c → is_block dev blockno (at c j) ≡ false)
          × All (λ (b : Buf). (b.busy || b.dirty) ≡ true) c)
unfolding bget recycle
bget_lem c d dev blockno v real = elim (find_cached_lem c 0 dev blockno) [
  | inr (i, f, lt, e) ↦ elim (Bool-cases (at c i).busy) [
    | inl b ↦ inr (inl (i, ground (arith, f, b), record { inside = lt; block = e; busy = b }))
    | inr b ↦ inl (
      i,
      set c i (record (at c i) { busy = true }),
      ground (arith, f, b),
      b,
      replace-IsCache c d i (record (at c i) { busy = true }) v lt
          (λ j hj ne. v.unique i j lt hj ne (ground (arith, e, real))) (v.clean i lt)
          (v.written i lt),
      set-IsOurs c i dev blockno (record (at c i) { busy = true }) lt e refl,
    )
  ]
  | inl (f, absent) ↦ elim (find_unused_lem c 0) [
    | inl (g, full) ↦ inr (inr (ground (arith, f, g), absent, full))
    | inr (i, g, lt, b, dt) ↦ inl (
      i,
      set c i (fresh i),
      ground (arith, f, g),
      b,
      replace-IsCache c d i (fresh i) v lt (λ j hj ne. absent j hj)
          (λ vl. absurd (ground (arith, vl))) (λ w. absurd (ground (arith, w))),
      set-IsOurs c i dev blockno (fresh i) lt (ground arith) refl,
    )
  ]
]
  where
    fresh : ℕ → Buf
    fresh i = record (at c i) {
      dev = dev;
      blockno = blockno;
      busy = true;
      valid = false;
      dirty = false;
    }
