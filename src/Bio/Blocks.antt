-- ===== src/Bio/Blocks.antt =====
-- bread and bwrite on a cache that keeps its promises.
use operating_systems_projec.Base.{
  ℕ, ◌<◌, ◌%◌, ◌≡◌, refl, sym, ap, subst, ◌∙◌, ◌≢◌, ◌⊎◌, inl, inr, Bool, true, false, ◌||◌, none,
  some, arith, ◌==◌, ==→eq, Bool-cases, length, set, All, ok, panic,
}
use operating_systems_projec.Bio.{
  Buf, Cache, Disks, at, no_dev, fssize, is_block, iderw, fill, bread, bwrite, write_block,
}
use operating_systems_projec.Bio.Cached.{
  IsCache, IsOurs, at_new, replace-IsCache, set-IsOurs, bget_lem,
}

-- iderw reads the block into a buffer that is busy and not valid.
iderw_read :
    (h : Bool) (c : Cache) (d : Disks) (i dev blockno : ℕ)
    → IsCache c d
    → IsOurs c i dev blockno
    → dev < 2
    → blockno < fssize
    → (dev ≡ 0) ⊎ (h ≡ true)
    → (at c i).valid ≡ false
    → (c' : Cache) × (iderw h c d i ≡ ok (c', d))
      × IsCache c' d
      × IsOurs c' i dev blockno
      × ((at c' i).valid ≡ true)
unfolding iderw
iderw_read h c d i dev blockno v o real range there q = (
  set c i b,
  ground (arith, q, clean, o.busy, there, same_dev, same_block, range),
  replace-IsCache c d i b v o.inside
      (λ j hj ne. v.unique i j o.inside hj ne (omega (arith, real, same_dev)))
      (λ x y. ap (λ k. d k (at c i).blockno) last_bit) (λ x. refl),
  set-IsOurs c i dev blockno b o.inside o.block o.busy,
  rw (at_new c i b o.inside) refl,
)
  where
    b : Buf
    b = record (at c i) { valid = true; block_data = d ((at c i).dev % 2) (at c i).blockno }

    same_dev : (at c i).dev ≡ dev
    same_dev = ground (arith, o.block)

    same_block : (at c i).blockno ≡ blockno
    same_block = ground (arith, o.block)

    last_bit : (at c i).dev % 2 ≡ (at c i).dev
    last_bit = omega (arith, same_dev, real)

    clean : (at c i).dirty ≡ false
    clean = elim (Bool-cases (at c i).dirty) [
      | inl t ↦ absurd (ground (arith, q, v.written i o.inside t))
      | inr t ↦ t
    ]

-- bread of a block with a number below FSSIZE, on a disk that is there, gives the caller the buffer
-- for the block, valid, and with the disk's contents unless they are newer and pinned; the disk is
-- as it was. It sleeps only on a busy buffer for the block, and panics only if no buffer can be
-- recycled.
pub bread_lem :
    (h : Bool) (c : Cache) (d : Disks) (dev blockno : ℕ)
    → IsCache c d
    → dev < 2
    → blockno < fssize
    → (dev ≡ 0) ⊎ (h ≡ true)
    → ((i : ℕ) × (c' : Cache) × (bread h c d dev blockno ≡ ok (some (i, c', d)))
        × IsCache c' d
        × IsOurs c' i dev blockno
        × ((at c' i).valid ≡ true)
        × ((at c' i).dirty ≡ false → (at c' i).block_data ≡ d dev blockno))
      ⊎ ((i : ℕ) × (bread h c d dev blockno ≡ ok none) × IsOurs c i dev blockno)
      ⊎ ((bread h c d dev blockno ≡ panic) × All (λ (b : Buf). (b.busy || b.dirty) ≡ true) c)
unfolding bread fill
bread_lem h c d dev blockno v real range there =
    elim (bget_lem c d dev blockno v (λ e. omega (arith, e, real))) [
      | inr (inl (i, e, o)) ↦ inr (inl (i, rw e refl, o))
      | inr (inr (e, absent, full)) ↦ inr (inr (rw e refl, full))
      | inl (i, c', e, free, v', o) ↦ elim (Bool-cases (at c' i).valid) [
        | inl q ↦ inl (i, c', ground (arith, e, q), v', o, q, held v' o q)
        | inr q ↦
            let (c'', f, v'', o'', full) =
              iderw_read h c' d i dev blockno v' o real range there q in
            inl (i, c'', rw (e, q, f) refl, v'', o'', full, held v'' o'' full)
      ]
    ]
  where
    held :
        {c' : Cache} {i : ℕ}
        → IsCache c' d
        → IsOurs c' i dev blockno
        → (at c' i).valid ≡ true
        → (at c' i).dirty ≡ false
        → (at c' i).block_data ≡ d dev blockno
    held {c'} {i} v' o q cl =
        let e1 : (at c' i).dev ≡ dev = ground (arith, o.block) in
        let e2 : (at c' i).blockno ≡ blockno = ground (arith, o.block) in
        v'.clean i o.inside q cl ∙ rw (e1, e2)

store-IsCache :
    (c : Cache) (d : Disks) (i : ℕ) (x : ℕ → ℕ)
    → IsCache c d
    → i < length c
    → (at c i).dev ≢ no_dev
    → (at c i).dirty ≡ true
    → IsCache c (write_block d (at c i).dev (at c i).blockno x)
store-IsCache c d i x v lt real dt = record {
  unique = v.unique;
  clean = λ j hj vl cl. elim (Bool-cases (i == j)) [
    | inl e ↦ absurd (ground (arith, dt, cl, ap (λ n. (at c n).dirty) (==→eq i j e)))
    | inr e ↦
        let apart = v.unique i j lt hj (ground (arith, e)) real in
        v.clean j hj vl cl ∙ sym (elsewhere (at c j) apart)
  ];
  written = v.written;
}
  where
    elsewhere :
        (b : Buf)
        → is_block (at c i).dev (at c i).blockno b ≡ false
        → write_block d (at c i).dev (at c i).blockno x b.dev b.blockno ≡ d b.dev b.blockno
    elsewhere b apart = elim (Bool-cases (b.dev == (at c i).dev)) [
      | inl e ↦ ground (arith, e, apart)
      | inr e ↦ ground (arith, e)
    ]

-- iderw writes a dirty buffer to its block.
iderw_write :
    (h : Bool) (c : Cache) (d : Disks) (i dev blockno : ℕ)
    → IsCache c d
    → IsOurs c i dev blockno
    → dev < 2
    → blockno < fssize
    → (dev ≡ 0) ⊎ (h ≡ true)
    → (at c i).dirty ≡ true
    → (c' : Cache) × (iderw h c d i ≡ ok (c', write_block d dev blockno (at c i).block_data))
      × IsCache c' (write_block d dev blockno (at c i).block_data)
      × IsOurs c' i dev blockno
unfolding iderw
iderw_write h c d i dev blockno v o real range there dt = (
  set c i b,
  rw (sym same_dev, sym same_block)
      (ground (arith, dt, o.busy, there, same_dev, same_block, range, last_bit)),
  replace-IsCache c (write_block d dev blockno (at c i).block_data) i b
      (rw (sym same_dev, sym same_block)
        (store-IsCache c d i (at c i).block_data v o.inside (omega (arith, real, same_dev)) dt))
      o.inside (λ j hj ne. v.unique i j o.inside hj ne (omega (arith, real, same_dev)))
      (λ x y. ground (arith, same_dev, same_block)) (λ x. refl),
  set-IsOurs c i dev blockno b o.inside o.block o.busy,
)
  where
    b : Buf
    b = record (at c i) { valid = true; dirty = false }

    same_dev : (at c i).dev ≡ dev
    same_dev = ground (arith, o.block)

    last_bit : (at c i).dev % 2 ≡ (at c i).dev
    last_bit = omega (arith, same_dev, real)

    same_block : (at c i).blockno ≡ blockno
    same_block = ground (arith, o.block)

-- bwrite of a valid buffer that the caller has, for a block number below FSSIZE on a disk that is
-- there, puts its data on the disk, under its block and no other, and keeps the cache's promises.
pub bwrite_lem :
    (h : Bool) (c : Cache) (d : Disks) (i dev blockno : ℕ)
    → IsCache c d
    → IsOurs c i dev blockno
    → dev < 2
    → blockno < fssize
    → (dev ≡ 0) ⊎ (h ≡ true)
    → (at c i).valid ≡ true
    → (c' : Cache) × (bwrite h c d i ≡ ok (c', write_block d dev blockno (at c i).block_data))
      × IsCache c' (write_block d dev blockno (at c i).block_data)
      × IsOurs c' i dev blockno
unfolding bwrite
bwrite_lem h c d i dev blockno v o real range there full =
    let (c', e, v', o') =
      iderw_write h marked d i dev blockno marked_v
        (set-IsOurs c i dev blockno b o.inside o.block o.busy) real range there
        (ap (λ x. x.dirty) new) in
    (
      c',
      ground (arith, o.busy, e, stored),
      subst (λ x. IsCache c' (write_block d dev blockno x)) stored v',
      o',
    )
  where
    b : Buf
    b = record (at c i) { dirty = true }

    marked : Cache
    marked = set c i b

    new : at marked i ≡ b
    new = at_new c i b o.inside

    stored : (at marked i).block_data ≡ (at c i).block_data
    stored = ap (λ x. x.block_data) new

    marked_v : IsCache marked d
    marked_v =
        replace-IsCache c d i b v o.inside
          (λ j hj ne. v.unique i j o.inside hj ne (ground (arith, real, o.block)))
          (λ x y. absurd (ground (arith, y))) (λ x. full)
