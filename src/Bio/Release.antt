-- ===== src/Bio/Release.antt =====
-- brelse: the buffer moves to the front of the list, and the cache keeps its promises.
use operating_systems_projec.Base.{
  ℕ, zero, suc, ◌≤◌, ◌<◌, ◌≡◌, refl, sym, ap, subst, ◌≢◌, inl, inr, true, false, [], ◌∷◌, arith,
  ltb, if◌then◌else◌, ltb→lt, Bool-cases, length, ok,
}
use operating_systems_projec.Bio.{Buf, Cache, Disks, at, no_dev, is_block, remove, brelse}
use operating_systems_projec.Bio.Cached.{IsCache}

remove_below : (c : Cache) (i j : ℕ) → j < i → at (remove c i) j ≡ at c j
unfolding remove
remove_below [] i j h = refl
remove_below (b ∷ c) zero j h = absurd (omega arith)
remove_below (b ∷ c) (suc i) zero h = refl
remove_below (b ∷ c) (suc i) (suc j) h = remove_below c i j (omega arith)

remove_above : (c : Cache) (i j : ℕ) → i ≤ j → at (remove c i) j ≡ at c (suc j)
unfolding remove
remove_above [] i j h = refl
remove_above (b ∷ c) zero j h = refl
remove_above (b ∷ c) (suc i) zero h = absurd (omega arith)
remove_above (b ∷ c) (suc i) (suc j) h = remove_above c i j (omega arith)

length-remove : (c : Cache) (i : ℕ) → i < length c → suc (length (remove c i)) ≡ length c
unfolding remove
length-remove [] i lt = absurd (omega arith)
length-remove (b ∷ c) zero lt = refl
length-remove (b ∷ c) (suc i) lt = ap suc (length-remove c i (omega arith))

module _ (c : Cache) (i : ℕ) (lt : i < length c) where
  abbrev moved : Cache
  moved = record (at c i) { busy = false } ∷ remove c i

  -- Where the buffer at a position was.
  abbrev origin : ℕ → ℕ
  origin zero = i
  origin (suc j) = if ltb j i then j else suc j

  origin_inside : (j : ℕ) → j < length moved → origin j < length c
  origin_inside zero h = lt
  origin_inside (suc j) h = grind (arith, h, length-remove c i lt)

  origin_ne : (j k : ℕ) → j ≢ k → origin j ≢ origin k
  origin_ne zero zero ne = absurd (ne refl)
  origin_ne zero (suc k) ne = ground arith
  origin_ne (suc j) zero ne = ground arith
  origin_ne (suc j) (suc k) ne = ground arith

  at-moved :
      (j : ℕ) → record (at moved j) { busy = false } ≡ record (at c (origin j)) { busy = false }
  at-moved zero = refl
  at-moved (suc j) = elim (Bool-cases (ltb j i)) [
    | inl e ↦ rw (e, remove_below c i j (ltb→lt j i e)) refl
    | inr e ↦ rw (e, remove_above c i j (ground arith)) refl
  ]

  moved-IsCache : (d : Disks) → IsCache c d → IsCache moved d
  moved-IsCache d v = record {
    unique = λ j k hj hk ne.
        subst (λ (x : Buf). x.dev ≢ no_dev → is_block x.dev x.blockno (at moved k) ≡ false)
          (sym (at-moved j))
          (subst
            (λ (y : Buf).
              (at c (origin j)).dev ≢ no_dev
              → is_block (at c (origin j)).dev (at c (origin j)).blockno y ≡ false)
            (sym (at-moved k))
            (v.unique (origin j) (origin k) (origin_inside j hj) (origin_inside k hk)
              (origin_ne j k ne)));
    clean = λ j hj.
        subst (λ (x : Buf). x.valid ≡ true → x.dirty ≡ false → x.block_data ≡ d x.dev x.blockno)
          (sym (at-moved j)) (v.clean (origin j) (origin_inside j hj));
    written = λ j hj.
        subst (λ (x : Buf). x.dirty ≡ true → x.valid ≡ true) (sym (at-moved j))
          (v.written (origin j) (origin_inside j hj));
  }

-- brelse of the caller's buffer gives it up and puts it in front, and wakes its sleepers; the other
-- buffers stay in their order, and the cache keeps its promises.
pub brelse_lem :
    (c : Cache) (d : Disks) (i : ℕ)
    → IsCache c d
    → i < length c
    → (at c i).busy ≡ true
    → (c' : Cache) × (brelse c i ≡ ok (c', (at c i).id))
      × IsCache c' d
      × (length c' ≡ length c)
      × (at c' 0 ≡ record (at c i) { busy = false })
      × ((j : ℕ) → j < i → at c' (suc j) ≡ at c j)
      × ((j : ℕ) → i < j → at c' j ≡ at c j)
unfolding brelse
brelse_lem c d i v lt b = (
  record (at c i) { busy = false } ∷ remove c i,
  ground (arith, b),
  moved-IsCache c i lt d v,
  length-remove c i lt,
  refl,
  λ j h. remove_below c i j h,
  behind,
)
  where
    behind : (j : ℕ) → i < j → at (record (at c i) { busy = false } ∷ remove c i) j ≡ at c j
    behind zero h = absurd (omega arith)
    behind (suc j) h = remove_above c i j (omega arith)
