-- ===== src/Log/Space.antt =====
-- The reservation of log space: begin_op admits no more operations than the log has room for, so
-- that log_write finds room for each block that an admitted operation may still write.
use operating_systems_projec.Base.{
  ℕ, zero, suc, ◌+◌, ◌-◌, ◌*◌, ◌≤◌, ◌<◌, ◌≡◌, refl, sym, ◌≢◌, ◌↔◌, inl, inr, Bool, true, false,
  some, List, [], ◌∷◌, ◌++◌, arith, ◌==◌, if◌then◌else◌, ==→eq, Bool-cases, update, length,
  length-append, All, ok,
}
use operating_systems_projec.Log.{
  Disk, Log, logsize, maxopblocks, begin_op, end_op_start, find_block, log_write,
}

abbrev pub sum : List ℕ → ℕ
sum [] = 0
sum (x ∷ xs) = x + sum xs

-- `quotas` holds, for each operation in progress, how many more blocks it may write.
pub record Space (l : Log) (quotas : List ℕ) : Type 0 where
  pub reserved : l.n + sum quotas ≤ logsize
  pub each : All (λ q. q ≤ maxopblocks) quotas
  pub counted : l.outstanding ≡ length quotas

sum-le : (qs : List ℕ) → All (λ q. q ≤ maxopblocks) qs → sum qs ≤ length qs * maxopblocks
sum-le [] h = omega arith
sum-le (q ∷ qs) h = omega (arith, sum-le qs h.1, h.0)

sum-append : (xs ys : List ℕ) → sum (xs ++ ys) ≡ sum xs + sum ys
sum-append [] ys = omega arith
sum-append (x ∷ xs) ys = omega (arith, sum-append xs ys)

All-spent :
    (xs ys : List ℕ) (q : ℕ)
    → All (λ q. q ≤ maxopblocks) (xs ++ (suc q ∷ ys))
    → All (λ q. q ≤ maxopblocks) (xs ++ (q ∷ ys))
All-spent [] ys q h = (omega arith, h.1)
All-spent (x ∷ xs) ys q h = (h.0, All-spent xs ys q h.1)

-- An operation that begin_op admits gets a full quota, and the space is still reserved.
pub begin_op-Space :
    (l l' : Log) (qs : List ℕ)
    → Space l qs
    → begin_op l ≡ some l'
    → Space l' (maxopblocks ∷ qs) × (l.committing ≡ false)
unfolding begin_op
begin_op-Space l l' qs s e = (
  record {
    reserved = ground (arith, s.reserved, s.counted, sum-le qs s.each);
    each = (omega arith, s.each);
    counted = ground (arith, s.counted);
  },
  ground arith,
)

pub find_block-bounds :
    (k i : ℕ) (block : ℕ → ℕ) (b : ℕ)
    → (find_block k i block b ≤ i + k)
      × (find_block k i block b ≢ i + k → block (find_block k i block b) ≡ b)
unfolding find_block
find_block-bounds zero i block b = (omega arith, λ ne. absurd (ne (omega arith)))
find_block-bounds (suc k) i block b = elim (Bool-cases (block i == b)) [
  | inl e ↦ rw e (omega arith, λ ne. ==→eq (block i) b e)
  | inr e ↦
      let rest = find_block-bounds k (i + 1) block b in
      rw e (omega (arith, rest.0), λ ne. rest.1 (λ q. ne (omega (arith, q))))
]

-- In a log with a block to spare for its header, log_write by an operation with quota left does not
-- panic, takes at most one block of that quota, and leaves the block among those logged and pinned.
pub log_write-Space :
    (l : Log) (d : Disk) (b : ℕ) (xs ys : List ℕ) (q : ℕ)
    → Space l (xs ++ (suc q ∷ ys))
    → logsize < l.size
    → (r : Log × Disk) × (log_write l d b ≡ ok r)
      × Space r.0 (xs ++ (q ∷ ys))
      × ((i : ℕ) × (i < r.0.n) × (r.0.block i ≡ b))
      × (r.1.dirty b ≡ true)
unfolding log_write
log_write-Space l d b xs ys q s room = (
  (
    record l { block = update l.block at b; n = if at == l.n then l.n + 1 else l.n },
    record d { dirty = update d.dirty b true },
  ),
  ground (arith, used, outstanding),
  record {
    reserved = ground (arith, used, sum-append xs (q ∷ ys));
    each = All-spent xs ys q s.each;
    counted =
        omega (arith, s.counted, length-append {0} xs (suc q ∷ ys), length-append {0} xs (q ∷ ys));
  },
  (at, ground (arith, find_block-bounds l.n 0 l.block b), ground arith),
  ground arith,
)
  where
    at : ℕ
    at = find_block l.n 0 l.block b

    used : l.n + sum xs + suc q + sum ys ≤ logsize
    used = omega (arith, s.reserved, sum-append xs (suc q ∷ ys))

    outstanding : 0 < l.outstanding
    outstanding = omega (arith, s.counted, length-append {0} xs (suc q ∷ ys))

-- The end of an operation gives its quota back; it asks for a commit exactly when it is the last.
pub end_op_start-Space :
    (l : Log) (q : ℕ) (qs : List ℕ)
    → Space l (q ∷ qs)
    → l.committing ≡ false
    → (r : Bool × Log) × (end_op_start l ≡ ok r)
      × Space r.1 qs
      × (r.0 ≡ r.1.committing)
      × ((r.0 ≡ true) ↔ (qs ≡ []))
unfolding end_op_start
end_op_start-Space l q [] s c = (
  (true, record l { outstanding = 0; committing = true }),
  ground (arith, s.counted),
  record { reserved = omega (arith, s.reserved); each = tt; counted = refl },
  refl,
  (λ e. refl, λ e. refl),
)
end_op_start-Space l q (p ∷ qs) s c = (
  (false, record l { outstanding = l.outstanding - 1 }),
  ground (arith, s.counted),
  record {
    reserved = omega (arith, s.reserved);
    each = s.each.1;
    counted = omega (arith, s.counted);
  },
  sym c,
  (λ e. cc, λ e. cc),
)
