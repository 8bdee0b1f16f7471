-- ===== src/Fs/Blocks/Bitmap.antt =====
-- The bits of a block of the bitmap, by a check of all bytes.
use operating_systems_projec.Base.{
  ℕ, zero, suc, ◌+◌, ◌-◌, ◌/◌, ◌%◌, ◌^◌, ◌≤◌, ◌<◌, ◌≡◌, refl, sym, ap, subst, ◌∙◌, inl, inr, Bool,
  true, false, ◌&&◌, not, arith, ltb, ◌==◌, if◌then◌else◌, ==→eq, Bool-cases,
}
use Prim.Native.Nat.{bit_and, bit_or}
use operating_systems_projec.Log.{Block}
use operating_systems_projec.Fs.Bytes.{byte_of, get_byte, put_byte, get_byte-put_byte}
use operating_systems_projec.Fs.Blocks.{bit_of, set_bit, clear_bit}

-- The test `p` on the `n` numbers from `k` on.
check_from : (ℕ → Bool) → ℕ → ℕ → Bool
check_from p k zero = true
check_from p k (suc n) = let rest = check_from p (k + 1) n in if p k then rest else false

check_from-at :
    (p : ℕ → Bool) (n k x : ℕ) → k ≤ x → x < k + n → check_from p k n ≡ true → p x ≡ true
unfolding check_from
check_from-at p zero k x lo hi e = absurd (omega arith)
check_from-at p (suc n) k x lo hi e = elim (Bool-cases (p k)) [
  | inr f ↦ absurd (cc (rw f at e))
  | inl f ↦ elim (Bool-cases (k == x)) [
    | inl q ↦ subst (λ y. p y ≡ true) (==→eq k x q) f
    | inr q ↦ check_from-at p n (k + 1) x (ground (arith, q)) (omega arith) (rw f at e)
  ]
]

abbrev same : Bool → Bool → Bool
same true b = b
same false b = not b

same-eq : (a b : Bool) → same a b ≡ true → a ≡ b
same-eq true true h = refl
same-eq true false h = sym h
same-eq false false h = refl
same-eq false true h = h

-- Bit `j` of the byte `b`, once bit `i` is set, and once it is cleared.
abbrev set_then : ℕ → ℕ → ℕ → Bool
set_then b i j =
    same (bit_and (bit_or b (2 ^ i)) (2 ^ j) == 0)
      (if i == j then false else bit_and b (2 ^ j) == 0)

abbrev clear_then : ℕ → ℕ → ℕ → Bool
clear_then b i j =
    same (bit_and (bit_and b (255 - 2 ^ i)) (2 ^ j) == 0)
      (if i == j then true else bit_and b (2 ^ j) == 0)

byte_ok : ℕ → ℕ → Bool
byte_ok b i =
    ltb (bit_or b (2 ^ i)) 256
    && ltb (bit_and b (255 - 2 ^ i)) 256
    && check_from (λ j. set_then b i j && clear_then b i j) 0 8

byte_table : check_from (λ b. check_from (byte_ok b) 0 8) 0 256 ≡ true
unfolding check_from byte_ok
byte_table = refl

byte_lem : (b i : ℕ) → b < 256 → i < 8 → byte_ok b i ≡ true
byte_lem b i hb hi =
    check_from-at (byte_ok b) 8 0 i (omega arith) (omega arith) (
      check_from-at (λ c. check_from (byte_ok c) 0 8) 256 0 b (omega arith) (omega arith)
        byte_table)

get_byte-lt : (blk : Block) (i : ℕ) → get_byte blk i < 256
unfolding get_byte byte_of
get_byte-lt blk i = ground arith

abbrev pub is_free : Block → ℕ → Bool
is_free blk bi = bit_of blk bi == 0

split_ok :
    (b i j : ℕ)
    → b < 256
    → i < 8
    → j < 8
    → (bit_or b (2 ^ i) < 256)
      × (bit_and b (255 - 2 ^ i) < 256)
      × (set_then b i j ≡ true)
      × (clear_then b i j ≡ true)
unfolding byte_ok
split_ok b i j hb hi hj =
    let t = byte_lem b i hb hi in
    let both =
      check_from-at (λ k. set_then b i k && clear_then b i k) 8 0 j (omega arith) (omega arith)
        (ground (arith, t)) in
    (ground (arith, t), ground (arith, t), ground (arith, both), ground (arith, both))

-- Bits of the same byte are told apart by their places in it.
join :
    (i j : ℕ) (v : Bool) (f : ℕ → Bool)
    → i / 8 ≡ j / 8
    → (if i % 8 == j % 8 then v else f (i / 8)) ≡ (if i == j then v else f (j / 8))
join i j v f q = elim (Bool-cases (i == j)) [
  | inl e ↦ ground (arith, e, q)
  | inr e ↦ ground (arith, e, q, ap f q)
]

-- A byte that is put in the place of the one with bit `i`.
bit_of-put :
    (blk : Block) (i j v : ℕ) (w : Bool)
    → v < 256
    → (bit_and v (2 ^ (j % 8)) == 0)
      ≡ (if i % 8 == j % 8 then w else bit_and (get_byte blk (i / 8)) (2 ^ (j % 8)) == 0)
    → is_free (put_byte blk (i / 8) v) j ≡ (if i == j then w else is_free blk j)
unfolding bit_of
bit_of-put blk i j v w lt h =
    rw (get_byte-put_byte blk (i / 8) (j / 8) v lt) (elim (Bool-cases (i / 8 == j / 8)) [
      | inl e ↦ rw e (
          h
          ∙ join i j w (λ k. bit_and (get_byte blk k) (2 ^ (j % 8)) == 0) (==→eq (i / 8) (j / 8) e))
      | inr e ↦
          rw e (elim (Bool-cases (i == j)) [
            | inl f ↦ absurd (ground (arith, e, f))
            | inr f ↦ rw f refl
          ])
    ])

-- Setting a bit of the bitmap takes that block, and no other.
pub is_free-set_bit :
    (blk : Block) (i j : ℕ) → is_free (set_bit blk i) j ≡ (if i == j then false else is_free blk j)
unfolding set_bit
is_free-set_bit blk i j =
    let (lt, lt', st, ct) =
      split_ok (get_byte blk (i / 8)) (i % 8) (j % 8) (get_byte-lt blk (i / 8)) (omega arith)
        (omega arith) in
    bit_of-put blk i j (bit_or (get_byte blk (i / 8)) (2 ^ (i % 8))) false lt (same-eq _ _ st)

-- Clearing a bit frees that block, and no other.
pub is_free-clear_bit :
    (blk : Block) (i j : ℕ) → is_free (clear_bit blk i) j ≡ (if i == j then true else is_free blk j)
unfolding clear_bit
is_free-clear_bit blk i j =
    let (lt, lt', st, ct) =
      split_ok (get_byte blk (i / 8)) (i % 8) (j % 8) (get_byte-lt blk (i / 8)) (omega arith)
        (omega arith) in
    bit_of-put blk i j (bit_and (get_byte blk (i / 8)) (255 - 2 ^ (i % 8))) true lt'
      (same-eq _ _ ct)
