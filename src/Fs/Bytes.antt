-- ===== src/Fs/Bytes.antt =====
-- The bytes of a block whose words are little-endian.
use operating_systems_projec.Base.{
  ℕ, zero, suc, ◌+◌, ◌*◌, ◌/◌, ◌%◌, ◌<◌, ◌≡◌, sym, ap, ◌∙◌, inl, inr, List, [], ◌∷◌, arith, ◌==◌,
  if◌then◌else◌, ==→eq, Bool-cases, update,
}
use operating_systems_projec.Log.{Block}

unfoldable pub byte_of : ℕ → ℕ → ℕ
byte_of w k =
    if k == 0
    then w % 256
    else if k == 1
    then w / 256 % 256
    else if k == 2
    then w / 65536 % 256
    else w / 16777216 % 256

unfoldable pub with_byte : ℕ → ℕ → ℕ → ℕ
with_byte w k v =
    if k == 0
    then w / 256 * 256 + v
    else if k == 1
    then w / 65536 * 65536 + v * 256 + w % 256
    else if k == 2
    then w / 16777216 * 16777216 + v * 65536 + w % 65536
    else v * 16777216 + w % 16777216

unfoldable pub get_byte : Block → ℕ → ℕ
get_byte blk i = byte_of (blk (i / 4)) (i % 4)

unfoldable pub put_byte : Block → ℕ → ℕ → Block
put_byte blk i v = update blk (i / 4) (with_byte (blk (i / 4)) (i % 4) v)

-- memmove from the block, and to it.
unfoldable pub get_bytes : Block → ℕ → ℕ → List ℕ
get_bytes blk o zero = []
get_bytes blk o (suc n) = get_byte blk o ∷ get_bytes blk (o + 1) n

unfoldable pub put_bytes : Block → ℕ → List ℕ → Block
put_bytes blk o [] = blk
put_bytes blk o (v ∷ vs) = put_bytes (put_byte blk o v) (o + 1) vs

byte_of-with_byte :
    (w k l v : ℕ)
    → k < 4
    → l < 4
    → v < 256
    → byte_of (with_byte w k v) l ≡ (if k == l then v else byte_of w l)
unfolding byte_of with_byte
byte_of-with_byte w k l v hk hl hv = ground arith

-- A byte that is written is read back, and no other byte changes.
pub get_byte-put_byte :
    (blk : Block) (i j v : ℕ)
    → v < 256
    → get_byte (put_byte blk i v) j ≡ (if i == j then v else get_byte blk j)
unfolding get_byte put_byte
get_byte-put_byte blk i j v h = elim (Bool-cases (j / 4 == i / 4)) [
  | inl e ↦
      let b = byte_of-with_byte (blk (i / 4)) (i % 4) (j % 4) v (omega arith) (omega arith) h in
      let q : i / 4 ≡ j / 4 = sym (==→eq (j / 4) (i / 4) e) in rw e (b ∙ same q (ap blk q))
  | inr e ↦
      rw e (elim (Bool-cases (i == j)) [ inl f ↦ absurd (ground (arith, e, f)) | inr f ↦ rw f ])
]
  where
    same :
        i / 4 ≡ j / 4
        → blk (i / 4) ≡ blk (j / 4)
        → (if i % 4 == j % 4 then v else byte_of (blk (i / 4)) (j % 4))
          ≡ (if i == j then v else byte_of (blk (j / 4)) (j % 4))
    same q w = elim (Bool-cases (i == j)) [
      | inl f ↦ ground (arith, f, q)
      | inr f ↦ ground (arith, f, q, w)
    ]
