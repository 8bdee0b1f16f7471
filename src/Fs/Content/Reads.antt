-- ===== src/Fs/Content/Reads.antt =====
-- What readi reads: the content of the file, block by block.
use operating_systems_projec.Base.{
  ℕ, zero, suc, ◌+◌, ◌-◌, ◌*◌, ◌/◌, ◌%◌, ◌≤◌, ◌<◌, min, ◌≡◌, refl, ap, subst, ◌∙◌, ◌≢◌, ◌⊎◌, inl,
  inr, Bool, true, false, ◌||◌, List, [], ◌∷◌, ◌++◌, arith, ltb, if◌then◌else◌, ==_ne, Bool-cases,
  get_or, pos, negsuc,
}
use operating_systems_projec.Log.{Block}
use operating_systems_projec.Fs.{
  >>=-done, Fs, at, bsize, ndirect, nindirect, maxfile, t_dev, M, ◌>>=◌, pure, current, done,
}
use operating_systems_projec.Fs.Bytes.{get_byte, get_bytes}
use operating_systems_projec.Fs.Content.{
  word, Devsw, direct_block, indirect_entry, bmap, read_from, readi,
}

-- The block that holds block `k` of inode `i`; 0 where there is none.
abbrev pub addr_of : Fs → ℕ → ℕ → ℕ
addr_of s i k =
    if ltb k ndirect
    then get_or (at s i).addrs k 0
    else s.blocks (get_or (at s i).addrs ndirect 0) (k - ndirect)

-- Block `k` of inode `i` is in place, with the indirect block where that is needed.
pub record IsMapped (s : Fs) (i k : ℕ) : Type 0 where
  pub in_place : addr_of s i k ≢ 0
  pub indirect : (ndirect ≤ k) → get_or (at s i).addrs ndirect 0 ≢ 0

-- Byte `x` of inode `i`.
abbrev pub content : Fs → ℕ → ℕ → ℕ
content s i x = get_byte (s.blocks (addr_of s i (x / bsize))) (x % bsize)

abbrev pub slice : (ℕ → ℕ) → ℕ → ℕ → List ℕ
slice f o zero = []
slice f o (suc n) = f o ∷ slice f (o + 1) n

direct_block_lem :
    (s : Fs) (i k : ℕ)
    → get_or (at s i).addrs k 0 ≢ 0
    → direct_block i k s ≡ done (get_or (at s i).addrs k 0) s
unfolding direct_block
direct_block_lem s i k h = rw (==_ne _ _ h) refl

indirect_entry_lem :
    (s : Fs) (b n : ℕ) → s.blocks b n ≢ 0 → indirect_entry b n s ≡ done (s.blocks b n) s
unfolding indirect_entry
indirect_entry_lem s b n h = rw (==_ne _ _ h) refl

-- bmap of a block in place only looks it up.
pub bmap-IsMapped :
    (s : Fs) (i k : ℕ) → k < maxfile → IsMapped s i k → bmap i k s ≡ done (addr_of s i k) s
unfolding bmap
bmap-IsMapped s i k h m = elim (Bool-cases (ltb k ndirect)) [
  | inl e ↦ rw e (
      direct_block_lem s i k (
        subst
          (λ (b : Bool).
            (if b
              then get_or (at s i).addrs k 0
              else s.blocks (get_or (at s i).addrs ndirect 0) (k - ndirect))
            ≢ 0)
          e m.in_place))
  | inr e ↦
      let l : ltb (k - ndirect) nindirect ≡ true = ground (arith, e, h) in
      rw (e, l)
        (>>=-done (direct_block i ndirect) (λ b. indirect_entry b (k - ndirect)) s s _
            (direct_block_lem s i ndirect (m.indirect (ground (arith, e))))
          ∙ indirect_entry_lem s _ (k - ndirect) (
              subst
                (λ (b : Bool).
                  (if b
                    then get_or (at s i).addrs k 0
                    else s.blocks (get_or (at s i).addrs ndirect 0) (k - ndirect))
                  ≢ 0)
                e m.in_place))
]

get_bytes-slice :
    (blk : Block) (f : ℕ → ℕ) (o off n : ℕ)
    → ((j : ℕ) → j < n → get_byte blk (o + j) ≡ f (off + j))
    → get_bytes blk o n ≡ slice f off n
unfolding get_bytes
get_bytes-slice blk f o off zero h = refl
get_bytes-slice blk f o off (suc n) h =
    let e : get_byte blk o ≡ f off =
      ap (get_byte blk) (omega arith) ∙ h 0 (omega arith) ∙ ap f (omega arith) in
    let es =
      get_bytes-slice blk f (o + 1) (off + 1) n
        (λ j lt. ap (get_byte blk) (omega arith) ∙ h (suc j) (omega arith) ∙ ap f (omega arith)) in
    rw (e, es) refl

slice-append : (f : ℕ → ℕ) (o m n : ℕ) → slice f o m ++ slice f (o + m) n ≡ slice f o (m + n)
slice-append f o zero n =
    let e : o + 0 ≡ o = omega arith in let d : 0 + n ≡ n = omega arith in rw (e, d) refl
slice-append f o (suc m) n =
    let e : o + suc m ≡ o + 1 + m = omega arith in
    let d : suc m + n ≡ suc (m + n) = omega arith in
    rw (e, d) (ap (λ xs. f o ∷ xs) (slice-append f (o + 1) m n))

read_from_lem :
    (s : Fs) (f i off n : ℕ)
    → n < f
    → off + n ≤ maxfile * bsize
    → ((k : ℕ) → k * bsize < off + n → IsMapped s i k)
    → read_from f i off n s ≡ done (slice (content s i) off n) s
unfolding read_from
read_from_lem s zero i off n h hs m = absurd (omega arith)
read_from_lem s (suc f) i off zero h hs m = refl
read_from_lem s (suc f) i off (suc n) h hs m = rw (==_ne (suc n) 0 (omega arith)) (
    >>=-done (bmap i (off / bsize)) next s s _
      (bmap-IsMapped s i (off / bsize) (omega arith) (m (off / bsize) (omega arith)))
    ∙ >>=-done (read_from f i (off + l) (suc n - l))
        (λ rest. pure (get_bytes (s.blocks b) (off % bsize) l ++ rest)) s s _
        (read_from_lem s f i (off + l) (suc n - l) (omega arith) (omega arith)
          (λ k lt. m k (omega arith)))
    ∙ ap (λ xs. done xs s)
        (ap (λ xs. xs ++ slice (content s i) (off + l) (suc n - l))
            (get_bytes-slice (s.blocks b) (content s i) (off % bsize) off l
              (λ j lt. here j (omega arith)))
          ∙ slice-append (content s i) off l (suc n - l)
          ∙ (let e : l + (suc n - l) ≡ suc n = omega arith in ap (slice (content s i) off) e)))
  where
    l : ℕ
    l = min (suc n) (bsize - off % bsize)

    b : ℕ
    b = addr_of s i (off / bsize)

    next : ℕ → M (List ℕ)
    next b' = do
      s' ← current
      rest ← read_from f i (off + l) (suc n - l)
      pure (get_bytes (s'.blocks b') (off % bsize) l ++ rest)

    here :
        (j : ℕ)
        → off % bsize + j < bsize
        → get_byte (s.blocks (addr_of s i (off / bsize))) (off % bsize + j) ≡ content s i (off + j)
    here j lt =
        let p : off / bsize ≡ (off + j) / bsize = omega arith in
        let r : off % bsize + j ≡ (off + j) % bsize = omega arith in
        ap (get_byte (s.blocks (addr_of s i (off / bsize)))) r
        ∙ ap (λ k. get_byte (s.blocks (addr_of s i k)) ((off + j) % bsize)) p

-- A file whose blocks up to its size are in place.
pub record IsFile (s : Fs) (i : ℕ) : Type 0 where
  pub no_device : (at s i).type ≢ t_dev
  pub size_le : (at s i).size ≤ maxfile * bsize
  pub mapped : (k : ℕ) → k * bsize < (at s i).size → IsMapped s i k

-- On a file whose blocks up to its size are in place, readi fails when the offset is beyond the
-- size or its sum with the number of bytes does not fit 32 bits. Else it gives the bytes of the
-- content from the offset on, as many as are asked for, but none beyond the size. In both cases the
-- state stays.
pub readi_lem :
    (devsw : Devsw) (s : Fs) (i off n : ℕ)
    → off < word
    → n < word
    → IsFile s i
    → (((at s i).size < off) ⊎ (word ≤ off + n) → readi devsw i off n s ≡ done (negsuc 0, []) s)
      × (off ≤ (at s i).size
          → off + n < word
          → let m = min n ((at s i).size - off) in
            readi devsw i off n s ≡ done (pos m, slice (content s i) off m) s)
unfolding readi
readi_lem devsw s i off n ho hn f = (
  λ h. rw (==_ne _ _ f.no_device) (
      let e : (ltb (at s i).size off || ltb ((off + n) % word) off) ≡ true = ground (arith, h) in
      rw e refl),
  λ h h'.
      let e : (ltb (at s i).size off || ltb ((off + n) % word) off) ≡ false = ground arith in
      let m = min n ((at s i).size - off) in
      let c : (if ltb (at s i).size (off + n) then (at s i).size - off else n) ≡ m = ground arith in
      rw (==_ne _ _ f.no_device, e, c)
        (>>=-done (read_from (m + 1) i off m) (λ bytes. pure (pos m, bytes)) s s _
          (read_from_lem s (m + 1) i off m (omega arith) (omega (arith, f.size_le))
            (λ k lt. f.mapped k (omega arith)))),
)
