-- ===== src/Fs/Inodes/Disk.antt =====
-- Inodes on the disk: what iupdate writes is what ilock reads.
use operating_systems_projec.Base.{
  ℕ, zero, suc, ◌+◌, ◌-◌, ◌*◌, ◌/◌, ◌%◌, ◌≤◌, ◌<◌, ◌≡◌, refl, sym, ap, subst, ◌∙◌, ◌≢◌, ◌⊎◌, inl,
  inr, true, false, ◌&&◌, List, [], ◌∷◌, arith, ltb, leb, ◌==◌, ==→eq, ==_refl, ==_ne, Bool-cases,
  update, length, get_or,
}
use operating_systems_projec.Log.{Block}
use operating_systems_projec.Fs.{
  Inode, Fs, at, put, ipb, write_block, done, HasRoom, log_write-done,
}
use operating_systems_projec.Fs.Inodes.{
  iblock, dinode, dinode_word, put_dinode, words, load_dinode, iupdate, ilock,
}

-- The fields that are kept on the disk have the sizes they have there.
pub record IsStorable (ip : Inode) : Type 0 where
  pub type_lt : ip.type < 65536
  pub major_lt : ip.major < 65536
  pub minor_lt : ip.minor < 65536
  pub nlink_lt : ip.nlink < 65536
  pub addrs_length : length ip.addrs ≡ 13

words-eq :
    (blk : Block) (o : ℕ) (xs : List ℕ)
    → ((k : ℕ) → k < length xs → blk (o + k) ≡ get_or xs k 0)
    → words blk o (length xs) ≡ xs
unfolding words
words-eq blk o [] h = refl
words-eq blk o (x ∷ xs) h =
    let e : blk o ≡ x = ap blk (omega arith) ∙ h 0 (omega arith) in
    let es = words-eq blk (o + 1) xs (λ k lt. ap blk (omega arith) ∙ h (suc k) (omega arith)) in
    rw (e, es) refl

put_dinode-at :
    (blk : Block) (o k : ℕ) (ip : Inode) → k < 16 → put_dinode blk o ip (o + k) ≡ dinode_word ip k
unfolding put_dinode
put_dinode-at blk o k ip h =
    let e : (leb o (o + k) && ltb (o + k) (o + 16)) ≡ true = ground arith in
    let d : o + k - o ≡ k = omega arith in rw (e, d) refl

put_dinode-other :
    (blk : Block) (o w : ℕ) (ip : Inode) → (w < o) ⊎ (o + 16 ≤ w) → put_dinode blk o ip w ≡ blk w
unfolding put_dinode
put_dinode-other blk o w ip h =
    let e : (leb o w && ltb w (o + 16)) ≡ false = ground (arith, h) in rw e refl

-- The fields that ilock copies, from `ip` to `jp`.
abbrev pub copied : Inode → Inode → Inode
copied ip jp = record jp {
  type = ip.type;
  major = ip.major;
  minor = ip.minor;
  nlink = ip.nlink;
  size = ip.size;
  addrs = ip.addrs;
}

put_dinode-addrs :
    (blk : Block) (o : ℕ) (ip : Inode)
    → length ip.addrs ≡ 13
    → words (put_dinode blk o ip) (o + 3) 13 ≡ ip.addrs
put_dinode-addrs blk o ip h =
    subst (λ n. words (put_dinode blk o ip) (o + 3) n ≡ ip.addrs) h
      (words-eq (put_dinode blk o ip) (o + 3) ip.addrs (λ k lt.
        ap (put_dinode blk o ip) (omega arith)
        ∙ put_dinode-at blk o (3 + k) ip (omega (arith, h))
        ∙ word k))
  where
    word : (k : ℕ) → dinode_word ip (3 + k) ≡ get_or ip.addrs k 0
    word k =
        let e : 3 + k - 3 ≡ k = omega arith in
        rw
          (
            ==_ne (3 + k) 0 (omega arith),
            ==_ne (3 + k) 1 (omega arith),
            ==_ne (3 + k) 2 (omega arith),
            e,
          )
          refl

words-cong :
    (f g : Block) (o n : ℕ) → ((k : ℕ) → k < n → f (o + k) ≡ g (o + k)) → words f o n ≡ words g o n
unfolding words
words-cong f g o zero h = refl
words-cong f g o (suc n) h =
    let e : f o ≡ g o = ap f (omega arith) ∙ h 0 (omega arith) ∙ ap g (omega arith) in
    let es =
      words-cong f g (o + 1) n
        (λ k lt. ap f (omega arith) ∙ h (suc k) (omega arith) ∙ ap g (omega arith)) in
    rw (e, es) refl

load_dinode-put_dinode :
    (blk : Block) (o : ℕ) (ip jp : Inode)
    → IsStorable ip
    → load_dinode (put_dinode blk o ip) o jp ≡ copied ip jp
unfolding load_dinode
load_dinode-put_dinode blk o ip jp st =
    let new = put_dinode blk o ip in
    let w0 : new o ≡ ip.type % 65536 + 65536 * (ip.major % 65536) =
      ap new (omega arith) ∙ put_dinode-at blk o 0 ip (omega arith) in
    let w1 : new (o + 1) ≡ ip.minor % 65536 + 65536 * (ip.nlink % 65536) =
      put_dinode-at blk o 1 ip (omega arith) in
    let w2 : new (o + 2) ≡ ip.size = put_dinode-at blk o 2 ip (omega arith) in
    let t : new o % 65536 ≡ ip.type = omega (arith, w0, st.type_lt) in
    let j : new o / 65536 ≡ ip.major = omega (arith, w0, st.type_lt, st.major_lt) in
    let m : new (o + 1) % 65536 ≡ ip.minor = omega (arith, w1, st.minor_lt) in
    let n : new (o + 1) / 65536 ≡ ip.nlink = omega (arith, w1, st.minor_lt, st.nlink_lt) in
    rw (t, j, m, n, w2, put_dinode-addrs blk o ip st.addrs_length) refl

load_dinode-cong :
    (f g : Block) (o : ℕ) (jp : Inode)
    → ((k : ℕ) → k < 16 → f (o + k) ≡ g (o + k))
    → load_dinode f o jp ≡ load_dinode g o jp
unfolding load_dinode
load_dinode-cong f g o jp h =
    let e0 : f o ≡ g o = ap f (omega arith) ∙ h 0 (omega arith) ∙ ap g (omega arith) in
    rw
      (
        e0,
        h 1 (omega arith),
        h 2 (omega arith),
        words-cong f g (o + 3) 13
            (λ k lt. ap f (omega arith) ∙ h (3 + k) (omega arith) ∙ ap g (omega arith)),
      )
      refl

-- What ilock leaves when it has found a good copy on the disk.
abbrev pub locked : ℕ → Inode → Fs → Fs
locked i ip s = put i (record ip { busy = true; valid = true }) s

-- ilock of an entry that is referenced, free, and has no valid copy.
ilock-load :
    (s : Fs) (j : ℕ) (ip : Inode)
    → 0 < (at s j).ref
    → (at s j).busy ≡ false
    → (at s j).valid ≡ false
    → load_dinode (s.blocks (iblock (at s j).inum s.sb)) (dinode (at s j).inum) (at s j) ≡ ip
    → ip.type ≢ 0
    → ilock j s ≡ done tt (locked j ip s)
unfolding ilock
ilock-load s j ip r b v l t =
    let e : ltb (at s j).ref 1 ≡ false = ground (arith, r) in rw (e, b, v, l, ==_ne _ _ t) refl

-- In a transaction with room for one more block in the log, for an inode with a type and fields of
-- the size that the disk has for them: iupdate writes the inode `i` to the disk: ilock of an entry
-- with the same number that has no valid copy then gets the fields of `i`. The copies of the inodes
-- with other numbers do not change.
pub iupdate-ilock :
    (s : Fs) (i : ℕ)
    → HasRoom 1 s
    → IsStorable (at s i)
    → (at s i).type ≢ 0
    → (s' : Fs) × (iupdate i s ≡ done tt s')
      × ((j : ℕ)
          → (at s' j).inum ≡ (at s i).inum
          → 0 < (at s' j).ref
          → (at s' j).busy ≡ false
          → (at s' j).valid ≡ false
          → ilock j s' ≡ done tt (locked j (copied (at s i) (at s' j)) s'))
      × ((n : ℕ) (jp : Inode)
          → n ≢ (at s i).inum
          → load_dinode (s'.blocks (iblock n s.sb)) (dinode n) jp
            ≡ load_dinode (s.blocks (iblock n s.sb)) (dinode n) jp)
unfolding iupdate
iupdate-ilock s i room st ty = (
  write_block bno new s,
  log_write-done 0 bno new s room,
  λ j e r b v.
      ilock-load (write_block bno new s) j (copied (at s i) (at s j)) r b v
        (subst
          (λ n.
            load_dinode (update s.blocks bno new (iblock n s.sb)) (dinode n) (at s j)
            ≡ copied (at s i) (at s j))
          (sym e)
          (rw (==_refl bno)
            (load_dinode-put_dinode (s.blocks bno) (dinode (at s i).inum) (at s i) (at s j) st)))
        ty,
  λ n jp ne. elim (Bool-cases (iblock n s.sb == bno)) [
    | inl e ↦
        rw (e, ==→eq (iblock n s.sb) bno e)
          (load_dinode-cong new (s.blocks bno) (dinode n) jp (λ k lt.
            put_dinode-other (s.blocks bno) (dinode (at s i).inum) (dinode n + k) (at s i)
              (apart n k lt ne (==→eq (iblock n s.sb) bno e))))
    | inr e ↦ rw e refl
  ],
)
  where
    bno : ℕ
    bno = iblock (at s i).inum s.sb

    new : Block
    new = put_dinode (s.blocks bno) (dinode (at s i).inum) (at s i)

    far :
        (n m k : ℕ)
        → ltb (n % ipb) (m % ipb) ≡ false
        → n ≢ m
        → n / ipb ≡ m / ipb
        → m % ipb * 16 + 16 ≤ n % ipb * 16 + k
    far n m k h ne e = ground (arith, h, ne, e)

    apart :
        (n k : ℕ)
        → k < 16
        → n ≢ (at s i).inum
        → iblock n s.sb ≡ bno
        → (dinode n + k < dinode (at s i).inum) ⊎ (dinode (at s i).inum + 16 ≤ dinode n + k)
    apart n k lt ne e = elim (Bool-cases (ltb (n % ipb) ((at s i).inum % ipb))) [
      | inl h ↦ inl (ground (arith, h, lt))
      | inr h ↦ inr (far n (at s i).inum k h ne (omega (arith, e)))
    ]
