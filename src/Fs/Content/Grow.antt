-- ===== src/Fs/Content/Grow.antt =====
-- writei over blocks that are in place, and the size that it leaves.
use operating_systems_projec.Base.{
  ℕ, ◌+◌, ◌-◌, ◌*◌, ◌/◌, ◌%◌, ◌≤◌, ◌<◌, ◌≡◌, refl, sym, ap, subst, ◌∙◌, ◌≢◌, inl, inr, false, ◌&&◌,
  ◌||◌, List, arith, ltb, if◌then◌else◌, ==_ne, Bool-cases, length, get_or, get_or-set_self, pos,
}
use operating_systems_projec.Log.{Block}
use operating_systems_projec.Fs.{
  Fs, Inode, Superblock, at, put, blank, write_block, bsize, ndirect, maxfile, t_dev, ◌>>◌,
  >>=-done, pure, done, HasRoom, log_write-done,
}
use operating_systems_projec.Fs.Bytes.{get_byte}
use operating_systems_projec.Fs.Inodes.{iblock, dinode, put_dinode, iupdate}
use operating_systems_projec.Fs.Content.{word, Devsw, write_from, grow, writei}
use operating_systems_projec.Fs.Content.Reads.{addr_of, content}
use operating_systems_projec.Fs.Content.Overlay.{overlay, AreBytes}
use operating_systems_projec.Fs.Content.Places.{IsPlaced, SamePlaces, IsPlaced-SamePlaces}
use operating_systems_projec.Fs.Content.Writes.{Writes, write_from_lem}

-- The block of the inode itself is none of those that hold the file.
pub record HomeApart (s : Fs) (i n : ℕ) : Type 0 where
  pub home : (k : ℕ) → k * bsize < n → addr_of s i k ≢ iblock (at s i).inum s.sb
  pub table_home : get_or (at s i).addrs ndirect 0 ≢ iblock (at s i).inum s.sb

abbrev pub resized : Fs → ℕ → ℕ → Inode
resized s i size = record (at s i) { size = size }

-- State `t` is `s` with the size of inode `i` changed, in the cache and on the disk.
record Resized (s t : Fs) (i size n : ℕ) : Type 0 where
  entry : at t i ≡ resized s i size
  places : SamePlaces s t i
  kept : (x : ℕ) → x < n → content t i x ≡ content s i x

update-Resized :
    (s : Fs) (i size n : ℕ) (x : Block)
    → i < length s.inodes
    → HomeApart s i n
    → Resized s
        (write_block
          (iblock (at (put i (resized s i size) s) i).inum s.sb)
          x
          (put i (resized s i size) s))
        i
        size
        n
update-Resized s i size n x lt h = record {
  entry = entry;
  places = places;
  kept = λ j hj.
      ap (λ b. get_byte (t.blocks b) (j % bsize)) (places.same_addrs (j / bsize))
      ∙ rw (==_ne (addr_of s i (j / bsize)) bno (λ e. h.home (j / bsize) (omega arith) (e ∙ home)))
          refl;
}
  where
    ip : Inode
    ip = resized s i size

    bno : ℕ
    bno = iblock (at (put i ip s) i).inum s.sb

    t : Fs
    t = write_block bno x (put i ip s)

    entry : at t i ≡ ip
    entry = get_or-set_self s.inodes i ip blank lt

    home : bno ≡ iblock (at s i).inum s.sb
    home = ap (λ (jp : Inode). iblock jp.inum s.sb) entry

    places : SamePlaces s t i
    places = record {
      same_table = ap (λ (jp : Inode). get_or jp.addrs ndirect 0) entry;
      same_addrs = λ k.
          ap
            (λ (jp : Inode).
              if ltb k ndirect
              then get_or jp.addrs k 0
              else t.blocks (get_or jp.addrs ndirect 0) (k - ndirect))
            entry
          ∙ rw (==_ne (get_or (at s i).addrs ndirect 0) bno (λ e. h.table_home (e ∙ home))) refl;
    }

-- The state once the inode with the new size is in the cache and on the disk.
abbrev updated : Fs → ℕ → ℕ → Fs
updated s i size =
    let s' = put i (resized s i size) s in
    let ip = at s' i in
    let bno = iblock ip.inum s.sb in
    write_block bno (put_dinode (s.blocks bno) (dinode ip.inum) ip) s'

grow_lem :
    (s : Fs) (i m off n : ℕ)
    → HasRoom 1 s
    → i < length s.inodes
    → HomeApart s i n
    → (t : Fs) × (grow i m off s ≡ done tt t)
      × Resized s t i (if ltb 0 m && ltb (at s i).size off then off else (at s i).size) n
unfolding grow iupdate
grow_lem s i m off n room lt h = elim (Bool-cases (ltb 0 m && ltb (at s i).size off)) [
  | inr e ↦ (
    s,
    rw e refl,
    rw e (record {
      entry = refl;
      places = record { same_table = refl; same_addrs = λ k. refl };
      kept = λ x hx. refl;
    }),
  )
  | inl e ↦ (
    updated s i off,
    rw e (
        log_write-done 0 _ _ (put i (resized s i off) s)
          (record { open_op = room.open_op; header = room.header; space = room.space })),
    rw e (update-Resized s i off n _ lt h),
  )
]

-- What writei leaves in inode `i`: the bytes of `src` from `off` on, and the size that covers them.
pub record Written (s t : Fs) (i off : ℕ) (src : List ℕ) (n : ℕ) : Type 0 where
  pub entry :
      at t i
      ≡ resized s i (
          if ltb 0 (length src) && ltb (at s i).size (off + length src)
          then off + length src
          else (at s i).size)
  pub bytes : (x : ℕ) → x < n → content t i x ≡ overlay (content s i) off src x
  pub placed : IsPlaced t i n

grow-Written :
    (s w : Fs) (i off n : ℕ) (src : List ℕ)
    → i < length s.inodes
    → IsPlaced s i n
    → HomeApart s i n
    → Writes s w i off src n 1
    → (t : Fs) × (grow i (length src) (off + length src) w ≡ done tt t) × Written s t i off src n
grow-Written s w i off n src hi p h ws =
    let same : at w i ≡ at s i = ap (λ is. get_or is i blank) ws.same_inodes in
    let home : iblock (at w i).inum w.sb ≡ iblock (at s i).inum s.sb =
      ap (λ (ip : Inode). iblock ip.inum w.sb) same
      ∙ ap (λ (sb : Superblock). iblock (at s i).inum sb) ws.same_sb in
    let (t, g, r) =
      grow_lem w i (length src) (off + length src) n ws.room
        (subst (λ is. i < length is) (sym ws.same_inodes) hi)
        (record {
          home = λ k lt e. h.home k lt (sym (ws.places.same_addrs k) ∙ e ∙ home);
          table_home = λ e. h.table_home (sym ws.places.same_table ∙ e ∙ home);
        }) in
    (
      t,
      g,
      record {
        entry =
            r.entry
            ∙ ap
                (λ (ip : Inode). record ip {
                  size =
                      if ltb 0 (length src) && ltb ip.size (off + length src)
                      then off + length src
                      else ip.size;
                })
                same;
        bytes = λ x lt. r.kept x lt ∙ ws.bytes x lt;
        placed = IsPlaced-SamePlaces w t i n r.places (IsPlaced-SamePlaces s w i n ws.places p);
      },
    )

-- In a transaction with room in the log for the `q` blocks that the bytes lie in and for the
-- inode's block, on a file whose blocks below byte `n` are in place, different, and apart from the
-- blocks of its addresses and of its inode, a write that starts within the size and ends below `n`
-- succeeds: the content below `n` is the old one with the bytes in their place, the size grows to
-- the end of the bytes if that is beyond it, and nothing else of the inode changes.
pub writei_lem :
    (devsw : Devsw) (s : Fs) (i off n q : ℕ) (src : List ℕ)
    → HasRoom (q + 1) s
    → off % bsize + length src ≤ q * bsize
    → i < length s.inodes
    → (at s i).type ≢ t_dev
    → off ≤ (at s i).size
    → off + length src ≤ n
    → n ≤ maxfile * bsize
    → AreBytes src
    → IsPlaced s i n
    → HomeApart s i n
    → (t : Fs) × (writei devsw i off src s ≡ done (pos (length src)) t) × Written s t i off src n
unfolding writei
writei_lem devsw s i off n q src room few hi ht ho hn hm hb p h =
    let (w, e, ws) =
      write_from_lem s (length src + 1) i off n q 1 src room (λ l. few) (omega arith) hn hm hb p in
    let (t, g, done_grow) = grow-Written s w i off n src hi p h ws in
    let in_range : (ltb (at s i).size off || ltb ((off + length src) % word) off) ≡ false =
      ground (arith, ho, hn, hm) in
    let fits : ltb (maxfile * bsize) (off + length src) ≡ false = ground (arith, hn, hm) in
    (
      t,
      rw (==_ne _ _ ht, in_range, fits)
          (>>=-done (write_from (length src + 1) i off src)
              (λ off'. grow i (length src) off' >> pure (pos (length src))) s w _ e
            ∙ >>=-done (grow i (length src) (off + length src)) (λ _. pure (pos (length src))) w t
                tt g),
      done_grow,
    )
