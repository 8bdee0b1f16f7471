-- ===== src/Fs/Content/Writes.antt =====
-- The loop of writei over blocks that are in place.
use operating_systems_projec.Base.{
  ℕ, zero, suc, ◌+◌, ◌-◌, ◌*◌, ◌/◌, ◌%◌, ◌≤◌, ◌<◌, min, ◌≡◌, refl, sym, ap, ◌∙◌, inl, inr, false,
  ◌&&◌, List, [], ◌∷◌, arith, ltb, leb, ◌==◌, if◌then◌else◌, ==→eq, Bool-cases, length, get_or,
  take, drop, length-take, length-drop, All-take, All-drop,
}
use operating_systems_projec.Fs.{
  Fs, write_block, log_write, bsize, maxfile, M, ◌>>◌, >>=-done, done, HasRoom, HasRoom-less,
  log_write-done, write_block-HasRoom,
}
use operating_systems_projec.Fs.Bytes.{get_byte, put_bytes}
use operating_systems_projec.Fs.Content.{bmap, write_from}
use operating_systems_projec.Fs.Content.Reads.{addr_of, content, bmap-IsMapped}
use operating_systems_projec.Fs.Content.Overlay.{
  overlay, overlay-nil, overlay-parts, AreBytes, get_byte-put_bytes,
}
use operating_systems_projec.Fs.Content.Places.{
  IsPlaced, SamePlaces, IsPlaced-SamePlaces, write_block-SamePlaces, write_block-content,
}

-- Bytes laid over a block, and over the content that it is part of.
within :
    (s : Fs) (i off j : ℕ) (chunk : List ℕ)
    → off % bsize + length chunk ≤ bsize
    → j / bsize ≡ off / bsize
    → overlay (get_byte (s.blocks (addr_of s i (off / bsize)))) (off % bsize) chunk (j % bsize)
      ≡ overlay (content s i) off chunk j
within s i off j chunk hc q =
    let t : (leb (off % bsize) (j % bsize) && ltb (j % bsize) (off % bsize + length chunk))
        ≡ (leb off j && ltb j (off + length chunk)) =
      ground (arith, q, hc) in
    let d : j % bsize - off % bsize ≡ j - off = omega (arith, q) in
    let c = ap (λ k. get_byte (s.blocks (addr_of s i k)) (j % bsize)) (sym q) in rw (t, d, c) refl

-- One round of the loop: a part of the block that holds byte `off`.
chunk-content :
    (s : Fs) (i n off : ℕ) (chunk : List ℕ) (j : ℕ)
    → IsPlaced s i n
    → off + length chunk ≤ n
    → 0 < length chunk
    → off % bsize + length chunk ≤ bsize
    → AreBytes chunk
    → j < n
    → let b = addr_of s i (off / bsize) in
      content (write_block b (put_bytes (s.blocks b) (off % bsize) chunk) s) i j
      ≡ overlay (content s i) off chunk j
chunk-content s i n off chunk j h hn hp hc hb hj =
    let b = addr_of s i (off / bsize) in
    write_block-content s i n (off / bsize) (put_bytes (s.blocks b) (off % bsize) chunk) j h
      (omega arith) hj
    ∙ elim (Bool-cases (j / bsize == off / bsize)) [
      | inl e ↦ rw e (
          get_byte-put_bytes (s.blocks b) (off % bsize) chunk (j % bsize) hb
          ∙ within s i off j chunk hc (==→eq (j / bsize) (off / bsize) e))
      | inr e ↦
          let o : (leb off j && ltb j (off + length chunk)) ≡ false = ground (arith, e, hc) in
          rw (e, o) refl
    ]

-- State `t` is `s` with `src` written into inode `i` from `off` on, and `k` blocks of room left in
-- the log.
pub record Writes (s t : Fs) (i off : ℕ) (src : List ℕ) (n k : ℕ) : Type 0 where
  pub places : SamePlaces s t i
  pub same_inodes : t.inodes ≡ s.inodes
  pub same_sb : t.sb ≡ s.sb
  pub room : HasRoom k t
  pub bytes : (x : ℕ) → x < n → content t i x ≡ overlay (content s i) off src x

-- Each round writes a block, so there is room in the log for the `q` blocks that the bytes lie in.
pub write_from_lem :
    (s : Fs) (f i off n q k : ℕ) (src : List ℕ)
    → HasRoom (q + k) s
    → (0 < length src → off % bsize + length src ≤ q * bsize)
    → length src < f
    → off + length src ≤ n
    → n ≤ maxfile * bsize
    → AreBytes src
    → IsPlaced s i n
    → (t : Fs) × (write_from f i off src s ≡ done (off + length src) t) × Writes s t i off src n k
unfolding write_from
write_from_lem s zero i off n q k src room few h hn hm hb p = absurd (omega arith)
write_from_lem s (suc f) i off n q k [] room few h hn hm hb p = (
  s,
  ap (λ o. done o s) (omega arith),
  record {
    places = record { same_table = refl; same_addrs = λ k. refl };
    same_inodes = refl;
    same_sb = refl;
    room = HasRoom-less k (q + k) s (omega arith) room;
    bytes = λ x lt. sym (overlay-nil (content s i) off x);
  },
)
write_from_lem s (suc f) i off n q k (c ∷ cs) room few h hn hm hb p =
    let (t, e, w) =
      write_from_lem s1 f i (off + m) n (q - 1) k (drop m src) room1 fewer shorter
        (omega (arith, end)) hm (All-drop (λ v. v < 256) m src hb)
        (IsPlaced-SamePlaces s s1 i n places1 p) in
    (
      t,
      >>=-done (bmap i (off / bsize)) next s s b
            (bmap-IsMapped s i (off / bsize) (omega arith) (p.mapped (off / bsize) (omega arith)))
          ∙ >>=-done (λ s'. log_write b (put_bytes (s'.blocks b) (off % bsize) (take m src)) s')
              (λ u. write_from f i (off + m) (drop m src)) s s1 tt
              (log_write-done (q - 1 + k) b _ s some_room)
          ∙ e
          ∙ ap (λ o. done o t) end,
      record {
        places = record {
          same_table = w.places.same_table;
          same_addrs = λ k. w.places.same_addrs k ∙ places1.same_addrs k;
        };
        same_inodes = w.same_inodes;
        same_sb = w.same_sb;
        room = w.room;
        bytes = λ x lt.
            w.bytes x lt ∙ first x lt ∙ overlay-parts (content s i) off m src x (omega arith);
      },
    )
  where
    src : List ℕ
    src = c ∷ cs

    m : ℕ
    m = min (length src) (bsize - off % bsize)

    b : ℕ
    b = addr_of s i (off / bsize)

    s1 : Fs
    s1 = write_block b (put_bytes (s.blocks b) (off % bsize) (take m src)) s

    next : ℕ → M ℕ
    next b' =
        (λ s'. log_write b' (put_bytes (s'.blocks b') (off % bsize) (take m src)) s')
        >> write_from f i (off + m) (drop m src)

    some_room : HasRoom (suc (q - 1 + k)) s
    some_room = HasRoom-less (suc (q - 1 + k)) (q + k) s (omega (arith, few (omega arith))) room

    room1 : HasRoom (q - 1 + k) s1
    room1 = write_block-HasRoom (q - 1 + k) b _ s some_room

    fewer : 0 < length (drop m src) → (off + m) % bsize + length (drop m src) ≤ (q - 1) * bsize
    fewer l = omega (arith, length-drop m src, few (omega arith))

    places1 : SamePlaces s s1 i
    places1 = write_block-SamePlaces s i b _ (p.table_apart (off / bsize) (omega arith))

    shorter : length (drop m src) < f
    shorter = omega (arith, length-drop m src)

    end : off + m + length (drop m src) ≡ off + length src
    end = omega (arith, length-drop m src)

    first :
        (x : ℕ)
        → x < n
        → overlay (content s1 i) (off + m) (drop m src) x
          ≡ overlay (overlay (content s i) off (take m src)) (off + m) (drop m src) x
    first x lt =
        ap
          (λ v.
            if leb (off + m) x && ltb x (off + m + length (drop m src))
            then get_or (drop m src) (x - (off + m)) 0
            else v)
          (chunk-content s i n off (take m src) x p (omega (arith, length-take m src))
            (omega (arith, length-take m src)) (omega (arith, length-take m src))
            (All-take (λ v. v < 256) m src hb) lt)
