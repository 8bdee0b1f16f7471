-- ===== src/Fs/Content/RoundTrip.antt =====
-- What readi reads after writei.
use operating_systems_projec.Base.{
  ℕ, suc, ◌+◌, ◌-◌, ◌*◌, ◌%◌, ◌≤◌, ◌<◌, min, ◌≡◌, refl, sym, ap, ◌∙◌, ◌≢◌, true, ◌&&◌, List, [],
  ◌∷◌, arith, ltb, leb, if◌then◌else◌, length, get_or, pos,
}
use operating_systems_projec.Fs.{Fs, Inode, at, bsize, maxfile, t_dev, done, HasRoom}
use operating_systems_projec.Fs.Content.{Devsw, writei, readi}
use operating_systems_projec.Fs.Content.Reads.{content, slice, readi_lem}
use operating_systems_projec.Fs.Content.Overlay.{overlay, AreBytes}
use operating_systems_projec.Fs.Content.Places.{IsPlaced}
use operating_systems_projec.Fs.Content.Grow.{HomeApart, Written, writei_lem}

slice-overlay :
    (g : ℕ → ℕ) (off : ℕ) (src : List ℕ)
    → ((k : ℕ) → k < length src → g (off + k) ≡ get_or src k 0)
    → slice g off (length src) ≡ src
slice-overlay g off [] h = refl
slice-overlay g off (c ∷ src) h =
    let e : g off ≡ c = ap g (omega arith) ∙ h 0 (omega arith) in
    let es = slice-overlay g (off + 1) src (λ k lt. ap g (omega arith) ∙ h (suc k) (omega arith)) in
    rw (e, es) refl

overlay-inside :
    (f : ℕ → ℕ) (off : ℕ) (src : List ℕ) (k : ℕ)
    → k < length src
    → overlay f off src (off + k) ≡ get_or src k 0
overlay-inside f off src k lt =
    let e : (leb off (off + k) && ltb (off + k) (off + length src)) ≡ true = ground arith in
    let d : off + k - off ≡ k = omega arith in rw (e, d) refl

read_back :
    (devsw : Devsw) (s t : Fs) (i off n : ℕ) (src : List ℕ)
    → (at s i).type ≢ t_dev
    → off ≤ (at s i).size
    → (at s i).size ≤ n
    → off + length src ≤ n
    → n ≤ maxfile * bsize
    → Written s t i off src n
    → readi devsw i off (length src) t ≡ done (pos (length src), src) t
read_back devsw s t i off n src ht ho hz hn hm w =
    let size =
      if ltb 0 (length src) && ltb (at s i).size (off + length src)
      then off + length src
      else (at s i).size in
    let sized : (at t i).size ≡ size = ap (λ (ip : Inode). ip.size) w.entry in
    let covers : off + length src ≤ size = ground (arith, ho) in
    let within_n : size ≤ n = ground (arith, hz, hn) in
    let all : min (length src) ((at t i).size - off) ≡ length src = omega (arith, sized, covers) in
    (readi_lem devsw t i off (length src) (omega (arith, hn, hm)) (omega (arith, hn, hm)) (record {
      no_device = λ e. ht (sym (ap (λ (ip : Inode). ip.type) w.entry) ∙ e);
      size_le = omega (arith, sized, within_n, hm);
      mapped = λ k lt. w.placed.mapped k (omega (arith, sized, within_n, lt));
    })).1
      (omega (arith, sized, covers)) (omega (arith, hn, hm))
    ∙ rw all (
        ap (λ bytes. done (pos (length src), bytes) t)
          (slice-overlay (content t i) off src (λ k lt.
            w.bytes (off + k) (omega (arith, hn)) ∙ overlay-inside (content s i) off src k lt)))

-- In a transaction with room in the log for the `q` blocks that the bytes lie in and for the
-- inode's block, on a file whose size is at most `n`, and whose blocks below byte `n` are in place,
-- different, and apart from the blocks of its addresses and of its inode: a write that starts
-- within the size and ends below `n` succeeds, and a read of as many bytes at the same offset then
-- gives the bytes that were written.
pub writei-readi :
    (devsw : Devsw) (s : Fs) (i off n q : ℕ) (src : List ℕ)
    → HasRoom (q + 1) s
    → off % bsize + length src ≤ q * bsize
    → i < length s.inodes
    → (at s i).type ≢ t_dev
    → off ≤ (at s i).size
    → (at s i).size ≤ n
    → off + length src ≤ n
    → n ≤ maxfile * bsize
    → AreBytes src
    → IsPlaced s i n
    → HomeApart s i n
    → (t : Fs) × (writei devsw i off src s ≡ done (pos (length src)) t)
      × (readi devsw i off (length src) t ≡ done (pos (length src), src) t)
writei-readi devsw s i off n q src room few hi ht ho hz hn hm hb p h =
    let (t, e, w) = writei_lem devsw s i off n q src room few hi ht ho hn hm hb p h in
    (t, e, read_back devsw s t i off n src ht ho hz hn hm w)
