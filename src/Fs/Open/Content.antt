-- ===== src/Fs/Open/Content.antt =====
-- Reads and writes of files leave the transactions as they are.
use operating_systems_projec.Base.{
  ℕ, zero, suc, ◌+◌, ◌-◌, ◌*◌, ◌%◌, ◌≡◌, refl, ◌&&◌, ◌||◌, Option, none, some, List, [], ◌∷◌, ltb,
  leb, ◌==◌, if◌then◌else◌, update, length, get_or, min, ◌/◌, take, drop, ℤ, pos, negsuc,
}
use operating_systems_projec.Fs.{
  bsize, maxfile, nindirect, ndirect, t_dev, log_write, M, at, ◌>>=◌, ◌>>◌, pure, modify,
}
use operating_systems_projec.Fs.Blocks.{balloc}
use operating_systems_projec.Fs.Content.{
  writei, word, indirect_entry, write_from, read_from, readi, Devsw, bmap, grow, direct_block,
  set_addr,
}
use operating_systems_projec.Fs.Open.Inodes.{Keeps-iupdate}
use operating_systems_projec.Fs.Open.{
  Keeps-current, Keeps-if, Keeps, Leaves-if, Keeps->>=, Keeps-pure, Keeps-balloc, Keeps-log_write,
}
use operating_systems_projec.Fs.Bytes.{put_bytes}

Keeps-direct_block : (i k : ℕ) → Keeps (direct_block i k)
unfolding direct_block
Keeps-direct_block i k s =
    Leaves-if s.outstanding (get_or (at s i).addrs k 0 == 0) _ _ (alloc s) refl
  where
    alloc : Keeps (do b ← balloc; modify (set_addr i k b); pure b)
    alloc = search (Keeps->>=, Keeps-balloc, Keeps-pure)

Keeps-indirect_entry : (b n : ℕ) → Keeps (indirect_entry b n)
unfolding indirect_entry
Keeps-indirect_entry b n s = Leaves-if s.outstanding (s.blocks b n == 0) _ _ (alloc s) refl
  where
    alloc :
        Keeps (do addr' ← balloc; (λ s'. log_write b (update (s'.blocks b) n addr') s'); pure addr')
    alloc = Keeps->>= balloc _ Keeps-balloc (λ a.
        Keeps->>= (λ s'. log_write b (update (s'.blocks b) n a) s') (λ u. pure a)
          (λ s'. Keeps-log_write b (update (s'.blocks b) n a) s') (λ u. Keeps-pure a))

pub Keeps-bmap : (i bn : ℕ) → Keeps (bmap i bn)
unfolding bmap
Keeps-bmap i bn = Keeps-if (ltb bn ndirect) _ _ (Keeps-direct_block i bn) (
    Keeps-if (ltb (bn - ndirect) nindirect) _ _
      (Keeps->>= (direct_block i ndirect) (λ b. indirect_entry b (bn - ndirect))
        (Keeps-direct_block i ndirect) (λ b. Keeps-indirect_entry b (bn - ndirect)))
      (λ s. tt))

Keeps-read_from : (f i off n : ℕ) → Keeps (read_from f i off n)
unfolding read_from
Keeps-read_from zero i off n = (λ t. refl)
Keeps-read_from (suc f) i off n =
    Keeps-if (n == 0) _ _ (λ t. refl)
      (search (Keeps->>=, Keeps-bmap, Keeps-current, Keeps-read_from f) depth 10)

-- The functions of the devices leave the transactions as they are.
pub record DevswKeeps (devsw : Devsw) : Type 0 where
  pub reads :
      (major : ℕ) (read : ℕ → ℕ → M (ℤ × List ℕ))
      → devsw.read major ≡ some read
      → (i n : ℕ) → Keeps (read i n)
  pub writes :
      (major : ℕ) (write : ℕ → List ℕ → M ℤ)
      → devsw.write major ≡ some write
      → (i : ℕ) (src : List ℕ) → Keeps (write i src)

Keeps-device :
    {A B C : Type 0}
    → (o : Option (A → C → M B)) (m : M B) (a : A) (c : C) → Keeps m
    → ((f : A → C → M B) → o ≡ some f → Keeps (f a c))
    → Keeps (elim o [ none ↦ m | some f ↦ f a c ])
Keeps-device none m a c h g = h
Keeps-device (some f) m a c h g = g f refl

pub Keeps-readi : (devsw : Devsw) → DevswKeeps devsw → (i off n : ℕ) → Keeps (readi devsw i off n)
unfolding readi
Keeps-readi devsw d i off n s =
    Leaves-if s.outstanding ((at s i).type == t_dev) _ _
      (Keeps-if (leb 10 (at s i).major) (pure (negsuc 0, [])) _ (λ t. refl)
        (Keeps-device (devsw.read (at s i).major) (pure (negsuc 0, [])) i n (λ t. refl)
          (λ f e. d.reads (at s i).major f e i n))
        s)
      (Leaves-if s.outstanding (ltb (at s i).size off || ltb ((off + n) % word) off) _ _ refl
        (loop (if ltb (at s i).size (off + n) then (at s i).size - off else n) s))
  where
    loop :
        (m : ℕ) → Keeps {A = ℤ × List ℕ} (do bytes ← read_from (m + 1) i off m; pure (pos m, bytes))
    loop m = search (Keeps->>=, Keeps-read_from, Keeps-pure)

Keeps-write_from : (f i off : ℕ) (src : List ℕ) → Keeps (write_from f i off src)
unfolding write_from
Keeps-write_from zero i off src = Keeps-pure off
Keeps-write_from (suc f) i off [] = Keeps-pure off
Keeps-write_from (suc f) i off (c ∷ src) =
    let m = min (length (c ∷ src)) (bsize - off % bsize) in
    Keeps->>= (bmap i (off / bsize)) _ (Keeps-bmap i (off / bsize)) (λ b.
      Keeps->>= (λ s. log_write b (put_bytes (s.blocks b) (off % bsize) (take m (c ∷ src))) s) _
        (λ s. Keeps-log_write b _ s) (λ u. Keeps-write_from f i (off + m) (drop m (c ∷ src))))

Keeps-grow : (i n off : ℕ) → Keeps (grow i n off)
unfolding grow
Keeps-grow i n off s =
    Leaves-if s.outstanding (ltb 0 n && ltb (at s i).size off) _ _ (Keeps-iupdate i _) refl

pub Keeps-writei :
    (devsw : Devsw) → DevswKeeps devsw → (i off : ℕ) (src : List ℕ) → Keeps (writei devsw i off src)
unfolding writei
Keeps-writei devsw d i off src s =
    Leaves-if s.outstanding ((at s i).type == t_dev) _ _
      (Keeps-if (leb 10 (at s i).major) (pure (negsuc 0)) _ (λ t. refl)
        (Keeps-device (devsw.write (at s i).major) (pure (negsuc 0)) i src (λ t. refl)
          (λ f e. d.writes (at s i).major f e i src))
        s)
      (Leaves-if s.outstanding (ltb (at s i).size off || ltb ((off + length src) % word) off) _ _
        refl (Leaves-if s.outstanding (ltb (maxfile * bsize) (off + length src)) _ _ refl (loop s)))
  where
    loop : Keeps (do
      off' ← write_from (length src + 1) i off src
      grow i (length src) off'
      pure (pos (length src)))
    loop = search (Keeps->>=, Keeps-write_from, Keeps-grow, Keeps-pure)
