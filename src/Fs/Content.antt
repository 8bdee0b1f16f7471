-- ===== src/Fs/Content.antt =====
-- The content of inodes: bmap, readi and writei of fs.c. What a program hands over, or gets, is a
-- list of bytes. The table devsw is filled by the device drivers, so it is an argument.
pub mod Reads
pub mod Overlay
pub mod Places
pub mod Writes
pub mod Grow
pub mod RoundTrip
use operating_systems_projec.Base.{
  ℕ, zero, suc, ◌+◌, ◌-◌, ◌*◌, ◌/◌, ◌%◌, ◌^◌, min, ◌&&◌, ◌||◌, Option, none, some, List, [], ◌∷◌,
  ◌++◌, ltb, leb, ◌==◌, if◌then◌else◌, update, length, get_or, set, take, drop, ℤ, pos, negsuc,
}
use operating_systems_projec.Fs.{
  Fs, at, put, bsize, ndirect, nindirect, maxfile, t_dev, log_write, M, ◌>>=◌, ◌>>◌, pure, fails,
  current, modify, done,
}
use operating_systems_projec.Fs.Bytes.{get_bytes, put_bytes}
use operating_systems_projec.Fs.Blocks.{balloc}
use operating_systems_projec.Fs.Inodes.{iupdate}

abbrev pub word : ℕ
word = 2 ^ 32

-- The functions of each major device number, if it has them.
pub record Devsw : Type 0 where
  pub read : ℕ → Option (ℕ → ℕ → M (ℤ × List ℕ))
  pub write : ℕ → Option (ℕ → List ℕ → M ℤ)

abbrev pub set_addr : ℕ → ℕ → ℕ → Fs → Fs
set_addr i k b s = put i (record (at s i) { addrs = set (at s i).addrs k b }) s

-- Entry `k` of addrs, allocated if it is 0.
unfoldable pub direct_block : ℕ → ℕ → M ℕ
direct_block i k s =
    let addr = get_or (at s i).addrs k 0 in
    if addr == 0 then (do b ← balloc; modify (set_addr i k b); pure b) s else done addr s

-- Entry `n` of the indirect block `b`, allocated if it is 0.
unfoldable pub indirect_entry : ℕ → ℕ → M ℕ
indirect_entry b n s =
    let addr = s.blocks b n in
    if addr == 0
    then (do addr' ← balloc; (λ s'. log_write b (update (s'.blocks b) n addr') s'); pure addr') s
    else done addr s

unfoldable pub bmap : ℕ → ℕ → M ℕ
bmap i bn =
    if ltb bn ndirect
    then direct_block i bn
    else if ltb (bn - ndirect) nindirect
    then (direct_block i ndirect >>= λ b. indirect_entry b (bn - ndirect))
    else fails

-- readi's loop, `f` rounds at most, with `n` bytes to go.
unfoldable pub read_from : ℕ → ℕ → ℕ → ℕ → M (List ℕ)
read_from zero i off n = pure []
read_from (suc f) i off n =
    let m = min n (bsize - off % bsize) in
    let round = do
      b ← bmap i (off / bsize)
      s ← current
      rest ← read_from f i (off + m) (n - m)
      pure (get_bytes (s.blocks b) (off % bsize) m ++ rest)
    in if n == 0 then pure [] else round

-- The number of bytes, and the bytes; what is past the end of the file is not read.
unfoldable pub readi : Devsw → ℕ → ℕ → ℕ → M (ℤ × List ℕ)
readi devsw i off n s =
    let ip = at s i in
    let n' = if ltb ip.size (off + n) then ip.size - off else n in
    let device =
      if leb 10 ip.major
      then pure (negsuc 0, [])
      else elim (devsw.read ip.major) [ none ↦ pure (negsuc 0, []) | some read ↦ read i n ] in
    if ip.type == t_dev
    then device s
    else if ltb ip.size off || ltb ((off + n) % word) off
    then done (negsuc 0, []) s
    else (do bytes ← read_from (n' + 1) i off n'; pure (pos n', bytes)) s

-- writei's loop over the bytes that are left; it gives the offset that it reaches.
unfoldable pub write_from : ℕ → ℕ → ℕ → List ℕ → M ℕ
write_from zero i off src = pure off
write_from (suc f) i off [] = pure off
write_from (suc f) i off (c ∷ src) =
    let m = min (length (c ∷ src)) (bsize - off % bsize) in
    do
      b ← bmap i (off / bsize)
      (λ s. log_write b (put_bytes (s.blocks b) (off % bsize) (take m (c ∷ src))) s)
      write_from f i (off + m) (drop m (c ∷ src))

unfoldable pub grow : ℕ → ℕ → ℕ → M (Unit {0})
grow i n off s =
    if ltb 0 n && ltb (at s i).size off
    then (modify (put i (record (at s i) { size = off })) >> iupdate i) s
    else done tt s

unfoldable pub writei : Devsw → ℕ → ℕ → List ℕ → M ℤ
writei devsw i off src s =
    let ip = at s i in
    let n = length src in
    let device =
      if leb 10 ip.major
      then pure (negsuc 0)
      else elim (devsw.write ip.major) [ none ↦ pure (negsuc 0) | some write ↦ write i src ] in
    if ip.type == t_dev
    then device s
    else if ltb ip.size off || ltb ((off + n) % word) off
    then done (negsuc 0) s
    else if ltb (maxfile * bsize) (off + n)
    then done (negsuc 0) s
    else (do off' ← write_from (n + 1) i off src; grow i n off'; pure (pos n)) s
