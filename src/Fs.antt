-- ===== src/Fs.antt =====
-- fs.c: the file system, on one device. A block is its 32-bit words, as in Log, and `blocks` is
-- what bread finds for each block; the buffers themselves are the matter of Bio. A change to a
-- block's data that log_write then records puts the block's number in front of `logged`, the calls
-- of log_write that the transaction has made, and `outstanding` counts the calls of the system that
-- are in a transaction. A pointer to an inode is its index in icache. A call goes on until it is
-- done, panics, or sleeps on an inode that another process has locked.
pub mod Path
pub mod Bytes
pub mod Blocks
pub mod Inodes
pub mod Content
pub mod Dirs
pub mod Open
mod Tests
use operating_systems_projec.Base.{
  ℕ, zero, suc, ◌+◌, ◌-◌, ◌*◌, ◌/◌, ◌%◌, ◌^◌, ◌≤◌, ◌<◌, min, ◌≡◌, refl, sym, ap, subst, ◌∙◌, ◌≢◌,
  ◌↔◌, ◌⊎◌, inl, inr, Bool, true, false, ◌&&◌, ◌||◌, not, Option, none, some, List, [], ◌∷◌, ◌++◌,
  append-nil, append_assoc, arith, ltb, leb, ◌==◌, if◌then◌else◌, ltb→lt, lt→ltb, leb→le, ==→eq,
  ==_refl, ==_ne, tests, Bool-cases, Option-cases, update, length, get_elem?, get_or, set, take,
  drop, replicate, length-append, length-set, get_elem?-set_self, get_elem?-set_ne, get_or-set_self,
  get_or-set_ne, length-replicate, length-take, take-append-drop, length-drop, get_or-take,
  get_or-drop, All-take, All-drop, All, NotIn, Distinct, Result, ok, panic, >>=-eq-ok, ℤ, pos,
  negsuc,
}
use operating_systems_projec.Log.{Block}

abbrev pub bsize : ℕ
bsize = 512

abbrev pub ndirect : ℕ
ndirect = 12

abbrev pub nindirect : ℕ
nindirect = 128

abbrev pub maxfile : ℕ
maxfile = ndirect + nindirect

abbrev pub dirsiz : ℕ
dirsiz = 14

-- Inodes per block, and bitmap bits per block.
abbrev pub ipb : ℕ
ipb = 8

abbrev pub bpb : ℕ
bpb = 4096

abbrev pub ninode : ℕ
ninode = 50

abbrev pub t_dir : ℕ
t_dir = 1

abbrev pub t_file : ℕ
t_file = 2

abbrev pub t_dev : ℕ
t_dev = 3

pub record Superblock : Type 0 where
  pub size : ℕ
  pub nblocks : ℕ
  pub ninodes : ℕ
  pub nlog : ℕ
  pub logstart : ℕ
  pub inodestart : ℕ
  pub bmapstart : ℕ

-- The shorts are given by their 16 bits; `addrs` has NDIRECT + 1 entries.
pub record Inode : Type 0 where
  pub dev : ℕ
  pub inum : ℕ
  pub ref : ℕ
  pub busy : Bool
  pub valid : Bool
  pub type : ℕ
  pub major : ℕ
  pub minor : ℕ
  pub nlink : ℕ
  pub size : ℕ
  pub addrs : List ℕ

pub record Fs : Type 0 where
  pub sb : Superblock
  pub blocks : ℕ → Block
  pub logged : List ℕ
  pub inodes : List Inode
  pub outstanding : ℕ

abbrev pub blank : Inode
blank = record {
  dev = 0;
  inum = 0;
  ref = 0;
  busy = false;
  valid = false;
  type = 0;
  major = 0;
  minor = 0;
  nlink = 0;
  size = 0;
  addrs = replicate 13 0;
}

abbrev pub at : Fs → ℕ → Inode
at s i = get_or s.inodes i blank

abbrev pub put : ℕ → Inode → Fs → Fs
put i ip s = record s { inodes = set s.inodes i ip }

-- The block's data are `x`, and the log's header has the block.
abbrev pub write_block : ℕ → Block → Fs → Fs
write_block b x s = record s { blocks = update s.blocks b x; logged = b ∷ s.logged }

pub data Run (A : Type 0) : Type 0 where
  done : A → Fs → Run A
  panics : Run A
  waits : ℕ → Run A

abbrev pub M : Type 0 → Type 0
M A = Fs → Run A

infixl 5 ◌>>=◌ ◌>>◌
abbrev pub ◌>>=◌ : {A B : Type 0} → M A → (A → M B) → M B
◌>>=◌ m f s = elim (m s) [ done a s' ↦ f a s' | panics ↦ panics | waits i ↦ waits i ]

abbrev pub ◌>>◌ : {A B : Type 0} → M A → M B → M B
m >> n = m >>= λ _. n

abbrev pub pure : {A : Type 0} → A → M A
pure a s = done a s

abbrev pub fails : {A : Type 0} → M A
fails s = panics

abbrev pub current : M Fs
current s = done s s

abbrev pub modify : (Fs → Fs) → M (Unit {0})
modify f s = done tt (f s)

-- A call that is done hands over what it gives, and the state.
pub >>=-done :
    {A B : Type 0}
    → (m : M A) (f : A → M B) (s s' : Fs) (a : A) → m s ≡ done a s'
    → ◌>>=◌ m f s ≡ f a s'
>>=-done m f s s' a e =
    ap (λ r. elim r [ done b t ↦ f b t | panics ↦ panics | waits i ↦ waits i ]) e

-- log.lh.n, from the calls of log_write: a block that is written again is absorbed.
unfoldable pub is_logged : ℕ → List ℕ → Bool
is_logged b [] = false
is_logged b (c ∷ log) = b == c || is_logged b log

unfoldable pub lh_n : List ℕ → ℕ
lh_n [] = 0
lh_n (b ∷ log) = if is_logged b log then lh_n log else lh_n log + 1

abbrev pub logsize : ℕ
logsize = 30

-- The block's data become `x`, and log_write records that, or panics; `log.size` is the
-- superblock's nlog.
unfoldable pub log_write : ℕ → Block → M (Unit {0})
log_write b x s =
    if leb logsize (lh_n s.logged) || leb (s.sb.nlog - 1) (lh_n s.logged)
    then panics
    else if s.outstanding == 0
    then panics
    else done tt (write_block b x s)

-- In a transaction, with room for `k` more blocks in the log.
pub record HasRoom (k : ℕ) (s : Fs) : Type 0 where
  pub open_op : 0 < s.outstanding
  pub header : lh_n s.logged + k ≤ logsize
  pub space : lh_n s.logged + k ≤ s.sb.nlog - 1

pub log_write-done :
    (k b : ℕ) (x : Block) (s : Fs)
    → HasRoom (suc k) s
    → log_write b x s ≡ done tt (write_block b x s)
unfolding log_write
log_write-done k b x s r =
    let a = r.open_op in
    let h = r.header in
    let z = r.space in
    let full : (leb logsize (lh_n s.logged) || leb (s.sb.nlog - 1) (lh_n s.logged)) ≡ false =
      ground arith in
    let op : (s.outstanding == 0) ≡ false = ground arith in rw (full, op) refl

pub HasRoom-less : (k n : ℕ) (s : Fs) → k ≤ n → HasRoom n s → HasRoom k s
HasRoom-less k n s l r =
    let h = r.header in
    let z = r.space in
    record { open_op = r.open_op; header = omega (arith, l, h); space = omega (arith, l, z) }

pub write_block-HasRoom :
    (k b : ℕ) (x : Block) (s : Fs) → HasRoom (suc k) s → HasRoom k (write_block b x s)
unfolding lh_n
write_block-HasRoom k b x s r =
    let h = r.header in
    let z = r.space in record { open_op = r.open_op; header = ground arith; space = ground arith }
