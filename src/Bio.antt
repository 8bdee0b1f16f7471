-- ===== src/Bio.antt =====
-- bio.c: the cache of disk blocks, and iderw of ide.c as its driver, taken as a whole. The cache is
-- the list of buffers in the order of `next`, the most recently used first, and a buffer is named
-- by its position there; `id` is its place in bcache.buf, whose address is its sleep channel.
-- bcache.lock is held to the end of bget and brelse, so each is one step.
mod Tests
pub mod Cached
pub mod Blocks
pub mod Release
use operating_systems_projec.Base.{
  ℕ, zero, suc, ◌+◌, ◌-◌, ◌^◌, ◌%◌, leb, Bool, true, false, ◌&&◌, ◌||◌, not, Option, none, some,
  List, [], ◌∷◌, ◌==◌, if◌then◌else◌, get_or, set, length, update, Result, ok, panic, ◌>>=◌,
}
use operating_systems_projec.Log.{Block}

pub record Buf : Type 0 where
  pub id : ℕ
  pub dev : ℕ
  pub blockno : ℕ
  pub busy : Bool
  pub valid : Bool
  pub dirty : Bool
  pub block_data : Block

abbrev pub Cache : Type 0
Cache = List Buf

abbrev pub fssize : ℕ
fssize = 1000

abbrev pub nbuf : ℕ
nbuf = 30

-- `-1` as an unsigned device.
abbrev pub no_dev : ℕ
no_dev = 2 ^ 32 - 1

abbrev pub new_buf : ℕ → Buf
new_buf id = record {
  id = id;
  dev = no_dev;
  blockno = 0;
  busy = false;
  valid = false;
  dirty = false;
  block_data = λ w. 0;
}

abbrev pub at : Cache → ℕ → Buf
at c i = get_or c i (new_buf 0)

-- binit's loop: each buffer is put in front.
unfoldable pub binit_from : ℕ → ℕ → Cache → Cache
binit_from zero id c = c
binit_from (suc n) id c = binit_from n (id + 1) (new_buf id ∷ c)

unfoldable pub binit : Cache
binit = binit_from nbuf 0 []

abbrev pub is_block : ℕ → ℕ → Buf → Bool
is_block dev blockno b = b.dev == dev && b.blockno == blockno

-- The first buffer, from the front, for the block.
unfoldable pub find_cached : Cache → ℕ → ℕ → ℕ → Option ℕ
find_cached [] i dev blockno = none
find_cached (b ∷ c) i dev blockno =
    if is_block dev blockno b then some i else find_cached c (i + 1) dev blockno

-- The first buffer, from the back, that is neither busy nor dirty.
unfoldable pub find_unused : Cache → ℕ → Option ℕ
find_unused [] i = none
find_unused (b ∷ c) i =
    let behind = if not b.busy && not b.dirty then some i else none in
    elim (find_unused c (i + 1)) [ some j ↦ some j | none ↦ behind ]

-- bget grants the buffer at a position, or sleeps on the buffer of an id and then starts again.
pub data Grant : Type 0 where
  granted : ℕ → Cache → Grant
  sleeps : ℕ → Grant

unfoldable pub recycle : Cache → ℕ → ℕ → Option ℕ → Result Grant
recycle c dev blockno none = panic
recycle c dev blockno (some i) = ok (
    granted i (
      set c i (record (at c i) {
        dev = dev;
        blockno = blockno;
        busy = true;
        valid = false;
        dirty = false;
      })))

unfoldable pub bget : Cache → ℕ → ℕ → Result Grant
bget c dev blockno = elim (find_cached c 0 dev blockno) [
  | some i ↦
      if not (at c i).busy
      then ok (granted i (set c i (record (at c i) { busy = true })))
      else ok (sleeps (at c i).id)
  | none ↦ recycle c dev blockno (find_unused c 0)
]

-- The disks: a block for each device and number.
abbrev pub Disks : Type 0
Disks = ℕ → ℕ → Block

abbrev pub write_block : Disks → ℕ → ℕ → Block → Disks
write_block d dev blockno x = update d dev (update (d dev) blockno x)

-- iderw of the buffer at `i`, until the interrupt has finished the request without a fault; idestart
-- checks the number, and takes the last bit of the device.
unfoldable pub iderw : Bool → Cache → Disks → ℕ → Result (Cache × Disks)
iderw havedisk1 c d i =
    let b = at c i in
    if not b.busy
    then panic
    else if b.valid && not b.dirty
    then panic
    else if not (b.dev == 0) && not havedisk1
    then panic
    else if leb fssize b.blockno
    then panic
    else if b.dirty
    then ok (
      set c i (record b { valid = true; dirty = false }),
      write_block d (b.dev % 2) b.blockno b.block_data,
    )
    else ok (set c i (record b { valid = true; block_data = d (b.dev % 2) b.blockno }), d)

-- bread, behind bget: the buffer's position, the cache and the disks.
unfoldable pub fill : Bool → Disks → ℕ → Cache → Result (ℕ × Cache × Disks)
fill havedisk1 d i c =
    if (at c i).valid then ok (i, c, d) else iderw havedisk1 c d i >>= λ r. ok (i, r.0, r.1)

-- bread; `none` is to sleep and start again.
unfoldable pub bread : Bool → Cache → Disks → ℕ → ℕ → Result (Option (ℕ × Cache × Disks))
bread havedisk1 c d dev blockno = bget c dev blockno >>= λ g. elim g [
  | sleeps id ↦ ok none
  | granted i c' ↦ fill havedisk1 d i c' >>= λ r. ok (some r)
]

unfoldable pub bwrite : Bool → Cache → Disks → ℕ → Result (Cache × Disks)
bwrite havedisk1 c d i =
    if not (at c i).busy
    then panic
    else iderw havedisk1 (set c i (record (at c i) { dirty = true })) d i

unfoldable pub remove : Cache → ℕ → Cache
remove [] i = []
remove (b ∷ c) zero = c
remove (b ∷ c) (suc i) = b ∷ remove c i

-- The buffer goes to the front; its id is the channel that is woken.
unfoldable pub brelse : Cache → ℕ → Result (Cache × ℕ)
brelse c i =
    if not (at c i).busy
    then panic
    else ok (record (at c i) { busy = false } ∷ remove c i, (at c i).id)
