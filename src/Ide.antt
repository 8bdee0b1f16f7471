-- ===== src/Ide.antt =====
-- ide.c and memide.c: the disk drivers behind bio.c. A buffer is named by its place in bcache.buf,
-- and `bufs` holds them; idequeue, linked through qnext, is the list of the places. The disk itself
-- is behind its ports: a parameter of the model, with the behaviour that the ATA standard gives it.
-- idelock is held to the end of each function, or to its sleep, so each is one step.
mod Queue
mod Steps
mod Finish
mod Memory
mod Tests
use operating_systems_projec.Base.{
  ℕ, zero, suc, ◌+◌, ◌-◌, ◌*◌, ◌/◌, ◌%◌, ◌^◌, ◌≤◌, ◌<◌, min, ◌≡◌, refl, sym, ap, subst, ◌∙◌, ◌≢◌,
  ◌↔◌, ◌⊎◌, inl, inr, Bool, true, false, ◌&&◌, ◌||◌, not, Option, none, some, List, [], ◌∷◌, ◌++◌,
  append-nil, append_assoc, arith, ltb, leb, ◌==◌, if◌then◌else◌, ltb→lt, lt→ltb, leb→le, ==→eq,
  ==_refl, ==_ne, tests, Bool-cases, Option-cases, update, length, get_elem?, get_or, set, take,
  drop, replicate, length-append, length-set, get_elem?-set_self, get_elem?-set_ne, get_or-set_self,
  get_or-set_ne, length-replicate, length-take, take-append-drop, length-drop, get_or-take,
  get_or-drop, All-take, All-drop, All, NotIn, Distinct, Result, ok, panic, ◌>>=◌, >>=-eq-ok, ℤ,
  pos, negsuc,
}
use operating_systems_projec.Bio.{Buf, Disks, write_block, fssize}
use operating_systems_projec.Log.{Block}

abbrev pub sector_size : ℕ
sector_size = 512

abbrev pub bsize : ℕ
bsize = 512

-- IDE_BSY is off and IDE_DRDY is on: the bits 7 and 6 of the status.
abbrev pub is_ready : ℕ → Bool
is_ready r = r / 64 % 4 == 1

-- IDE_DF or IDE_ERR is on: the bits 5 and 0.
abbrev pub has_fault : ℕ → Bool
has_fault r = r / 32 % 2 == 1 || r % 2 == 1

-- What idestart puts on the ports 0x1f2 to 0x1f7; a write has its data.
pub record Command : Type 0 where
  pub sectors : ℕ
  pub low : ℕ
  pub mid : ℕ
  pub high : ℕ
  pub drive : ℕ
  pub written : Option Block

-- How the ATA standard reads the address of a command: bit 4 of the drive port, and 28 bits.
abbrev pub drive_of : Command → ℕ
drive_of c = c.drive / 16 % 2

abbrev pub sector_of : Command → ℕ
sector_of c = c.low + 2 ^ 8 * c.mid + 2 ^ 16 * c.high + 2 ^ 24 * (c.drive % 16)

-- The sectors once a command is given.
abbrev pub performed : Option Block → ℕ → ℕ → Disks → Disks
performed none drive sector d = d
performed (some x) drive sector d = write_block d drive sector x

-- The polls of idewait's loop, of which `patience` are enough: the first status that is ready.
unfoldable pub poll : ℕ → (ℕ → ℕ) → ℕ → ℕ
poll zero status n = status n
poll (suc more) status n =
    let rest = poll more status (n + 1) in if is_ready (status n) then status n else rest

-- A disk: what the ports do, and what they do by the standard. A command that changes nothing, or
-- after which the first status that is ready shows no fault, has been done; of any other write
-- nothing is said. `status s n` is the answer to the n-th poll from now, `insl` the data that a
-- finished read gives, `sectors` what is stored.
pub record Device (S : Type 0) : Type 0 where
  pub status : S → ℕ → ℕ
  pub outb : Command → S → S
  pub insl : S → Block
  pub stored : S → Disks
  pub patience : S → ℕ
  pub is_ready_at : (s : S) → is_ready (status s (patience s)) ≡ true
  pub stored-outb :
      (c : Command) (s : S)
      → let s' = outb c s in
        (c.written ≡ none) ⊎ (has_fault (poll (patience s') (status s') 0) ≡ false)
        → stored s' ≡ performed c.written (drive_of c) (sector_of c) (stored s)
  pub insl-outb :
      (c : Command) (s : S)
      → let s' = outb c s in
        c.written ≡ none
        → has_fault (poll (patience s') (status s') 0) ≡ false
        → insl s' ≡ stored s (drive_of c) (sector_of c)

unfoldable pub idewait : {S : Type 0} → Device S → S → Bool → Bool
idewait device s checkerr =
    not (checkerr && has_fault (poll (device.patience s) (device.status s) 0))

-- The driver: the disk with it, and the buffers that wakeup was called for, the last first.
pub record Driver (S : Type 0) : Type 0 where
  pub disk : S
  pub havedisk1 : Bool
  pub bufs : ℕ → Buf
  pub idequeue : List ℕ
  pub woken : List ℕ

-- The loop of ideinit that looks for disk 1: whether one of the next statuses is not 0.
unfoldable pub probe : ℕ → (ℕ → ℕ) → ℕ → Bool
probe zero status n = false
probe (suc more) status n = not (status n == 0) || probe more status (n + 1)

abbrev pub sector_per_block : ℕ
sector_per_block = bsize / sector_size

-- `0xe0 | (dev & 1) << 4 | (sector >> 24) & 0x0f`: the parts share no bit, so they add up.
unfoldable pub command : Buf → Command
command b =
    let sector = b.blockno * sector_per_block in
    record {
      sectors = sector_per_block;
      low = sector % 2 ^ 8;
      mid = sector / 2 ^ 8 % 2 ^ 8;
      high = sector / 2 ^ 16 % 2 ^ 8;
      drive = 224 + b.dev % 2 * 16 + sector / 2 ^ 24 % 16;
      written = if b.dirty then some b.block_data else none;
    }

unfoldable pub idestart : {S : Type 0} → Device S → Driver S → ℕ → Result (Driver S)
idestart device d i =
    if leb fssize (d.bufs i).blockno
    then panic
    else if ltb 7 sector_per_block
    then panic
    else ok (record d { disk = device.outb (command (d.bufs i)) d.disk })

-- The rest of ideintr and of iderw: the first of the queue, if there is one, is started.
unfoldable pub start_first : {S : Type 0} → Device S → Driver S → List ℕ → Result (Driver S)
start_first device d [] = ok d
start_first device d (i ∷ queue) = idestart device d i

-- The buffer of the active request, once the disk has done it.
unfoldable pub finished : {S : Type 0} → Device S → S → Buf → Buf
finished device s b =
    let x = if not b.dirty && idewait device s true then device.insl s else b.block_data in
    record b { block_data = x; valid = true; dirty = false }

unfoldable pub intr_at : {S : Type 0} → Device S → Driver S → List ℕ → Result (Driver S)
intr_at device d [] = ok d
intr_at device d (i ∷ queue) =
    start_first device
      (record d {
        bufs = update d.bufs i (finished device d.disk (d.bufs i));
        idequeue = queue;
        woken = i ∷ d.woken;
      })
      queue

unfoldable pub ideintr : {S : Type 0} → Device S → Driver S → Result (Driver S)
ideintr device d = intr_at device d d.idequeue

-- Appending to the queue, and the start of the disk if the queue was empty.
unfoldable pub append : {S : Type 0} → Device S → Driver S → ℕ → List ℕ → Result (Driver S)
append device d i [] = idestart device (record d { idequeue = i ∷ [] }) i
append device d i (j ∷ queue) = ok (record d { idequeue = (j ∷ queue) ++ (i ∷ []) })

-- iderw up to its wait.
unfoldable pub iderw : {S : Type 0} → Device S → Driver S → ℕ → Result (Driver S)
iderw device d i =
    let b = d.bufs i in
    if not b.busy
    then panic
    else if b.valid && not b.dirty
    then panic
    else if not (b.dev == 0) && not d.havedisk1
    then panic
    else append device d i d.idequeue

-- The test of the wait: the caller goes on when it is true, and sleeps until it is.
abbrev pub is_done : Buf → Bool
is_done b = b.valid && not b.dirty
