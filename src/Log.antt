-- ===== src/Log.antt =====
-- log.c: the write-ahead log. A block is its 32-bit words. `cache` gives the data that bread finds
-- for a block (a buffer's, if the block is cached, else the disk's), `disk` what would survive a
-- crash, and `dirty` the buffers pinned by B_DIRTY. `power` is the number of disk writes before the
-- machine stops: a write without power is lost, so every crash point is a value of `power`.
mod Tests
pub mod Loops
pub mod Recovery
pub mod Space
use operating_systems_projec.Base.{
  ℕ, zero, suc, ◌+◌, ◌-◌, ◌*◌, Bool, true, false, ◌||◌, Option, none, some, ltb, leb, ◌==◌,
  if◌then◌else◌, update, Result, ok, panic, ◌>>=◌,
}

abbrev pub Block : Type 0
Block = ℕ → ℕ

abbrev pub logsize : ℕ
logsize = 30

abbrev pub maxopblocks : ℕ
maxopblocks = 10

pub record Disk : Type 0 where
  pub cache : ℕ → Block
  pub disk : ℕ → Block
  pub dirty : ℕ → Bool
  pub power : ℕ

-- `struct log` without its lock, `struct logheader` included as `n` and `block`.
pub record Log : Type 0 where
  pub start : ℕ
  pub size : ℕ
  pub outstanding : ℕ
  pub committing : Bool
  pub n : ℕ
  pub block : ℕ → ℕ

-- memmove into the buffer's data, then bwrite.
unfoldable pub bwrite : Disk → ℕ → Block → Disk
bwrite d b x = record d {
  cache = update d.cache b x;
  disk = if ltb 0 d.power then update d.disk b x else d.disk;
  dirty = update d.dirty b false;
  power = d.power - 1;
}

-- The loop of write_log from `tail` on, `k` rounds.
unfoldable pub write_log_from : Log → ℕ → ℕ → Disk → Disk
write_log_from l zero tail d = d
write_log_from l (suc k) tail d =
    write_log_from l k (tail + 1) (bwrite d (l.start + tail + 1) (d.cache (l.block tail)))

unfoldable pub write_log : Log → Disk → Disk
write_log l d = write_log_from l l.n 0 d

-- The loop of install_trans.
unfoldable pub install_from : Log → ℕ → ℕ → Disk → Disk
install_from l zero tail d = d
install_from l (suc k) tail d =
    install_from l k (tail + 1) (bwrite d (l.block tail) (d.cache (l.start + tail + 1)))

unfoldable pub install_trans : Log → Disk → Disk
install_trans l d = install_from l l.n 0 d

-- The header block that write_head makes of the block that was there.
abbrev pub header : Log → Block → Block
header l old w = if w == 0 then l.n else if leb w l.n then l.block (w - 1) else old w

unfoldable pub write_head : Log → Disk → Disk
write_head l d = bwrite d l.start (header l (d.cache l.start))

unfoldable pub read_head : Log → Disk → Log
read_head l d = record l {
  n = d.cache l.start 0;
  block = λ i. if ltb i (d.cache l.start 0) then d.cache l.start (i + 1) else l.block i;
}

unfoldable pub recover_from_log : Log → Disk → Log × Disk
recover_from_log l d =
    let r = read_head l d in
    let done = record r { n = 0 } in (done, write_head done (install_trans r d))

-- The superblock is block 1; its fourth word is nlog, its fifth logstart.
unfoldable pub initlog : Log → Disk → Log × Disk
initlog l d = recover_from_log (record l { start = d.cache 1 4; size = d.cache 1 3 }) d

unfoldable pub commit : Log → Disk → Log × Disk
commit l d =
    let done = record l { n = 0 } in
    if ltb 0 l.n
    then (done, write_head done (install_trans l (write_head l (write_log l d))))
    else (l, d)

-- One round of begin_op under the lock: `none` is to sleep on &log and try again.
unfoldable pub begin_op : Log → Option Log
begin_op l =
    if l.committing
    then none
    else if ltb logsize (l.n + (l.outstanding + 1) * maxopblocks)
    then none
    else some (record l { outstanding = l.outstanding + 1 })

-- end_op up to the release of the lock: whether to commit. `outstanding` is above 0.
unfoldable pub end_op_start : Log → Result (Bool × Log)
end_op_start l =
    if l.committing
    then panic
    else if l.outstanding - 1 == 0
    then ok (true, record l { outstanding = 0; committing = true })
    else ok (false, record l { outstanding = l.outstanding - 1 })

-- end_op as a whole, in a thread that is not interleaved.
unfoldable pub end_op : Log → Disk → Result (Log × Disk)
end_op l d = do
  (do_commit, l') ← end_op_start l
  let (l'', d') = commit l' d
  ok (if do_commit then (record l'' { committing = false }, d') else (l', d))

-- The index at which log_write stops: of the block itself, or `n`.
unfoldable pub find_block : ℕ → ℕ → (ℕ → ℕ) → ℕ → ℕ
find_block zero i block b = i
find_block (suc k) i block b = if block i == b then i else find_block k (i + 1) block b

unfoldable pub log_write : Log → Disk → ℕ → Result (Log × Disk)
log_write l d b =
    let i = find_block l.n 0 l.block b in
    if leb logsize l.n || leb (l.size - 1) l.n
    then panic
    else if ltb l.outstanding 1
    then panic
    else ok (
      record l { block = update l.block i b; n = if i == l.n then l.n + 1 else l.n },
      record d { dirty = update d.dirty b true },
    )

-- A crash: memory is lost, and the cache starts again from the disk.
abbrev pub crash : Disk → ℕ → Disk
crash d power = record { cache = d.disk; disk = d.disk; dirty = λ b. false; power = power }
