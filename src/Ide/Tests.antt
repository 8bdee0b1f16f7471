-- ===== src/Ide/Tests.antt =====
-- A disk that is always ready, two requests for one block on it, and the drivers' theorems there.
use operating_systems_projec.Base.{
  ℕ, ◌≡◌, refl, ap, true, false, [], ◌∷◌, arith, ◌==◌, if◌then◌else◌, update, ◌>>=◌,
}
use operating_systems_projec.Bio
use operating_systems_projec.Bio.{Buf, Cache, Disks, new_buf}
use operating_systems_projec.Ide.{
  Device, Command, Driver, command, drive_of, sector_of, finished, ideintr, performed, poll,
  idewait, probe, iderw,
}
use operating_systems_projec.Ide.Memory.{iderw-Bio, seen}

abbrev State : Type 0
State = Disks × Command

abbrev device : Device State
device = record {
  status = λ s n. 64;
  outb = λ c s. (performed c.written (drive_of c) (sector_of c) s.0, c);
  insl = λ s. s.0 (drive_of s.1) (sector_of s.1);
  stored = λ s. s.0;
  patience = λ s. 0;
  is_ready_at = λ s. refl;
  stored-outb = λ c s h. refl;
  insl-outb =
      λ c s e h. ap (λ w. performed w (drive_of c) (sector_of c) s.0 (drive_of c) (sector_of c)) e;
}

-- A write of block 5 of disk 1, and a read of it.
abbrev writer : Buf
writer = record (new_buf 0) {
  dev = 1;
  blockno = 5;
  busy = true;
  valid = true;
  dirty = true;
  block_data = λ w. 7;
}

abbrev reader : Buf
reader = record (new_buf 1) { dev = 1; blockno = 5; busy = true }

abbrev bufs : ℕ → Buf
bufs i = if i == 0 then writer else if i == 1 then reader else new_buf i

abbrev idle : Driver State
idle = record {
  disk = ((λ dev b w. 0), command (new_buf 0));
  havedisk1 = true;
  bufs = bufs;
  idequeue = [];
  woken = [];
}

abbrev both : Driver State
both = record idle { disk = device.outb (command writer) idle.disk; idequeue = 0 ∷ 1 ∷ [] }

abbrev one_left : Driver State
one_left = record both {
  disk = device.outb (command reader) both.disk;
  bufs = update bufs 0 (finished device both.disk writer);
  idequeue = 1 ∷ [];
  woken = 0 ∷ [];
}

-- A disk that shows an error at each poll: the buffer of a read is marked valid with its old data.
abbrev failing : Device State
failing = record device {
  status = λ s n. 65;
  is_ready_at = λ s. refl;
  stored-outb = λ c s h. refl;
  insl-outb =
      λ c s e h. ap (λ w. performed w (drive_of c) (sector_of c) s.0 (drive_of c) (sector_of c)) e;
}

failed_read : finished failing one_left.disk reader ≡ record reader { valid = true }
unfolding finished idewait poll
failed_read = refl

-- After a read without a fault the buffer has what the write in front of it stored.
read_after_write : one_left.disk.0 1 5 0 ≡ 7
unfolding command
read_after_write = refl

no_fault : idewait device (device.outb (command writer) idle.disk) true ≡ true
unfolding idewait poll
no_fault = refl

iderw-Bio_example :
    (iderw device idle 0 >>= (λ u. ideintr device u) >>= seen device 0)
    ≡ Bio.iderw true (writer ∷ []) (λ dev b w. 0) 0
iderw-Bio_example = iderw-Bio device idle 0 refl (omega arith) (omega arith) no_fault

-- The status is looked at until it is ready; disk 1 is there if it ever shows a status.
polls : poll 3 (λ n. if n == 2 then 80 else 128) 0 ≡ 80
unfolding poll
polls = refl

probes : probe 3 (λ n. if n == 2 then 80 else 0) 0 ≡ true
unfolding probe
probes = refl

probes_none : probe 3 (λ n. 0) 0 ≡ false
unfolding probe
probes_none = refl
