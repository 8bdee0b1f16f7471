-- ===== src/Ide/Memory.antt =====
-- iderw of ide.c from its call to the interrupt, beside the one step that Bio takes; and memide.c,
-- which keeps disk 1 in memory and has no interrupt.
use operating_systems_projec.Base.{
  ℕ, ◌<◌, ◌≤◌, ◌%◌, ◌≡◌, refl, sym, ap, ◌∙◌, inl, inr, Bool, true, false, ◌&&◌, not, none, some, [],
  ◌∷◌, arith, ltb, leb, ◌==◌, if◌then◌else◌, ==_refl, Bool-cases, set, Result, ok, panic, ◌>>=◌,
}
use operating_systems_projec.Bio
use operating_systems_projec.Bio.{fssize, Buf, Cache, Disks, at, write_block}
use operating_systems_projec.Log.{Block}
use operating_systems_projec.Ide.{
  Device, Driver, is_done, command, idestart, start_first, finished, intr_at, ideintr, append,
  performed, idewait,
}
use operating_systems_projec.Ide
use operating_systems_projec.Ide.Queue.{
  Waits, finished-answer, answer-fine, idestart-ok, stored-dirty, stored-performed, written-of,
}

-- memide.c's iderw; memdisk holds the blocks of disk 1.
unfoldable iderw : ℕ → Cache → Disks → ℕ → Result (Cache × Disks)
iderw disksize c d i =
    let b = at c i in
    if not b.busy
    then panic
    else if b.valid && not b.dirty
    then panic
    else if not (b.dev == 1)
    then panic
    else if leb disksize b.blockno
    then panic
    else if b.dirty
    then ok
        (set c i (record b { dirty = false; valid = true }), write_block d 1 b.blockno b.block_data)
    else ok (set c i (record b { block_data = d 1 b.blockno; valid = true }), d)

-- A disk of at most FSSIZE blocks: on a block of its own, memide.c's iderw does what ide.c's does
-- with a disk 1 there: the same buffers, the same blocks, the same panics. Any other block panics.
iderw_lem :
    (disksize : ℕ) (c : Cache) (d : Disks) (i : ℕ)
    → disksize ≤ fssize
    → iderw disksize c d i
      ≡ (if (at c i).dev == 1 && ltb (at c i).blockno disksize then Bio.iderw true c d i else panic)
unfolding iderw Bio.iderw
iderw_lem disksize c d i size = ground arith

-- The buffer and the disks that a driver has, as Bio has them.
abbrev pub seen : {S : Type 0} → Device S → ℕ → Driver S → Result (Cache × Disks)
seen device i v = ok (v.bufs i ∷ [], device.stored v.disk)

-- What is left of iderw and the interrupt, past the guards.
abbrev served : {S : Type 0} → Device S → Driver S → ℕ → Result (Cache × Disks)
served device d i = append device d i d.idequeue >>= (λ u. ideintr device u) >>= seen device i

-- The result of a request, by the data, the dirty flag and the disks that it leaves.
abbrev left : Buf → Block → Bool → Disks → Result (Cache × Disks)
left b x dirty d = ok (record b { block_data = x; valid = true; dirty = dirty } ∷ [], d)

-- Past its guards, Bio's step.
abbrev stepped : Buf → Disks → Result (Cache × Disks)
stepped b d =
    if b.dirty
    then left b b.block_data false (write_block d b.dev b.blockno b.block_data)
    else left b (d b.dev b.blockno) b.dirty d

module _ {S : Type 0} (device : Device S) where
  left-stepped :
      (b : Buf) (s : S)
      → Waits b
      → idewait device (device.outb (command b) s) true ≡ true
      → let t = device.outb (command b) s in
        left b (device.stored t b.dev b.blockno) false (device.stored t)
        ≡ stepped b (device.stored s)
  left-stepped b s w fine =
      let t = device.outb (command b) s in
      let p = stored-performed device b s w (inr fine) in
      elim (Bool-cases b.dirty) [
        | inl e ↦
            ap (λ x. left b x false (device.stored t)) (stored-dirty device b s w e fine)
            ∙ ap (left b b.block_data false) (
                p
                ∙ ap (λ x. performed x b.dev b.blockno (device.stored s))
                    (written-of device b ∙ ap (λ y. if y then some b.block_data else none) e))
            ∙ ap
                (λ y.
                  if y
                  then left b b.block_data false
                      (write_block (device.stored s) b.dev b.blockno b.block_data)
                  else left b (device.stored s b.dev b.blockno) b.dirty (device.stored s))
                (sym e)
        | inr e ↦
            ap (λ d. left b (d b.dev b.blockno) false d)
              (p
                ∙ ap (λ x. performed x b.dev b.blockno (device.stored s))
                    (written-of device b ∙ ap (λ y. if y then some b.block_data else none) e))
            ∙ ap (λ y. left b (device.stored s b.dev b.blockno) y (device.stored s)) (sym e)
            ∙ ap
                (λ y.
                  if y
                  then left b b.block_data false
                      (write_block (device.stored s) b.dev b.blockno b.block_data)
                  else left b (device.stored s b.dev b.blockno) b.dirty (device.stored s))
                (sym e)
      ]

  served-stepped :
      (d : Driver S) (i : ℕ)
      → d.idequeue ≡ []
      → Waits (d.bufs i)
      → idewait device (device.outb (command (d.bufs i)) d.disk) true ≡ true
      → served device d i ≡ stepped (d.bufs i) (device.stored d.disk)
  unfolding append ideintr intr_at start_first
  served-stepped d i q w fine =
      rw (q, idestart-ok device (record d { idequeue = i ∷ [] }) i w, ==_refl i)
        (ap (λ b. ok (b ∷ [], device.stored (device.outb (command (d.bufs i)) d.disk)))
            (finished-answer device (d.bufs i) d.disk w)
          ∙ ap
              (λ x.
                left (d.bufs i) x false (device.stored (device.outb (command (d.bufs i)) d.disk)))
              (answer-fine device (d.bufs i) d.disk w fine)
          ∙ left-stepped (d.bufs i) d.disk w fine)

-- What follows three guards that panic.
guards :
    {R S : Type 0}
    → (p q r : Bool) (m : Result R) (f : R → Result R) (g : R → Result S) {x : Result S}
    → (p ≡ false → q ≡ false → (m >>= f >>= g) ≡ x)
    → ((if p then panic else if q then panic else if r then panic else m) >>= f >>= g)
      ≡ (if p then panic else if q then panic else if r then panic else x)
guards true q r m f g h = refl
guards false true r m f g h = refl
guards false false true m f g h = refl
guards false false false m f g h = h refl refl

-- With nothing in the queue, and if the disk shows no fault for the request: a request for a buffer
-- on a disk, with a block number below FSSIZE, and the interrupt that ends it, do to the buffer and
-- to the stored blocks what Bio's one step does, and panic where it panics.
pub iderw-Bio :
    {S : Type 0} (device : Device S) (d : Driver S) (i : ℕ)
    → d.idequeue ≡ []
    → (d.bufs i).dev < 2
    → (d.bufs i).blockno < fssize
    → idewait device (device.outb (command (d.bufs i)) d.disk) true ≡ true
    → (Ide.iderw device d i >>= (λ u. ideintr device u) >>= seen device i)
      ≡ Bio.iderw d.havedisk1 (d.bufs i ∷ []) (device.stored d.disk) 0
unfolding Ide.iderw Bio.iderw
iderw-Bio device d i q dev blk fine =
    let b = d.bufs i in
    let last_bit : b.dev % 2 ≡ b.dev = omega (arith, dev) in
    let range : leb fssize b.blockno ≡ false = ground (arith, blk) in
    rw (last_bit, range)
      (guards (not b.busy) (is_done b) (not (b.dev == 0) && not d.havedisk1)
        (append device d i d.idequeue) (ideintr device) (seen device i)
        (λ busy open_request.
          served-stepped device d i q
            (record {
              busy = ground arith;
              open_request = open_request;
              on_disk = dev;
              in_range = blk;
            })
            fine))
