-- ===== src/Ide/Queue.antt =====
-- idequeue of ide.c: what may wait in it, what can happen to it, and what a command tells the disk.
use operating_systems_projec.Base.{
  ◌⊎◌, ℕ, suc, ◌%◌, ◌^◌, ◌<◌, ◌≡◌, refl, sym, ap, subst, ◌∙◌, inl, inr, Bool, true, false, ◌&&◌,
  not, none, some, List, [], ◌∷◌, arith, if◌then◌else◌, ==_refl, ==_ne, Bool-cases, update, All,
  NotIn, Distinct, ok,
}
use operating_systems_projec.Bio.{fssize, Buf}
use operating_systems_projec.Log.{Block}
use operating_systems_projec.Ide.{
  poll, has_fault, Device, Driver, is_done, command, drive_of, sector_of, idestart, finished,
  ideintr, iderw, idewait, performed,
}

-- A buffer that may wait in the queue: busy, with something to do, and on a block of a disk.
pub record Waits (b : Buf) : Type 0 where
  pub busy : b.busy ≡ true
  pub open_request : is_done b ≡ false
  pub on_disk : b.dev < 2
  pub in_range : b.blockno < fssize

-- The disk has been given the command of the first buffer, and no other since.
abbrev pub Active : {S : Type 0} → Device S → Driver S → List ℕ → Type 0
Active device d [] = Unit
Active {S} device d (i ∷ queue) = (s : S) × (d.disk ≡ device.outb (command (d.bufs i)) s)

pub record IsSound {S : Type 0} (device : Device S) (d : Driver S) (queue : List ℕ) : Type 0 where
  pub distinct : Distinct queue
  pub waits : All (λ i. Waits (d.bufs i)) queue
  pub active : Active device d queue

-- What can happen between two moments, with the number of interrupts: a process asks for a buffer
-- that is its own, the disk interrupts, or a buffer that is not in the queue is changed in any way.
pub data Run {S : Type 0} (device : Device S) (d : Driver S) : ℕ → Driver S → Type 0 where
  here : Run device d 0 d
  request :
      {n : ℕ} {t u : Driver S} (i : ℕ)
      → Run device d n t
      → NotIn i t.idequeue
      → (t.bufs i).dev < 2
      → (t.bufs i).blockno < fssize
      → iderw device t i ≡ ok u
      → Run device d n u
  interrupt :
      {n : ℕ} {t u : Driver S} → Run device d n t → ideintr device t ≡ ok u → Run device d (suc n) u
  other :
      {n : ℕ} {t : Driver S} (i : ℕ) (b : Buf)
      → Run device d n t
      → NotIn i t.idequeue
      → Run device d n (record t { bufs = update t.bufs i b })

-- A command has the block's number as its address, up to 28 bits, and the device's last bit.
pub command_lem :
    (b : Buf) → (sector_of (command b) ≡ b.blockno % 2 ^ 28) × (drive_of (command b) ≡ b.dev % 2)
unfolding command
command_lem b = (omega arith, omega arith)

command-Waits :
    (b : Buf) → Waits b → (drive_of (command b) ≡ b.dev) × (sector_of (command b) ≡ b.blockno)
command-Waits b w =
    let a = command_lem b in
    let h = w.in_range in let l = w.on_disk in (a.1 ∙ omega arith, a.0 ∙ omega arith)

-- The data of a buffer once its request has ended: what is stored, after a read that has not
-- failed, and else the buffer's own data.
abbrev pub answer : {S : Type 0} → Device S → S → Buf → Block
answer device s b =
    if not b.dirty && idewait device s true then device.stored s b.dev b.blockno else b.block_data

same_if :
    (r : Bool) (u v w : Block) → (r ≡ true → u ≡ v) → (if r then u else w) ≡ (if r then v else w)
same_if true u v w h = h refl
same_if false u v w h = refl

module _ {S : Type 0} (device : Device S) where
  pub written-of : (b : Buf) → (command b).written ≡ (if b.dirty then some b.block_data else none)
  unfolding command
  written-of b = refl

  idewait-fine :
      (s : S)
      → idewait device s true ≡ true
      → has_fault (poll (device.patience s) (device.status s) 0) ≡ false
  unfolding idewait
  idewait-fine s h = ground (arith, h)

  pub stored-performed :
      (b : Buf) (s : S)
      → Waits b
      → ((command b).written ≡ none) ⊎ (idewait device (device.outb (command b) s) true ≡ true)
      → device.stored (device.outb (command b) s)
        ≡ performed (command b).written b.dev b.blockno (device.stored s)
  stored-performed b s w h =
      device.stored-outb (command b) s
        (elim h [ inl p ↦ inl p | inr f ↦ inr (idewait-fine (device.outb (command b) s) f) ])
      ∙ ap (λ v. performed (command b).written v (sector_of (command b)) (device.stored s))
          (command-Waits b w).0
      ∙ ap (λ v. performed (command b).written b.dev v (device.stored s)) (command-Waits b w).1

  -- Once a write has been given to the disk, and has not failed, it is on the disk.
  pub stored-dirty :
      (b : Buf) (s : S)
      → Waits b
      → b.dirty ≡ true
      → idewait device (device.outb (command b) s) true ≡ true
      → device.stored (device.outb (command b) s) b.dev b.blockno ≡ b.block_data
  stored-dirty b s w e fine =
      let p : (command b).written ≡ some b.block_data = written-of b ∙ rw e refl in
      ap (λ d. d b.dev b.blockno)
        (stored-performed b s w (inr fine)
          ∙ ap (λ x. performed x b.dev b.blockno (device.stored s)) p)
      ∙ (rw (==_refl b.dev, ==_refl b.blockno) refl)

  insl-clean :
      (b : Buf) (s : S)
      → Waits b
      → b.dirty ≡ false
      → idewait device (device.outb (command b) s) true ≡ true
      → device.insl (device.outb (command b) s)
        ≡ device.stored (device.outb (command b) s) b.dev b.blockno
  insl-clean b s w e fine =
      let p : (command b).written ≡ none = written-of b ∙ rw e refl in
      device.insl-outb (command b) s p (idewait-fine (device.outb (command b) s) fine)
      ∙ ap (λ v. device.stored s v (sector_of (command b))) (command-Waits b w).0
      ∙ ap (λ v. device.stored s b.dev v) (command-Waits b w).1
      ∙ sym (
          ap (λ d. d b.dev b.blockno)
            (stored-performed b s w (inl p)
              ∙ ap (λ x. performed x b.dev b.blockno (device.stored s)) p))

  -- A buffer whose read has ended without a fault holds what the disk stores.
  pub finished-answer :
      (b : Buf) (s : S)
      → Waits b
      → let t = device.outb (command b) s in
        finished device t b
        ≡ record b { block_data = answer device t b; valid = true; dirty = false }
  unfolding finished
  finished-answer b s w =
      let t = device.outb (command b) s in
      let r = idewait device t true in
      let from : Bool → Block → Block = λ x v. if not x && r then v else b.block_data in
      let stored = device.stored t b.dev b.blockno in
      ap (λ x. record b { block_data = x; valid = true; dirty = false })
        (elim (Bool-cases b.dirty) [
          | inl e ↦ ap (λ x. from x (device.insl t)) e ∙ ap (λ x. from x stored) (sym e)
          | inr e ↦
              ap (λ x. from x (device.insl t)) e
              ∙ same_if r (device.insl t) stored b.block_data (λ f. insl-clean b s w e f)
              ∙ ap (λ x. from x stored) (sym e)
        ])

  -- Without a fault it holds what the disk stores, after a read and after a write.
  pub answer-fine :
      (b : Buf) (s : S)
      → Waits b
      → let t = device.outb (command b) s in
        idewait device t true ≡ true → answer device t b ≡ device.stored t b.dev b.blockno
  answer-fine b s w fine =
      let t = device.outb (command b) s in
      let stored = device.stored t b.dev b.blockno in
      let from : Bool → Bool → Block = λ x y. if not x && y then stored else b.block_data in
      ap (λ y. from b.dirty y) fine ∙ elim (Bool-cases b.dirty) [
        | inl e ↦ ap (λ x. from x true) e ∙ sym (stored-dirty b s w e fine)
        | inr e ↦ ap (λ x. from x true) e
      ]

  pub idestart-ok :
      (d : Driver S) (i : ℕ)
      → Waits (d.bufs i)
      → idestart device d i ≡ ok (record d { disk = device.outb (command (d.bufs i)) d.disk })
  unfolding idestart
  idestart-ok d i w = let h = w.in_range in ground arith

  -- A change of a buffer outside a queue leaves the queue's buffers.
  pub Waits-update :
      (bufs : ℕ → Buf) (i : ℕ) (b : Buf) (queue : List ℕ)
      → NotIn i queue
      → All (λ j. Waits (bufs j)) queue
      → All (λ j. Waits (update bufs i b j)) queue
  Waits-update bufs i b [] n w = tt
  Waits-update bufs i b (j ∷ queue) n w = (
    subst Waits (sym (rw (==_ne j i (λ e. n.0 (sym e))) refl)) w.0,
    Waits-update bufs i b queue n.1 w.1,
  )
