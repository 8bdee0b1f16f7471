-- ===== src/Log/Tests.antt =====
-- A small transaction, and the theorems on the log at it.
use operating_systems_projec.Base.{
  ℕ, ◌+◌, ◌<◌, ◌≡◌, refl, ◌⊎◌, inr, true, false, some, List, [], ◌∷◌, arith, ok, panic,
}
use operating_systems_projec.Log.{
  Log, Disk, begin_op, log_write, find_block, commit, recover_from_log, crash,
}
use operating_systems_projec.Log.Loops.{Fits}
use operating_systems_projec.Log.Recovery.{rebooted, Old, New, crash_atomic, commit_durable}
use operating_systems_projec.Log.Space.{Space, log_write-Space}

-- Blocks 100 and 101 are logged; the log's area is the 30 blocks from 2 on.
abbrev two : Log
two = record {
  start = 2;
  size = 30;
  outstanding = 0;
  committing = false;
  n = 2;
  block = λ i. 100 + i;
}

-- Every cached word is 5, every word on disk 0; the machine stops after `power` writes.
abbrev dirty_disk : ℕ → Disk
dirty_disk power = record {
  cache = λ b. λ w. 5;
  disk = λ b. λ w. 0;
  dirty = λ b. true;
  power = power;
}

two-Fits : Fits two
two-Fits = record { room = omega arith; home = λ i. λ h. inr (omega arith) }

crash_atomic_example :
    Old two
      (dirty_disk 3)
      (recover_from_log (rebooted two 0 (λ i. 0)) (crash (commit two (dirty_disk 3)).1 9)).1
    ⊎ New two
        (dirty_disk 3)
        (recover_from_log (rebooted two 0 (λ i. 0)) (crash (commit two (dirty_disk 3)).1 9)).1
crash_atomic_example = crash_atomic two (dirty_disk 3) 0 (λ i. 0) 9 two-Fits refl (omega arith)

commit_durable_example :
    ((commit two (dirty_disk 6)).1.disk 2 0 ≡ 0)
    × New two (dirty_disk 6) (commit two (dirty_disk 6)).1
    × ((commit two (dirty_disk 6)).0.n ≡ 0)
commit_durable_example = commit_durable two (dirty_disk 6) two-Fits (omega arith) (omega arith)

-- One operation is in progress, with a quota of 2 left.
abbrev busy : Log
busy = record two { outstanding = 1; size = 31 }

busy-Space : Space busy (2 ∷ [])
busy-Space = record { reserved = omega arith; each = (omega arith, tt); counted = refl }

begun : begin_op busy ≡ some (record busy { outstanding = 2 })
unfolding begin_op
begun = refl

log_write-Space_example :
    (r : Log × Disk) × (log_write busy (dirty_disk 0) 40 ≡ ok r)
    × Space r.0 (1 ∷ [])
    × ((i : ℕ) × (i < r.0.n) × (r.0.block i ≡ 40))
    × (r.1.dirty 40 ≡ true)
log_write-Space_example = log_write-Space busy (dirty_disk 0) 40 [] [] 1 busy-Space (omega arith)

abbrev nearly_full : Log
nearly_full = record two { outstanding = 1; n = 29 }

-- The log that mkfs lays out has room for 29 blocks, not for the 30 that may be reserved.
full_log : log_write nearly_full (dirty_disk 0) 40 ≡ panic
unfolding log_write
full_log = refl

abbrev none_left : List ℕ
none_left = []

absorbed : find_block 2 0 two.block 101 ≡ 1
unfolding find_block
absorbed = refl
