-- ===== src/Ide/Finish.antt =====
-- ide.c: runs of requests and interrupts, and the end of a request.
use operating_systems_projec.Base.{ℕ, ◌≡◌, some, get_elem?}
use operating_systems_projec.Ide.{Device, Driver}
use operating_systems_projec.Ide.Queue.{IsSound}

module _ {S : Type 0} (device : Device S) where
  -- A buffer that stays in the queue, and the order of the queue around it.
  abbrev Kept : Driver S → Driver S → ℕ → ℕ → Type 0
  Kept d u k i =
      IsSound device u u.idequeue × (get_elem? u.idequeue k ≡ some i) × (u.bufs i ≡ d.bufs i)
