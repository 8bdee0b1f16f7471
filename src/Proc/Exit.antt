-- ===== src/Proc/Exit.antt =====
-- exit of proc.c, with what it does to the files and the directory of the process.
use operating_systems_projec.Base.{ℕ, ◌≡◌}
use operating_systems_projec.File.Refs.{Counted}
use operating_systems_projec.Proc.{Kernel}
use operating_systems_projec.Proc.States.{Exited}

-- What exit's own work leaves: the table is `Exited`, and the files count the names of the others.
pub record Leaves {S : Type 0} (k : Kernel) (cur : ℕ) (others : ℕ → ℕ) (s : S) (r : S × Kernel)
    : Type 0 where
  pub pipes_inodes : r.0 ≡ s
  pub table : Exited k.procs r.1.procs cur k.initproc
  pub counts : Counted r.1.files others
