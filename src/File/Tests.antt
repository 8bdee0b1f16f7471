-- ===== src/File/Tests.antt =====
-- A table of two files and a process that names them, and the theorems on them at these.
use operating_systems_projec.Base.{
  ℕ, zero, suc, ◌+◌, ◌<◌, ◌≡◌, refl, ◌⊎◌, none, some, List, [], ◌∷◌, arith, ◌==◌, if◌then◌else◌,
  set, Result, ok, panic, pos,
}
use operating_systems_projec.File.{
  File, FileType, FileTable, Closing, nothing, put_inode, closing, Descriptors, Reply, failed, at,
  closing, blank, fileclose, sys_close, close_all,
}
use operating_systems_projec.File.Refs.{Counted, count}
use operating_systems_projec.File.Descriptors.{IsOpen, Shared, sys_close-Shared}

abbrev a_pipe : File
a_pipe = record blank { type = FileType.fd_pipe; ref = 2; pipe = 7 }

abbrev files : FileTable
files = a_pipe ∷ record blank { type = FileType.fd_inode; ref = 1; ip = 3 } ∷ blank ∷ []

-- This process names the pipe and the inode; another one names the pipe.
abbrev mine : Descriptors
mine = some 0 ∷ none ∷ some 1 ∷ none ∷ []

abbrev others : ℕ → ℕ
others i = if i == 0 then 1 else 0

abbrev all : ℕ → ℕ
all i = others i + count i mine

counted : Counted files all
counted zero h = refl
counted (suc zero) h = refl
counted (suc (suc zero)) h = refl
counted (suc (suc (suc i))) h = absurd (omega arith)

shared : Shared files others mine
shared = (counted, (omega arith, (omega arith, tt)))

abbrev but_pipe : ℕ → ℕ
but_pipe i = others i + count i (none ∷ none ∷ some 1 ∷ none ∷ [])

sys_close-Shared_example :
    (r : Closing × Reply) × (sys_close mine files (pos 2) ≡ ok r)
    × Shared r.1.2 others r.1.1
    × (((r ≡ (nothing, failed mine files)) × ((fd f : ℕ) → ¬ (IsOpen mine (pos 2) fd f)))
        ⊎ ((fd f : ℕ) × IsOpen mine (pos 2) fd f
            × (r.1.0 ≡ pos 0)
            × (r.1.1 ≡ set mine fd none)
            × (0 < others f + count f r.1.1 → r.0 ≡ nothing)
            × (others f + count f r.1.1 ≡ 0 → r.0 ≡ closing (at files f))))
sys_close-Shared_example = sys_close-Shared mine files (pos 2) others shared

finished : Result (List Closing × FileTable) → List Closing
finished (ok (c, t)) = c
finished panic = []

exit_run : finished (close_all mine files) ≡ nothing ∷ put_inode 3 ∷ []
unfolding finished close_all fileclose closing
exit_run = refl
