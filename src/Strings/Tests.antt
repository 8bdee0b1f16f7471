-- ===== src/Strings/Tests.antt =====
-- The byte routines at concrete inputs.
use operating_systems_projec.Base.{◌%◌, ◌≡◌, refl}
use operating_systems_projec.Strings.{Memory, memmove, move_up, move_down}
use operating_systems_projec.Strings.Move.{moved, memmove_lem}

-- Byte `a` of the memory holds `a`.
abbrev numbered : Memory
numbered a = a % 256

memmove_lem_example : memmove numbered 11 10 4 12 ≡ moved numbered 11 10 4 12
memmove_lem_example = memmove_lem numbered 11 10 4 12

overlap : memmove numbered 11 10 4 14 ≡ 13
unfolding memmove move_down move_up
overlap = refl
