-- ===== src/Pipe/Tests.antt =====
-- Runs of the pipe around the wrap of its counters, and its theorems at concrete inputs.
use operating_systems_projec.Base.{◌-◌, ◌^◌, ◌≡◌, refl, true, false, [], ◌∷◌, arith, set, replicate}
use operating_systems_projec.Pipe.{Pipe, Outcome, write_from, copy_out, piperead}
use operating_systems_projec.Pipe.Window.{IsValid, contents}
use operating_systems_projec.Pipe.Transfer.{left, bytes_of}
use operating_systems_projec.Pipe.Stream.{Link, call, write, here, next, IsQueue, Reach-IsQueue}

-- Two bytes, on either side of the wrap of nwrite.
abbrev wrapped : Pipe
wrapped = record {
  buf = set (replicate 512 7) 511 9;
  nread = 2 ^ 32 - 1;
  nwrite = 1;
  readopen = true;
  writeopen = true;
}

wrapped-IsValid : IsValid wrapped
wrapped-IsValid = record {
  storage = refl;
  read_word = omega arith;
  write_word = omega arith;
  within = omega arith;
}

contents-wrapped : contents wrapped ≡ 9 ∷ 7 ∷ []
contents-wrapped = refl

abbrev answer : Outcome
answer = piperead false wrapped 1

abbrev fresh : Link
fresh = record { pipe = wrapped; pending = []; offered = 9 ∷ 7 ∷ []; received = [] }

abbrev offering : Link
offering = record { pipe = wrapped; pending = 3 ∷ []; offered = 9 ∷ 7 ∷ 3 ∷ []; received = [] }

abbrev written : Link
written = record offering {
  pipe = left (write_from false 1 (3 ∷ []) wrapped);
  pending = bytes_of (write_from false 1 (3 ∷ []) wrapped);
}

fresh-IsQueue : IsQueue fresh
fresh-IsQueue = record { valid = wrapped-IsValid; in_order = refl }

Reach-IsQueue_example : IsQueue written
Reach-IsQueue_example =
    Reach-IsQueue fresh-IsQueue
      (next (next here (call fresh (3 ∷ []) refl)) (write offering false 1))

bytes_read : bytes_of (piperead false wrapped 1) ≡ 9 ∷ []
unfolding piperead bytes_of copy_out
bytes_read = refl
