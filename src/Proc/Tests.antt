-- ===== src/Proc/Tests.antt =====
-- A table of three processes, and the theorems on it.
use operating_systems_projec.Base.{
  ℕ, zero, suc, ◌<◌, ◌≡◌, refl, ap, ◌∙◌, ◌≢◌, true, some, List, [], ◌∷◌, arith, get_or-set_ne, ok,
  pos, panic, Result, ◌++◌,
}
use operating_systems_projec.Kalloc.{Kmem, kalloc}
use operating_systems_projec.File.{
  File, FileType, Closing, put_inode, close_all, fileclose, closing,
}
use operating_systems_projec.File as FileTables
use operating_systems_projec.Proc.Pass.{
  Turns, IsFair, Member, Ascends, pass, scheduler_round, scheduler_round_lem,
}
use operating_systems_projec.Proc.{
  yield, nproc, schedule, Proc, State, Kernel, of_proc, sleeps, at, blank, allocproc, kill, exit,
  run_closings, finish, wait, scan, put_to_sleep,
}
use operating_systems_projec.Proc.Pids.{PidsOk, Names, allocproc-PidsOk, kill_zero-allocproc}
use operating_systems_projec.Proc.Wait.{Answer, wait_lem}

abbrev memory : Kmem
memory = record { use_lock = true; freelist = 0x80200000; free_frame_cnt = 1; mem = λ a. 0 }

abbrev init_proc : Proc
init_proc = record blank { state = State.sleeping; pid = 1; chan = of_proc 0 }

-- The child of init: it runs and has file 0 open.
abbrev worker : Proc
worker = record blank {
  state = State.running;
  pid = 2;
  parent = some 0;
  cwd = some 4;
  ofile = some 0 ∷ [];
}

abbrev kernel : Kernel
kernel = record {
  procs = init_proc ∷ worker ∷ blank ∷ [];
  nextpid = 3;
  initproc = 0;
  kmem = memory;
  files = record FileTables.blank { ref = 1; type = FileType.fd_inode } ∷ [];
  irefs = [];
}

abbrev procs : List Proc
procs = kernel.procs

pid_bound : (i : ℕ) → (at procs i).pid < 3
pid_bound zero = omega arith
pid_bound (suc zero) = omega arith
pid_bound (suc (suc zero)) = omega arith
pid_bound (suc (suc (suc i))) = omega arith

pids_distinct : (i j : ℕ) → i ≢ j → (at procs i).pid ≢ 0 → (at procs i).pid ≢ (at procs j).pid
pids_distinct zero zero h n = absurd (h refl)
pids_distinct zero (suc zero) h n = omega arith
pids_distinct zero (suc (suc zero)) h n = omega arith
pids_distinct zero (suc (suc (suc j))) h n = omega arith
pids_distinct (suc zero) zero h n = omega arith
pids_distinct (suc zero) (suc zero) h n = absurd (h refl)
pids_distinct (suc zero) (suc (suc zero)) h n = omega arith
pids_distinct (suc zero) (suc (suc (suc j))) h n = omega arith
pids_distinct (suc (suc zero)) j h n = absurd (n refl)
pids_distinct (suc (suc (suc i))) j h n = absurd (n refl)

kernel-PidsOk : PidsOk kernel
kernel-PidsOk = record { distinct = pids_distinct; given = pid_bound }

allocproc-PidsOk_example :
    PidsOk (allocproc kernel).1
    × (kernel.nextpid ≢ 0)
    × ((i : ℕ) → (allocproc kernel).0 ≡ some i → Names kernel (allocproc kernel).1 i)
allocproc-PidsOk_example = allocproc-PidsOk kernel (omega arith) kernel-PidsOk

named_below : (m : ℕ) → m < 2 → (at procs m).pid ≢ 0
named_below zero h = omega arith
named_below (suc zero) h = omega arith
named_below (suc (suc m)) h = absurd (omega arith)

used_below : (m : ℕ) → m < 2 → (at procs m).state ≢ State.unused
used_below zero h = ground arith
used_below (suc zero) h = ground arith
used_below (suc (suc m)) h = absurd (omega arith)

a_page : (kalloc memory).0 ≢ 0
unfolding kalloc
a_page = omega arith

kill_zero-allocproc_example :
    ((kill kernel 0).0 ≡ pos 0)
    × ((allocproc (kill kernel 0).1).0 ≡ some 2)
    × ((at (allocproc (kill kernel 0).1).1.procs 2).killed ≡ true)
kill_zero-allocproc_example =
    kill_zero-allocproc kernel 2 (omega arith) refl refl named_below used_below a_page

-- A file system on which each closing succeeds, and is noted down.
abbrev note : Closing → List Closing → Result (List Closing)
note c done_before = ok (done_before ++ (c ∷ []))

abbrev noted : Result (List Closing × Kernel) → List Closing
noted panic = []
noted (ok r) = r.0

-- The worker's file is finished, and then its directory.
exit_run : noted (exit note [] kernel 1) ≡ put_inode 0 ∷ put_inode 4 ∷ []
unfolding exit close_all fileclose closing run_closings finish
exit_run = refl

asleep : wait 0 kernel 0 ≡ ok (sleeps (of_proc 0) (put_to_sleep kernel 0 (of_proc 0)))
unfolding wait scan
asleep = refl

wait_lem_example : Answer kernel 0 (sleeps (of_proc 0) (put_to_sleep kernel 0 (of_proc 0)))
wait_lem_example =
    wait_lem 0 kernel 0 (sleeps (of_proc 0) (put_to_sleep kernel 0 (of_proc 0))) asleep

-- Processes that give up the processor at once leave each other runnable.
yield-others :
    (k : Kernel) (i j : ℕ)
    → i ≢ j
    → (at k.procs j).state ≡ State.runnable
    → (at (yield k i).procs j).state ≡ State.runnable
unfolding yield
yield-others k i j h r = ap (λ p. p.state) (get_or-set_ne k.procs i j _ _ h) ∙ r

abbrev yielding : Turns
yielding i k = yield k i

yielding-IsFair : IsFair yielding
yielding-IsFair = record { others = yield-others }

abbrev ready : Kernel
ready = record kernel {
  procs =
      init_proc
      ∷ record worker { state = State.runnable }
      ∷ blank
      ∷ record worker { state = State.runnable; pid = 4 }
      ∷ [];
}

scheduler_round_lem_example :
    let (ran, halts, k') = scheduler_round yielding ready in
    ((j : ℕ) → j < nproc → (at ready.procs j).state ≡ State.runnable → Member j ran)
    × Ascends 0 ran
    × (halts ≡ true → (j : ℕ) → j < nproc → (at ready.procs j).state ≢ State.runnable)
scheduler_round_lem_example = scheduler_round_lem yielding ready yielding-IsFair

both_run : (pass yielding 5 0 ready).0 ≡ 1 ∷ 3 ∷ []
unfolding pass schedule yield
both_run = refl
