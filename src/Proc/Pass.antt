-- ===== src/Proc/Pass.antt =====
-- scheduler: its passes over the process table, and who runs in one.
use operating_systems_projec.Base.{
  ℕ, zero, suc, ◌+◌, ◌≤◌, ◌<◌, ◌≡◌, refl, ap, ◌∙◌, ◌≢◌, ◌⊎◌, inl, inr, Bool, true, false, List, [],
  ◌∷◌, arith, ◌==◌, if◌then◌else◌, ==→eq, Bool-cases, length, get_or-set_ne,
}
use operating_systems_projec.Proc.{is_state, Kernel, State, at, schedule, nproc}

-- What happens from the switch to a process until it switches back, by its index: the process's own
-- code, and what other processors do meanwhile.
abbrev pub Turns : Type 0
Turns = ℕ → Kernel → Kernel

-- The loop over the table from index `i` on, `n` rounds: the processes it switches to, in order.
unfoldable pub pass : Turns → ℕ → ℕ → Kernel → List ℕ × Kernel
pass turn zero i k = ([], k)
pass turn (suc n) i k =
    let (runs, k') = schedule k i in
    let (later, k'') = pass turn n (i + 1) (if runs then turn i k' else k') in
    (if runs then i ∷ later else later, k'')

-- One round of the endless loop: a pass, and whether the processor halts after it (`ran == 0`).
unfoldable pub scheduler_round : Turns → Kernel → List ℕ × Bool × Kernel
scheduler_round turn k = let (ran, k') = pass turn nproc 0 k in (ran, (length ran == 0), k')

-- A turn of one process takes no other out of the runnable ones.
pub record IsFair (turn : Turns) : Type 0 where
  pub others :
      (k : Kernel) (i j : ℕ)
      → i ≢ j
      → (at k.procs j).state ≡ State.runnable
      → (at (turn i k).procs j).state ≡ State.runnable

abbrev pub Member : ℕ → List ℕ → Type 0
Member j [] = ⊥
Member j (i ∷ ran) = (i ≡ j) ⊎ Member j ran

-- Every entry is at least `i`, and they increase.
abbrev pub Ascends : ℕ → List ℕ → Type 0
Ascends i [] = Unit
Ascends i (j ∷ ran) = (i ≤ j) × Ascends (j + 1) ran

schedule-others : (k : Kernel) (i j : ℕ) → i ≢ j → at (schedule k i).1.procs j ≡ at k.procs j
unfolding schedule
schedule-others k i j h = elim (Bool-cases (is_state (at k.procs i).state State.runnable)) [
  | inl e ↦ rw e (get_or-set_ne k.procs i j _ _ h)
  | inr e ↦ rw e refl
]

schedule-runs :
    (k : Kernel) (i : ℕ) → (schedule k i).0 ≡ is_state (at k.procs i).state State.runnable
unfolding schedule
schedule-runs k i = ground arith

-- The state of another process behind one round of the loop.
round-others :
    (turn : Turns) (k : Kernel) (i j : ℕ) (runs : Bool)
    → IsFair turn
    → i ≢ j
    → (at k.procs j).state ≡ State.runnable
    → (at (if runs then turn i k else k).procs j).state ≡ State.runnable
round-others turn k i j true f h r = f.others k i j h r
round-others turn k i j false f h r = r

Ascends-weaken : (i j : ℕ) (ran : List ℕ) → i ≤ j → Ascends j ran → Ascends i ran
Ascends-weaken i j [] h a = tt
Ascends-weaken i j (l ∷ ran) h a = (omega arith, a.1)

pass-Ascends : (turn : Turns) (n i : ℕ) (k : Kernel) → Ascends i (pass turn n i k).0
unfolding pass
pass-Ascends turn zero i k = tt
pass-Ascends turn (suc n) i k = elim (Bool-cases (schedule k i).0) [
  | inl e ↦ rw e (omega arith, pass-Ascends turn n (i + 1) (turn i (schedule k i).1))
  | inr e ↦
      rw e (Ascends-weaken i (i + 1) _ (omega arith) (pass-Ascends turn n (i + 1) (schedule k i).1))
]

Member-if :
    (b : Bool) (i j : ℕ) (ran : List ℕ) → Member j ran → Member j (if b then i ∷ ran else ran)
Member-if true i j ran h = inr h
Member-if false i j ran h = h

pass-Member :
    (turn : Turns) (n i j : ℕ) (k : Kernel)
    → IsFair turn
    → i ≤ j
    → j < i + n
    → (at k.procs j).state ≡ State.runnable
    → Member j (pass turn n i k).0
unfolding pass
pass-Member turn zero i j k f l h r = absurd (omega arith)
pass-Member turn (suc n) i j k f l h r = elim (Bool-cases (i == j)) [
  | inl e ↦
      let q = ==→eq i j e in
      let runs : (schedule k i).0 ≡ true =
        schedule-runs k i
        ∙ ap (λ m. is_state (at k.procs m).state State.runnable) q
        ∙ ap (λ s. is_state s State.runnable) r in
      rw runs (inl q)
  | inr e ↦
      let ne : i ≢ j = ground arith in
      let s =
        round-others turn (schedule k i).1 i j (schedule k i).0 f ne
          (ap (λ p. p.state) (schedule-others k i j ne) ∙ r) in
      let ih =
        pass-Member turn n (i + 1) j
          (if (schedule k i).0 then turn i (schedule k i).1 else (schedule k i).1) f (omega arith)
          (omega arith) s in
      Member-if (schedule k i).0 i j _ ih
]

Member-length : (j : ℕ) (ran : List ℕ) → Member j ran → (length ran == 0) ≡ false
Member-length j [] h = absurd h
Member-length j (i ∷ ran) h = ground arith

-- If no process's turn makes another one not runnable, a round of the scheduler runs every process
-- that is runnable when it starts; it runs them in the order of the table, none of them twice; and
-- it halts the processor only if no process was runnable.
pub scheduler_round_lem :
    (turn : Turns) (k : Kernel)
    → IsFair turn
    → let (ran, halts, k') = scheduler_round turn k in
      ((j : ℕ) → j < nproc → (at k.procs j).state ≡ State.runnable → Member j ran)
      × Ascends 0 ran
      × (halts ≡ true → (j : ℕ) → j < nproc → (at k.procs j).state ≢ State.runnable)
unfolding scheduler_round
scheduler_round_lem turn k f = (
  (λ j l r. pass-Member turn nproc 0 j k f (omega arith) (omega arith) r),
  pass-Ascends turn nproc 0 k,
  (λ h j l r.
      let m = Member-length j _ (pass-Member turn nproc 0 j k f (omega arith) (omega arith) r) in
      absurd (cc)),
)
