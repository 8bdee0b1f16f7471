-- ===== src/Proc/States.antt =====
-- Sleeping and waking, and the life of a process from fork to wait.
use operating_systems_projec.Base.{
  ℕ, zero, suc, ◌+◌, ◌≤◌, ◌<◌, ◌≡◌, refl, sym, ap, subst, ◌∙◌, ◌≢◌, Bool, true, false, ◌&&◌, none,
  some, List, arith, ltb, leb, ◌==◌, if◌then◌else◌, ==_refl, length, set, replicate, length-set,
}
use operating_systems_projec.Proc.{
  Proc, State, Chan, Kernel, at, of_proc, woken, wakeup1, wakeup, is_state, is_parent, same_chan,
  chan_of, pass_on, exit_table,
}
use operating_systems_projec.File.{nofile}
use operating_systems_projec.Proc.Table.{at-set, at-wakeup1, length-wakeup1, same_chan_refl}

-- wakeup makes every process that sleeps on the channel runnable, and changes nothing else: no
-- other field, no other process.
pub wakeup_lem :
    (k : Kernel) (c : Chan) (i : ℕ)
    → let p = at k.procs i in
      let q = at (wakeup k c).procs i in
      (p.state ≡ State.sleeping → p.chan ≡ c → q ≡ record p { state = State.runnable })
      × (p.state ≢ State.sleeping → q ≡ p)
      × (same_chan p.chan c ≡ false → q ≡ p)
unfolding wakeup
wakeup_lem k c i = (
  λ h e. at-wakeup1 k.procs c i ∙ ground (arith, h, e, same_chan_refl c),
  λ h. at-wakeup1 k.procs c i ∙ ground arith,
  λ h. at-wakeup1 k.procs c i ∙ ground arith,
)

-- What one round of exit's loop, and the whole loop, leaves of a process.
record Passed (cur init : ℕ) (mine : Bool) (p r : Proc) : Type 0 where
  parent : r.parent ≡ (if mine && is_parent cur p.parent then some init else p.parent)
  awake : p.state ≢ State.sleeping → r.state ≡ p.state
  pid : r.pid ≡ p.pid
  ofile : r.ofile ≡ p.ofile

pass_one : ℕ → List Proc → ℕ → ℕ → List Proc
pass_one i ps cur init =
    let p = at ps i in
    let ps' = set ps i (record p { parent = some init }) in
    if is_parent cur p.parent
    then (if is_state p.state State.zombie then wakeup1 ps' (of_proc init) else ps')
    else ps

pass_one_lem :
    (i : ℕ) (ps : List Proc) (cur init j : ℕ)
    → i < length ps
    → Passed cur init (i == j) (at ps j) (at (pass_one i ps cur init) j)
unfolding pass_one
pass_one_lem i ps cur init j l = record {
  parent = ground (arith, written, at-wakeup1 ps' (of_proc init) j);
  awake = λ h. ground (arith, h, written, at-wakeup1 ps' (of_proc init) j);
  pid = ground (arith, written, at-wakeup1 ps' (of_proc init) j);
  ofile = ground (arith, written, at-wakeup1 ps' (of_proc init) j);
}
  where
    ps' : List Proc
    ps' = set ps i (record (at ps i) { parent = some init })

    written : at ps' j ≡ (if i == j then record (at ps i) { parent = some init } else at ps j)
    written = at-set ps i j (record (at ps i) { parent = some init }) l

length-pass_one :
    (i : ℕ) (ps : List Proc) (cur init : ℕ) → length (pass_one i ps cur init) ≡ length ps
unfolding pass_one
length-pass_one i ps cur init =
    let p' = record (at ps i) { parent = some init } in
    ground (arith, length-set ps i p', length-wakeup1 (set ps i p') (of_proc init))

pass_on_lem :
    (n i : ℕ) (ps : List Proc) (cur init j : ℕ)
    → init ≢ cur
    → i + n ≤ length ps
    → Passed cur init (leb i j && ltb j (i + n)) (at ps j) (at (pass_on n i ps cur init) j)
unfolding pass_on pass_one
pass_on_lem zero i ps cur init j ne l = record {
  parent = ground arith;
  awake = λ h. refl;
  pid = refl;
  ofile = refl;
}
pass_on_lem (suc n) i ps cur init j ne l =
    let one = pass_one_lem i ps cur init j (omega arith) in
    let rest =
      pass_on_lem n (i + 1) (pass_one i ps cur init) cur init j ne
        (omega (arith, length-pass_one i ps cur init)) in
    record {
      parent = rest.parent ∙ ground (arith, one.parent, ne);
      awake = λ h. rest.awake (λ e. h (sym (one.awake h) ∙ e)) ∙ one.awake h;
      pid = rest.pid ∙ one.pid;
      ofile = rest.ofile ∙ one.ofile;
    }

length-pass_on :
    (n i : ℕ) (ps : List Proc) (cur init : ℕ) → length (pass_on n i ps cur init) ≡ length ps
unfolding pass_on pass_one
length-pass_on zero i ps cur init = refl
length-pass_on (suc n) i ps cur init =
    length-pass_on n (i + 1) (pass_one i ps cur init) cur init ∙ length-pass_one i ps cur init

-- What exit of process `cur` does to the table. A parent that sleeps in wait is `Awaited`.
abbrev pub Awaited : List Proc → ℕ → ℕ → Type 0
Awaited ps cur p =
    ((at ps cur).parent ≡ some p)
    × ((at ps p).state ≡ State.sleeping)
    × ((at ps p).chan ≡ of_proc p)

pub record Exited (ps ps' : List Proc) (cur init : ℕ) : Type 0 where
  pub gone : (at ps' cur).state ≡ State.zombie
  pub closed : (at ps' cur).ofile ≡ replicate nofile none
  pub pids : (i : ℕ) → i < length ps → (at ps' i).pid ≡ (at ps i).pid
  pub orphans :
      (i : ℕ)
      → i < length ps
      → (at ps' i).parent ≡ (if is_parent cur (at ps i).parent then some init else (at ps i).parent)
  pub told :
      (p : ℕ) → p < length ps → p ≢ cur → Awaited ps cur p → (at ps' p).state ≡ State.runnable
  pub others :
      (i : ℕ)
      → i < length ps
      → i ≢ cur
      → (at ps i).state ≢ State.sleeping
      → (at ps' i).state ≡ (at ps i).state

module _ (ps : List Proc) (cur init : ℕ) (inside : cur < length ps) (ne : init ≢ cur) where
  left_files : Proc
  left_files = record (at ps cur) { ofile = replicate nofile none; cwd = none }

  closed : List Proc
  unfolding left_files
  closed = set ps cur left_files

  told : List Proc
  unfolding closed
  told = wakeup1 closed (chan_of (at ps cur).parent)

  passed : List Proc
  unfolding told
  passed = pass_on (length ps) 0 told cur init

  length-told : length told ≡ length ps
  unfolding told closed
  length-told = length-wakeup1 closed (chan_of (at ps cur).parent) ∙ length-set ps cur left_files

  length-passed : length passed ≡ length ps
  unfolding passed
  length-passed = length-pass_on (length ps) 0 told cur init ∙ length-told

  at-told :
      (j : ℕ)
      → at told j ≡ woken (chan_of (at ps cur).parent) (if cur == j then left_files else at ps j)
  unfolding told closed
  at-told j =
      at-wakeup1 closed (chan_of (at ps cur).parent) j
      ∙ ap (woken (chan_of (at ps cur).parent)) (at-set ps cur j left_files inside)

  at-passed : (j : ℕ) → j < length ps → Passed cur init true (at told j) (at passed j)
  unfolding passed
  at-passed j lj =
      subst (λ b. Passed cur init b (at told j) (at (pass_on (length ps) 0 told cur init) j))
        (ground arith) (pass_on_lem (length ps) 0 told cur init j ne (omega (arith, length-told)))

  at-exit_table :
      (j : ℕ)
      → at (exit_table ps cur init) j
        ≡ (if cur == j then record (at passed cur) { state = State.zombie } else at passed j)
  unfolding exit_table passed told closed left_files
  at-exit_table j =
      at-set passed cur j (record (at passed cur) { state = State.zombie })
        (omega (arith, length-passed))

  pub exit_table-Exited : Exited ps (exit_table ps cur init) cur init
  unfolding left_files
  exit_table-Exited = record {
    gone = ground (arith, at-exit_table cur);
    closed = ground (arith, at-exit_table cur, (at-passed cur inside).ofile, at-told cur);
    pids = λ i li. ground (arith, at-exit_table i, (at-passed i li).pid, at-told i);
    orphans = λ i li. ground (arith, at-exit_table i, (at-passed i li).parent, at-told i);
    told = λ p lp np w.
        let parent = w.0 in
        let asleep = w.1 in
        let chan = w.2 in
        let t : (at told p).state ≡ State.runnable =
          ground (arith, at-told p, parent, asleep, chan, ==_refl p) in
        let q = (at-passed p lp).awake (λ e. cc (t, e)) ∙ t in ground (arith, at-exit_table p, q);
    others = λ i li ni h. ground (arith, at-exit_table i, (at-passed i li).awake, at-told i);
  }
