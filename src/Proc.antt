-- ===== src/Proc.antt =====
-- proc.c: the process table and the operations on it. A pointer to a struct proc is its index. The
-- table changes under ptable.lock, so that each function below is one step between two switches of
-- context; a function that calls sched() ends there, and what it does after it is switched back to
-- is a function of its own. The saved registers (tf, context, swtch) are not modelled.
mod Tests
pub mod Table
pub mod Pids
pub mod States
pub mod Exit
pub mod Wait
mod Pass
pub mod Memory
use operating_systems_projec.Base.{
  ◌^◌, ◌%◌, ℕ, zero, suc, ◌+◌, Bool, true, false, ◌&&◌, ◌||◌, not, Option, none, some, List, [],
  ◌∷◌, ◌++◌, ◌==◌, if◌then◌else◌, length, get_or, set, replicate, Result, ok, panic, ◌>>=◌, ℤ, pos,
  negsuc,
}
use operating_systems_projec.Kalloc.{Kmem, kalloc, kfree}
use operating_systems_projec.Vm.{copyuvm, freevm}
use operating_systems_projec.File.{
  close_pipe, nothing, FileTable, Descriptors, Closing, put_inode, dup_all, close_all, nofile,
}

pub data State : Type 0 where
  unused embryo sleeping runnable running zombie : State

-- What a process sleeps on: nothing, a struct proc, or another address of the kernel.
pub data Chan : Type 0 where
  no_chan : Chan
  of_proc : ℕ → Chan
  of_addr : ℕ → Chan

abbrev pub same_chan : Chan → Chan → Bool
same_chan no_chan no_chan = true
same_chan (of_proc i) (of_proc j) = i == j
same_chan (of_addr i) (of_addr j) = i == j
same_chan _ _ = false

abbrev pub is_state : State → State → Bool
is_state State.unused State.unused = true
is_state State.embryo State.embryo = true
is_state State.sleeping State.sleeping = true
is_state State.runnable State.runnable = true
is_state State.running State.running = true
is_state State.zombie State.zombie = true
is_state _ _ = false

pub record Proc : Type 0 where
  pub sz : ℕ
  pub pgdir : ℕ
  pub heap_start : ℕ
  pub kstack : ℕ
  pub state : State
  pub pid : ℕ
  pub page_allocator_type : ℕ
  pub parent : Option ℕ
  pub chan : Chan
  pub killed : Bool
  pub ofile : Descriptors
  pub cwd : Option ℕ
  pub name : List ℕ

pub record Kernel : Type 0 where
  pub procs : List Proc
  pub nextpid : ℕ
  pub initproc : ℕ
  pub kmem : Kmem
  pub files : FileTable
  pub irefs : List ℕ

abbrev pub nproc : ℕ
nproc = 64

abbrev pub blank : Proc
blank = record {
  sz = 0;
  pgdir = 0;
  heap_start = 0;
  kstack = 0;
  state = State.unused;
  pid = 0;
  page_allocator_type = 0;
  parent = none;
  chan = no_chan;
  killed = false;
  ofile = replicate nofile none;
  cwd = none;
  name = [];
}

abbrev pub at : List Proc → ℕ → Proc
at ps i = get_or ps i blank

abbrev pub is_parent : ℕ → Option ℕ → Bool
is_parent p none = false
is_parent p (some q) = q == p

unfoldable pub find_unused : List Proc → ℕ → Option ℕ
find_unused [] i = none
find_unused (p ∷ ps) i = if is_state p.state State.unused then some i else find_unused ps (i + 1)

-- The new process's index, unless the table or the memory is full.
unfoldable pub allocproc : Kernel → Option ℕ × Kernel
allocproc k = elim (find_unused k.procs 0) [
  | none ↦ (none, k)
  | some i ↦
      let (kstack, kmem) = kalloc k.kmem in
      let p = record (at k.procs i) {
        state = if kstack == 0 then State.unused else State.embryo;
        pid = k.nextpid;
        heap_start = 0;
        page_allocator_type = 0;
        kstack = kstack;
      } in
      (
        if kstack == 0 then none else some i,
        record k { procs = set k.procs i p; nextpid = (k.nextpid + 1) % 2 ^ 32; kmem = kmem },
      )
]

-- idup, on the reference counts of the inode cache.
abbrev pub idup : List ℕ → Option ℕ → List ℕ
idup refs none = refs
idup refs (some i) = set refs i (get_or refs i 0 + 1)

-- The end of fork, once the page table `d` of the child `i` is there.
unfoldable pub fork_child : Kernel → ℕ → ℕ → ℕ → Result (ℤ × Kernel)
fork_child k cur i d = do
  let parent = at k.procs cur
  let child = at k.procs i
  (ofile, files) ← dup_all parent.ofile k.files
  ok (
    pos child.pid,
    record k {
      procs = set k.procs i (record child {
        pgdir = d;
        sz = parent.sz;
        parent = some cur;
        ofile = ofile;
        cwd = parent.cwd;
        name = parent.name;
        state = State.runnable;
      });
      files = files;
      irefs = idup k.irefs parent.cwd;
    },
  )

unfoldable pub fork_undo : ℕ → Kernel → ℕ → Result (ℤ × Kernel)
fork_undo kend k i = do
  kmem ← kfree kend k.kmem (at k.procs i).kstack
  ok (
    negsuc 0,
    record k {
      procs = set k.procs i (record (at k.procs i) { kstack = 0; state = State.unused });
      kmem = kmem;
    },
  )

unfoldable pub fork_copy : ℕ → ℕ → ℕ → Option ℕ × Kernel → Result (ℤ × Kernel)
fork_copy kend data_start cur (none, k) = ok (negsuc 0, k)
fork_copy kend data_start cur (some i, k) = do
  (d, kmem) ← copyuvm kend data_start k.kmem (at k.procs cur).pgdir (at k.procs cur).sz
  let k' = record k { kmem = kmem }
  if d == 0 then fork_undo kend k' i else fork_child k' cur i d

unfoldable pub fork : ℕ → ℕ → Kernel → ℕ → Result (ℤ × Kernel)
fork kend data_start k cur = fork_copy kend data_start cur (allocproc k)

abbrev pub woken : Chan → Proc → Proc
woken c p =
    if is_state p.state State.sleeping && same_chan p.chan c
    then record p { state = State.runnable }
    else p

unfoldable pub wakeup1 : List Proc → Chan → List Proc
wakeup1 [] c = []
wakeup1 (p ∷ ps) c = woken c p ∷ wakeup1 ps c

unfoldable pub wakeup : Kernel → Chan → Kernel
wakeup k c = record k { procs = wakeup1 k.procs c }

-- exit's loop over the table from index `i` on, `n` rounds: it wakes init for each zombie passed on.
unfoldable pub pass_on : ℕ → ℕ → List Proc → ℕ → ℕ → List Proc
pass_on zero i ps cur init = ps
pass_on (suc n) i ps cur init =
    let p = at ps i in
    let ps' = set ps i (record p { parent = some init }) in
    pass_on n (i + 1)
      (if is_parent cur p.parent
        then (if is_state p.state State.zombie then wakeup1 ps' (of_proc init) else ps')
        else ps)
      cur init

abbrev pub chan_of : Option ℕ → Chan
chan_of none = no_chan
chan_of (some p) = of_proc p

-- What exit makes of the table: the process's files are closed, its parent is woken, its children
-- are init's, and it is a zombie.
unfoldable pub exit_table : List Proc → ℕ → ℕ → List Proc
exit_table ps cur init =
    let p = at ps cur in
    let closed = set ps cur (record p { ofile = replicate nofile none; cwd = none }) in
    let told = wakeup1 closed (chan_of p.parent) in
    let passed = pass_on (length ps) 0 told cur init in
    set passed cur (record (at passed cur) { state = State.zombie })

-- `close` is pipeclose, or iput in a transaction, on the pipes and inodes.
unfoldable pub finish : {S : Type 0} → (Closing → S → Result S) → Closing → S → Result S
finish close nothing s = ok s
finish close (close_pipe p writable) s = close (close_pipe p writable) s
finish close (put_inode ip) s = close (put_inode ip) s

unfoldable pub run_closings : {S : Type 0} → (Closing → S → Result S) → List Closing → S → Result S
run_closings close [] s = ok s
run_closings close (c ∷ cs) s = finish close c s >>= λ s'. run_closings close cs s'

-- exit up to its call of sched, from which it does not come back; iput panics on a null directory.
unfoldable pub exit : {S : Type 0} → (Closing → S → Result S) → S → Kernel → ℕ → Result (S × Kernel)
exit close s k cur = if cur == k.initproc then panic else do
  (closings, files) ← close_all (at k.procs cur).ofile k.files
  s' ← run_closings close closings s
  s'' ← elim (at k.procs cur).cwd [ none ↦ panic | some ip ↦ close (put_inode ip) s' ]
  ok (s'', record k { procs = exit_table k.procs cur k.initproc; files = files })

-- One scan of wait: whether there are children, and the first that is a zombie.
unfoldable pub scan : List Proc → ℕ → ℕ → Bool × Option ℕ
scan [] i cur = (false, none)
scan (p ∷ ps) i cur =
    let (kids, dead) = scan ps (i + 1) cur in
    if not (is_parent cur p.parent)
    then (kids, dead)
    else if is_state p.state State.zombie
    then (true, some i)
    else (true, dead)

-- wait returns, or it sleeps on the process itself and scans again when it is woken.
pub data Waiting : Type 0 where
  returns : ℤ → Kernel → Waiting
  sleeps : Chan → Kernel → Waiting

unfoldable pub reap : ℕ → Kernel → ℕ → Result Waiting
reap kend k i = do
  let p = at k.procs i
  kmem ← kfree kend k.kmem p.kstack
  kmem' ← freevm kend kmem p.pgdir
  ok (
      returns (pos p.pid) (record k {
        procs = set k.procs i (record p {
          kstack = 0;
          state = State.unused;
          pid = 0;
          parent = none;
          name = [];
          killed = false;
        });
        kmem = kmem';
      }))

-- `sleep(proc, &ptable.lock)`, up to its call of sched.
abbrev pub put_to_sleep : Kernel → ℕ → Chan → Kernel
put_to_sleep k cur c = record k {
  procs = set k.procs cur (record (at k.procs cur) { chan = c; state = State.sleeping });
}

unfoldable pub wait : ℕ → Kernel → ℕ → Result Waiting
wait kend k cur =
    let (kids, dead) = scan k.procs 0 cur in
    let idle =
      if not kids || (at k.procs cur).killed
      then ok (returns (negsuc 0) k)
      else ok (sleeps (of_proc cur) (put_to_sleep k cur (of_proc cur))) in
    elim dead [ some i ↦ reap kend k i | none ↦ idle ]

-- sleep, before and behind its call of sched. It panics without a process or a lock.
unfoldable pub sleep : Kernel → Option ℕ → Chan → Bool → Result Kernel
sleep k none c has_lock = panic
sleep k (some cur) c has_lock = if has_lock then ok (put_to_sleep k cur c) else panic

unfoldable pub sleep_end : Kernel → ℕ → Kernel
sleep_end k cur = record k { procs = set k.procs cur (record (at k.procs cur) { chan = no_chan }) }

-- yield up to its call of sched.
unfoldable pub yield : Kernel → ℕ → Kernel
yield k cur = record k {
  procs = set k.procs cur (record (at k.procs cur) { state = State.runnable });
}

-- The scheduler's round at process `i`: whether it switches to it.
unfoldable pub schedule : Kernel → ℕ → Bool × Kernel
schedule k i =
    let p = at k.procs i in
    if not (is_state p.state State.runnable)
    then (false, k)
    else (true, record k { procs = set k.procs i (record p { state = State.running }) })

abbrev pub mark_killed : Proc → Proc
mark_killed p = record p {
  killed = true;
  state = if is_state p.state State.sleeping then State.runnable else p.state;
}

-- kill's loop over the table: the first process of that pid, whatever its state.
unfoldable pub kill_first : List Proc → ℕ → Option (List Proc)
kill_first [] pid = none
kill_first (p ∷ ps) pid =
    if p.pid == pid
    then some (mark_killed p ∷ ps)
    else elim (kill_first ps pid) [ none ↦ none | some ps' ↦ some (p ∷ ps') ]

unfoldable pub kill : Kernel → ℕ → ℤ × Kernel
kill k pid = elim (kill_first k.procs pid) [
  | none ↦ (negsuc 0, k)
  | some ps ↦ (pos 0, record k { procs = ps })
]
