-- ===== src/Proc/Pids.antt =====
-- Process identifiers: no two processes share one, and kill reaches the process it names.
use operating_systems_projec.Base.{
  ℕ, zero, suc, ◌+◌, ◌%◌, ◌^◌, subst, ◌<◌, ◌≡◌, refl, sym, ap, ◌∙◌, ◌≢◌, ◌⊎◌, inl, inr, true, none,
  some, List, [], ◌∷◌, arith, ◌==◌, if◌then◌else◌, ==→eq, Bool-cases, length, set, length-set,
  get_or-set_self, get_or-set_ne, All, pos, negsuc,
}
use native.Mathlib.Decide.{dec_lt}
use operating_systems_projec.Kalloc.{kalloc}
use operating_systems_projec.Proc.{
  Proc, State, Kernel, at, blank, allocproc, find_unused, mark_killed, kill_first, kill,
}
use operating_systems_projec.Proc.Table.{at-set, find_unused_lem}

-- The identifiers in use are distinct and have all been given out; 0 stands for none.
pub record PidsOk (k : Kernel) : Type 0 where
  pub distinct :
      (i j : ℕ) → i ≢ j → (at k.procs i).pid ≢ 0 → (at k.procs i).pid ≢ (at k.procs j).pid
  pub given : (i : ℕ) → (at k.procs i).pid < k.nextpid

-- The process that allocproc fills in, if it finds a slot `i`.
abbrev pub filled : Kernel → ℕ → Proc
filled k i = record (at k.procs i) {
  state = if (kalloc k.kmem).0 == 0 then State.unused else State.embryo;
  pid = k.nextpid;
  heap_start = 0;
  page_allocator_type = 0;
  kstack = (kalloc k.kmem).0;
}

-- allocproc fails on a full table, changing nothing; else it fills the first unused slot, and gives
-- it out unless there is no page for the kernel stack.
pub allocproc_lem :
    (k : Kernel)
    → ((allocproc k ≡ (none, k)) × All (λ (p : Proc). p.state ≢ State.unused) k.procs)
      ⊎ ((i : ℕ) × (i < length k.procs)
          × ((at k.procs i).state ≡ State.unused)
          × ((m : ℕ) → m < i → (at k.procs m).state ≢ State.unused)
          × (allocproc k ≡ (
            (if (kalloc k.kmem).0 == 0 then none else some i),
            record k {
              procs = set k.procs i (filled k i);
              nextpid = (k.nextpid + 1) % 2 ^ 32;
              kmem = (kalloc k.kmem).1;
            },
          )))
unfolding allocproc
allocproc_lem k = elim (find_unused_lem k.procs 0) [
  | inl (n, a) ↦ inl (ground (arith, n), a)
  | inr (i, s, l, z, before) ↦
      let found : find_unused k.procs 0 ≡ some i = s ∙ ap some (omega arith) in
      inr (i, l, z, before, ground (arith, found))
]

-- What allocproc leaves when it gives out slot `i`: the slot was unused, its process has the next
-- identifier, which is that of no other, and the other processes are as they were.
pub record Names (k k' : Kernel) (i : ℕ) : Type 0 where
  pub inside : i < length k.procs
  pub was_unused : (at k.procs i).state ≡ State.unused
  pub named : (at k'.procs i).pid ≡ k.nextpid
  pub fresh : (j : ℕ) → j ≢ i → (at k'.procs j).pid ≢ k.nextpid
  pub others : (j : ℕ) → j ≢ i → at k'.procs j ≡ at k.procs j

-- As long as the counter stays in a C int, allocproc keeps the identifiers distinct. A process that
-- it gives out was unused and has the next identifier, which is not 0 and which no other process
-- has, and no other process changes.
pub allocproc-PidsOk :
    (k : Kernel)
    → k.nextpid + 1 < 2 ^ 31
    → PidsOk k
    → let (o, k') = allocproc k in
      PidsOk k' × (k.nextpid ≢ 0) × ((i : ℕ) → o ≡ some i → Names k k' i)
allocproc-PidsOk k small v = elim (allocproc_lem k) [
  | inl (e, a) ↦ rw e (v, nonzero, λ i h. absurd (cc (h)))
  | inr (i, l, z, before, e) ↦ rw e (
    record {
      distinct = λ a b ne nz. ground (
        arith,
        at-set k.procs i a (filled k i) l,
        at-set k.procs i b (filled k i) l,
        v.distinct a b,
        v.given a,
        v.given b,
      );
      given = λ a. ground (arith, small, at-set k.procs i a (filled k i) l, v.given a);
    },
    nonzero,
    λ j h.
        let same : i ≡ j = slot i j h in
        subst
          (Names k (record k {
            procs = set k.procs i (filled k i);
            nextpid = (k.nextpid + 1) % 2 ^ 32;
            kmem = (kalloc k.kmem).1;
          }))
          same
          (record {
            inside = l;
            was_unused = z;
            named = ground (arith, at-set k.procs i i (filled k i) l);
            fresh = λ b ne. ground (arith, at-set k.procs i b (filled k i) l, v.given b);
            others = λ b ne. ground (arith, at-set k.procs i b (filled k i) l);
          }),
  )
]
  where
    nonzero : k.nextpid ≢ 0
    nonzero e = omega (arith, e, v.given 0)

    slot : (i j : ℕ) → (if (kalloc k.kmem).0 == 0 then none else some i) ≡ some j → i ≡ j
    slot i j h = ground (arith, h)

-- A change that keeps every identifier, and the counter, keeps them distinct.
pub same_pids-PidsOk :
    (k k' : Kernel)
    → ((i : ℕ) → (at k'.procs i).pid ≡ (at k.procs i).pid)
    → k'.nextpid ≡ k.nextpid
    → PidsOk k
    → PidsOk k'
same_pids-PidsOk k k' same next v = record {
  distinct = λ i j ne nz e. v.distinct i j ne (λ z. nz (same i ∙ z)) (sym (same i) ∙ e ∙ same j);
  given = λ i. omega (arith, same i, next, v.given i);
}

kill_first_lem :
    (ps : List Proc) (pid : ℕ)
    → ((kill_first ps pid ≡ none) × ((i : ℕ) → i < length ps → (at ps i).pid ≢ pid))
      ⊎ ((i : ℕ) × (i < length ps)
          × ((at ps i).pid ≡ pid)
          × ((m : ℕ) → m < i → (at ps m).pid ≢ pid)
          × (kill_first ps pid ≡ some (set ps i (mark_killed (at ps i)))))
unfolding kill_first
kill_first_lem [] pid = inl (refl, λ i h. absurd (omega arith))
kill_first_lem (p ∷ ps) pid = elim (Bool-cases (p.pid == pid)) [
  | inl e ↦ inr (0, omega arith, ==→eq p.pid pid e, (λ m h. absurd (omega arith)), rw e refl)
  | inr e ↦ elim (kill_first_lem ps pid) [
    | inl (n, a) ↦ inl (rw (e, n) refl, first_no p ps (ground arith) a)
    | inr (i, l, q, before, s) ↦
        inr (suc i, omega arith, q, first_no_below i p ps (ground arith) before, rw (e, s) refl)
  ]
]
  where
    first_no :
        (p : Proc) (ps : List Proc)
        → p.pid ≢ pid
        → ((i : ℕ) → i < length ps → (at ps i).pid ≢ pid)
        → (i : ℕ) → i < length (p ∷ ps)
        → (at (p ∷ ps) i).pid ≢ pid
    first_no p ps h a zero l = h
    first_no p ps h a (suc i) l = a i (omega arith)

    first_no_below :
        (j : ℕ) (p : Proc) (ps : List Proc)
        → p.pid ≢ pid
        → ((m : ℕ) → m < j → (at ps m).pid ≢ pid)
        → (m : ℕ) → m < suc j
        → (at (p ∷ ps) m).pid ≢ pid
    first_no_below j p ps h a zero l = h
    first_no_below j p ps h a (suc i) l = a i (omega arith)

-- kill of an identifier that no process has fails and changes nothing.
pub kill-unknown :
    (k : Kernel) (pid : ℕ)
    → ((i : ℕ) → i < length k.procs → (at k.procs i).pid ≢ pid)
    → kill k pid ≡ (negsuc 0, k)
unfolding kill
kill-unknown k pid h = elim (kill_first_lem k.procs pid) [
  | inl (n, a) ↦ ground (arith, n)
  | inr (j, lj, e, before, s) ↦ absurd (h j lj e)
]

All-at :
    (ps : List Proc) (i : ℕ)
    → i < length ps
    → All (λ (p : Proc). p.state ≢ State.unused) ps
    → (at ps i).state ≢ State.unused
All-at [] i l h = absurd (omega arith)
All-at (p ∷ ps) zero l h = h.0
All-at (p ∷ ps) (suc i) l h = All-at ps i (omega arith) h.1

allocproc_first :
    (k : Kernel) (i : ℕ)
    → i < length k.procs
    → (at k.procs i).state ≡ State.unused
    → ((m : ℕ) → m < i → (at k.procs m).state ≢ State.unused)
    → (kalloc k.kmem).0 ≢ 0
    → ((allocproc k).0 ≡ some i) × ((at (allocproc k).1.procs i).killed ≡ (at k.procs i).killed)
allocproc_first k i l u first page = elim (allocproc_lem k) [
  | inl (e, a) ↦ absurd (All-at k.procs i l a u)
  | inr (j, lj, uj, before, e) ↦ elim (dec_lt i j) [
    | yes lt ↦ absurd (before i lt u)
    | no ge ↦ elim (dec_lt j i) [
      | yes lt ↦ absurd (first j lt uj)
      | no ge' ↦
          let same : j ≡ i = omega arith in
          rw (e, same)
            (
              ground (arith, page),
              ap (λ (p : Proc). p.killed) (get_or-set_self k.procs i (filled k i) blank l),
            )
    ]
  ]
]

kill_zero :
    (k : Kernel) (i : ℕ)
    → i < length k.procs
    → (at k.procs i).pid ≡ 0
    → ((m : ℕ) → m < i → (at k.procs m).pid ≢ 0)
    → kill k 0 ≡ (pos 0, record k { procs = set k.procs i (mark_killed (at k.procs i)) })
unfolding kill
kill_zero k i l z first = elim (kill_first_lem k.procs 0) [
  | inl (n, a) ↦ absurd (a i l z)
  | inr (j, lj, e, before, s) ↦ elim (dec_lt i j) [
    | yes lt ↦ absurd (before i lt z)
    | no ge ↦ elim (dec_lt j i) [
      | yes lt ↦ absurd (first j lt e)
      | no ge' ↦ let same : j ≡ i = omega arith in ground (arith, s, same)
    ]
  ]
]

-- kill(0) marks the first slot without an identifier, a free one: if that is also the first free
-- slot, the next process that allocproc sets up there is killed before it has run.
pub kill_zero-allocproc :
    (k : Kernel) (i : ℕ)
    → i < length k.procs
    → (at k.procs i).state ≡ State.unused
    → (at k.procs i).pid ≡ 0
    → ((m : ℕ) → m < i → (at k.procs m).pid ≢ 0)
    → ((m : ℕ) → m < i → (at k.procs m).state ≢ State.unused)
    → (kalloc k.kmem).0 ≢ 0
    → ((kill k 0).0 ≡ pos 0)
      × ((allocproc (kill k 0).1).0 ≡ some i)
      × ((at (allocproc (kill k 0).1).1.procs i).killed ≡ true)
kill_zero-allocproc k i l u z first_pid first_free page =
    rw (kill_zero k i l z first_pid) (refl, a.0, a.1 ∙ ap (λ (p : Proc). p.killed) self)
  where
    marked : Kernel
    marked = record k { procs = set k.procs i (mark_killed (at k.procs i)) }

    self : at marked.procs i ≡ mark_killed (at k.procs i)
    self = get_or-set_self k.procs i (mark_killed (at k.procs i)) blank l

    a :
        ((allocproc marked).0 ≡ some i)
        × ((at (allocproc marked).1.procs i).killed ≡ (at marked.procs i).killed)
    a =
        allocproc_first marked i (omega (arith, length-set k.procs i (mark_killed (at k.procs i))))
          (ground (arith, self, u))
          (λ m lt q. first_free m lt (
            ap (λ (p : Proc). p.state)
              (sym (get_or-set_ne k.procs i m (mark_killed (at k.procs i)) blank (omega arith)))
            ∙ q))
          page
