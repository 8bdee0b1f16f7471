-- ===== src/Proc/Wait.antt =====
-- wait: what its scan finds, and when it returns or sleeps.
use operating_systems_projec.Base.{
  >>=-eq-ok, ℕ, zero, suc, ◌+◌, ◌<◌, ◌≡◌, refl, sym, ap, subst, ◌∙◌, ◌≢◌, ◌⊎◌, inl, inr, Bool, true,
  false, ◌&&◌, ◌||◌, not, Option, none, some, List, [], ◌∷◌, arith, if◌then◌else◌, ==_refl,
  Bool-cases, length, set, ok, pos, negsuc,
}
use operating_systems_projec.Kalloc.{kfree}
use operating_systems_projec.Vm.{freevm}
use operating_systems_projec.Proc.{
  Proc, State, Kernel, at, of_proc, is_parent, is_state, put_to_sleep, scan, wait, reap, Waiting,
  returns, sleeps,
}

abbrev pub IsChild : List Proc → ℕ → ℕ → Type 0
IsChild ps cur i = (i < length ps) × ((at ps i).parent ≡ some cur)

scan-zombie :
    (ps : List Proc) (n cur i : ℕ)
    → IsChild ps cur i
    → (at ps i).state ≡ State.zombie
    → (scan ps n cur).1 ≢ none
unfolding scan
scan-zombie [] n cur i c z = absurd (omega (arith, c.0))
scan-zombie (p ∷ ps) n cur zero c z = ground (arith, c.1, z, ==_refl cur)
scan-zombie (p ∷ ps) n cur (suc i) c z =
    ground (arith, scan-zombie ps (n + 1) cur i (omega (arith, c.0), c.1) z)

scan-child : (ps : List Proc) (n cur i : ℕ) → IsChild ps cur i → (scan ps n cur).0 ≡ true
unfolding scan
scan-child [] n cur i c = absurd (omega (arith, c.0))
scan-child (p ∷ ps) n cur zero c = ground (arith, c.1, ==_refl cur)
scan-child (p ∷ ps) n cur (suc i) c =
    ground (arith, scan-child ps (n + 1) cur i (omega (arith, c.0), c.1))

scan-found :
    (ps : List Proc) (n cur m : ℕ)
    → (scan ps n cur).1 ≡ some m
    → (i : ℕ) × (m ≡ n + i) × IsChild ps cur i × ((at ps i).state ≡ State.zombie)
unfolding scan
scan-found [] n cur m e = absurd (cc)
scan-found (p ∷ ps) n cur m e =
    elim (Bool-cases (is_parent cur p.parent && is_state p.state State.zombie)) [
      | inl h ↦ (0, ground (arith, e, h), (omega arith, ground (arith, h)), ground (arith, h))
      | inr h ↦
          let (i, a, c, z) = scan-found ps (n + 1) cur m (ground (arith, e, h)) in
          (suc i, omega arith, (omega (arith, c.0), c.1), z)
    ]

scan-kids : (ps : List Proc) (n cur : ℕ) → (scan ps n cur).0 ≡ true → (i : ℕ) × IsChild ps cur i
unfolding scan
scan-kids [] n cur e = absurd (cc)
scan-kids (p ∷ ps) n cur e = elim (Bool-cases (is_parent cur p.parent)) [
  | inl h ↦ (0, (omega arith, ground (arith, h)))
  | inr h ↦
      let (i, c) = scan-kids ps (n + 1) cur (ground (arith, e, h)) in
      (suc i, (omega (arith, c.0), c.1))
]

-- A slot that wait has emptied.
abbrev pub emptied : Proc → Proc
emptied p = record p {
  kstack = 0;
  state = State.unused;
  pid = 0;
  parent = none;
  name = [];
  killed = false;
}

reap_lem :
    (kend : ℕ) (k : Kernel) (i : ℕ) (r : Waiting)
    → reap kend k i ≡ ok r
    → (k' : Kernel) × (r ≡ returns (pos (at k.procs i).pid) k')
      × (k'.procs ≡ set k.procs i (emptied (at k.procs i)))
unfolding reap
reap_lem kend k i r e =
    let (m, h, e') = >>=-eq-ok (kfree kend k.kmem (at k.procs i).kstack) _ e in
    let (m', h', e'') = >>=-eq-ok (freevm kend m (at k.procs i).pgdir) _ e' in
    (record k { procs = set k.procs i (emptied (at k.procs i)); kmem = m' }, ground arith, refl)

-- What each way out of wait says of the table.
abbrev pub Answer : Kernel → ℕ → Waiting → Type 0
Answer k cur (returns (pos pid) k') =
    (i : ℕ) × IsChild k.procs cur i
    × ((at k.procs i).state ≡ State.zombie)
    × (pid ≡ (at k.procs i).pid)
    × (k'.procs ≡ set k.procs i (emptied (at k.procs i)))
Answer k cur (returns (negsuc n) k') =
    (n ≡ 0)
    × (k' ≡ k)
    × ((i : ℕ) → IsChild k.procs cur i → (at k.procs i).state ≢ State.zombie)
    × (((i : ℕ) → ¬ IsChild k.procs cur i) ⊎ ((at k.procs cur).killed ≡ true))
Answer k cur (sleeps c k') =
    (c ≡ of_proc cur)
    × (k' ≡ put_to_sleep k cur (of_proc cur))
    × ((i : ℕ) × IsChild k.procs cur i)
    × ((i : ℕ) → IsChild k.procs cur i → (at k.procs i).state ≢ State.zombie)
    × ((at k.procs cur).killed ≡ false)

idle_lem :
    (k : Kernel) (cur : ℕ) (kids dead : Bool) (r : Waiting)
    → (scan k.procs 0 cur).0 ≡ kids
    → (at k.procs cur).killed ≡ dead
    → (scan k.procs 0 cur).1 ≡ none
    → (if not kids || dead
        then ok (returns (negsuc 0) k)
        else ok (sleeps (of_proc cur) (put_to_sleep k cur (of_proc cur))))
      ≡ ok r
    → Answer k cur r
idle_lem k cur false dead r ek ed no_dead e =
    let q : returns (negsuc 0) k ≡ r = cc in
    subst (Answer k cur) q (
      refl,
      refl,
      (λ i c z. scan-zombie k.procs 0 cur i c z no_dead),
      inl (λ i c. absurd (ground (arith, scan-child k.procs 0 cur i c, ek))),
    )
idle_lem k cur true true r ek ed no_dead e =
    let q : returns (negsuc 0) k ≡ r = cc in
    subst (Answer k cur) q (refl, refl, (λ i c z. scan-zombie k.procs 0 cur i c z no_dead), inr ed)
idle_lem k cur true false r ek ed no_dead e =
    let q : sleeps (of_proc cur) (put_to_sleep k cur (of_proc cur)) ≡ r = cc in
    subst (Answer k cur) q (
      refl,
      refl,
      scan-kids k.procs 0 cur ek,
      (λ i c z. scan-zombie k.procs 0 cur i c z no_dead),
      ed,
    )

wait_cases :
    (kend : ℕ) (k : Kernel) (cur : ℕ) (r : Waiting) (dead : Option ℕ)
    → (scan k.procs 0 cur).1 ≡ dead
    → elim dead [
      | some i ↦ reap kend k i
      | none ↦
          (if not (scan k.procs 0 cur).0 || (at k.procs cur).killed
            then ok (returns (negsuc 0) k)
            else ok (sleeps (of_proc cur) (put_to_sleep k cur (of_proc cur))))
    ]
      ≡ ok r
    → Answer k cur r
wait_cases kend k cur r none z e = idle_lem k cur _ _ r refl refl z e
wait_cases kend k cur r (some m) z e =
    let (i, a, c, dead) = scan-found k.procs 0 cur m z in
    let same : m ≡ i = omega arith in
    let (k', q, w) = reap_lem kend k m r e in
    subst (Answer k cur) (sym q) (
      i,
      c,
      dead,
      ap (λ n. (at k.procs n).pid) same,
      w ∙ ap (λ n. set k.procs n (emptied (at k.procs n))) same,
    )

-- When wait returns an identifier, it is that of a child that was a zombie, whose slot is now
-- empty; when it returns -1, the process has no child, or it is killed and no child is a zombie,
-- and nothing has changed; when it sleeps, it sleeps on the process itself, which has children,
-- none of them a zombie, and is not killed.
pub wait_lem :
    (kend : ℕ) (k : Kernel) (cur : ℕ) (r : Waiting) → wait kend k cur ≡ ok r → Answer k cur r
unfolding wait
wait_lem kend k cur r e = wait_cases kend k cur r (scan k.procs 0 cur).1 refl e
