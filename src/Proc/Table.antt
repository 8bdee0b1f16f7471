-- ===== src/Proc/Table.antt =====
-- Lemmas on the process table: what a write, a wakeup and a search leave at each index.
use operating_systems_projec.Base.{
  ℕ, zero, suc, ◌+◌, ◌<◌, ◌≡◌, refl, ap, subst, ◌≢◌, ◌⊎◌, inl, inr, true, none, some, List, [], ◌∷◌,
  arith, ◌==◌, if◌then◌else◌, ==→eq, ==_refl, Bool-cases, length, set, get_or-set_self,
  get_or-set_ne, All,
}
use operating_systems_projec.Proc.{
  Proc, State, Chan, at, blank, woken, wakeup1, find_unused, is_state, no_chan, same_chan,
}

pub at-set :
    (ps : List Proc) (i j : ℕ) (p : Proc)
    → i < length ps
    → at (set ps i p) j ≡ (if i == j then p else at ps j)
at-set ps i j p h = elim (Bool-cases (i == j)) [
  | inl e ↦ rw e (subst (λ n. at (set ps i p) n ≡ p) (==→eq i j e) (get_or-set_self ps i p blank h))
  | inr e ↦ rw e (get_or-set_ne ps i j p blank (ground arith))
]

-- A field that a write keeps is kept at every index, in range or not.
pub field-set {ℓ} :
    {A : Type ℓ} (f : Proc → A) (ps : List Proc) (i j : ℕ) (p : Proc)
    → f p ≡ f (at ps i)
    → f (at (set ps i p) j) ≡ f (at ps j)
field-set f [] i j p h = refl
field-set f (q ∷ ps) zero zero p h = h
field-set f (q ∷ ps) zero (suc j) p h = refl
field-set f (q ∷ ps) (suc i) zero p h = refl
field-set f (q ∷ ps) (suc i) (suc j) p h = field-set f ps i j p h

pub at-wakeup1 : (ps : List Proc) (c : Chan) (i : ℕ) → at (wakeup1 ps c) i ≡ woken c (at ps i)
unfolding wakeup1
at-wakeup1 [] c i = refl
at-wakeup1 (p ∷ ps) c zero = refl
at-wakeup1 (p ∷ ps) c (suc i) = at-wakeup1 ps c i

pub length-wakeup1 : (ps : List Proc) (c : Chan) → length (wakeup1 ps c) ≡ length ps
unfolding wakeup1
length-wakeup1 [] c = refl
length-wakeup1 (p ∷ ps) c = ap suc (length-wakeup1 ps c)

pub same_chan_refl : (c : Chan) → same_chan c c ≡ true
same_chan_refl no_chan = refl
same_chan_refl (Chan.of_proc i) = ==_refl i
same_chan_refl (Chan.of_addr i) = ==_refl i

pub is_state-eq : (s t : State) → is_state s t ≡ true → s ≡ t
is_state-eq s t h = ground arith

-- The search of allocproc finds the first unused process, or there is none.
pub find_unused_lem :
    (ps : List Proc) (i : ℕ)
    → ((find_unused ps i ≡ none) × All (λ (p : Proc). p.state ≢ State.unused) ps)
      ⊎ ((j : ℕ) × (find_unused ps i ≡ some (i + j))
          × (j < length ps)
          × ((at ps j).state ≡ State.unused)
          × ((m : ℕ) → m < j → (at ps m).state ≢ State.unused))
unfolding find_unused
find_unused_lem [] i = inl (refl, tt)
find_unused_lem (p ∷ ps) i = elim (Bool-cases (is_state p.state State.unused)) [
  | inl e ↦
      inr (0, rw e (ap some (omega arith)), omega arith, ground arith, λ m h. absurd (omega arith))
  | inr e ↦ elim (find_unused_lem ps (i + 1)) [
    | inl (n, a) ↦ inl (rw e n, (λ q. ground (arith, q), a))
    | inr (j, s, l, z, before) ↦ inr (
      suc j,
      rw (e, s) (ap some (omega arith)),
      omega arith,
      z,
      earlier j p ps (λ q. ground (arith, q)) before,
    )
  ]
]
  where
    earlier :
        (j : ℕ) (p : Proc) (ps : List Proc)
        → p.state ≢ State.unused
        → ((m : ℕ) → m < j → (at ps m).state ≢ State.unused)
        → (m : ℕ) → m < suc j
        → (at (p ∷ ps) m).state ≢ State.unused
    earlier j p ps h before zero lt = h
    earlier j p ps h before (suc m) lt = before m (omega arith)
