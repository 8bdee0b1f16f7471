-- ===== src/Spinlock.antt =====
-- spinlock.c: locks with interrupts off. `Cpu` is the part of struct cpu that pushcli and popcli
-- use, with the processor's interrupt flag. xchg is atomic, so each round of the spin is one step.
mod Tests
use operating_systems_projec.Base.{
  ℕ, ◌+◌, ◌-◌, ◌<◌, ◌≡◌, refl, ◌≢◌, ◌⊎◌, inl, inr, Bool, true, false, ◌&&◌, not, Option, none, some,
  arith, ◌==◌, if◌then◌else◌, Bool-cases, Result, ok, panic, ◌>>=◌,
}

pub record Cpu : Type 0 where
  pub id : ℕ
  pub ncli : ℕ
  pub intena : Bool
  pub interrupts : Bool

pub record Lock : Type 0 where
  pub locked : Bool
  pub cpu : Option ℕ

unfoldable pub initlock : Lock
initlock = record { locked = false; cpu = none }

unfoldable pub holding : Cpu → Lock → Bool
holding c lk = lk.locked && elim lk.cpu [ none ↦ false | some i ↦ i == c.id ]

unfoldable pub pushcli : Cpu → Cpu
pushcli c = record c {
  interrupts = false;
  ncli = c.ncli + 1;
  intena = if c.ncli == 0 then c.interrupts else c.intena;
}

unfoldable pub popcli : Cpu → Result Cpu
popcli c =
    if c.interrupts
    then panic
    else if c.ncli == 0
    then panic
    else ok (record c { ncli = c.ncli - 1; interrupts = (c.ncli - 1 == 0) && c.intena })

-- One round of the spin: whether the lock was free, and the lock.
unfoldable pub spin : Cpu → Lock → Bool × Lock
spin c lk = if lk.locked then (false, lk) else (true, record { locked = true; cpu = some c.id })

-- acquire up to its first round: whether it has the lock; else it spins on.
unfoldable pub acquire : Cpu → Lock → Result (Bool × Cpu × Lock)
acquire c lk =
    let c' = pushcli c in
    if holding c' lk then panic else let (got, lk') = spin c' lk in ok (got, c', lk')

unfoldable pub release : Cpu → Lock → Result (Cpu × Lock)
release c lk =
    if not (holding c lk)
    then panic
    else popcli c >>= λ c'. ok (c', record { locked = false; cpu = none })

-- Interrupts are off as long as a pushcli is open.
pub record IsSafe (c : Cpu) : Type 0 where
  pub off : 0 < c.ncli → c.interrupts ≡ false

-- acquire panics exactly if this processor has the lock; it gets the lock exactly if it is free, and
-- in any case goes on with interrupts off.
pub acquire_lem :
    (c : Cpu) (lk : Lock)
    → ((holding c lk ≡ true) × (acquire c lk ≡ panic))
      ⊎ ((holding c lk ≡ false)
          × ((c' : Cpu) × (lk' : Lock) × (acquire c lk ≡ ok (not lk.locked, c', lk'))
              × IsSafe c'
              × (c'.interrupts ≡ false)
              × (holding c' lk' ≡ not lk.locked)))
unfolding acquire spin holding pushcli
acquire_lem c lk = elim (Bool-cases (holding c lk)) [
  | inl e ↦ inl (e, ground (arith, e))
  | inr e ↦ elim (Bool-cases lk.locked) [
    | inl l ↦ inr (
      e,
      (pushcli c, lk, ground (arith, e, l), record { off = λ h. refl }, refl, ground (arith, e, l)),
    )
    | inr l ↦ inr (
      e,
      (
        pushcli c,
        record { locked = true; cpu = some c.id },
        ground (arith, e, l),
        record { off = λ h. refl },
        refl,
        ground (arith, e, l),
      ),
    )
  ]
]

-- What acquire took, release gives back, and the processor is as it was but for the saved flag:
-- interrupts are on again exactly if they were on before, under no other lock.
pub release-acquire :
    (c : Cpu) (lk : Lock)
    → IsSafe c
    → lk.locked ≡ false
    → (c' c'' : Cpu) × (lk' lk'' : Lock) × (acquire c lk ≡ ok (true, c', lk'))
      × (release c' lk' ≡ ok (c'', lk''))
      × (c''.interrupts ≡ c.interrupts)
      × (c''.ncli ≡ c.ncli)
      × (lk''.locked ≡ false)
unfolding acquire release spin holding pushcli popcli
release-acquire c lk safe free = (
  pushcli c,
  record c { ncli = c.ncli + 1 - 1; intena = (pushcli c).intena; interrupts = c.interrupts },
  record { locked = true; cpu = some c.id },
  record { locked = false; cpu = none },
  ground (arith, free),
  released,
  refl,
  omega arith,
  refl,
)
  where
    restored : ((c.ncli + 1 - 1 == 0) && (pushcli c).intena) ≡ c.interrupts
    restored = elim (Bool-cases (c.ncli == 0)) [
      | inl e ↦ ground (arith, e)
      | inr e ↦ ground (arith, e, safe.off)
    ]

    released :
        release (pushcli c) record { locked = true; cpu = some c.id }
        ≡ ok (
          record c {
            ncli = c.ncli + 1 - 1;
            intena = (pushcli c).intena;
            interrupts = c.interrupts;
          },
          record { locked = false; cpu = none },
        )
    released = ground (arith, restored)

-- A lock that another processor has stays as it is, whoever spins on it or tries to release it.
pub other_waits :
    (c d : Cpu) (lk : Lock)
    → holding c lk ≡ true
    → c.id ≢ d.id
    → ((acquire d lk ≡ ok (false, pushcli d, lk)) × (release d lk ≡ panic))
unfolding acquire release spin holding pushcli
other_waits c d lk h ne = (ground (arith, h, ne), ground (arith, h, ne))
