-- ===== src/Sysproc.antt =====
-- sysproc.c: the system calls on processes, which fetch their argument by argint. shmget and shmdel
-- only print that there is no shared memory.
use operating_systems_projec.Base.{
  ℕ, ◌+◌, ◌-◌, ◌%◌, ◌^◌, Bool, none, some, ltb, if◌then◌else◌, ℤ, pos, negsuc,
}
use operating_systems_projec.Args.{User, argint}
use operating_systems_projec.Proc.{Kernel, kill, at}

abbrev pub word : ℕ
word = 2 ^ 32

unfoldable pub sys_kill : User → Kernel → ℤ × Kernel
sys_kill u k = elim (argint u 0) [ none ↦ (negsuc 0, k) | some pid ↦ kill k pid ]

unfoldable pub sys_getpid : Kernel → ℕ → ℕ
sys_getpid k cur = (at k.procs cur).pid

unfoldable pub sys_shmget : User → ℤ
sys_shmget u = elim (argint u 0) [ none ↦ negsuc 0 | some shm_id ↦ pos 0 ]

unfoldable pub sys_shmdel : User → ℤ
sys_shmdel u = elim (argint u 0) [ none ↦ negsuc 0 | some shm_id ↦ pos 0 ]

-- sys_sleep sleeps on `ticks`, or returns.
pub data Nap : Type 0 where
  returns : ℤ → Nap
  sleeps : Nap

-- One round of sys_sleep's loop; the difference and the count are compared unsigned.
unfoldable pub sleep_round : Bool → ℕ → ℕ → ℕ → Nap
sleep_round killed ticks ticks0 n =
    if ltb ((ticks + word - ticks0) % word) n
    then (if killed then returns (negsuc 0) else sleeps)
    else returns (pos 0)

-- sys_sleep up to its first sleep; woken at a tick, it goes on with a round from the same ticks0.
unfoldable pub sys_sleep : User → Bool → ℕ → Nap
sys_sleep u killed ticks = elim (argint u 0) [
  | none ↦ returns (negsuc 0)
  | some n ↦ sleep_round killed ticks ticks n
]

unfoldable pub sys_uptime : ℕ → ℕ
sys_uptime ticks = ticks
