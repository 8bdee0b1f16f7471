-- ===== src/Spinlock/Tests.antt =====
-- A processor and a lock.
use operating_systems_projec.Base.{true, false, none, arith}
use operating_systems_projec.Spinlock.{Cpu, Lock, IsSafe}

abbrev boot : Cpu
boot = record { id = 0; ncli = 0; intena = false; interrupts = true }

abbrev free : Lock
free = record { locked = false; cpu = none }

boot-IsSafe : IsSafe boot
boot-IsSafe = record { off = λ h. absurd (omega arith) }
