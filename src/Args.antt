-- ===== src/Args.antt =====
-- syscall.c: how a system call fetches its arguments from the memory of the process. An `int` is its
-- 32 bits as an unsigned word. The process's own addresses are those below its size.
mod Tests
use operating_systems_projec.Base.{
  ℕ, zero, suc, ◌+◌, ◌-◌, ◌*◌, ◌%◌, ◌^◌, ◌≤◌, ◌<◌, ◌≡◌, refl, ap, ◌∙◌, ◌≢◌, ◌⊎◌, inl, inr, false,
  ◌&&◌, ◌||◌, Option, none, some, arith, ltb, leb, ◌==◌, if◌then◌else◌, leb→le, ==→eq, Bool-cases,
}
use operating_systems_projec.Strings.{Memory}

abbrev pub word : ℕ
word = 2 ^ 32

-- What the calls read of the current process: its size, memory and stack pointer.
pub record User : Type 0 where
  pub sz : ℕ
  pub mem : Memory
  pub esp : ℕ

abbrev pub load : Memory → ℕ → ℕ
load m a = m a + 256 * m (a + 1) + 65536 * m (a + 2) + 16777216 * m (a + 3)

unfoldable pub fetchint : User → ℕ → Option ℕ
fetchint u addr =
    if leb u.sz addr || ltb u.sz ((addr + 4) % word) then none else some (load u.mem addr)

-- fetchstr's loop from `s` on, with `k` bytes to the end; `n` bytes are behind.
unfoldable pub find_nul : Memory → ℕ → ℕ → ℕ → Option ℕ
find_nul m zero s n = none
find_nul m (suc k) s n = if m s == 0 then some n else find_nul m k (s + 1) (n + 1)

-- The length of the string at `addr`.
unfoldable pub fetchstr : User → ℕ → Option ℕ
fetchstr u addr = if leb u.sz addr then none else find_nul u.mem (u.sz - addr) addr 0

unfoldable pub argint : User → ℕ → Option ℕ
argint u n = fetchint u ((u.esp + 4 + 4 * n) % word)

-- The pointer, if the block of `size` bytes passes the check.
unfoldable pub argptr : User → ℕ → ℕ → Option ℕ
argptr u n size = elim (argint u n) [
  | none ↦ none
  | some i ↦ if leb u.sz i || ltb u.sz ((i + size) % word) then none else some i
]

-- The pointer and the length of its string.
unfoldable pub argstr : User → ℕ → Option (ℕ × ℕ)
argstr u n = elim (argint u n) [
  | none ↦ none
  | some addr ↦ elim (fetchstr u addr) [ none ↦ none | some len ↦ some (addr, len) ]
]

-- fetchint reads exactly the words that lie in the process, whose size is at most the kernel's base.
pub fetchint_lem :
    (u : User) (addr : ℕ)
    → u.sz ≤ 2 ^ 31
    → addr < word
    → fetchint u addr ≡ (if leb (addr + 4) u.sz then some (load u.mem addr) else none)
unfolding fetchint
fetchint_lem u addr small w = ground arith

-- argptr with a size that is not negative accepts exactly the blocks that begin and end in the
-- process, whose size is at most the kernel's base.
pub argptr_lem :
    (u : User) (n size i : ℕ)
    → u.sz ≤ 2 ^ 31
    → size < 2 ^ 31
    → i < word
    → argint u n ≡ some i
    → argptr u n size ≡ (if ltb i u.sz && leb (i + size) u.sz then some i else none)
unfolding argptr
argptr_lem u n size i small s w e = ground (arith, e)

-- With a negative size argptr accepts a pointer to any byte of the process from `- size` on.
pub argptr-negative :
    (u : User) (n i k : ℕ)
    → i < u.sz
    → u.sz ≤ 2 ^ 31
    → k ≤ i
    → 0 < k
    → argint u n ≡ some i
    → argptr u n (word - k) ≡ some i
unfolding argptr
argptr-negative u n i k lt small le p e =
    let wrap : (i + (word - k)) % word ≡ i - k = omega arith in ground (arith, e, wrap)

-- A string of `n` bytes stands at `s`.
abbrev pub IsString : Memory → ℕ → ℕ → Type 0
IsString m s n = (m (s + n) ≡ 0) × ((i : ℕ) → i < n → m (s + i) ≢ 0)

find_nul_lem :
    (m : Memory) (k s n : ℕ)
    → ((find_nul m k s n ≡ none) × ((i : ℕ) → i < k → m (s + i) ≢ 0))
      ⊎ ((l : ℕ) × (find_nul m k s n ≡ some (n + l)) × (l < k) × IsString m s l)
unfolding find_nul
find_nul_lem m zero s n = inl (refl, λ i. λ h. absurd (omega arith))
find_nul_lem m (suc k) s n = elim (Bool-cases (m s == 0)) [
  | inl e ↦ inr (
    0,
    ground (arith, e),
    omega arith,
    (ap m (omega arith) ∙ ==→eq (m s) 0 e, λ i. λ h. absurd (omega arith)),
  )
  | inr e ↦ elim (find_nul_lem m k (s + 1) (n + 1)) [
    | inl (f, none_nul) ↦ inl (ground (arith, e, f), behind k none_nul e)
    | inr (l, f, lt, (nul, before)) ↦
        inr
          (suc l, ground (arith, e, f), omega arith, (ap m (omega arith) ∙ nul, behind l before e))
  ]
]
  where
    behind :
        (j : ℕ)
        → ((i : ℕ) → i < j → m (s + 1 + i) ≢ 0)
        → (m s == 0) ≡ false
        → (i : ℕ) → i < suc j
        → m (s + i) ≢ 0
    behind j before e zero h = λ z. let w : m s ≡ 0 = ap m (omega arith) ∙ z in ground (arith, e, w)
    behind j before e (suc i) h = λ z. before i (omega arith) (ap m (omega arith) ∙ z)

-- fetchstr gives the length of the string at the address, if it ends in the process; it fails
-- exactly if no byte from there to the end of the process is 0.
pub fetchstr_lem :
    (u : User) (addr : ℕ)
    → ((fetchstr u addr ≡ none) × ((a : ℕ) → addr ≤ a → a < u.sz → u.mem a ≢ 0))
      ⊎ ((n : ℕ) × (fetchstr u addr ≡ some n) × (addr + n < u.sz) × IsString u.mem addr n)
unfolding fetchstr
fetchstr_lem u addr = elim (Bool-cases (leb u.sz addr)) [
  | inl e ↦ inl (ground (arith, e), λ a. λ lo. λ hi. absurd (omega (arith, leb→le u.sz addr e)))
  | inr e ↦ elim (find_nul_lem u.mem (u.sz - addr) addr 0) [
    | inl (f, none_nul) ↦ inl (
      ground (arith, e, f),
      λ a. λ lo. λ hi. λ z. none_nul (a - addr) (omega arith) (ap u.mem (omega arith) ∙ z),
    )
    | inr (l, f, lt, str) ↦ inr (l, ground (arith, e, f), omega arith, str)
  ]
]
