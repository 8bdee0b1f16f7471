-- ===== src/Args/Tests.antt =====
-- The fetching of arguments from a small memory.
use operating_systems_projec.Base.{
  ℕ, ◌+◌, ◌≤◌, ◌<◌, ◌≡◌, refl, ◌≢◌, ◌⊎◌, none, some, ◌==◌, if◌then◌else◌,
}
use operating_systems_projec.Args.{
  User, fetchint, fetchstr, find_nul, argint, IsString, fetchstr_lem,
}

-- Byte 20 is 8, all else below 40 is 0; the stack pointer is 16, so that argument 0 is the word 8.
abbrev user : User
user = record { sz = 40; mem = λ a. if a == 20 then 8 else 0; esp = 16 }

first : argint user 0 ≡ some 8
unfolding argint fetchint
first = refl

fetchstr_lem_example :
    ((fetchstr user 20 ≡ none) × ((a : ℕ) → 20 ≤ a → a < 40 → user.mem a ≢ 0))
    ⊎ ((n : ℕ) × (fetchstr user 20 ≡ some n) × (20 + n < 40) × IsString user.mem 20 n)
fetchstr_lem_example = fetchstr_lem user 20

one_byte : fetchstr user 20 ≡ some 1
unfolding fetchstr find_nul
one_byte = refl
