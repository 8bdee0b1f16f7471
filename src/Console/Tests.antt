-- ===== src/Console/Tests.antt =====
-- A line buffer around the wrap of its counters, and the theorems on it.
use operating_systems_projec.Base.{
  ℕ, ◌-◌, ◌^◌, ◌≤◌, ◌<◌, ◌≡◌, refl, true, false, some, List, [], ◌∷◌, arith, ◌==◌, if◌then◌else◌,
  set, replicate, ok,
}
use operating_systems_projec.Console.{
  Input, consoleintr, intr_char, put_char, kill_line, consoleread,
}
use operating_systems_projec.Console.Line.{IsValid, Extends, consoleintr-Extends}
use operating_systems_projec.Console.Reading.{Reads, chars_of, consoleread-Reads}
use operating_systems_projec.Console.Print.{
  word, value, digits_from, printint, directive, cprintf_from, cprintf, printint-value,
}

-- "a\n" is to be read, and "b" is being edited.
abbrev input : Input
input = record {
  buf = set (set (set (replicate 128 0) 127 97) 0 10) 1 98;
  r = 2 ^ 32 - 1;
  w = 1;
  e = 2;
}

input-IsValid : IsValid input
input-IsValid = record {
  storage = refl;
  words = (omega arith, omega arith, omega arith);
  within = omega arith;
  order = refl;
}

-- ^U, "c", return.
abbrev keys : List ℕ
keys = 21 ∷ 99 ∷ 13 ∷ []

consoleintr-Extends_example : Extends input (consoleintr input keys).0
consoleintr-Extends_example = consoleintr-Extends input keys input-IsValid

consoleread-Reads_example : Reads false input 5 (consoleread false false 5 input)
consoleread-Reads_example = consoleread-Reads false false 5 input input-IsValid

first_line : chars_of (consoleread false false 5 input) ≡ 97 ∷ 10 ∷ []
unfolding consoleread
first_line = refl

edited : (consoleintr input keys).0.w ≡ 3
unfolding consoleintr intr_char put_char kill_line
edited = refl

printint-value_example :
    (value 16 0 (printint 0xfffffff6 16 false) ≡ 0xfffffff6)
    × (0xfffffff6 < 2 ^ 31 → value 10 0 (printint 0xfffffff6 10 true) ≡ 0xfffffff6)
    × (2 ^ 31 ≤ 0xfffffff6
        → (out : List ℕ) × (printint 0xfffffff6 10 true ≡ b'-' ∷ out)
          × (value 10 0 out ≡ word - 0xfffffff6))
printint-value_example = printint-value 0xfffffff6 (omega arith)

-- `%d/%x%%` of -10 and 255.
cprintf_run :
    cprintf
      (λ a. [])
      (λ n. if n == 0 then 0xfffffff6 else 255)
      (some (b'%' ∷ b'd' ∷ b'/' ∷ b'%' ∷ b'x' ∷ b'%' ∷ b'%' ∷ []))
    ≡ ok (b'-' ∷ b'1' ∷ b'0' ∷ b'/' ∷ b'f' ∷ b'f' ∷ b'%' ∷ [])
unfolding cprintf cprintf_from directive printint digits_from
cprintf_run = refl
