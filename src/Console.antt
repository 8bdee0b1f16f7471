-- ===== src/Console.antt =====
-- console.c: the line buffer between the keyboard's interrupt and consoleread. The buffer is a ring
-- of 128 characters with three counters: r, behind which all is read; w, up to which lines are
-- complete; and e, where the line that is being edited ends. The echo on the screen is not
-- modelled. consoleread holds cons.lock until it sleeps, so that a run of it up to there is one
-- step.
pub mod Print
mod Tests
pub mod Line
pub mod Reading
use operating_systems_projec.Base.{
  ℕ, zero, suc, ◌+◌, ◌-◌, ◌*◌, ◌/◌, ◌%◌, ◌^◌, ◌≤◌, ◌<◌, min, ◌≡◌, refl, sym, ap, subst, ◌∙◌, ◌≢◌,
  ◌↔◌, ◌⊎◌, inl, inr, Bool, true, false, ◌&&◌, ◌||◌, not, Option, none, some, List, [], ◌∷◌, ◌++◌,
  append-nil, append_assoc, arith, ltb, leb, ◌==◌, if◌then◌else◌, ltb→lt, lt→ltb, leb→le, ==→eq,
  ==_refl, ==_ne, tests, Bool-cases, Option-cases, update, length, get_elem?, get_or, set, take,
  drop, replicate, length-append, length-set, get_elem?-set_self, get_elem?-set_ne, get_or-set_self,
  get_or-set_ne, length-replicate, length-take, take-append-drop, All, NotIn, Distinct, Result, ok,
  panic, ◌>>=◌, >>=-eq-ok, ℤ, pos, negsuc,
}

abbrev pub word : ℕ
word = 2 ^ 32

abbrev pub input_buf : ℕ
input_buf = 128

pub record Input : Type 0 where
  pub buf : List ℕ
  pub r : ℕ
  pub w : ℕ
  pub e : ℕ

-- The character at a count.
abbrev pub char_at : Input → ℕ → ℕ
char_at i n = get_or i.buf (n % input_buf) 0

abbrev pub newline : ℕ
newline = 10

abbrev pub end_of_file : ℕ
end_of_file = 4

abbrev pub step_back : Input → Input
step_back i = record i { e = (i.e + word - 1) % word }

-- ^U's loop, where the line has `n` characters.
unfoldable pub kill_line : ℕ → Input → Input
kill_line zero i = i
kill_line (suc n) i =
    let rest = kill_line n (step_back i) in
    if not (char_at i ((i.e + word - 1) % word) == newline) then rest else i

-- The new character goes in; a complete line, or a full buffer, is given to the readers, who are
-- woken.
unfoldable pub put_char : Input → ℕ → Input × Bool
put_char i c =
    let i' = record i { buf = set i.buf (i.e % input_buf) c; e = (i.e + 1) % word } in
    if c == newline || c == end_of_file || i'.e == (i.r + input_buf) % word
    then (record i' { w = i'.e }, true)
    else (i', false)

-- One round of consoleintr: ^P, ^U, ^H or delete, or any other character.
unfoldable pub intr_char : Input → ℕ → Input × Bool
intr_char i c =
    if c == 16
    then (i, false)
    else if c == 21
    then (kill_line ((i.e + word - i.w) % word) i, false)
    else if c == 8 || c == 127
    then ((if not (i.e == i.w) then step_back i else i), false)
    else if not (c == 0) && ltb ((i.e + word - i.r) % word) input_buf
    then put_char i (if c == 13 then newline else c)
    else (i, false)

-- consoleintr on the characters that `getc` gives before it fails, and whether it wakes the readers.
unfoldable pub consoleintr : Input → List ℕ → Input × Bool
consoleintr i [] = (i, false)
consoleintr i (c ∷ cs) =
    let (i', woken) = intr_char i c in
    let (i'', woken') = consoleintr i' cs in (i'', woken || woken')

-- consoleread returns the characters copied out, fails, or sleeps with some copied out already.
pub data Outcome : Type 0 where
  reads : List ℕ → Input → Outcome
  fails : List ℕ → Input → Outcome
  sleeps : List ℕ → Input → Outcome

abbrev pub copied : ℕ → Outcome → Outcome
copied c (reads cs i) = reads (c ∷ cs) i
copied c (fails cs i) = fails (c ∷ cs) i
copied c (sleeps cs i) = sleeps (c ∷ cs) i

-- consoleread with room for `n` characters; `started` is whether `n < target`.
unfoldable pub consoleread : Bool → Bool → ℕ → Input → Outcome
consoleread killed started zero i = reads [] i
consoleread killed started (suc n) i =
    let c = char_at i i.r in
    let i' = record i { r = (i.r + 1) % word } in
    let rest = consoleread killed true n i' in
    if i.r == i.w
    then (if killed then fails [] i else sleeps [] i)
    else if c == end_of_file
    then reads [] (if started then i else i')
    else if c == newline
    then reads (c ∷ []) i'
    else copied c rest
