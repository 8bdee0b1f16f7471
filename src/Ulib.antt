-- ===== src/Ulib.antt =====
-- ulib.c and printf.c: routines of the user programs on strings, which are lists of characters
-- without their terminating 0, and the printing of an int, given by its 32 bits.
pub mod Heap
mod Tests
use operating_systems_projec.Base.{
  ℕ, zero, suc, ◌+◌, ◌-◌, ◌*◌, ◌/◌, ◌%◌, ◌^◌, ◌≤◌, ◌<◌, min, ◌≡◌, refl, sym, ap, subst, ◌∙◌, ◌≢◌,
  ◌↔◌, ◌⊎◌, inl, inr, Bool, true, false, ◌&&◌, ◌||◌, not, Option, none, some, List, [], ◌∷◌, ◌++◌,
  append-nil, append_assoc, arith, ltb, leb, ◌==◌, if◌then◌else◌, ltb→lt, lt→ltb, leb→le, ==→eq,
  ==_refl, ==_ne, tests, Bool-cases, Option-cases, update, length, get_elem?, get_or, set, take,
  drop, replicate, length-append, length-set, get_elem?-set_self, get_elem?-set_ne, get_or-set_self,
  get_or-set_ne, length-replicate, length-take, take-append-drop, All, NotIn, Distinct, Result, ok,
  panic, ◌>>=◌, >>=-eq-ok, ℤ, pos, negsuc,
}

abbrev pub word : ℕ
word = 2 ^ 32

unfoldable pub strcmp : List ℕ → List ℕ → ℤ
strcmp [] [] = pos 0
strcmp [] (d ∷ q) = negsuc (d - 1)
strcmp (c ∷ p) [] = pos c
strcmp (c ∷ p) (d ∷ q) =
    if c == d then strcmp p q else if ltb c d then negsuc (d - c - 1) else pos (c - d)

-- The string from the first `c` on, if there is one.
unfoldable pub strchr : List ℕ → ℕ → Option (List ℕ)
strchr [] c = none
strchr (d ∷ s) c = if d == c then some (d ∷ s) else strchr s c

-- The loop of atoi, behind the digits that gave `n`.
unfoldable pub atoi_from : ℕ → List ℕ → ℕ
atoi_from n [] = n
atoi_from n (c ∷ s) =
    let rest = atoi_from ((n * 10 + c + word - 48) % word) s in
    if leb 48 c && leb c 57 then rest else n

unfoldable pub atoi : List ℕ → ℕ
atoi s = atoi_from 0 s

-- "0123456789ABCDEF"
abbrev pub digit : ℕ → ℕ
digit d = if ltb d 10 then 48 + d else 55 + d

-- The loop of printint, of 16 rounds at most for want of space in its buffer; the last digit first.
unfoldable pub digits_from : ℕ → ℕ → ℕ → List ℕ → List ℕ
digits_from zero x base out = out
digits_from (suc f) x base out =
    let out' = digit (x % base) ∷ out in
    let rest = digits_from f (x / base) base out' in if x / base == 0 then out' else rest

-- The characters that printint prints.
unfoldable pub printint : ℕ → ℕ → Bool → List ℕ
printint xx base sgn =
    if sgn && leb (2 ^ 31) xx
    then 45 ∷ digits_from 16 (word - xx) base []
    else digits_from 16 xx base []
