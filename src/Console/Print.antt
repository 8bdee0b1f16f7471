-- ===== src/Console/Print.antt =====
-- printint and cprintf of console.c: the characters that they give to consputc, in order. A word is
-- its 32 bits; the arguments of cprintf are the words behind its format, and `str` has the string
-- at a pointer.
use operating_systems_projec.Base.{
  ℕ, zero, suc, ◌+◌, ◌-◌, ◌*◌, ◌/◌, ◌%◌, ◌^◌, ◌≤◌, ◌<◌, ◌≡◌, refl, ap, ◌∙◌, inl, inr, Bool, true,
  false, ◌&&◌, ◌||◌, Option, none, some, List, [], ◌∷◌, ◌++◌, arith, ltb, leb, ◌==◌, if◌then◌else◌,
  Bool-cases, Result, ok, panic,
}

abbrev pub word : ℕ
word = 2 ^ 32

-- "0123456789abcdef"
abbrev pub digit : ℕ → ℕ
digit d = if ltb d 10 then 48 + d else 87 + d

-- The loop of printint, in which buf has room for 16 rounds; the last digit first.
unfoldable pub digits_from : ℕ → ℕ → ℕ → List ℕ → List ℕ
digits_from zero x base out = out
digits_from (suc f) x base out =
    let out' = digit (x % base) ∷ out in
    let rest = digits_from f (x / base) base out' in if x / base == 0 then out' else rest

unfoldable pub printint : ℕ → ℕ → Bool → List ℕ
printint xx base sgn =
    if sgn && leb (2 ^ 31) xx
    then b'-' ∷ digits_from 16 (word - xx) base []
    else digits_from 16 xx base []

-- The characters for the letter `c` behind a `%`, with the next argument, and whether it takes it.
unfoldable pub directive : (ℕ → List ℕ) → ℕ → ℕ → List ℕ × Bool
directive str c arg =
    if c == b'd'
    then (printint arg 10 true, true)
    else if c == b'x' || c == b'p'
    then (printint arg 16 false, true)
    else if c == b's'
    then (if arg == 0 then b'(' ∷ b'n' ∷ b'u' ∷ b'l' ∷ b'l' ∷ b')' ∷ [] else str arg, true)
    else if c == b'%'
    then (b'%' ∷ [], false)
    else (b'%' ∷ c ∷ [], false)

-- The loop over the format, with `n` arguments behind; a `%` at the end prints nothing.
unfoldable pub cprintf_from : (ℕ → List ℕ) → (ℕ → ℕ) → List ℕ → ℕ → List ℕ
cprintf_from str args [] n = []
cprintf_from str args (c ∷ []) n = if c == b'%' then [] else c ∷ []
cprintf_from str args (c ∷ d ∷ fmt) n =
    let (out, takes) = directive str d (args n) in
    let plain = c ∷ cprintf_from str args (d ∷ fmt) n in
    let special = out ++ cprintf_from str args fmt (if takes then n + 1 else n) in
    if c == b'%' then special else plain

-- cprintf panics without a format.
unfoldable pub cprintf : (ℕ → List ℕ) → (ℕ → ℕ) → Option (List ℕ) → Result (List ℕ)
cprintf str args none = panic
cprintf str args (some fmt) = ok (cprintf_from str args fmt 0)

abbrev pub digit_value : ℕ → ℕ
digit_value c = if ltb c 58 then c - 48 else c - 87

-- The number that the digits `out` make behind digits of the value `acc`.
unfoldable pub value : ℕ → ℕ → List ℕ → ℕ
value base acc [] = acc
value base acc (c ∷ out) = value base (acc * base + digit_value c) out

abbrev pow : ℕ → ℕ → ℕ
pow base zero = 1
pow base (suc f) = base * pow base f

digit_value-digit : (d : ℕ) → d < 16 → digit_value (digit d) ≡ d
digit_value-digit d h = ground arith

digits_from-ten :
    (f x : ℕ) (out : List ℕ) → x < pow 10 f → value 10 0 (digits_from f x 10 out) ≡ value 10 x out
unfolding digits_from value
digits_from-ten zero x out h = ap (λ a. value 10 a out) (omega arith)
digits_from-ten (suc f) x out h =
    let v = digit_value-digit (x % 10) (omega arith) in
    elim (Bool-cases (x / 10 == 0)) [
      | inl e ↦ rw e (ap (λ a. value 10 a out) (ground (arith, e, v)))
      | inr e ↦ rw e (
          digits_from-ten f (x / 10) (digit (x % 10) ∷ out) (omega arith)
          ∙ ap (λ a. value 10 a out) (omega (arith, v)))
    ]

digits_from-sixteen :
    (f x : ℕ) (out : List ℕ) → x < pow 16 f → value 16 0 (digits_from f x 16 out) ≡ value 16 x out
unfolding digits_from value
digits_from-sixteen zero x out h = ap (λ a. value 16 a out) (omega arith)
digits_from-sixteen (suc f) x out h =
    let v = digit_value-digit (x % 16) (omega arith) in
    elim (Bool-cases (x / 16 == 0)) [
      | inl e ↦ rw e (ap (λ a. value 16 a out) (ground (arith, e, v)))
      | inr e ↦ rw e (
          digits_from-sixteen f (x / 16) (digit (x % 16) ∷ out) (omega arith)
          ∙ ap (λ a. value 16 a out) (omega (arith, v)))
    ]

-- For every word, what printint prints in base 16 reads back as the word; in base 10 with a sign it
-- reads back as the word, if its top bit is off, and else it is a minus before what reads back as
-- the word's distance to 2 ^ 32: the room for digits is enough in all of them.
pub printint-value :
    (xx : ℕ)
    → xx < word
    → (value 16 0 (printint xx 16 false) ≡ xx)
      × (xx < 2 ^ 31 → value 10 0 (printint xx 10 true) ≡ xx)
      × (2 ^ 31 ≤ xx
          → (out : List ℕ) × (printint xx 10 true ≡ b'-' ∷ out) × (value 10 0 out ≡ word - xx))
unfolding printint value
printint-value xx h = (
  digits_from-sixteen 16 xx [] (omega arith),
  λ l.
      let t : leb (2 ^ 31) xx ≡ false = ground arith in
      rw t (digits_from-ten 16 xx [] (omega arith)),
  λ l.
      let t : leb (2 ^ 31) xx ≡ true = ground arith in
      (
        digits_from 16 (word - xx) 10 [],
        rw t refl,
        digits_from-ten 16 (word - xx) [] (omega arith),
      ),
)
