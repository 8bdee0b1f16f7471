-- ===== src/Sh/Tokens.antt =====
-- How far gettoken gets in the line.
use operating_systems_projec.Base.{
  ℕ, suc, ◌+◌, ◌≤◌, ◌<◌, ◌≡◌, refl, ap, subst, ◌≢◌, inl, inr, true, false, ◌||◌, List, [], ◌∷◌,
  arith, ◌==◌, Bool-cases, length, get_or, length-drop,
}
use operating_systems_projec.Sh.{
  is_in, whitespace, symbols, greater, skip_blanks, split_word, token_at, gettoken, peek,
}

pub skip_blanks-length : (s : List ℕ) → length (skip_blanks s) ≤ length s
unfolding skip_blanks
skip_blanks-length [] = omega arith
skip_blanks-length (c ∷ s) = ground (arith, skip_blanks-length s)

-- What is left begins with no blank.
skip_blanks-head : (s t : List ℕ) (c : ℕ) → skip_blanks s ≡ c ∷ t → is_in c whitespace ≡ false
unfolding skip_blanks
skip_blanks-head [] t c h = absurd (cc (h))
skip_blanks-head (d ∷ s) t c h = elim (Bool-cases (is_in d whitespace)) [
  | inl e ↦ skip_blanks-head s t c (rw e at h)
  | inr e ↦ let same : d ≡ c = cc (rw e at h) in subst (λ x. is_in x whitespace ≡ false) same e
]

split_word-length : (s : List ℕ) → length (split_word s).0 + length (split_word s).1 ≡ length s
unfolding split_word
split_word-length [] = omega arith
split_word-length (c ∷ s) = elim (Bool-cases (is_in c whitespace || is_in c symbols)) [
  | inl e ↦ rw e (omega arith)
  | inr e ↦ rw e (omega (arith, split_word-length s))
]

token_at-length :
    (c : ℕ) (s : List ℕ) → is_in c whitespace ≡ false → length (token_at c s).1 ≤ length s
unfolding token_at split_word
token_at-length c s w = elim (Bool-cases (c == greater)) [
  | inl e ↦ rw e (elim (Bool-cases (get_or s 0 0 == greater)) [
    | inl f ↦ rw f (omega (arith, length-drop 1 s))
    | inr f ↦ rw f (omega arith)
  ])
  | inr e ↦ rw e (elim (Bool-cases (is_in c symbols)) [
    | inl f ↦ rw f (omega arith)
    | inr f ↦ rw (f, w) (omega (arith, split_word-length s))
  ])
]

-- gettoken takes a character at least off a line that is not blank.
pub gettoken-shorter :
    (s t : List ℕ) (c : ℕ) → skip_blanks s ≡ c ∷ t → length (gettoken s).1 < length s
unfolding gettoken
gettoken-shorter s t c h =
    let token = token_at-length c t (skip_blanks-head s t c h) in
    let l : length (skip_blanks s) ≡ suc (length t) = ap length h in
    rw (h, gettoken)
      (omega (arith, l, token, skip_blanks-length s, skip_blanks-length (token_at c t).1))

pub gettoken-length : (s : List ℕ) → length (gettoken s).1 ≤ length s
unfolding gettoken
gettoken-length s = go (skip_blanks s) refl
  where
    go : (t : List ℕ) → skip_blanks s ≡ t → length (gettoken s).1 ≤ length s
    go [] h = rw (h, gettoken) (omega arith)
    go (c ∷ t) h = omega (arith, gettoken-shorter s t c h)

-- The tests under which the parser goes on see a character.
pub peek-shorter : (s toks : List ℕ) → peek s toks ≡ true → length (gettoken s).1 < length s
unfolding peek
peek-shorter s toks h = go (skip_blanks s) refl h
  where
    go :
        (t : List ℕ)
        → skip_blanks s ≡ t
        → elim t [ [] ↦ false | c ∷ t' ↦ is_in c toks ] ≡ true
        → length (gettoken s).1 < length s
    go [] e p = absurd (cc (p))
    go (c ∷ t) e p = gettoken-shorter s t c e

pub tok-shorter : (s : List ℕ) → (gettoken s).0.tok ≢ 0 → length (gettoken s).1 < length s
unfolding gettoken
tok-shorter s h = go (skip_blanks s) refl
  where
    go : (t : List ℕ) → skip_blanks s ≡ t → length (gettoken s).1 < length s
    go [] e = absurd (h (rw (e, gettoken) refl))
    go (c ∷ t) e = gettoken-shorter s t c e
