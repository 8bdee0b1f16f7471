-- ===== src/Grep/Language.antt =====
-- matchstar and the loop of match of grep.c, as splittings of the text.
use operating_systems_projec.Base.{
  ◌⊎◌, ==→eq, ℕ, ◌≡◌, refl, sym, ap, subst, ◌↔◌, inl, inr, Bool, true, ◌||◌, List, [], ◌∷◌, ◌++◌,
  arith, ◌==◌, Bool-cases, All,
}
use operating_systems_projec.Grep.{matchstar, match_from, dot}

-- The text splits in two: `first` holds of the first part, and the second passes the test.
pub record Splits (first : List ℕ → Type 0) (here : List ℕ → Bool) (text : List ℕ) : Type 0 where
  pub before : List ℕ
  pub after : List ℕ
  pub whole : text ≡ before ++ after
  pub fits : first before
  pub found : here after ≡ true

-- A character of the expression accepts one of the text.
abbrev pub Accepts : ℕ → ℕ → Type 0
Accepts c t = (t ≡ c) ⊎ (c ≡ dot)

pub accepts : (c t : ℕ) → (t == c || c == dot) ≡ true → Accepts c t
accepts c t h = elim (Bool-cases (t == c)) [
  | inl e ↦ inl (==→eq t c e)
  | inr e ↦ inr (ground (arith, h, e))
]

pub accepted : (c t : ℕ) → Accepts c t → (t == c || c == dot) ≡ true
accepted c t (inl e) = ground (arith, e)
accepted c t (inr e) = ground (arith, e)

abbrev pub Anything : List ℕ → Type 0
Anything text = Unit

pub matchstar-Splits :
    (here : List ℕ → Bool) (c : ℕ) (text : List ℕ)
    → matchstar here c text ≡ true
    → Splits (All (Accepts c)) here text
unfolding matchstar
matchstar-Splits here c [] h = record {
  before = [];
  after = [];
  whole = refl;
  fits = tt;
  found = h;
}
matchstar-Splits here c (t ∷ text) h = elim (Bool-cases (here (t ∷ text))) [
  | inl e ↦ record { before = []; after = t ∷ text; whole = refl; fits = tt; found = e }
  | inr e ↦
      let s = matchstar-Splits here c text (ground (arith, h, e)) in
      record {
        before = t ∷ s.before;
        after = s.after;
        whole = ap (λ r. t ∷ r) s.whole;
        fits = (accepts c t (ground (arith, h, e)), s.fits);
        found = s.found;
      }
]

matchstar_here :
    (here : List ℕ → Bool) (c : ℕ) (text : List ℕ) → here text ≡ true → matchstar here c text ≡ true
unfolding matchstar
matchstar_here here c [] h = h
matchstar_here here c (t ∷ text) h = ground (arith, h)

pub Splits-matchstar :
    (here : List ℕ → Bool) (c : ℕ) (before after : List ℕ)
    → All (Accepts c) before
    → here after ≡ true
    → matchstar here c (before ++ after) ≡ true
unfolding matchstar
Splits-matchstar here c [] after a h = matchstar_here here c after h
Splits-matchstar here c (t ∷ before) after a h =
    let rest = Splits-matchstar here c before after (a.1) h in
    let ok_here = accepted c t (a.0) in
    elim (Bool-cases (here (t ∷ (before ++ after)))) [
      | inl e ↦ ground (arith, e)
      | inr e ↦ ground (arith, e, rest, ok_here)
    ]

-- matchstar succeeds exactly if, past some characters that `c` accepts, the rest of the expression
-- matches.
pub matchstar_lem :
    (here : List ℕ → Bool) (c : ℕ) (text : List ℕ)
    → (matchstar here c text ≡ true) ↔ Splits (All (Accepts c)) here text
matchstar_lem here c text = (
  matchstar-Splits here c text,
  λ s.
      subst (λ t. matchstar here c t ≡ true) (sym s.whole)
        (Splits-matchstar here c s.before s.after s.fits s.found),
)

pub match_from-Splits :
    (here : List ℕ → Bool) (text : List ℕ) → match_from here text ≡ true → Splits Anything here text
unfolding match_from
match_from-Splits here [] h = record { before = []; after = []; whole = refl; fits = tt; found = h }
match_from-Splits here (t ∷ text) h = elim (Bool-cases (here (t ∷ text))) [
  | inl e ↦ record { before = []; after = t ∷ text; whole = refl; fits = tt; found = e }
  | inr e ↦
      let s = match_from-Splits here text (ground (arith, h, e)) in
      record {
        before = t ∷ s.before;
        after = s.after;
        whole = ap (λ r. t ∷ r) s.whole;
        fits = tt;
        found = s.found;
      }
]

match_from_here :
    (here : List ℕ → Bool) (text : List ℕ) → here text ≡ true → match_from here text ≡ true
unfolding match_from
match_from_here here [] h = h
match_from_here here (t ∷ text) h = ground (arith, h)

pub Splits-match_from :
    (here : List ℕ → Bool) (before after : List ℕ)
    → here after ≡ true
    → match_from here (before ++ after) ≡ true
unfolding match_from
Splits-match_from here [] after h = match_from_here here after h
Splits-match_from here (t ∷ before) after h =
    let rest = Splits-match_from here before after h in ground (arith, rest)
