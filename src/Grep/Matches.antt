-- ===== src/Grep/Matches.antt =====
-- match and matchhere of grep.c, beside what an expression means.
use operating_systems_projec.Base.{
  ℕ, ◌≡◌, refl, sym, ap, subst, ◌≢◌, ◌↔◌, inl, inr, Bool, true, List, [], ◌∷◌, ◌++◌, arith, ◌==◌,
  ==→eq, Bool-cases, All,
}
use operating_systems_projec.Grep.{
  matchstar, matchhere, match_from, search_text, caret, star, dollar, one, is_end,
}
use operating_systems_projec.Grep.Language.{
  Accepts, accepts, accepted, matchstar-Splits, Splits-matchstar, match_from-Splits,
  Splits-match_from,
}

abbrev pub NotStar : List ℕ → Type 0
NotStar [] = Unit
NotStar (d ∷ re) = d ≢ star

-- What it means that an expression without ^ matches at the start of a text: `$` at its end matches
-- the end of the text, `c*` any number of characters that `c` accepts, and any other `c` one of
-- them.
pub data Here : List ℕ → List ℕ → Type 0 where
  nothing_left : (text : List ℕ) → Here [] text
  at_end : Here (dollar ∷ []) []
  one_character :
      (c t : ℕ) (re text : List ℕ)
      → NotStar re
      → (re ≡ [] → c ≢ dollar)
      → Accepts c t
      → Here re text
      → Here (c ∷ re) (t ∷ text)
  any_number :
      (c : ℕ) (re text before after : List ℕ)
      → text ≡ before ++ after
      → All (Accepts c) before
      → Here re after
      → Here (c ∷ star ∷ re) text

-- An expression matches a text: at its start if it begins with ^, and else at any place.
pub data Finds : List ℕ → List ℕ → Type 0 where
  anchored : (re text : List ℕ) → Here re text → Finds (caret ∷ re) text
  somewhere :
      (re text before after : List ℕ)
      → ((rest : List ℕ) → re ≢ caret ∷ rest)
      → text ≡ before ++ after
      → Here re after
      → Finds re text

one-Here :
    (here : List ℕ → Bool) (c : ℕ) (re text : List ℕ)
    → NotStar re
    → (re ≡ [] → c ≢ dollar)
    → ((rest : List ℕ) → here rest ≡ true → Here re rest)
    → one here c text ≡ true
    → Here (c ∷ re) text
one-Here here c re [] n d h e = absurd (cc (e))
one-Here here c re (t ∷ text) n d h e =
    one_character c t re text n d (accepts c t (ground (arith, e))) (h text (ground (arith, e)))

matchhere-Here : (re text : List ℕ) → matchhere re text ≡ true → Here re text
unfolding matchhere
matchhere-Here [] text h = nothing_left text
matchhere-Here (c ∷ []) text h = elim (Bool-cases (c == dollar)) [
  | inl e ↦
      subst (λ x. Here (x ∷ []) text) (sym (==→eq c dollar e)) (ended text (ground (arith, h, e)))
  | inr e ↦
      one-Here (λ t. true) c [] text tt (λ z. ground (arith, e)) (λ rest x. nothing_left rest)
        (ground (arith, h, e))
]
  where
    ended : (t : List ℕ) → is_end t ≡ true → Here (dollar ∷ []) t
    ended [] x = at_end
    ended (t ∷ ts) x = absurd (cc (x))
matchhere-Here (c ∷ d ∷ re) text h = elim (Bool-cases (d == star)) [
  | inl e ↦
      let s = matchstar-Splits (matchhere re) c text (ground (arith, h, e)) in
      subst (λ x. Here (c ∷ x ∷ re) text) (sym (==→eq d star e))
        (any_number c re text s.before s.after s.whole s.fits (matchhere-Here re s.after s.found))
  | inr e ↦
      one-Here (matchhere (d ∷ re)) c (d ∷ re) text (ground (arith, e)) (λ z. absurd (cc (z)))
        (λ rest x. matchhere-Here (d ∷ re) rest x) (ground (arith, h, e))
]

Here-matchhere : (re text : List ℕ) → Here re text → matchhere re text ≡ true
unfolding matchhere
Here-matchhere _ _ (nothing_left text) = refl
Here-matchhere _ _ at_end = refl
Here-matchhere _ _ (one_character c t [] text n d a h) =
    let x = accepted c t a in let y = d refl in ground (arith, x, y)
Here-matchhere _ _ (one_character c t (e ∷ re) text n d a h) =
    let x = accepted c t a in let ih = Here-matchhere (e ∷ re) text h in ground (arith, x, n, ih)
Here-matchhere _ _ (any_number c re text before after w a h) =
    subst (λ x. matchstar (matchhere re) c x ≡ true) (sym w)
      (Splits-matchstar (matchhere re) c before after a (Here-matchhere re after h))

search-Finds :
    (re text : List ℕ)
    → ((rest : List ℕ) → re ≢ caret ∷ rest)
    → match_from (matchhere re) text ≡ true
    → Finds re text
search-Finds re text n h =
    let s = match_from-Splits (matchhere re) text h in
    somewhere re text s.before s.after n s.whole (matchhere-Here re s.after s.found)

Finds-search :
    (re text before after : List ℕ)
    → text ≡ before ++ after
    → Here re after
    → match_from (matchhere re) text ≡ true
Finds-search re text before after w h =
    subst (λ x. match_from (matchhere re) x ≡ true) (sym w)
      (Splits-match_from (matchhere re) before after (Here-matchhere re after h))

search_text-Finds : (re text : List ℕ) → search_text re text ≡ true → Finds re text
unfolding search_text
search_text-Finds [] text h = search-Finds [] text (λ rest e. absurd (cc (e))) h
search_text-Finds (c ∷ re) text h = elim (Bool-cases (c == caret)) [
  | inl e ↦
      subst (λ x. Finds (x ∷ re) text) (sym (==→eq c caret e))
        (anchored re text (matchhere-Here re text (ground (arith, h, e))))
  | inr e ↦
      let n : c ≢ caret = ground (arith, e) in
      search-Finds (c ∷ re) text (λ rest z. n (cc (z))) (ground (arith, h, e))
]

Finds-search_text : (re text : List ℕ) → Finds re text → search_text re text ≡ true
unfolding search_text
Finds-search_text _ _ (anchored re text h) = Here-matchhere re text h
Finds-search_text _ _ (somewhere [] text before after n w h) = Finds-search [] text before after w h
Finds-search_text _ _ (somewhere (c ∷ re) text before after n w h) =
    let ne : c ≢ caret = λ e. n re (ap (λ x. x ∷ re) e) in
    let found = Finds-search (c ∷ re) text before after w h in ground (arith, ne, found)

-- match answers true exactly on the texts that the expression matches: at the start for an
-- expression that begins with ^, and else at some place, where `$` at the end of the expression
-- stands for the end of the text, `.` for any character, and `c*` for any number of characters that
-- `c` accepts.
pub search_text_lem : (re text : List ℕ) → (search_text re text ≡ true) ↔ Finds re text
search_text_lem re text = (search_text-Finds re text, Finds-search_text re text)
