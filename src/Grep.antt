-- ===== src/Grep.antt =====
-- grep.c: the matcher of regular expressions by Kernighan and Pike, with ^ $ . and *. The strings
-- are lists without their terminating 0.
mod Tests
pub mod Language
mod Matches
use operating_systems_projec.Base.{
  ℕ, Bool, true, false, ◌&&◌, ◌||◌, List, [], ◌∷◌, ◌==◌, if◌then◌else◌,
}

abbrev pub caret : ℕ
caret = 94

abbrev pub dollar : ℕ
dollar = 36

abbrev pub dot : ℕ
dot = 46

abbrev pub star : ℕ
star = 42

-- matchstar; `here` is matchhere on the rest of the expression.
unfoldable pub matchstar : (List ℕ → Bool) → ℕ → List ℕ → Bool
matchstar here c [] = here []
matchstar here c (t ∷ text) =
    let rest = matchstar here c text in
    if here (t ∷ text) then true else (t == c || c == dot) && rest

abbrev pub is_end : List ℕ → Bool
is_end [] = true
is_end (t ∷ text) = false

-- One character, then the rest of the expression.
abbrev pub one : (List ℕ → Bool) → ℕ → List ℕ → Bool
one here c [] = false
one here c (t ∷ text) = (c == dot || c == t) && here text

unfoldable pub matchhere : List ℕ → List ℕ → Bool
matchhere [] text = true
matchhere (c ∷ []) text = if c == dollar then is_end text else one (λ t. true) c text
matchhere (c ∷ d ∷ re) text =
    let after = matchhere re in
    let next = matchhere (d ∷ re) in if d == star then matchstar after c text else one next c text

-- The loop of match: at the text, or further on.
unfoldable pub match_from : (List ℕ → Bool) → List ℕ → Bool
match_from here [] = here []
match_from here (t ∷ text) =
    let rest = match_from here text in if here (t ∷ text) then true else rest

unfoldable pub search_text : List ℕ → List ℕ → Bool
search_text [] text = match_from (matchhere []) text
search_text (c ∷ re) text =
    if c == caret then matchhere re text else match_from (matchhere (c ∷ re)) text
