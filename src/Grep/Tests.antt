-- ===== src/Grep/Tests.antt =====
-- Runs of the matcher, and its theorems at concrete inputs.
use operating_systems_projec.Base.{ℕ, ◌≡◌, refl, ◌↔◌, true, false, List, [], ◌∷◌}
use operating_systems_projec.Grep.{search_text, matchhere, matchstar, match_from}
use operating_systems_projec.Grep.Matches.{Finds, search_text_lem}

-- "ab*c" in "xabbc".
abbrev expression : List ℕ
expression = 97 ∷ 98 ∷ 42 ∷ 99 ∷ []

abbrev line : List ℕ
line = 120 ∷ 97 ∷ 98 ∷ 98 ∷ 99 ∷ []

matches : search_text expression line ≡ true
unfolding search_text match_from matchhere matchstar
matches = refl

anchored : search_text (94 ∷ expression) line ≡ false
unfolding search_text match_from matchhere matchstar
anchored = refl

search_text_lem_example : (search_text expression line ≡ true) ↔ Finds expression line
search_text_lem_example = search_text_lem expression line
