-- ===== src/Fs/Path/Elements.antt =====
-- What skipelem takes off a path.
use operating_systems_projec.Base.{
  ℕ, ◌<◌, ◌≡◌, refl, sym, ap, subst, ◌∙◌, ◌≢◌, ◌⊎◌, inl, inr, none, some, List, [], ◌∷◌, ◌++◌,
  append-nil, arith, ◌==◌, ==→eq, Bool-cases, length, take, length-append, All,
}
use operating_systems_projec.Fs.Path.{dirsiz, skipelem, take_elem, slash, skip_slashes, split_elem}

abbrev pub AreSlashes : List ℕ → Type 0
AreSlashes = All (λ c. c ≡ slash)

abbrev pub NoSlash : List ℕ → Type 0
NoSlash = All (λ c. c ≢ slash)

abbrev pub StartsPlain : List ℕ → Type 0
StartsPlain [] = Unit
StartsPlain (c ∷ s) = c ≢ slash

-- The path is `leading`, the element, `between`, and the rest.
pub record Elements (path elem rest : List ℕ) : Type 0 where
  pub leading : List ℕ
  pub between : List ℕ
  pub whole : path ≡ leading ++ (elem ++ (between ++ rest))
  pub leading_slashes : AreSlashes leading
  pub plain : NoSlash elem
  pub not_empty : 0 < length elem
  pub between_slashes : AreSlashes between
  pub rest_plain : StartsPlain rest
  pub apart : (between ≡ []) → rest ≡ []

skip_slashes_lem :
    (path : List ℕ)
    → (lead : List ℕ) × (path ≡ lead ++ skip_slashes path)
      × AreSlashes lead
      × StartsPlain (skip_slashes path)
unfolding skip_slashes
skip_slashes_lem [] = ([], refl, tt, tt)
skip_slashes_lem (c ∷ path) = elim (Bool-cases (c == slash)) [
  | inl e ↦
      let (lead, w, a, p) = skip_slashes_lem path in
      (c ∷ lead, rw e (ap (λ r. c ∷ r) w), (==→eq c slash e, a), rw e p)
  | inr e ↦ ([], rw e refl, tt, rw e (ground (arith, e)))
]

split_elem_lem :
    (path : List ℕ)
    → (path ≡ (split_elem path).0 ++ (split_elem path).1)
      × NoSlash (split_elem path).0
      × ((StartsPlain (split_elem path).1) → (split_elem path).1 ≡ [])
unfolding split_elem
split_elem_lem [] = (refl, tt, λ h. refl)
split_elem_lem (c ∷ path) = elim (Bool-cases (c == slash)) [
  | inl e ↦ (rw e refl, rw e tt, rw e (λ h. absurd (ground (arith, e, h))))
  | inr e ↦
      let (w, n, p) = split_elem_lem path in
      (rw e (ap (λ r. c ∷ r) w), rw e (ground (arith, e), n), rw e p)
]

split_elem-pos : (c : ℕ) (s : List ℕ) → c ≢ slash → 0 < length (split_elem (c ∷ s)).0
unfolding split_elem
split_elem-pos c s h = ground (arith, h)

-- The rest behind the slashes that follow an element.
after_elem :
    (path lead t : List ℕ) (c : ℕ)
    → path ≡ lead ++ (c ∷ t)
    → AreSlashes lead
    → c ≢ slash
    → Elements path (split_elem (c ∷ t)).0 (skip_slashes (split_elem (c ∷ t)).1)
after_elem path lead t c w a h =
    let (w1, plain, p1) = split_elem_lem (c ∷ t) in
    let (between, w2, a2, p2) = skip_slashes_lem (split_elem (c ∷ t)).1 in
    record {
      leading = lead;
      between = between;
      whole = w ∙ ap (λ r. lead ++ r) (w1 ∙ ap (λ r. (split_elem (c ∷ t)).0 ++ r) w2);
      leading_slashes = a;
      plain = plain;
      not_empty = split_elem-pos c t h;
      between_slashes = a2;
      rest_plain = p2;
      apart = λ e.
          let same = w2 ∙ ap (λ b. b ++ skip_slashes (split_elem (c ∷ t)).1) e in
          sym same ∙ p1 (subst StartsPlain (sym same) p2);
    }

-- skipelem fails exactly on a path of slashes alone. Else the path is slashes, an element without a
-- slash, slashes, and the rest, which begins with no slash; skipelem gives the element, cut to 14
-- characters, and the rest.
pub skipelem_lem :
    (path : List ℕ)
    → ((skipelem path ≡ none) × AreSlashes path)
      ⊎ ((elem rest : List ℕ) × (skipelem path ≡ some (take dirsiz elem, rest))
          × Elements path elem rest)
unfolding skipelem take_elem
skipelem_lem path =
    let (lead, w, a, p) = skip_slashes_lem path in go (skip_slashes path) refl lead w a p
  where
    go :
        (s : List ℕ)
        → skip_slashes path ≡ s
        → (lead : List ℕ) → path ≡ lead ++ skip_slashes path
        → AreSlashes lead
        → StartsPlain (skip_slashes path)
        → ((skipelem path ≡ none) × AreSlashes path)
          ⊎ ((elem rest : List ℕ) × (skipelem path ≡ some (take dirsiz elem, rest))
              × Elements path elem rest)
    go [] e lead w a p = inl (
      rw (e, skipelem) refl,
      subst AreSlashes (sym (w ∙ ap (λ r. lead ++ r) e ∙ append-nil lead)) a,
    )
    go (c ∷ t) e lead w a p = inr (
      (split_elem (c ∷ t)).0,
      skip_slashes (split_elem (c ∷ t)).1,
      rw (e, skipelem) refl,
      after_elem path lead t c (w ∙ ap (λ r. lead ++ r) e) a (subst StartsPlain e p),
    )

-- So a path gets shorter with each element.
pub skipelem-shorter :
    (path elem rest : List ℕ) → skipelem path ≡ some (elem, rest) → length rest < length path
skipelem-shorter path elem rest h = elim (skipelem_lem path) [
  | inl (f, a) ↦ absurd (cc (f, h))
  | inr (e, r, f, s) ↦
      let same : r ≡ rest = cc (f, h) in
      omega (
        arith,
        s.not_empty,
        ap length s.whole,
        ap length same,
        length-append {0} s.leading (e ++ (s.between ++ r)),
        length-append {0} e (s.between ++ r),
        length-append {0} s.between r,
      )
]
