-- ===== src/File/Refs.antt =====
-- A file's reference count is the number of descriptors that name it, in all processes.
use operating_systems_projec.Base.{
  ℕ, suc, ◌+◌, ◌-◌, ◌<◌, ◌≡◌, refl, ap, subst, ◌∙◌, ◌≢◌, ◌⊎◌, inl, inr, Option, none, some, List,
  [], ◌∷◌, arith, ltb, ◌==◌, if◌then◌else◌, ==→eq, Bool-cases, length, set, length-set,
  get_or-set_self, get_or-set_ne, All, ok,
}
use operating_systems_projec.File.{
  File, FileTable, FileType, blank, at, find_free, filealloc, filedup, fileclose, closing, Closing,
  nothing, Descriptors,
}

abbrev pub is_file : ℕ → Option ℕ → ℕ
is_file i none = 0
is_file i (some f) = if f == i then 1 else 0

abbrev pub count : ℕ → Descriptors → ℕ
count i [] = 0
count i (d ∷ o) = is_file i d + count i o

abbrev pub total : ℕ → List Descriptors → ℕ
total i [] = 0
total i (o ∷ os) = count i o + total i os

-- Every file of the table has the count `named` says.
abbrev pub Counted : FileTable → (ℕ → ℕ) → Type 0
Counted t named = (i : ℕ) → i < length t → (at t i).ref ≡ named i

-- Descriptors name files of the table.
abbrev pub InTable : FileTable → Descriptors → Type 0
InTable t [] = Unit
InTable t (none ∷ o) = InTable t o
InTable t (some f ∷ o) = (f < length t) × InTable t o

pub Counted-set :
    (t : FileTable) (f : ℕ) (x : File) (named : ℕ → ℕ)
    → f < length t
    → x.ref ≡ named f
    → ((i : ℕ) → i < length t → f ≢ i → (at t i).ref ≡ named i)
    → Counted (set t f x) named
Counted-set t f x named lt here other i li = elim (Bool-cases (f == i)) [
  | inl e ↦
      let same = ==→eq f i e in
      subst (λ j. (at (set t f x) j).ref ≡ named j) same
        (ap (λ (y : File). y.ref) (get_or-set_self t f x blank lt) ∙ here)
  | inr e ↦
      let ne : f ≢ i = ground arith in
      ap (λ (y : File). y.ref) (get_or-set_ne t f i x blank ne)
      ∙ other i (omega (arith, length-set t f x)) ne
]

-- filedup of a file that is named somewhere does not panic, and counts one name more.
pub filedup-Counted :
    (t : FileTable) (f : ℕ) (named : ℕ → ℕ)
    → Counted t named
    → f < length t
    → 0 < named f
    → (t' : FileTable) × (filedup t f ≡ ok t')
      × (length t' ≡ length t)
      × Counted t' (λ i. named i + is_file i (some f))
unfolding filedup
filedup-Counted t f named c lt p = (
  set t f (record (at t f) { ref = (at t f).ref + 1 }),
  ground (arith, c f),
  length-set t f _,
  Counted-set t f _ (λ i. named i + is_file i (some f)) lt (ground (arith, c f))
      (λ i li ne. ground (arith, c i)),
)

-- fileclose of a file that is named somewhere does not panic, and counts one name less. It has
-- something to finish, as the file's type says, exactly when that was the last name.
pub fileclose-Counted :
    (t : FileTable) (f : ℕ) (named : ℕ → ℕ)
    → Counted t (λ i. named i + is_file i (some f))
    → f < length t
    → (r : Closing × FileTable) × (fileclose t f ≡ ok r)
      × (length r.1 ≡ length t)
      × Counted r.1 named
      × (((0 < named f) × (r.0 ≡ nothing)) ⊎ ((named f ≡ 0) × (r.0 ≡ closing (at t f))))
unfolding fileclose
fileclose-Counted t f named c lt = elim (Bool-cases (ltb 0 ((at t f).ref - 1))) [
  | inl more ↦ (
    (nothing, set t f (record (at t f) { ref = (at t f).ref - 1 })),
    ground (arith, c f),
    length-set t f _,
    Counted-set t f _ named lt (ground (arith, c f)) (λ i li ne. ground (arith, c i)),
    inl (ground (arith, c f), refl),
  )
  | inr last ↦ (
    (closing (at t f), set t f (record (at t f) { ref = 0; type = FileType.fd_none })),
    ground (arith, c f),
    length-set t f _,
    Counted-set t f _ named lt (ground (arith, c f)) (λ i li ne. ground (arith, c i)),
    inr (ground (arith, c f), refl),
  )
]

find_free_lem :
    (t : FileTable) (i : ℕ)
    → ((find_free t i ≡ none) × All (λ (f : File). f.ref ≢ 0) t)
      ⊎ ((j : ℕ) × (find_free t i ≡ some (i + j)) × (j < length t) × ((at t j).ref ≡ 0))
unfolding find_free
find_free_lem [] i = inl (refl, tt)
find_free_lem (f ∷ t) i = elim (Bool-cases (f.ref == 0)) [
  | inl e ↦ inr (0, rw e (ap some (omega arith)), omega arith, ==→eq f.ref 0 e)
  | inr e ↦ elim (find_free_lem t (i + 1)) [
    | inl (n, a) ↦ inl (rw e n, (ground arith, a))
    | inr (j, s, l, z) ↦ inr (suc j, rw (e, s) (ap some (omega arith)), omega arith, z)
  ]
]

-- filealloc takes a file that is not named by any descriptor, and fails only if all are.
pub filealloc-Counted :
    (t : FileTable) (named : ℕ → ℕ)
    → Counted t named
    → ((filealloc t ≡ none) × All (λ (f : File). f.ref ≢ 0) t)
      ⊎ ((f : ℕ) × (t' : FileTable) × (filealloc t ≡ some (f, t'))
          × (named f ≡ 0)
          × (f < length t)
          × Counted t' (λ i. named i + is_file i (some f)))
unfolding filealloc
filealloc-Counted t named c = elim (find_free_lem t 0) [
  | inl (n, a) ↦ inl (ground (arith, n), a)
  | inr (j, s, l, z) ↦
      let found : find_free t 0 ≡ some j = s ∙ ap some (omega arith) in
      inr (
        j,
        set t j (record (at t j) { ref = 1 }),
        ground (arith, found),
        omega (arith, c j l, z),
        l,
        Counted-set t j _ (λ i. named i + is_file i (some j)) l (ground (arith, c j l, z))
            (λ i li ne. ground (arith, c i)),
      )
]
