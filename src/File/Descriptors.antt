-- ===== src/File/Descriptors.antt =====
-- Descriptor tables and reference counts: sys_dup, sys_close, and the loops of fork and exit keep
-- every file's count equal to the number of descriptors that name it.
use operating_systems_projec.Base.{
  ℕ, zero, suc, ◌+◌, ◌≤◌, ◌<◌, ◌≡◌, refl, sym, ap, ◌∙◌, ◌⊎◌, inl, inr, Option, none, some, List, [],
  ◌∷◌, arith, Option-cases, length, set, get_or-set_self, ok, ℤ, pos, negsuc,
}
use operating_systems_projec.File.{
  at, closing, FileTable, Closing, nothing, Descriptors, file_of, argfd, fdalloc, fdalloc_from,
  Reply, failed, dup_file, sys_dup, sys_close, dup_all, close_all, nofile,
}
use operating_systems_projec.File.Refs.{
  is_file, count, Counted, InTable, filedup-Counted, fileclose-Counted,
}

-- fdalloc puts the file in a slot that was empty, and nothing else changes.
fdalloc_from_lem :
    (o : Descriptors) (n f fd : ℕ) (o' : Descriptors)
    → fdalloc_from o n f ≡ some (fd, o')
    → (k : ℕ) × (fd ≡ n + k) × (file_of o k ≡ none) × (o' ≡ set o k (some f)) × (k < length o)
unfolding fdalloc_from
fdalloc_from_lem [] n f fd o' e = absurd (cc)
fdalloc_from_lem (none ∷ o) n f fd o' e = (0, ground arith, refl, ground arith, omega arith)
fdalloc_from_lem (some g ∷ o) n f fd o' e = elim (Option-cases (fdalloc_from o (n + 1) f)) [
  | inl z ↦ absurd (ground arith)
  | inr ((m, p), z) ↦
      let (k, a, b, c, l) = fdalloc_from_lem o (n + 1) f m p z in
      (suc k, ground arith, b, ground arith, omega arith)
]

count-set :
    (o : Descriptors) (i k : ℕ) (d : Option ℕ)
    → k < length o
    → count i (set o k d) + is_file i (file_of o k) ≡ count i o + is_file i d
count-set [] i k d h = absurd (omega arith)
count-set (x ∷ o) i zero d h = omega arith
count-set (x ∷ o) i (suc k) d h = omega (arith, count-set o i k d (omega arith))

InTable-set :
    (t : FileTable) (o : Descriptors) (k f : ℕ)
    → f < length t
    → InTable t o
    → InTable t (set o k (some f))
InTable-set t [] k f l h = tt
InTable-set t (none ∷ o) zero f l h = (l, h)
InTable-set t (some g ∷ o) zero f l h = (l, h.1)
InTable-set t (none ∷ o) (suc k) f l h = InTable-set t o k f l h
InTable-set t (some g ∷ o) (suc k) f l h = (h.0, InTable-set t o k f l h.1)

InTable-clear : (t : FileTable) (o : Descriptors) (k : ℕ) → InTable t o → InTable t (set o k none)
InTable-clear t [] k h = tt
InTable-clear t (none ∷ o) zero h = h
InTable-clear t (some g ∷ o) zero h = h.1
InTable-clear t (none ∷ o) (suc k) h = InTable-clear t o k h
InTable-clear t (some g ∷ o) (suc k) h = (h.0, InTable-clear t o k h.1)

InTable-length :
    (t t' : FileTable) (o : Descriptors) → length t' ≡ length t → InTable t o → InTable t' o
InTable-length t t' [] e h = tt
InTable-length t t' (none ∷ o) e h = InTable-length t t' o e h
InTable-length t t' (some f ∷ o) e h = (omega arith, InTable-length t t' o e h.1)

named_in :
    (t : FileTable) (o : Descriptors) (k f : ℕ)
    → InTable t o
    → file_of o k ≡ some f
    → (f < length t) × (0 < count f o) × (k < length o)
named_in t [] k f h e = absurd (cc)
named_in t (none ∷ o) zero f h e = absurd (cc)
named_in t (some g ∷ o) zero f h e = ground (arith, h.0)
named_in t (none ∷ o) (suc k) f h e =
    let r = named_in t o k f h e in (r.0, omega (arith, r.1), omega (arith, r.2))
named_in t (some g ∷ o) (suc k) f h e =
    let r = named_in t o k f h.1 e in (r.0, omega (arith, r.1), omega (arith, r.2))

-- The counts with the descriptors of this process set apart from all others'.
abbrev pub Shared : FileTable → (ℕ → ℕ) → Descriptors → Type 0
Shared t others o = Counted t (λ i. others i + count i o) × InTable t o

argfd_lem :
    (o : Descriptors) (n : ℤ) (fd f : ℕ)
    → argfd o n ≡ some (fd, f)
    → (n ≡ pos fd) × (fd < nofile) × (file_of o fd ≡ some f)
unfolding argfd
argfd_lem o (negsuc n) fd f e = absurd (cc)
argfd_lem o (pos n) fd f e = ground arith

-- `n` is descriptor `fd`, in the range of ofile, of the open file `f`.
abbrev pub IsOpen : Descriptors → ℤ → ℕ → ℕ → Type 0
IsOpen o n fd f = (n ≡ pos fd) × (fd < nofile) × (file_of o fd ≡ some f)

argfd_open : (o : Descriptors) (n : ℤ) (fd f : ℕ) → IsOpen o n fd f → argfd o n ≡ some (fd, f)
unfolding argfd
argfd_open o n fd f (p, lt, q) = rw p (ground (arith, lt, q))

-- sys_dup does not panic and keeps the counts. It fails, changing nothing, on a bad descriptor or if
-- no descriptor is free; else the new descriptor was free and now names the same file.
pub sys_dup-Shared :
    (o : Descriptors) (t : FileTable) (n : ℤ) (others : ℕ → ℕ)
    → Shared t others o
    → (r : Reply) × (sys_dup o t n ≡ ok r)
      × Shared r.2 others r.1
      × ((r ≡ failed o t)
          ⊎ ((fd new : ℕ) × (n ≡ pos fd)
              × (r.0 ≡ pos new)
              × (file_of o new ≡ none)
              × (file_of r.1 new ≡ file_of o fd)))
unfolding sys_dup dup_file fdalloc
sys_dup-Shared o t n others (c, h) = elim (Option-cases (argfd o n)) [
  | inl e ↦ (failed o t, ground (arith, e), (c, h), inl refl)
  | inr ((fd, f), e) ↦ elim (Option-cases (fdalloc_from o 0 f)) [
    | inl z ↦ (failed o t, ground (arith, e, z), (c, h), inl refl)
    | inr ((new, o'), z) ↦
        let (en, ef, ff) = argfd_lem o n fd f e in
        let (k, ek, ez, eo, kl) = fdalloc_from_lem o 0 f new o' z in
        let inside = named_in t o fd f h ff in
        let d =
          filedup-Counted t f (λ i. others i + count i o) c inside.0 (omega (arith, inside.1)) in
        let same : new ≡ k = omega arith in
        (
          (pos new, o', d.0),
          ground (arith, e, z, d.1),
          (
            (λ i li.
                d.3 i li ∙ rw (eo) (omega (arith, count-set o i k (some f) kl, ap (is_file i) ez))),
            rw eo (InTable-length t d.0 (set o k (some f)) d.2 (InTable-set t o k f inside.0 h)),
          ),
          inr (
            fd,
            new,
            en,
            refl,
            rw same ez,
            rw (same, eo) (get_or-set_self o k (some f) none kl ∙ sym ff),
          ),
        )
  ]
]

-- sys_close does not panic and keeps the counts. On a number that is not a descriptor of an open
-- file it fails and changes nothing. On one that is, it succeeds: the descriptor is free, the
-- others are as they were, and what is left to finish of the file is nothing if another descriptor
-- names it, and else what its type says.
pub sys_close-Shared :
    (o : Descriptors) (t : FileTable) (n : ℤ) (others : ℕ → ℕ)
    → Shared t others o
    → (r : Closing × Reply) × (sys_close o t n ≡ ok r)
      × Shared r.1.2 others r.1.1
      × (((r ≡ (nothing, failed o t)) × ((fd f : ℕ) → ¬ (IsOpen o n fd f)))
          ⊎ ((fd f : ℕ) × IsOpen o n fd f
              × (r.1.0 ≡ pos 0)
              × (r.1.1 ≡ set o fd none)
              × (0 < others f + count f r.1.1 → r.0 ≡ nothing)
              × (others f + count f r.1.1 ≡ 0 → r.0 ≡ closing (at t f))))
unfolding sys_close
sys_close-Shared o t n others (c, h) = elim (Option-cases (argfd o n)) [
  | inl e ↦ (
    (nothing, failed o t),
    ground (arith, e),
    (c, h),
    inl (refl, λ fd f p. absurd (cc (argfd_open o n fd f p, e))),
  )
  | inr ((fd, f), e) ↦
      let (en, ef, ff) = argfd_lem o n fd f e in
      let inside = named_in t o fd f h ff in
      let less = λ (i : ℕ).
        let r : count i (set o fd none) + is_file i (some f) ≡ count i o =
          ap (λ (x : Option ℕ). count i (set o fd none) + is_file i x) (sym ff)
          ∙ count-set o i fd none inside.2
          ∙ omega arith in
        r in
      let d =
        fileclose-Counted t f (λ i. others i + count i (set o fd none))
          (λ i li. c i li ∙ omega (arith, less i)) inside.0 in
      (
        (d.0.0, (pos 0, set o fd none, d.0.1)),
        ground (arith, e, d.1),
        (d.3, InTable-length t d.0.1 (set o fd none) d.2 (InTable-clear t o fd h)),
        inr (
          fd,
          f,
          (en, ef, ff),
          refl,
          refl,
          (λ p. elim (d.4) [ inl a ↦ a.1 | inr b ↦ absurd (omega (arith, p, b.0)) ]),
          (λ p. elim (d.4) [ inl a ↦ absurd (omega (arith, p, a.0)) | inr b ↦ b.1 ]),
        ),
      )
]

-- Every file that `o` names is in the table and counted.
abbrev pub Live : FileTable → (ℕ → ℕ) → Descriptors → Type 0
Live t named [] = Unit
Live t named (none ∷ o) = Live t named o
Live t named (some f ∷ o) = ((f < length t) × (0 < named f)) × Live t named o

Live-mono :
    (t t' : FileTable) (named named' : ℕ → ℕ) (o : Descriptors)
    → length t' ≡ length t
    → ((i : ℕ) → named i ≤ named' i)
    → Live t named o
    → Live t' named' o
Live-mono t t' a b [] e m h = tt
Live-mono t t' a b (none ∷ o) e m h = Live-mono t t' a b o e m h
Live-mono t t' a b (some f ∷ o) e m h =
    ((omega (arith, h.0.0), omega (arith, h.0.1, m f)), Live-mono t t' a b o e m h.1)

-- fork's loop does not panic, gives the child the parent's descriptors, and counts each once more.
pub dup_all-Counted :
    (o : Descriptors) (t : FileTable) (named : ℕ → ℕ)
    → Counted t named
    → Live t named o
    → (t' : FileTable) × (dup_all o t ≡ ok (o, t'))
      × (length t' ≡ length t)
      × Counted t' (λ i. named i + count i o)
unfolding dup_all
dup_all-Counted [] t named c h = (t, refl, refl, λ i li. c i li ∙ omega arith)
dup_all-Counted (none ∷ o) t named c h =
    let (t', e, l, c') = dup_all-Counted o t named c h in
    (t', rw e refl, l, λ i li. c' i li ∙ omega arith)
dup_all-Counted (some f ∷ o) t named c h =
    let d = filedup-Counted t f named c h.0.0 h.0.1 in
    let r =
      dup_all-Counted o d.0 (λ i. named i + is_file i (some f)) d.3
        (Live-mono t d.0 named (λ i. named i + is_file i (some f)) o d.2 (λ i. omega arith) h.1) in
    (r.0, rw (d.1, r.1) refl, r.2 ∙ d.2, λ i li. r.3 i li ∙ omega arith)

-- exit's loop does not panic, and takes all the names of this process from the counts.
pub close_all-Counted :
    (o : Descriptors) (t : FileTable) (others : ℕ → ℕ)
    → Shared t others o
    → (r : List Closing × FileTable) × (close_all o t ≡ ok r)
      × (length r.1 ≡ length t)
      × Counted r.1 others
unfolding close_all
close_all-Counted [] t others (c, h) = (([], t), refl, refl, λ i li. c i li ∙ omega arith)
close_all-Counted (none ∷ o) t others (c, h) =
    close_all-Counted o t others ((λ i li. c i li ∙ omega arith), h)
close_all-Counted (some f ∷ o) t others (c, h) =
    let d = fileclose-Counted t f (λ i. others i + count i o) (λ i li. c i li ∙ omega arith) h.0 in
    let r = close_all-Counted o d.0.1 others (d.3, InTable-length t d.0.1 o d.2 h.1) in
    ((d.0.0 ∷ r.0.0, r.0.1), rw (d.1, r.1) refl, r.2 ∙ d.2, r.3)
