-- ===== src/Sh/Ends.antt =====
-- The recursion of the shell's parser: each round takes a token off the line, so it ends.
use operating_systems_projec.Base.{
  ℕ, zero, suc, ◌+◌, ◌*◌, ◌≤◌, ◌<◌, ◌≡◌, refl, ◌⊎◌, inl, inr, List, [], ◌∷◌, arith, leb, ◌==◌,
  Bool-cases, length,
}
use operating_systems_projec.Sh.{
  line_rest, pipe_rest, block_rest, Cmd, exec, list, pipe, Outcome, parsed, syntax, no_fuel, ◌>>=◌,
  tok_word, less, greater, maxargs, enders, skip_blanks, gettoken, peek, parseredirs, add_arg,
  parse_args, parse_simple, parse_backs, back, parseline, parsepipe, parseexec, parseblock,
  parsecmd,
}
use operating_systems_projec.Sh.Tokens.{
  skip_blanks-length, gettoken-length, peek-shorter, tok-shorter,
}

-- The parse did not run out of fuel, and at most `n` characters are left.
abbrev Ends : {A : Type 0} → ℕ → Outcome A → Type 0
Ends n (parsed a s) = length s ≤ n
Ends n syntax = Unit
Ends n no_fuel = ⊥

Ends->>= :
    {A B : Type 0}
    → (n k : ℕ) (m : Outcome A) (f : A × List ℕ → Outcome B) → Ends n m
    → ((a : A) (s : List ℕ) → length s ≤ n → Ends k (f (a, s)))
    → Ends k (m >>= f)
Ends->>= n k (parsed a s) f h g = g a s h
Ends->>= n k syntax f h g = tt
Ends->>= n k no_fuel f h g = absurd h

Ends-le : {A : Type 0} → (n k : ℕ) (m : Outcome A) → n ≤ k → Ends n m → Ends k m
Ends-le n k (parsed a s) l h = omega arith
Ends-le n k syntax l h = tt
Ends-le n k no_fuel l h = h

parseredirs-Ends :
    (f : ℕ) (cmd : Cmd) (s : List ℕ) → length s < f → Ends (length s) (parseredirs f cmd s)
unfolding parseredirs
parseredirs-Ends zero cmd s h = absurd (omega arith)
parseredirs-Ends (suc f) cmd s h = elim (Bool-cases (peek s (less ∷ greater ∷ []))) [
  | inr e ↦ rw e (skip_blanks-length s)
  | inl e ↦
      let l = peek-shorter s (less ∷ greater ∷ []) e in
      let l' = gettoken-length (gettoken s).1 in
      rw e (elim (Bool-cases ((gettoken (gettoken s).1).0.tok == tok_word)) [
        | inr d ↦ rw d tt
        | inl d ↦ rw d (
            Ends-le _ (length s) _ (omega (arith, l, l'))
              (parseredirs-Ends f _ (gettoken (gettoken s).1).1 (omega (arith, l, l'))))
      ])
]

parse_args-Ends :
    (f argc : ℕ) (cmd : Cmd) (s : List ℕ) → length s < f → Ends (length s) (parse_args f argc cmd s)
unfolding parse_args
parse_args-Ends zero argc cmd s h = absurd (omega arith)
parse_args-Ends (suc f) argc cmd s h = elim (Bool-cases (peek s enders)) [
  | inl e ↦ rw e (skip_blanks-length s)
  | inr e ↦ rw e (elim (Bool-cases ((gettoken s).0.tok == 0)) [
    | inl z ↦ rw z (gettoken-length s)
    | inr z ↦ rw z (elim (Bool-cases ((gettoken s).0.tok == tok_word)) [
      | inr w ↦ rw w tt
      | inl w ↦ rw w (elim (Bool-cases (leb maxargs (argc + 1))) [
        | inl m ↦ rw m tt
        | inr m ↦ rw m (
            next (tok-shorter s (λ q. ground (arith, z, q)))
              (λ c t lt. parse_args-Ends f (argc + 1) c t lt))
      ])
    ])
  ])
]
  where
    s1 : List ℕ
    s1 = (gettoken s).1

    next :
        length s1 < length s
        → ((c : Cmd) (t : List ℕ) → length t < f → Ends (length t) (parse_args f (argc + 1) c t))
        → Ends (length s) (
            parseredirs (length s1 + 1) (add_arg cmd (gettoken s).0.word) s1 >>= λ r.
            parse_args f (argc + 1) (r.0) (r.1))
    next l ih =
        Ends->>= (length s1) (length s)
          (parseredirs (length s1 + 1) (add_arg cmd (gettoken s).0.word) s1)
          (λ r. parse_args f (argc + 1) (r.0) (r.1))
          (parseredirs-Ends (length s1 + 1) (add_arg cmd (gettoken s).0.word) s1 (omega arith))
          (λ c t lt.
            Ends-le (length t) (length s) _ (omega (arith, l, lt)) (ih c t (omega (arith, l, lt))))

parse_simple-Ends : (s : List ℕ) → Ends (length s) (parse_simple s)
unfolding parse_simple
parse_simple-Ends s =
    Ends->>= (length s) (length s) (parseredirs (length s + 1) (exec []) s)
      (λ r. parse_args (length (r.1) + 1) 0 (r.0) (r.1))
      (parseredirs-Ends (length s + 1) (exec []) s (omega arith))
      (λ c t lt.
        Ends-le (length t) (length s) _ lt (parse_args-Ends (length t + 1) 0 c t (omega arith)))

parse_backs-Ends :
    (f : ℕ) (cmd : Cmd) (s : List ℕ) → length s < f → Ends (length s) (parse_backs f cmd s)
unfolding parse_backs
parse_backs-Ends zero cmd s h = absurd (omega arith)
parse_backs-Ends (suc f) cmd s h = elim (Bool-cases (peek s (38 ∷ []))) [
  | inr e ↦ rw e (skip_blanks-length s)
  | inl e ↦
      let l = peek-shorter s (38 ∷ []) e in
      rw e (
        Ends-le _ (length s) _ (omega (arith, l))
          (parse_backs-Ends f (back cmd) (gettoken s).1 (omega (arith, l))))
]

-- Fuel for each function, at a line of each length.
record Enough (f : ℕ) : Type 0 where
  line : (s : List ℕ) → 4 * length s + 4 ≤ f → Ends (length s) (parseline f s)
  pipes : (s : List ℕ) → 4 * length s + 3 ≤ f → Ends (length s) (parsepipe f s)
  exec : (s : List ℕ) → 4 * length s + 2 ≤ f → Ends (length s) (parseexec f s)
  block : (s : List ℕ) → 4 * length s + 1 ≤ f → Ends (length s) (parseblock f s)

parseexec-Ends :
    (f : ℕ) (s : List ℕ)
    → Enough f
    → 4 * length s + 2 ≤ suc f
    → Ends (length s) (parseexec (suc f) s)
unfolding parseline
parseexec-Ends f s n h = elim (Bool-cases (peek s (40 ∷ []))) [
  | inl e ↦ rw e (n.block s (omega arith))
  | inr e ↦ rw e (parse_simple-Ends s)
]

block_rest-Ends : (c : Cmd) (t : List ℕ) (n : ℕ) → length t ≤ n → Ends n (block_rest c t)
unfolding block_rest
block_rest-Ends c t n h = elim (Bool-cases (peek t (41 ∷ []))) [
  | inr d ↦ rw d tt
  | inl d ↦
      let l = peek-shorter t (41 ∷ []) d in
      rw d (
        Ends-le _ n _ (omega (arith, l))
          (parseredirs-Ends (length t + 1) c (gettoken t).1 (omega (arith, l))))
]

parseblock-Ends :
    (f : ℕ) (s : List ℕ)
    → Enough f
    → 4 * length s + 1 ≤ suc f
    → Ends (length s) (parseblock (suc f) s)
unfolding parseline
parseblock-Ends f s n h = elim (Bool-cases (peek s (40 ∷ []))) [
  | inr e ↦ rw e tt
  | inl e ↦
      let l = peek-shorter s (40 ∷ []) e in
      rw e (
        Ends->>= (length (gettoken s).1) (length s) (parseline f (gettoken s).1)
          (λ r. block_rest (r.0) (r.1)) (n.line (gettoken s).1 (omega (arith, l)))
          (λ c t lt. block_rest-Ends c t (length s) (omega (arith, l, lt))))
]

pipe_rest-Ends :
    (next : List ℕ → Outcome Cmd) (c : Cmd) (t : List ℕ) (n : ℕ)
    → length t ≤ n
    → ((u : List ℕ) → length u < length t → Ends (length u) (next u))
    → Ends n (pipe_rest next c t)
unfolding pipe_rest
pipe_rest-Ends next c t n h ih = elim (Bool-cases (peek t (124 ∷ []))) [
  | inr e ↦ rw e (omega (arith, skip_blanks-length t))
  | inl e ↦
      let l = peek-shorter t (124 ∷ []) e in
      rw e (
        Ends->>= (length (gettoken t).1) n (next (gettoken t).1) (λ r. parsed (pipe c (r.0)) (r.1))
          (ih (gettoken t).1 l) (λ d u lt. omega (arith, l, lt)))
]

line_rest-Ends :
    (next : List ℕ → Outcome Cmd) (c : Cmd) (t : List ℕ) (n : ℕ)
    → length t ≤ n
    → ((u : List ℕ) → length u < length t → Ends (length u) (next u))
    → Ends n (line_rest next c t)
unfolding line_rest
line_rest-Ends next c t n h ih = elim (Bool-cases (peek t (59 ∷ []))) [
  | inr e ↦ rw e (omega (arith, skip_blanks-length t))
  | inl e ↦
      let l = peek-shorter t (59 ∷ []) e in
      rw e (
        Ends->>= (length (gettoken t).1) n (next (gettoken t).1) (λ r. parsed (list c (r.0)) (r.1))
          (ih (gettoken t).1 l) (λ d u lt. omega (arith, l, lt)))
]

parsepipe-Ends :
    (f : ℕ) (s : List ℕ)
    → Enough f
    → 4 * length s + 3 ≤ suc f
    → Ends (length s) (parsepipe (suc f) s)
unfolding parseline
parsepipe-Ends f s n h =
    Ends->>= (length s) (length s) (parseexec f s) (λ r. pipe_rest (λ t. parsepipe f t) (r.0) (r.1))
      (n.exec s (omega arith))
      (λ c t lt.
        pipe_rest-Ends (λ u. parsepipe f u) c t (length s) lt
          (λ u l. n.pipes u (omega (arith, lt, l))))

parseline-Ends :
    (f : ℕ) (s : List ℕ)
    → Enough f
    → 4 * length s + 4 ≤ suc f
    → Ends (length s) (parseline (suc f) s)
unfolding parseline
parseline-Ends f s n h =
    Ends->>= (length s) (length s) (parsepipe f s)
      (λ r. parse_backs (length (r.1) + 1) (r.0) (r.1) >>= λ q.
        line_rest (λ t. parseline f t) (q.0) (q.1))
      (n.pipes s (omega arith))
      (λ c t lt.
        Ends->>= (length t) (length s) (parse_backs (length t + 1) c t)
          (λ q. line_rest (λ u. parseline f u) (q.0) (q.1))
          (parse_backs-Ends (length t + 1) c t (omega arith))
          (λ d u lt'.
            line_rest-Ends (λ v. parseline f v) d u (length s) (omega (arith, lt, lt'))
              (λ v l. n.line v (omega (arith, lt, lt', l)))))

enough : (f : ℕ) → Enough f
enough zero = record {
  line = λ s h. absurd (omega arith);
  pipes = λ s h. absurd (omega arith);
  exec = λ s h. absurd (omega arith);
  block = λ s h. absurd (omega arith);
}
enough (suc f) =
    let n = enough f in
    record {
      line = λ s h. parseline-Ends f s n h;
      pipes = λ s h. parsepipe-Ends f s n h;
      exec = λ s h. parseexec-Ends f s n h;
      block = λ s h. parseblock-Ends f s n h;
    }

-- The parser ends on every line: with the fuel that parsecmd gives it, which is 4 for each character
-- and 4 more, no function of it runs out. So parsecmd gives a command that takes the whole line, or
-- the panic on an error of syntax.
pub parsecmd-ends :
    (line : List ℕ) → (parsecmd line ≡ syntax) ⊎ ((cmd : Cmd) × (parsecmd line ≡ parsed cmd []))
unfolding parsecmd
parsecmd-ends line =
    go (parseline (4 * length line + 4) line)
      ((enough (4 * length line + 4)).line line (omega arith))
  where
    whole :
        (cmd : Cmd) (s t : List ℕ)
        → skip_blanks s ≡ t
        → (elim t [ [] ↦ parsed cmd [] | c ∷ u ↦ syntax ] ≡ syntax)
          ⊎ ((cmd' : Cmd) × (elim t [ [] ↦ parsed cmd [] | c ∷ u ↦ syntax ] ≡ parsed cmd' []))
    whole cmd s [] e = inr (cmd, refl)
    whole cmd s (c ∷ u) e = inl refl

    go :
        (m : Outcome Cmd)
        → Ends (length line) m
        → let r = m >>= λ r. elim (skip_blanks (r.1)) [ [] ↦ parsed (r.0) [] | c ∷ s ↦ syntax ] in
          (r ≡ syntax) ⊎ ((cmd : Cmd) × (r ≡ parsed cmd []))
    go (parsed cmd s) h = whole cmd s (skip_blanks s) refl
    go syntax h = inl refl
    go no_fuel h = absurd h
