-- ===== src/Console/Reading.antt =====
-- consoleread copies out the characters of the ring, in order.
use operating_systems_projec.Base.{
  ℕ, zero, suc, refl, sym, ◌⊎◌, ==→eq, ◌+◌, ◌-◌, ◌%◌, ◌≤◌, ◌<◌, ◌≡◌, ap, ◌∙◌, ◌≢◌, inl, inr, Bool,
  true, false, List, [], ◌∷◌, arith, ◌==◌, if◌then◌else◌, Bool-cases, length, get_or,
}
use operating_systems_projec.Console.{
  Input, word, char_at, newline, end_of_file, Outcome, reads, fails, sleeps, copied, consoleread,
}
use operating_systems_projec.Console.Line.{IsValid}

abbrev pub input_of : Outcome → Input
input_of (reads cs i) = i
input_of (fails cs i) = i
input_of (sleeps cs i) = i

abbrev pub chars_of : Outcome → List ℕ
chars_of (reads cs i) = cs
chars_of (fails cs i) = cs
chars_of (sleeps cs i) = cs

advance : Input → Input
advance i = record i { r = (i.r + 1) % word }

advance-IsValid : (i : Input) → IsValid i → i.r ≢ i.w → IsValid (advance i)
unfolding advance
advance-IsValid i v ne = record {
  storage = v.storage;
  words = (omega arith, v.words.1, v.words.2);
  within = omega (arith, v.within, v.order, v.words);
  order = omega (arith, v.within, v.order, v.words);
}

-- Why a read ended: `n` characters are copied, or a whole line, or the next one ends the file; a
-- read that failed or sleeps found nothing more to read.
abbrev pub Ended : Input → ℕ → Outcome → Type 0
Ended i n (reads cs i') =
    (length cs ≡ n)
    ⊎ ((k : ℕ) × (length cs ≡ suc k) × (get_or cs k 0 ≡ newline))
    ⊎ (((i.r + length cs) % word ≢ i.w) × (char_at i ((i.r + length cs) % word) ≡ end_of_file))
Ended i n (fails cs i') = i'.r ≡ i.w
Ended i n (sleeps cs i') = i'.r ≡ i.w

-- What a run of consoleread copies out and leaves. `started` is whether it had copied characters
-- before.
pub record Copied (started : Bool) (i : Input) (n : ℕ) (cs : List ℕ) (i' : Input) : Type 0 where
  pub valid : IsValid i'
  pub same : i' ≡ record i { r = i'.r }
  pub room : length cs ≤ n
  pub there : length cs ≤ (i.w + word - i.r) % word
  pub in_order : (j : ℕ) → j < length cs → get_or cs j 0 ≡ char_at i ((i.r + j) % word)
  pub one_line :
      (j : ℕ)
      → j < length cs
      → (get_or cs j 0 ≢ end_of_file) × (suc j < length cs → get_or cs j 0 ≢ newline)
  pub taken :
      (i'.r ≡ (i.r + length cs) % word)
      ⊎ ((started ≡ false)
          × (length cs ≡ 0)
          × (char_at i i.r ≡ end_of_file)
          × (i'.r ≡ (i.r + 1) % word))

pub record Reads (started : Bool) (i : Input) (n : ℕ) (o : Outcome) : Type 0 where
  pub copies : Copied started i n (chars_of o) (input_of o)
  pub ended : Ended i n o

nothing-Copied : (b : Bool) (i : Input) (n : ℕ) → IsValid i → Copied b i n [] i
nothing-Copied b i n v = record {
  valid = v;
  same = refl;
  room = omega arith;
  there = omega arith;
  in_order = λ j h. absurd (omega (arith, h));
  one_line = λ j h. absurd (omega (arith, h));
  taken = inl (omega (arith, v.words));
}

-- One more character in front of what was read from the next one on.
one-Copied :
    (b : Bool) (i : Input) (n : ℕ) (cs : List ℕ) (i' : Input)
    → IsValid i
    → i.r ≢ i.w
    → char_at i i.r ≢ end_of_file
    → char_at i i.r ≢ newline
    → Copied true (advance i) n cs i'
    → Copied b i (suc n) (char_at i i.r ∷ cs) i'
unfolding advance
one-Copied b i n cs i' v ne nf nn w = record {
  valid = w.valid;
  same = w.same;
  room = omega (arith, w.room);
  there = omega (arith, w.there, v.words, v.order, ne);
  in_order = placed;
  one_line = inner;
  taken = elim w.taken [ inl e ↦ inl (omega (arith, e, v.words)) | inr p ↦ absurd (cc (p.0)) ];
}
  where
    placed :
        (j : ℕ)
        → j < suc (length cs)
        → get_or (char_at i i.r ∷ cs) j 0 ≡ char_at i ((i.r + j) % word)
    placed zero h = ap (char_at i) (omega (arith, v.words))
    placed (suc j) h = w.in_order j (omega arith) ∙ ap (char_at i) (omega (arith, v.words))

    inner :
        (j : ℕ)
        → j < suc (length cs)
        → (get_or (char_at i i.r ∷ cs) j 0 ≢ end_of_file)
          × (suc j < suc (length cs) → get_or (char_at i i.r ∷ cs) j 0 ≢ newline)
    inner zero h = (nf, λ h'. nn)
    inner (suc j) h =
        let q = w.one_line j (omega (arith, h)) in (q.0, λ h'. q.1 (omega (arith, h')))

more :
    (b : Bool) (i : Input) (n : ℕ) (o : Outcome)
    → IsValid i
    → i.r ≢ i.w
    → char_at i i.r ≢ end_of_file
    → char_at i i.r ≢ newline
    → Reads true (advance i) n o
    → Reads b i (suc n) (copied (char_at i i.r) o)
unfolding advance
more b i n (fails cs i') v ne nf nn w = record {
  copies = one-Copied b i n cs i' v ne nf nn w.copies;
  ended = w.ended;
}
more b i n (sleeps cs i') v ne nf nn w = record {
  copies = one-Copied b i n cs i' v ne nf nn w.copies;
  ended = w.ended;
}
more b i n (reads cs i') v ne nf nn w =
    let shift : ((i.r + 1) % word + length cs) % word ≡ (i.r + suc (length cs)) % word =
      omega (arith, v.words) in
    record {
      copies = one-Copied b i n cs i' v ne nf nn w.copies;
      ended = elim w.ended [
        | inl e ↦ inl (ap suc e)
        | inr (inl (k, e, g)) ↦ inr (inl (suc k, ap suc e, g))
        | inr (inr (e, f)) ↦ inr (inr (λ q. e (shift ∙ q), ap (char_at i) (sym shift) ∙ f))
      ];
    }

-- From counters that are in order, consoleread keeps them so and changes only the read counter. The
-- characters that it copies out are those of the buffer from there on, in order, at most as many as
-- there is room for, all from complete lines, with no end of file among them and a newline only at
-- their end; the read counter moves by their number, or over an end of file that stands before any.
-- A read that returns has filled its room, or has a line, or has come to an end of file; one that
-- fails or sleeps has read all there was.
pub consoleread-Reads :
    (killed started : Bool) (n : ℕ) (i : Input)
    → IsValid i
    → Reads started i n (consoleread killed started n i)
unfolding consoleread advance
consoleread-Reads killed started zero i v = record {
  copies = nothing-Copied started i 0 v;
  ended = inl refl;
}
consoleread-Reads killed started (suc n) i v = elim (Bool-cases (i.r == i.w)) [
  | inl e ↦ rw e (stopped killed (==→eq i.r i.w e))
  | inr e ↦ elim (Bool-cases (char_at i i.r == end_of_file)) [
    | inl f ↦ rw (e, f) (at_end started (ground (arith, e)) (==→eq (char_at i i.r) end_of_file f))
    | inr f ↦ elim (Bool-cases (char_at i i.r == newline)) [
      | inl g ↦ rw (e, f, g) (line (ground (arith, e)) (==→eq (char_at i i.r) newline g))
      | inr g ↦
          rw (e, f, g)
            (more started i n (consoleread killed true n (advance i)) v (ground (arith, e))
              (ground (arith, f)) (ground (arith, g))
              (consoleread-Reads killed true n (advance i)
                (advance-IsValid i v (ground (arith, e)))))
    ]
  ]
]
  where
    stopped :
        (b : Bool) → i.r ≡ i.w → Reads started i (suc n) (if b then fails [] i else sleeps [] i)
    stopped true e = record { copies = nothing-Copied started i (suc n) v; ended = e }
    stopped false e = record { copies = nothing-Copied started i (suc n) v; ended = e }

    here : (i.r + 0) % word ≡ i.r
    here = omega (arith, v.words)

    at_end :
        (b : Bool)
        → i.r ≢ i.w
        → char_at i i.r ≡ end_of_file
        → Reads b i (suc n) (reads [] (if b then i else advance i))
    at_end true ne f = record {
      copies = nothing-Copied true i (suc n) v;
      ended = inr (inr (λ e. ne (sym here ∙ e), ap (char_at i) here ∙ f));
    }
    at_end false ne f = record {
      copies = record {
        valid = advance-IsValid i v ne;
        same = refl;
        room = omega arith;
        there = omega arith;
        in_order = λ j h. absurd (omega arith);
        one_line = λ j h. absurd (omega arith);
        taken = inr (refl, refl, f, refl);
      };
      ended = inr (inr (λ e. ne (sym here ∙ e), ap (char_at i) here ∙ f));
    }

    line :
        i.r ≢ i.w
        → char_at i i.r ≡ newline
        → Reads started i (suc n) (reads (char_at i i.r ∷ []) (advance i))
    line ne g = record {
      copies = record {
        valid = advance-IsValid i v ne;
        same = refl;
        room = omega arith;
        there = omega (arith, v.words, v.order, ne);
        in_order = λ j h. let z : j ≡ 0 = omega (arith, h) in rw z (ap (char_at i) (sym here));
        one_line = λ j h.
            let z : j ≡ 0 = omega (arith, h) in
            rw z ((λ e. absurd (omega (arith, e, g))), λ h'. absurd (omega (arith, h')));
        taken = inl refl;
      };
      ended = inr (inl (0, refl, g));
    }
