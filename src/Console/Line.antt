-- ===== src/Console/Line.antt =====
-- The counters of the line buffer stay in order, and no interrupt touches what is to be read.
use operating_systems_projec.Base.{
  ℕ, zero, suc, ◌+◌, ◌-◌, ◌%◌, ◌≤◌, ◌<◌, ◌≡◌, refl, subst, ◌∙◌, ◌≢◌, ◌⊎◌, inl, inr, true, false,
  ◌&&◌, ◌||◌, not, List, [], ◌∷◌, arith, ltb, ◌==◌, if◌then◌else◌, Bool-cases, length, set,
  length-set, get_or-set_ne,
}
use operating_systems_projec.Console.{
  Input, word, input_buf, char_at, step_back, kill_line, put_char, newline, end_of_file, intr_char,
  consoleintr,
}

pub record IsValid (i : Input) : Type 0 where
  pub storage : length i.buf ≡ input_buf
  pub words : (i.r < word) × (i.w < word) × (i.e < word)
  pub within : (i.e + word - i.r) % word ≤ input_buf
  pub order : (i.w + word - i.r) % word + (i.e + word - i.w) % word ≡ (i.e + word - i.r) % word

-- What can be read is still there, perhaps with more behind it.
pub record Extends (i i' : Input) : Type 0 where
  pub valid : IsValid i'
  pub same_r : i'.r ≡ i.r
  pub longer : (i.w + word - i.r) % word ≤ (i'.w + word - i.r) % word
  pub kept :
      (j : ℕ)
      → j < (i.w + word - i.r) % word
      → char_at i' ((i.r + j) % word) ≡ char_at i ((i.r + j) % word)

Extends-refl : (i : Input) → IsValid i → Extends i i
Extends-refl i v = record { valid = v; same_r = refl; longer = omega arith; kept = λ j h. refl }

step_back-Extends : (i : Input) → IsValid i → i.e ≢ i.w → Extends i (step_back i)
step_back-Extends i v ne = record {
  valid = record {
    storage = v.storage;
    words = (v.words.0, v.words.1, omega arith);
    within = omega (arith, v.within, v.order, v.words, ne);
    order = omega (arith, v.within, v.order, v.words, ne);
  };
  same_r = refl;
  longer = omega arith;
  kept = λ j h. refl;
}

Extends-trans : (i j k : Input) → Extends i j → Extends j k → Extends i k
Extends-trans i j k f g = record {
  valid = g.valid;
  same_r = g.same_r ∙ f.same_r;
  longer = omega (arith, f.longer, g.longer, f.same_r);
  kept = λ n h.
      subst (λ r. char_at k ((r + n) % word) ≡ char_at j ((r + n) % word)) f.same_r
        (g.kept n (omega (arith, h, f.longer, f.same_r)))
      ∙ f.kept n h;
}

abbrev typed : Input → ℕ → Input
typed i c = record i { buf = set i.buf (i.e % input_buf) c; e = (i.e + 1) % word }

typed-Extends :
    (i : Input) (c : ℕ) → IsValid i → (i.e + word - i.r) % word < input_buf → Extends i (typed i c)
typed-Extends i c v room = record {
  valid = record {
    storage = length-set i.buf (i.e % input_buf) c ∙ v.storage;
    words = (v.words.0, v.words.1, omega arith);
    within = omega (arith, room, v.words);
    order = omega (arith, room, v.order, v.words);
  };
  same_r = refl;
  longer = omega arith;
  kept = λ j h.
      get_or-set_ne i.buf (i.e % input_buf) ((i.r + j) % word % input_buf) c 0
        (omega (arith, h, room, v.order, v.words));
}

completed-Extends : (i : Input) → IsValid i → Extends i (record i { w = i.e })
completed-Extends i v = record {
  valid = record {
    storage = v.storage;
    words = (v.words.0, v.words.2, v.words.2);
    within = v.within;
    order = omega (arith, v.words);
  };
  same_r = refl;
  longer = omega (arith, v.order);
  kept = λ j h. refl;
}

put_char-Extends :
    (i : Input) (c : ℕ)
    → IsValid i
    → (i.e + word - i.r) % word < input_buf
    → Extends i (put_char i c).0
unfolding put_char
put_char-Extends i c v room =
    let t = typed-Extends i c v room in
    elim (Bool-cases
      (c == newline || c == end_of_file || (typed i c).e == (i.r + input_buf) % word)) [
        | inl e ↦ rw e (Extends-trans i (typed i c) _ t (completed-Extends (typed i c) t.valid))
        | inr e ↦ rw e t
      ]

kill_line-Extends :
    (n : ℕ) (i : Input) → IsValid i → n ≡ (i.e + word - i.w) % word → Extends i (kill_line n i)
unfolding kill_line
kill_line-Extends zero i v e = Extends-refl i v
kill_line-Extends (suc n) i v e =
    elim (Bool-cases (not (char_at i ((i.e + word - 1) % word) == newline))) [
      | inl t ↦
          let s = step_back-Extends i v (omega (arith, e, v.words)) in
          rw t (
            Extends-trans i (step_back i) _ s
              (kill_line-Extends n (step_back i) s.valid (omega (arith, e, v.words))))
      | inr t ↦ rw t (Extends-refl i v)
    ]

intr_char-Extends : (i : Input) (c : ℕ) → IsValid i → Extends i (intr_char i c).0
unfolding intr_char
intr_char-Extends i c v = elim (Bool-cases (c == 16)) [
  | inl e ↦ rw e (Extends-refl i v)
  | inr e ↦ elim (Bool-cases (c == 21)) [
    | inl f ↦ rw (e, f) (kill_line-Extends _ i v refl)
    | inr f ↦ elim (Bool-cases (c == 8 || c == 127)) [
      | inl g ↦ rw (e, f, g) (erased (Bool-cases (i.e == i.w)))
      | inr g ↦ elim (Bool-cases (not (c == 0) && ltb ((i.e + word - i.r) % word) input_buf)) [
        | inl h ↦ rw (e, f, g, h) (put_char-Extends i _ v (ground (arith, h)))
        | inr h ↦ rw (e, f, g, h) (Extends-refl i v)
      ]
    ]
  ]
]
  where
    erased :
        ((i.e == i.w) ≡ true) ⊎ ((i.e == i.w) ≡ false)
        → Extends i (if not (i.e == i.w) then step_back i else i)
    erased (inl e) = rw e (Extends-refl i v)
    erased (inr e) = rw e (step_back-Extends i v (ground (arith, e)))

-- Whatever is typed, consoleintr keeps the counters in order and the ring from overflowing, and
-- every character that consoleread could have read is still there, at its place.
pub consoleintr-Extends : (i : Input) (cs : List ℕ) → IsValid i → Extends i (consoleintr i cs).0
unfolding consoleintr
consoleintr-Extends i [] v = Extends-refl i v
consoleintr-Extends i (c ∷ cs) v =
    let first = intr_char-Extends i c v in
    Extends-trans i (intr_char i c).0 _ first (consoleintr-Extends (intr_char i c).0 cs first.valid)
