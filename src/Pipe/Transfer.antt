-- ===== src/Pipe/Transfer.antt =====
-- pipewrite and piperead: which bytes they move, and when they wait or fail.
use operating_systems_projec.Base.{
  ℕ, zero, suc, ◌+◌, ◌%◌, ◌≡◌, refl, ap, ◌∙◌, ◌≢◌, ◌⊎◌, inl, inr, Bool, true, false, ◌||◌, not,
  List, [], ◌∷◌, ◌++◌, append_assoc, if◌then◌else◌, Bool-cases, get_or, take, drop, pos, negsuc,
}
use operating_systems_projec.Pipe.{
  Pipe, pipesize, word, is_full, is_empty, put, Outcome, returns, sleeps, Chan, write_from,
  copy_out, minus_one,
}
use operating_systems_projec.Pipe.Window.{IsValid, contents, put_lem, front_lem, empty_lem}

abbrev pub left : Outcome → Pipe
left (returns r bytes p w) = p
left (sleeps c bytes p w) = p

abbrev pub bytes_of : Outcome → List ℕ
bytes_of (returns r bytes p w) = bytes
bytes_of (sleeps c bytes p w) = bytes

-- How a call of pipewrite for `n` bytes may leave the processor.
abbrev pub Settled : Bool → ℕ → Outcome → Type 0
Settled killed n (returns (pos m) rest p w) = (m ≡ n) × (rest ≡ []) × (w ≡ Chan.nread ∷ [])
Settled killed n (returns (negsuc m) rest p w) =
    (m ≡ 0) × (w ≡ []) × (is_full p ≡ true) × ((p.readopen ≡ false) ⊎ (killed ≡ true))
Settled killed n (sleeps c rest p w) =
    (c ≡ Chan.nwrite)
    × (w ≡ Chan.nread ∷ [])
    × (is_full p ≡ true)
    × (p.readopen ≡ true)
    × (killed ≡ false)
    × (rest ≢ [])

-- pipewrite, started or woken, keeps the pipe valid and the bytes in order: those in the pipe with
-- those still to be written are those there were. It returns `n` only when all are written, having
-- woken the readers; it fails only on a full pipe whose reader is gone or if it is killed, and then
-- wakes nobody; it sleeps only on a full pipe, having woken the readers.
pub write_from_lem :
    (killed : Bool) (n : ℕ) (bs : List ℕ) (p : Pipe)
    → IsValid p
    → let o = write_from killed n bs p in
      IsValid (left o) × (contents (left o) ++ bytes_of o ≡ contents p ++ bs) × Settled killed n o
unfolding write_from
write_from_lem killed n [] p v = (v, refl, (refl, refl, refl))
write_from_lem killed n (b ∷ bs) p v = elim (Bool-cases (is_full p)) [
  | inl full ↦ rw full (stop p.readopen killed refl refl full)
  | inr room ↦ rw room (step (put_lem p b v room) (write_from_lem killed n bs (put p b)))
]
  where
    step :
        IsValid (put p b) × (contents (put p b) ≡ contents p ++ (b ∷ []))
        → (IsValid (put p b)
            → let o = write_from killed n bs (put p b) in
              IsValid (left o)
              × (contents (left o) ++ bytes_of o ≡ contents (put p b) ++ bs)
              × Settled killed n o)
        → let o = write_from killed n bs (put p b) in
          IsValid (left o)
          × (contents (left o) ++ bytes_of o ≡ contents p ++ (b ∷ bs))
          × Settled killed n o
    step (v', e) rest =
        let (v'', e', s) = rest v' in
        (v'', e' ∙ ap (λ xs. xs ++ bs) e ∙ append_assoc (contents p) (b ∷ []) bs, s)

    stop :
        (o k : Bool)
        → p.readopen ≡ o
        → killed ≡ k
        → is_full p ≡ true
        → let r =
            if not o || k
            then returns minus_one (b ∷ bs) p []
            else sleeps Chan.nwrite (b ∷ bs) p (Chan.nread ∷ []) in
          IsValid (left r)
          × (contents (left r) ++ bytes_of r ≡ contents p ++ (b ∷ bs))
          × Settled killed n r
    stop false k eo ek f = (v, refl, (refl, refl, f, inl eo))
    stop true true eo ek f = (v, refl, (refl, refl, f, inr ek))
    stop true false eo ek f = (v, refl, (refl, refl, f, eo, ek, λ e. cc))

-- The copy loop of piperead takes the oldest bytes, as many as it may and as there are.
pub copy_out_lem :
    (n : ℕ) (p : Pipe)
    → IsValid p
    → let (bytes, p') = copy_out n p in
      IsValid p'
      × (bytes ≡ take n (contents p))
      × (contents p' ≡ drop n (contents p))
      × (p'.writeopen ≡ p.writeopen)
unfolding copy_out
copy_out_lem zero p v = (v, refl, refl, refl)
copy_out_lem (suc n) p v = elim (Bool-cases (is_empty p)) [
  | inl none_left ↦ rw (none_left, empty_lem p v none_left) (v, refl, refl, refl)
  | inr some_left ↦
      rw some_left (
        step (front_lem p v some_left) (copy_out_lem n (record p { nread = (p.nread + 1) % word })))
]
  where
    step :
        let q = record p { nread = (p.nread + 1) % word } in
        IsValid q × (contents p ≡ get_or p.buf (p.nread % pipesize) 0 ∷ contents q)
        → (IsValid q
            → let (bytes, p') = copy_out n q in
              IsValid p'
              × (bytes ≡ take n (contents q))
              × (contents p' ≡ drop n (contents q))
              × (p'.writeopen ≡ q.writeopen))
        → let (bytes, p') = copy_out n q in
          IsValid p'
          × (get_or p.buf (p.nread % pipesize) 0 ∷ bytes ≡ take (suc n) (contents p))
          × (contents p' ≡ drop (suc n) (contents p))
          × (p'.writeopen ≡ p.writeopen)
    step (v', e) rest = let (v'', b, c, o) = rest v' in (v'', rw (e, b), rw (e, c), o)
