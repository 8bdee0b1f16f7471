-- ===== src/Pipe/Stream.antt =====
-- A writer and a reader of one pipe, interleaved as the scheduler likes: the pipe is a queue.
use operating_systems_projec.Base.{
  ℕ, ◌≡◌, refl, sym, ap, subst, ◌∙◌, ◌⊎◌, inl, inr, Bool, true, false, ◌&&◌, List, [], ◌∷◌, ◌++◌,
  append-nil, append_assoc, arith, if◌then◌else◌, Bool-cases, length, take, take-append-drop, pos,
}
use operating_systems_projec.Pipe.{
  Pipe, is_empty, returns, sleeps, Chan, write_from, copied, piperead, pipeclose, minus_one,
}
use operating_systems_projec.Pipe.Window.{IsValid, contents}
use operating_systems_projec.Pipe.Transfer.{left, bytes_of, write_from_lem, copy_out_lem}

-- `pending` is what the writer's call has still to write, `offered` all that its calls were given,
-- and `received` all that the reader's calls have returned.
pub record Link : Type 0 where
  pub pipe : Pipe
  pub pending : List ℕ
  pub offered : List ℕ
  pub received : List ℕ

-- A step is a new call of write, a run of either call until it returns or sleeps, or a close of an
-- end. A writer whose call has failed keeps its bytes and makes no further call.
pub data Step : Link → Link → Type 0 where
  call :
      (s : Link) (bs : List ℕ)
      → s.pending ≡ []
      → Step s (record s { pending = bs; offered = s.offered ++ bs })
  write :
      (s : Link) (killed : Bool) (n : ℕ)
      → Step s (record s {
        pipe = left (write_from killed n s.pending s.pipe);
        pending = bytes_of (write_from killed n s.pending s.pipe);
      })
  read :
      (s : Link) (killed : Bool) (n : ℕ)
      → Step s (record s {
        pipe = left (piperead killed s.pipe n);
        received = s.received ++ bytes_of (piperead killed s.pipe n);
      })
  close : (s : Link) (writable : Bool) → Step s (record s { pipe = (pipeclose s.pipe writable).0 })

pub data Reach (s : Link) : Link → Type 0 where
  here : Reach s s
  next : {t u : Link} → Reach s t → Step t u → Reach s u

-- What was read, what is in the pipe and what is still to be written make up what was offered.
pub record IsQueue (s : Link) : Type 0 where
  pub valid : IsValid s.pipe
  pub in_order : s.received ++ (contents s.pipe ++ s.pending) ≡ s.offered

-- piperead returns the oldest bytes of the pipe, up to `n`, and leaves the others; it sleeps only on
-- an empty pipe whose writer is there, and fails only there and if it is killed.
pub piperead_lem :
    (killed : Bool) (p : Pipe) (n : ℕ)
    → IsValid p
    → let o = piperead killed p n in
      IsValid (left o)
      × (bytes_of o ++ contents (left o) ≡ contents p)
      × (((o ≡ returns (pos (length (bytes_of o))) (bytes_of o) (left o) (Chan.nwrite ∷ []))
            × (bytes_of o ≡ take n (contents p)))
          ⊎ ((is_empty p ≡ true)
              × (p.writeopen ≡ true)
              × (o ≡ (if killed then returns minus_one [] p [] else sleeps Chan.nread [] p []))))
unfolding piperead copied
piperead_lem killed p n v = elim (Bool-cases (is_empty p && p.writeopen)) [
  | inl wait ↦ rw wait (waiting killed (ground arith) (ground arith))
  | inr go ↦
      let c = copy_out_lem n p v in
      rw go (c.0, rw (c.1, c.2) (take-append-drop n (contents p)), inl (refl, c.1))
]
  where
    waiting :
        (k : Bool)
        → is_empty p ≡ true
        → p.writeopen ≡ true
        → let o = if k then returns minus_one [] p [] else sleeps Chan.nread [] p [] in
          IsValid (left o)
          × (bytes_of o ++ contents (left o) ≡ contents p)
          × (((o ≡ returns (pos (length (bytes_of o))) (bytes_of o) (left o) (Chan.nwrite ∷ []))
                × (bytes_of o ≡ take n (contents p)))
              ⊎ ((is_empty p ≡ true)
                  × (p.writeopen ≡ true)
                  × (o ≡ (if k then returns minus_one [] p [] else sleeps Chan.nread [] p []))))
    waiting true e w = (v, refl, inr (e, w, refl))
    waiting false e w = (v, refl, inr (e, w, refl))

-- Every step keeps the order of the bytes.
pub Step-IsQueue : {s t : Link} → Step s t → IsQueue s → IsQueue t
unfolding pipeclose
Step-IsQueue (call s bs e) q = record {
  valid = q.valid;
  in_order =
      sym (append_assoc s.received (contents s.pipe) bs)
      ∙ ap (λ xs. xs ++ bs)
          (ap (λ xs. s.received ++ xs) (sym (append-nil (contents s.pipe)))
            ∙ subst (λ xs. s.received ++ (contents s.pipe ++ xs) ≡ s.offered) e q.in_order);
}
Step-IsQueue (write s killed n) q =
    let w = write_from_lem killed n s.pending s.pipe q.valid in
    record { valid = w.0; in_order = ap (λ xs. s.received ++ xs) w.1 ∙ q.in_order }
Step-IsQueue (read s killed n) q =
    let r = piperead_lem killed s.pipe n q.valid in
    record {
      valid = r.0;
      in_order =
          append_assoc s.received (bytes_of (piperead killed s.pipe n)) _
          ∙ ap (λ xs. s.received ++ xs)
              (sym (append_assoc (bytes_of (piperead killed s.pipe n)) _ s.pending)
                ∙ ap (λ xs. xs ++ s.pending) r.1)
          ∙ q.in_order;
    }
Step-IsQueue (close s true) q = record {
  valid = record {
    storage = q.valid.storage;
    read_word = q.valid.read_word;
    write_word = q.valid.write_word;
    within = q.valid.within;
  };
  in_order = q.in_order;
}
Step-IsQueue (close s false) q = record {
  valid = record {
    storage = q.valid.storage;
    read_word = q.valid.read_word;
    write_word = q.valid.write_word;
    within = q.valid.within;
  };
  in_order = q.in_order;
}

-- Whatever the order of the steps, from a state that is in order (such as a fresh pipe): the bytes
-- read so far, then those in the pipe, then those that the writer has still to write, are the bytes
-- offered, in order.
pub Reach-IsQueue : {s t : Link} → IsQueue s → Reach s t → IsQueue t
Reach-IsQueue q here = q
Reach-IsQueue q (next r st) = Step-IsQueue st (Reach-IsQueue q r)
