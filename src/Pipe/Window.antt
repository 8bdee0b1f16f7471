-- ===== src/Pipe/Window.antt =====
-- The bytes that a pipe holds, and the invariant of its two counters.
use operating_systems_projec.Base.{
  ℕ, zero, suc, ◌+◌, ◌-◌, ◌%◌, ◌≤◌, ◌<◌, ◌≡◌, refl, ap, true, false, List, [], ◌∷◌, ◌++◌, arith,
  length, get_or, set, length-set, get_or-set_self, get_or-set_ne,
}
use mathlib.Core.Path.{ap₂}
use native.Mathlib.Nat.{add-zero}
use operating_systems_projec.Pipe.{Pipe, pipesize, word, is_full, is_empty, put}

pub record IsValid (p : Pipe) : Type 0 where
  pub storage : length p.buf ≡ pipesize
  pub read_word : p.nread < word
  pub write_word : p.nwrite < word
  pub within : (p.nwrite + word - p.nread) % word ≤ pipesize

-- How many bytes are in the pipe: nwrite - nread, as unsigned words.
abbrev pub used : Pipe → ℕ
used p = (p.nwrite + word - p.nread) % word

-- `n` bytes from count `h` on; the counters wrap at 2^32, a multiple of the size.
abbrev pub window : List ℕ → ℕ → ℕ → List ℕ
window buf h zero = []
window buf h (suc n) = get_or buf (h % pipesize) 0 ∷ window buf ((h + 1) % word) n

abbrev pub contents : Pipe → List ℕ
contents p = window p.buf p.nread (used p)

pub length-window : (buf : List ℕ) (h n : ℕ) → length (window buf h n) ≡ n
length-window buf h zero = refl
length-window buf h (suc n) = ap suc (length-window buf ((h + 1) % word) n)

window-set :
    (buf : List ℕ) (b n h i : ℕ)
    → length buf ≡ pipesize
    → h < word
    → n < pipesize
    → i ≡ (h + n) % pipesize
    → window (set buf i b) h (suc n) ≡ window buf h n ++ (b ∷ [])
window-set buf b zero h i l hw np e =
    ap (λ x. x ∷ []) (rw (e, add-zero) (get_or-set_self buf (h % pipesize) b 0 (omega arith)))
window-set buf b (suc n) h i l hw np e =
    ap₂ ◌∷◌ (get_or-set_ne buf i (h % pipesize) b 0 (omega arith))
      (window-set buf b n ((h + 1) % word) i l (omega arith) (omega arith) (omega arith))

-- A byte put into a pipe that is not full goes behind those it holds.
pub put_lem :
    (p : Pipe) (b : ℕ)
    → IsValid p
    → is_full p ≡ false
    → IsValid (put p b) × (contents (put p b) ≡ contents p ++ (b ∷ []))
put_lem p b v nf = (
  record {
    storage = rw length-set v.storage;
    read_word = v.read_word;
    write_word = omega arith;
    within = omega (arith, room, v.within);
  },
  window_step,
)
  where
    room : used p < pipesize
    room = ground (arith, v.within, v.read_word, v.write_word)

    window_step : contents (put p b) ≡ contents p ++ (b ∷ [])
    window_step =
        let more : used (put p b) ≡ suc (used p) = omega (arith, room, v.read_word, v.write_word) in
        rw more (
          window-set p.buf b (used p) p.nread (p.nwrite % pipesize) v.storage v.read_word room
            (omega (arith, v.read_word, v.write_word)))

-- The oldest byte of a pipe that is not empty is at nread.
pub front_lem :
    (p : Pipe)
    → IsValid p
    → is_empty p ≡ false
    → let p' = record p { nread = (p.nread + 1) % word } in
      IsValid p' × (contents p ≡ get_or p.buf (p.nread % pipesize) 0 ∷ contents p')
front_lem p v ne = (
  record {
    storage = v.storage;
    read_word = omega arith;
    write_word = v.write_word;
    within = omega (arith, some_byte, v.within, v.read_word, v.write_word);
  },
  rw less refl,
)
  where
    some_byte : 0 < used p
    some_byte = ground (arith, v.read_word, v.write_word)

    less : used p ≡ suc ((p.nwrite + word - (p.nread + 1) % word) % word)
    less = omega (arith, some_byte, v.within, v.read_word, v.write_word)

pub empty_lem : (p : Pipe) → IsValid p → is_empty p ≡ true → contents p ≡ []
empty_lem p v e = let z : used p ≡ 0 = ground (arith, v.read_word) in rw z refl
