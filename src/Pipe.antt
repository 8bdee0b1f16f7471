-- ===== src/Pipe.antt =====
-- pipe.c: a ring of 512 bytes between two ends. A call runs under p->lock until it returns or goes
-- to sleep; `Outcome` gives which, the pipe as it is left, and the channels woken. A sleeper that is
-- woken runs the call again from where it slept, with what is left to do.
mod Tests
pub mod Window
pub mod Transfer
pub mod Stream
use operating_systems_projec.Base.{
  ℕ, zero, suc, ◌+◌, ◌-◌, ◌*◌, ◌/◌, ◌%◌, ◌^◌, ◌≤◌, ◌<◌, min, ◌≡◌, refl, sym, ap, subst, ◌∙◌, ◌≢◌,
  ◌↔◌, ◌⊎◌, inl, inr, Bool, true, false, ◌&&◌, ◌||◌, not, Option, none, some, List, [], ◌∷◌, ◌++◌,
  append-nil, append_assoc, arith, ltb, leb, ◌==◌, if◌then◌else◌, ltb→lt, lt→ltb, leb→le, ==→eq,
  ==_refl, ==_ne, tests, Bool-cases, Option-cases, update, length, get_elem?, get_or, set, take,
  drop, replicate, length-append, length-set, get_elem?-set_self, get_elem?-set_ne, get_or-set_self,
  get_or-set_ne, length-replicate, length-take, take-append-drop, All, NotIn, Distinct, Result, ok,
  panic, ◌>>=◌, ℤ, pos, negsuc,
}

abbrev pub pipesize : ℕ
pipesize = 512

abbrev pub word : ℕ
word = 2 ^ 32

pub record Pipe : Type 0 where
  pub buf : List ℕ
  pub nread : ℕ
  pub nwrite : ℕ
  pub readopen : Bool
  pub writeopen : Bool

-- The fields whose addresses serve as sleep channels.
pub data Chan : Type 0 where
  nread nwrite : Chan

-- `bytes` are those still to be written (or, for a reader, those copied out).
pub data Outcome : Type 0 where
  returns : ℤ → List ℕ → Pipe → List Chan → Outcome
  sleeps : Chan → List ℕ → Pipe → List Chan → Outcome

abbrev pub minus_one : ℤ
minus_one = negsuc 0

-- pipealloc, past the allocation of the page: `page` is what the page held.
pub init : List ℕ → Pipe
init page = record { buf = page; nread = 0; nwrite = 0; readopen = true; writeopen = true }

abbrev pub is_full : Pipe → Bool
is_full p = p.nwrite == (p.nread + pipesize) % word

abbrev pub is_empty : Pipe → Bool
is_empty p = p.nread == p.nwrite

-- `p->data[p->nwrite++ % PIPESIZE] = b`
abbrev pub put : Pipe → ℕ → Pipe
put p b = record p { buf = set p.buf (p.nwrite % pipesize) b; nwrite = (p.nwrite + 1) % word }

-- The loop of pipewrite over the bytes that are left of `n`.
unfoldable pub write_from : Bool → ℕ → List ℕ → Pipe → Outcome
write_from killed n [] p = returns (pos n) [] p (Chan.nread ∷ [])
write_from killed n (b ∷ bs) p =
    if is_full p
    then (if not p.readopen || killed
        then returns minus_one (b ∷ bs) p []
        else sleeps Chan.nwrite (b ∷ bs) p (Chan.nread ∷ []))
    else write_from killed n bs (put p b)

pub pipewrite : Bool → Pipe → List ℕ → Outcome
unfolding write_from
pipewrite killed p addr = write_from killed (length addr) addr p

-- The copy loop of piperead: at most `n` bytes, and the pipe that is left.
unfoldable pub copy_out : ℕ → Pipe → List ℕ × Pipe
copy_out zero p = ([], p)
copy_out (suc n) p =
    let (bytes, p') = copy_out n (record p { nread = (p.nread + 1) % word }) in
    if is_empty p then ([], p) else (get_or p.buf (p.nread % pipesize) 0 ∷ bytes, p')

copied : List ℕ × Pipe → Outcome
copied (bytes, p) = returns (pos (length bytes)) bytes p (Chan.nwrite ∷ [])

pub piperead : Bool → Pipe → ℕ → Outcome
unfolding copied copy_out
piperead killed p n =
    if is_empty p && p.writeopen
    then (if killed then returns minus_one [] p [] else sleeps Chan.nread [] p [])
    else copied (copy_out n p)

-- The pipe, whether its page is freed, and the channel woken.
pub pipeclose : Pipe → Bool → Pipe × Bool × Chan
pipeclose p writable = let p' = closed in (p', not p'.readopen && not p'.writeopen, woken)
  where
    closed : Pipe
    closed = if writable then record p { writeopen = false } else record p { readopen = false }

    woken : Chan
    woken = if writable then Chan.nread else Chan.nwrite
