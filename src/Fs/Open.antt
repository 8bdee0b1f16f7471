-- ===== src/Fs/Open.antt =====
-- The operations of fs.c neither open nor close a transaction.
pub mod Inodes
pub mod Content
pub mod Dirs
use operating_systems_projec.Base.{
  ℕ, zero, suc, ◌+◌, ◌-◌, ◌*◌, ◌/◌, ◌%◌, ◌^◌, ◌≤◌, ◌<◌, min, ◌≡◌, refl, sym, ap, subst, ◌∙◌, ◌≢◌,
  ◌↔◌, ◌⊎◌, inl, inr, Bool, true, false, ◌&&◌, ◌||◌, not, Option, none, some, List, [], ◌∷◌, ◌++◌,
  append-nil, append_assoc, arith, ltb, leb, ◌==◌, if◌then◌else◌, ltb→lt, lt→ltb, leb→le, ==→eq,
  ==_refl, ==_ne, tests, Bool-cases, Option-cases, update, length, get_elem?, get_or, set, take,
  drop, replicate, length-append, length-set, get_elem?-set_self, get_elem?-set_ne, get_or-set_self,
  get_or-set_ne, length-replicate, length-take, take-append-drop, length-drop, get_or-take,
  get_or-drop, All-take, All-drop, All, NotIn, Distinct, Result, ok, panic, >>=-eq-ok, ℤ, pos,
  negsuc,
}
use operating_systems_projec.Fs.{
  current, Fs, Run, M, ◌>>=◌, ◌>>◌, pure, fails, modify, done, panics, waits, bpb, log_write, lh_n,
  logsize, write_block,
}
use operating_systems_projec.Log.{Block}
use operating_systems_projec.Fs.Blocks.{
  bfree, balloc, balloc_from, take_block, free_bit, set_bit, bzero, bit_of, readsb, bblock,
}

-- If the call is done, `n` calls are in a transaction.
abbrev pub Leaves : {A : Type 0} → ℕ → Run A → Type 0
Leaves n (done a s) = s.outstanding ≡ n
Leaves n panics = Unit
Leaves n (waits i) = Unit

abbrev pub Keeps : {A : Type 0} → M A → Type 0
Keeps m = (s : Fs) → Leaves s.outstanding (m s)

pub Leaves->>= :
    {A B : Type 0}
    → (n k : ℕ) (r : Run A) (f : A → M B) → Leaves n r
    → ((a : A) (s : Fs) → s.outstanding ≡ n → Leaves k (f a s))
    → Leaves k (elim r [ done a s ↦ f a s | panics ↦ panics | waits i ↦ waits i ])
Leaves->>= n k (done a s) f h g = g a s h
Leaves->>= n k panics f h g = tt
Leaves->>= n k (waits i) f h g = tt

pub Leaves-at : {A : Type 0} → (n k : ℕ) (r : Run A) → n ≡ k → Leaves n r → Leaves k r
Leaves-at n k (done a s) e h = h ∙ e
Leaves-at n k panics e h = tt
Leaves-at n k (waits i) e h = tt

pub Leaves-if :
    {A : Type 0}
    → (n : ℕ) (b : Bool) (x y : Run A) → Leaves n x
    → Leaves n y
    → Leaves n (if b then x else y)
Leaves-if n true x y hx hy = hx
Leaves-if n false x y hx hy = hy

pub Leaves-option :
    {A B : Type 0}
    → (n : ℕ) (o : Option B) (x : Run A) (f : B → Run A) → Leaves n x
    → ((b : B) → Leaves n (f b))
    → Leaves n (elim o [ none ↦ x | some b ↦ f b ])
Leaves-option n none x f h g = h
Leaves-option n (some b) x f h g = g b

pub Keeps->>= :
    {A B : Type 0} → (m : M A) (f : A → M B) → Keeps m → ((a : A) → Keeps (f a)) → Keeps (m >>= f)
Keeps->>= m f h g s =
    Leaves->>= s.outstanding s.outstanding (m s) f (h s)
      (λ a t e. Leaves-at t.outstanding s.outstanding (f a t) e (g a t))

pub Keeps->> : {A B : Type 0} → (m : M A) (n : M B) → Keeps m → Keeps n → Keeps (m >> n)
Keeps->> m n h g = Keeps->>= m (λ a. n) h (λ a. g)

pub Keeps-if :
    {A : Type 0} → (b : Bool) (m n : M A) → Keeps m → Keeps n → Keeps (if b then m else n)
Keeps-if true m n hm hn = hm
Keeps-if false m n hm hn = hn

pub Keeps-option :
    {A B : Type 0}
    → (o : Option B) (m : M A) (f : B → M A) → Keeps m
    → ((b : B) → Keeps (f b))
    → Keeps (elim o [ none ↦ m | some b ↦ f b ])
Keeps-option none m f h g = h
Keeps-option (some b) m f h g = g b

pub Keeps-pure : {A : Type 0} → (a : A) → Keeps (pure a)
Keeps-pure a s = refl

pub Keeps-current : Keeps current
Keeps-current s = refl

pub Keeps-modify : (f : Fs → Fs) → ((s : Fs) → (f s).outstanding ≡ s.outstanding) → Keeps (modify f)
Keeps-modify f h s = h s

pub Keeps-log_write : (b : ℕ) (x : Block) → Keeps (log_write b x)
unfolding log_write
Keeps-log_write b x s =
    let ok : Run (Unit {0}) = done tt (write_block b x s) in
    Leaves-if s.outstanding (leb logsize (lh_n s.logged) || leb (s.sb.nlog - 1) (lh_n s.logged))
      panics (if s.outstanding == 0 then panics else ok) tt
      (Leaves-if s.outstanding (s.outstanding == 0) panics ok tt refl)

Keeps-take_block : (b bi : ℕ) → Keeps (take_block b bi)
unfolding take_block bzero
Keeps-take_block b bi s =
    let bno = bblock b s.sb in
    let x = set_bit (s.blocks bno) bi in
    Keeps->> (log_write bno x >> log_write (b + bi) (λ w. 0)) (pure (b + bi))
      (Keeps->> (log_write bno x) (log_write (b + bi) (λ w. 0)) (Keeps-log_write bno x)
        (Keeps-log_write (b + bi) (λ w. 0)))
      (Keeps-pure (b + bi)) s

Leaves-found :
    {A : Type 0}
    → (n : ℕ) (o : Option ℕ) (x : Run A) (f : ℕ → Run A) → Leaves n x
    → ((b : ℕ) → Leaves n (f b))
    → Leaves n (elim o [ some b ↦ f b | none ↦ x ])
Leaves-found n none x f h g = h
Leaves-found n (some b) x f h g = g b

Keeps-balloc_from : (k b : ℕ) → Keeps (balloc_from k b)
unfolding balloc_from
Keeps-balloc_from zero b s = tt
Keeps-balloc_from (suc k) b s = Leaves-if s.outstanding (not (ltb b s.sb.size)) panics _ tt (
    Leaves-found s.outstanding (free_bit (s.blocks (bblock b s.sb)) s.sb.size b bpb 0) _ _
      (Keeps-balloc_from k (b + bpb) s) (λ bi. Keeps-take_block b bi s))

pub Keeps-balloc : Keeps balloc
unfolding balloc
Keeps-balloc s = Keeps-balloc_from (s.sb.size / bpb + 1) 0 s

pub Keeps-bfree : (b : ℕ) → Keeps (bfree b)
unfolding bfree
Keeps-bfree b s =
    Leaves-if s.outstanding (bit_of (s.blocks (bblock b (readsb s.blocks))) (b % bpb) == 0) panics _
      tt (Keeps-log_write _ _ (record s { sb = readsb s.blocks }))
