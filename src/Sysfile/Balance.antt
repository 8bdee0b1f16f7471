-- ===== src/Sysfile/Balance.antt =====
-- The transactions of the system calls in sysfile.c: each call that begins one ends it.
pub mod Links
pub mod Create
pub mod Calls
use operating_systems_projec.Base.{
  ℕ, zero, suc, ◌+◌, ◌-◌, ◌*◌, ◌/◌, ◌%◌, ◌^◌, ◌≤◌, ◌<◌, min, ◌≡◌, refl, sym, ap, subst, ◌∙◌, ◌≢◌,
  ◌↔◌, ◌⊎◌, inl, inr, Bool, true, false, ◌&&◌, ◌||◌, not, Option, none, some, List, [], ◌∷◌, ◌++◌,
  append-nil, append_assoc, arith, ltb, leb, ◌==◌, if◌then◌else◌, ltb→lt, lt→ltb, leb→le, ==→eq,
  ==_refl, ==_ne, tests, Bool-cases, Option-cases, update, length, get_elem?, get_or, set, take,
  drop, replicate, length-append, length-set, get_elem?-set_self, get_elem?-set_ne, get_or-set_self,
  get_or-set_ne, length-replicate, length-take, take-append-drop, length-drop, get_or-take,
  get_or-drop, All-take, All-drop, All, NotIn, Distinct, Result, ok, panic, >>=-eq-ok, ℤ, pos,
  negsuc,
}
use operating_systems_projec.Fs.{Fs, M, ◌>>=◌, ◌>>◌, pure}
use operating_systems_projec.Fs.Inodes.{iupdate, ilock, iunlockput}
use operating_systems_projec.Fs.Open.{Leaves, Keeps, Leaves->>=, Leaves-at}
use operating_systems_projec.Fs.Open.Inodes.{Keeps-iupdate, Keeps-ilock, Keeps-iunlockput}
use operating_systems_projec.Sysfile.{Devsw, begin_op, end_op}
use operating_systems_projec.Sysfile.Links.{link_less, undo_link}

-- If the call is done, one call less is in a transaction.
abbrev pub Closes : {A : Type 0} → M A → Type 0
Closes m = (s : Fs) → Leaves (s.outstanding - 1) (m s)

pub Closes->>= :
    {A B : Type 0} → (m : M A) (f : A → M B) → Keeps m → ((a : A) → Closes (f a)) → Closes (m >>= f)
Closes->>= m f h g s =
    Leaves->>= s.outstanding (s.outstanding - 1) (m s) f (h s) (λ a t e.
      Leaves-at (t.outstanding - 1) (s.outstanding - 1) (f a t) (ap (λ n. n - 1) e) (g a t))

pub Closes-if :
    {A : Type 0} → (b : Bool) (m n : M A) → Closes m → Closes n → Closes (if b then m else n)
Closes-if true m n hm hn = hm
Closes-if false m n hm hn = hn

pub Closes-option :
    {A B : Type 0}
    → (o : Option B) (m : M A) (f : B → M A) → Closes m
    → ((b : B) → Closes (f b))
    → Closes (elim o [ none ↦ m | some b ↦ f b ])
Closes-option none m f h g = h
Closes-option (some b) m f h g = g b

pub Closes-end_op : {A : Type 0} → (a : A) → Closes (end_op >> pure a)
unfolding end_op
Closes-end_op a s = refl

pub Keeps-begin_op : {A : Type 0} → (m : M A) → Closes m → Keeps (begin_op >> m)
unfolding begin_op
Keeps-begin_op m h s =
    Leaves-at _ _ (m (record s { outstanding = s.outstanding + 1 })) (omega arith)
      (h (record s { outstanding = s.outstanding + 1 }))
