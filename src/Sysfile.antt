-- ===== src/Sysfile.antt =====
-- The system calls of sysfile.c that work on inodes, and the operations of file.c on open inodes. An
-- argument that argstr, argint or argptr did not accept is `none`. begin_op and end_op count the
-- transaction, and the last end_op, which commits, leaves nothing logged; their waiting and the commit
-- are the matter of Log, and change no block that bread finds. Pipes have a state of their own, so their functions are arguments, as the device table is.
pub mod Links
pub mod Create
pub mod Io
pub mod Pipes
pub mod Balance
mod Tests
use operating_systems_projec.Base.{
  ℕ, zero, suc, ◌+◌, ◌-◌, ◌*◌, ◌/◌, ◌%◌, ◌^◌, ◌≤◌, ◌<◌, min, ◌≡◌, refl, sym, ap, subst, ◌∙◌, ◌≢◌,
  ◌↔◌, ◌⊎◌, inl, inr, Bool, true, false, ◌&&◌, ◌||◌, not, Option, none, some, List, [], ◌∷◌, ◌++◌,
  append-nil, append_assoc, arith, ltb, leb, ◌==◌, if◌then◌else◌, ltb→lt, lt→ltb, leb→le, ==→eq,
  ==_refl, ==_ne, tests, Bool-cases, Option-cases, update, length, get_elem?, get_or, set, take,
  drop, replicate, length-append, length-set, get_elem?-set_self, get_elem?-set_ne, get_or-set_self,
  get_or-set_ne, length-replicate, length-take, take-append-drop, length-drop, get_or-take,
  get_or-drop, All-take, All-drop, All, NotIn, Distinct, Result, ok, panic, >>=-eq-ok, ℤ, pos,
  negsuc,
}
use operating_systems_projec.Fs.{at, put, Fs, M, ◌>>=◌, ◌>>◌, pure, fails, modify}
use operating_systems_projec.Fs.Content.{Devsw}
use operating_systems_projec.File.{Closing, nothing, close_pipe, put_inode}
use operating_systems_projec.Fs.Inodes.{iput}

pub record Env : Type 0 where
  pub devsw : Devsw
  pub pipeclose : ℕ → Bool → M (Unit {0})
  pub piperead : ℕ → ℕ → M (ℤ × List ℕ)
  pub pipewrite : ℕ → List ℕ → M ℤ

unfoldable pub begin_op : M (Unit {0})
begin_op = modify (λ s. record s { outstanding = s.outstanding + 1 })

unfoldable pub end_op : M (Unit {0})
end_op = modify (λ s. record s {
  outstanding = s.outstanding - 1;
  logged = if s.outstanding - 1 == 0 then [] else s.logged;
})

-- `end_op(); return -1;`
abbrev pub failed_op : {A : Type 0} → A → M (ℤ × A)
failed_op a = end_op >> pure (negsuc 0, a)

abbrev pub lift : {A : Type 0} → Result A → M A
lift r = elim r [ ok a ↦ pure a | panic ↦ fails ]

abbrev pub is_negative : ℤ → Bool
is_negative (pos n) = false
is_negative (negsuc n) = true

-- What fileclose does to the pipe or the inode of a file without references.
unfoldable pub finish : Env → Closing → M (Unit {0})
finish env nothing = pure tt
finish env (close_pipe p writable) = env.pipeclose p writable
finish env (put_inode ip) = do begin_op; iput ip; end_op
