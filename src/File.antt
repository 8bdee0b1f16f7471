-- ===== src/File.antt =====
-- file.c: the system's table of open files, and the descriptor tables of sysfile.c that point into
-- it. A pointer to a struct file is its index in the table. The table changes only under
-- ftable.lock, so each call is one step; what fileclose then does to a pipe or an inode it returns.
mod Tests
pub mod Refs
pub mod Descriptors
use operating_systems_projec.Base.{
  ℕ, zero, suc, ◌+◌, ◌-◌, ◌*◌, ◌/◌, ◌%◌, ◌^◌, ◌≤◌, ◌<◌, min, ◌≡◌, refl, sym, ap, subst, ◌∙◌, ◌≢◌,
  ◌↔◌, ◌⊎◌, inl, inr, Bool, true, false, ◌&&◌, ◌||◌, not, Option, none, some, List, [], ◌∷◌, ◌++◌,
  append-nil, append_assoc, arith, ltb, leb, ◌==◌, if◌then◌else◌, ltb→lt, lt→ltb, leb→le, ==→eq,
  ==_refl, ==_ne, tests, Bool-cases, Option-cases, update, length, get_elem?, get_or, set, take,
  drop, replicate, length-append, length-set, get_elem?-set_self, get_elem?-set_ne, get_or-set_self,
  get_or-set_ne, length-replicate, length-take, take-append-drop, All, NotIn, Distinct, Result, ok,
  panic, ◌>>=◌, ℤ, pos, negsuc,
}

pub data FileType : Type 0 where
  fd_none fd_pipe fd_inode : FileType

pub record File : Type 0 where
  pub type : FileType
  pub ref : ℕ
  pub readable : Bool
  pub writable : Bool
  pub pipe : ℕ
  pub ip : ℕ
  pub off : ℕ

abbrev pub nfile : ℕ
nfile = 100

abbrev pub nofile : ℕ
nofile = 16

abbrev pub FileTable : Type 0
FileTable = List File

abbrev pub blank : File
blank = record {
  type = FileType.fd_none;
  ref = 0;
  readable = false;
  writable = false;
  pipe = 0;
  ip = 0;
  off = 0;
}

abbrev pub at : FileTable → ℕ → File
at t f = get_or t f blank

-- The first file from index `i` on that is not referenced.
unfoldable pub find_free : FileTable → ℕ → Option ℕ
find_free [] i = none
find_free (f ∷ t) i = if f.ref == 0 then some i else find_free t (i + 1)

unfoldable pub filealloc : FileTable → Option (ℕ × FileTable)
filealloc t = elim (find_free t 0) [
  | none ↦ none
  | some f ↦ some (f, set t f (record (at t f) { ref = 1 }))
]

unfoldable pub filedup : FileTable → ℕ → Result FileTable
filedup t f =
    if ltb (at t f).ref 1 then panic else ok (set t f (record (at t f) { ref = (at t f).ref + 1 }))

-- What is left to do once a file has no reference: nothing, pipeclose, or iput in a transaction.
pub data Closing : Type 0 where
  nothing : Closing
  close_pipe : ℕ → Bool → Closing
  put_inode : ℕ → Closing

unfoldable pub closing : File → Closing
closing f = elim f.type [
  | FileType.fd_none ↦ nothing
  | FileType.fd_pipe ↦ close_pipe f.pipe f.writable
  | FileType.fd_inode ↦ put_inode f.ip
]

unfoldable pub fileclose : FileTable → ℕ → Result (Closing × FileTable)
fileclose t f =
    let file = at t f in
    if ltb file.ref 1
    then panic
    else if ltb 0 (file.ref - 1)
    then ok (nothing, set t f (record file { ref = file.ref - 1 }))
    else ok (closing file, set t f (record file { ref = 0; type = FileType.fd_none }))

-- A process's ofile; null is `none`.
abbrev pub Descriptors : Type 0
Descriptors = List (Option ℕ)

abbrev pub file_of : Descriptors → ℕ → Option ℕ
file_of o fd = get_or o fd none

-- The range check of argfd on a descriptor that was fetched, and its file.
unfoldable pub argfd : Descriptors → ℤ → Option (ℕ × ℕ)
argfd o (negsuc n) = none
argfd o (pos fd) =
    if leb nofile fd then none else elim (file_of o fd) [ none ↦ none | some f ↦ some (fd, f) ]

unfoldable pub fdalloc_from : Descriptors → ℕ → ℕ → Option (ℕ × Descriptors)
fdalloc_from [] fd f = none
fdalloc_from (none ∷ o) fd f = some (fd, some f ∷ o)
fdalloc_from (some g ∷ o) fd f = elim (fdalloc_from o (fd + 1) f) [
  | none ↦ none
  | some (n, o') ↦ some (n, some g ∷ o')
]

unfoldable pub fdalloc : Descriptors → ℕ → Option (ℕ × Descriptors)
fdalloc o f = fdalloc_from o 0 f

abbrev pub Reply : Type 0
Reply = ℤ × Descriptors × FileTable

abbrev pub failed : Descriptors → FileTable → Reply
failed o t = (negsuc 0, o, t)

unfoldable pub dup_file : Descriptors → FileTable → ℕ → Result Reply
dup_file o t f = elim (fdalloc o f) [
  | none ↦ ok (failed o t)
  | some (fd, o') ↦ filedup t f >>= λ t'. ok (pos fd, o', t')
]

unfoldable pub sys_dup : Descriptors → FileTable → ℤ → Result Reply
sys_dup o t n = elim (argfd o n) [ none ↦ ok (failed o t) | some (fd, f) ↦ dup_file o t f ]

unfoldable pub sys_close : Descriptors → FileTable → ℤ → Result (Closing × Reply)
sys_close o t n = elim (argfd o n) [
  | none ↦ ok (nothing, failed o t)
  | some (fd, f) ↦ fileclose t f >>= λ r. ok (r.0, (pos 0, set o fd none, r.1))
]

-- fork's loop over the parent's descriptors: the child's, and the table.
unfoldable pub dup_all : Descriptors → FileTable → Result (Descriptors × FileTable)
dup_all [] t = ok ([], t)
dup_all (none ∷ o) t = do (o', t') ← dup_all o t; ok (none ∷ o', t')
dup_all (some f ∷ o) t = do t' ← filedup t f; (o', t'') ← dup_all o t'; ok (some f ∷ o', t'')

-- exit's loop over the descriptors: the files to finish closing, and the table.
unfoldable pub close_all : Descriptors → FileTable → Result (List Closing × FileTable)
close_all [] t = ok ([], t)
close_all (none ∷ o) t = close_all o t
close_all (some f ∷ o) t = do (c, t') ← fileclose t f; (cs, t'') ← close_all o t'; ok (c ∷ cs, t'')
