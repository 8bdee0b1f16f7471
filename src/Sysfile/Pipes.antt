-- ===== src/Sysfile/Pipes.antt =====
-- pipealloc of pipe.c and sys_pipe of sysfile.c: two new files for the ends of a pipe, and a
-- descriptor for each. The pipe itself is the matter of Pipe; a file has the address of its page.
use operating_systems_projec.Base.{
  ℕ, Bool, true, false, not, Option, none, some, List, [], ◌∷◌, ◌==◌, if◌then◌else◌, set, Result,
  ok, ◌>>=◌,
}
use operating_systems_projec.Kalloc.{Kmem, kalloc}
use operating_systems_projec.File.{
  at, Closing, File, FileType, FileTable, Descriptors, filealloc, fileclose, fdalloc,
}

abbrev pub pipe_end : File → ℕ → Bool → File
pipe_end f p writable = record f {
  type = FileType.fd_pipe;
  readable = not writable;
  writable = writable;
  pipe = p;
}

-- The two files of a new pipe, if there are two and a page. A file that filealloc gives has no
-- type, so that nothing is left to close when it is given back.
pub data Alloc : Type 0 where
  no_pipe : FileTable → Kmem → Alloc
  new_pipe : ℕ → ℕ → FileTable → Kmem → Alloc

unfoldable pub with_page : FileTable → ℕ → ℕ → ℕ × Kmem → Result Alloc
with_page t f0 f1 (p, k) =
    if p == 0
    then (do (_, t1) ← fileclose t f0; (_, t2) ← fileclose t1 f1; ok (no_pipe t2 k))
    else let t1 = set t f0 (pipe_end (at t f0) p false) in
      ok (new_pipe f0 f1 (set t1 f1 (pipe_end (at t1 f1) p true)) k)

unfoldable pub pipealloc : FileTable → Kmem → Result Alloc
pipealloc t k = elim (filealloc t) [
  | none ↦ ok (no_pipe t k)
  | some (f0, t1) ↦ elim (filealloc t1) [
    | none ↦ fileclose t1 f0 >>= λ r. ok (no_pipe (r.1) k)
    | some (f1, t2) ↦ with_page t2 f0 f1 (kalloc k)
  ]
]

-- The reply: the two descriptors, or `none` for -1, with the process's descriptors, what is left to
-- close, in order, the files and the memory.
abbrev pub PipeReply : Type 0
PipeReply = Option (ℕ × ℕ) × Descriptors × List Closing × FileTable × Kmem

unfoldable pub drop_ends : Descriptors → FileTable → Kmem → ℕ → ℕ → Result PipeReply
drop_ends o t k rf wf = do
  (c1, t1) ← fileclose t rf
  (c2, t2) ← fileclose t1 wf
  ok (none, o, c1 ∷ c2 ∷ [], t2, k)

-- sys_pipe, past its check of the pointer.
unfoldable pub sys_pipe : Descriptors → FileTable → Kmem → Result PipeReply
sys_pipe o t k = pipealloc t k >>= λ a. elim a [
  | no_pipe t' k' ↦ ok (none, o, [], t', k')
  | new_pipe rf wf t' k' ↦ elim (fdalloc o rf) [
    | none ↦ drop_ends o t' k' rf wf
    | some (fd0, o1) ↦ elim (fdalloc o1 wf) [
      | none ↦ drop_ends (set o1 fd0 none) t' k' rf wf
      | some (fd1, o2) ↦ ok (some (fd0, fd1), o2, [], t', k')
    ]
  ]
]
