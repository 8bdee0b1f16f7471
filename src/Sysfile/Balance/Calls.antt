-- ===== src/Sysfile/Balance/Calls.antt =====
-- sys_open and filewrite end the transactions that they begin, and so all calls together.
use operating_systems_projec.Base.{
  ℕ, zero, suc, ◌+◌, refl, Bool, not, Option, none, some, List, [], ◌∷◌, if◌then◌else◌, length, set,
  take, drop, Result, ok, panic, ℤ, pos, negsuc,
}
use operating_systems_projec.Fs.{t_file, ◌>>=◌, pure, fails}
use operating_systems_projec.Fs.Inodes.{ilock, iunlock, iput, iunlockput}
use operating_systems_projec.Fs.Content.{writei}
use operating_systems_projec.Fs.Open.{Keeps, Keeps->>=, Keeps-if}
use operating_systems_projec.Fs.Open.Inodes.{
  Keeps-ilock, Keeps-iunlock, Keeps-iput, Keeps-iunlockput,
}
use operating_systems_projec.Fs.Open.Content.{DevswKeeps, Keeps-writei}
use operating_systems_projec.File.{
  at as file_at, FileType, FileTable, Descriptors, failed, filealloc, fileclose, fdalloc, Closing,
  nothing, close_pipe, put_inode,
}
use operating_systems_projec.Sysfile.{Env, end_op, lift, finish}
use operating_systems_projec.Sysfile.Links.{sys_link, sys_unlink}
use operating_systems_projec.Sysfile.Create.{
  create, has_flag, o_create, open_found, opened, open_fd, open_inode, open_path, sys_open,
  sys_mkdir, sys_mknod, sys_chdir,
}
use operating_systems_projec.Sysfile.Io.{
  advance, max_chunk, write_chunk, is_count, went_wrong, write_chunks, filewrite,
}
use operating_systems_projec.Sysfile.Balance.{
  Closes, Closes->>=, Closes-option, Closes-end_op, Keeps-begin_op,
}
use operating_systems_projec.Sysfile.Balance.Links.{Keeps-sys_link, Keeps-sys_unlink}
use operating_systems_projec.Sysfile.Balance.Create.{
  Keeps-create, Keeps-open_found, Keeps-sys_mkdir, Keeps-sys_mknod, Keeps-sys_chdir,
}

-- The functions of the devices and pipes leave the transactions as they are.
pub record EnvKeeps (env : Env) : Type 0 where
  pub devices : DevswKeeps env.devsw
  pub closes : (p : ℕ) (writable : Bool) → Keeps (env.pipeclose p writable)
  pub writes : (p : ℕ) (src : List ℕ) → Keeps (env.pipewrite p src)

module _ (env : Env) (k : EnvKeeps env) where
  Keeps-finish : (c : Closing) → Keeps (finish env c)
  unfolding finish end_op
  Keeps-finish nothing = λ s. refl
  Keeps-finish (close_pipe p writable) = k.closes p writable
  Keeps-finish (put_inode ip) =
      Keeps-begin_op _ (Closes->>= (iput ip) (λ u. end_op) (Keeps-iput ip) (λ u s. refl))

  Keeps-lift : {A : Type 0} → (r : Result A) → Keeps (lift r)
  Keeps-lift (ok a) = λ s. refl
  Keeps-lift panic = λ s. tt

  Closes-open_fd :
      (o : Descriptors) (t : FileTable) (f ip omode : ℕ) → Closes (open_fd env o t f ip omode)
  unfolding open_fd
  Closes-open_fd o t f ip omode =
      Closes-option (fdalloc o f) _ _
        (Closes->>= (lift (fileclose t f)) _ (Keeps-lift (fileclose t f)) (λ r.
          Closes->>= (finish env (r.0)) _ (Keeps-finish (r.0)) (λ a.
            Closes->>= (iunlockput ip) _ (Keeps-iunlockput ip)
              (λ b. Closes-end_op (failed o (r.1))))))
        (λ e.
          Closes->>= (iunlock ip) _ (Keeps-iunlock ip)
            (λ a. Closes-end_op (pos (e.0), e.1, set t f (opened (file_at t f) ip omode))))

  Keeps-sys_open :
      (cwd : ℕ) (o : Descriptors) (t : FileTable) (path : Option (List ℕ)) (omode : Option ℕ)
      → Keeps (sys_open env cwd o t path omode)
  unfolding sys_open open_path open_inode
  Keeps-sys_open cwd o t none omode = λ s. refl
  Keeps-sys_open cwd o t (some path) none = λ s. refl
  Keeps-sys_open cwd o t (some path) (some omode) = Keeps-begin_op _ (
      Closes->>= _ _
        (Keeps-if (has_flag omode o_create) (create env.devsw cwd path t_file 0 0)
          (open_found env.devsw cwd path omode)
          (Keeps-create env.devsw k.devices cwd path t_file 0 0)
          (Keeps-open_found env.devsw k.devices cwd path omode))
        (λ r. Closes-option r _ _ (Closes-end_op (failed o t)) (λ ip.
          Closes-option (filealloc t) _ _
            (Closes->>= (iunlockput ip) _ (Keeps-iunlockput ip) (λ u. Closes-end_op (failed o t)))
            (λ e. Closes-open_fd o (e.1) (e.0) ip omode))))

  Keeps-write_chunk : (t : FileTable) (f : ℕ) (chunk : List ℕ) → Keeps (write_chunk env t f chunk)
  unfolding write_chunk
  Keeps-write_chunk t f chunk = Keeps-begin_op _ (
      Closes->>= (ilock (file_at t f).ip) _ (Keeps-ilock (file_at t f).ip) (λ a.
        Closes->>= (writei env.devsw (file_at t f).ip (file_at t f).off chunk) _
          (Keeps-writei env.devsw k.devices (file_at t f).ip (file_at t f).off chunk)
          (λ r.
            Closes->>= (iunlock (file_at t f).ip) _ (Keeps-iunlock (file_at t f).ip)
              (λ b. Closes-end_op (r, advance t f r)))))

  Keeps-write_chunks :
      (n : ℕ) (t : FileTable) (f : ℕ) (src : List ℕ) → Keeps (write_chunks n env t f src)
  unfolding write_chunks
  Keeps-write_chunks zero t f src = λ s. refl
  Keeps-write_chunks (suc n) t f [] = λ s. refl
  Keeps-write_chunks (suc n) t f (c ∷ src) =
      Keeps->>= (write_chunk env t f (take max_chunk (c ∷ src))) _
        (Keeps-write_chunk t f (take max_chunk (c ∷ src)))
        (λ e.
          Keeps-if (went_wrong (e.0)) _ _ (λ s. refl)
            (Keeps-if (not (is_count (length (take max_chunk (c ∷ src))) (e.0))) _ _ (λ s. tt)
              (Keeps-write_chunks n (e.1) f (drop max_chunk (c ∷ src)))))

  Keeps-filewrite : (t : FileTable) (f : ℕ) (src : List ℕ) → Keeps (filewrite env t f src)
  unfolding filewrite
  Keeps-filewrite t f src =
      Keeps-if (not (file_at t f).writable) _ _ (λ s. refl) (by_type (file_at t f).type)
    where
      by_type :
          (y : FileType)
          → Keeps {A = ℤ × FileTable} (elim y [
            | FileType.fd_pipe ↦ env.pipewrite (file_at t f).pipe src >>= λ r. pure (r, t)
            | FileType.fd_inode ↦ do
              (all, t') ← write_chunks (length src + 1) env t f src
              pure (if all then pos (length src) else negsuc 0, t')
            | FileType.fd_none ↦ fails
          ])
      by_type FileType.fd_pipe =
          Keeps->>= (env.pipewrite (file_at t f).pipe src) _ (k.writes (file_at t f).pipe src)
            (λ r s. refl)
      by_type FileType.fd_inode =
          Keeps->>= (write_chunks (length src + 1) env t f src) _
            (Keeps-write_chunks (length src + 1) t f src) (λ e s. refl)
      by_type FileType.fd_none = λ s. tt

-- Each of the calls leaves the transactions as they are.
abbrev pub CallsKeep : Env → ℕ → Descriptors → FileTable → Type 0
CallsKeep env cwd o t =
    ((old new : Option (List ℕ)) → Keeps (sys_link env.devsw cwd old new))
    × ((path : Option (List ℕ)) → Keeps (sys_unlink env.devsw cwd path))
    × ((path : Option (List ℕ)) (omode : Option ℕ) → Keeps (sys_open env cwd o t path omode))
    × ((path : Option (List ℕ)) → Keeps (sys_mkdir env.devsw cwd path))
    × ((path : Option (List ℕ)) (major minor : Option ℤ)
        → Keeps (sys_mknod env.devsw cwd path major minor))
    × ((path : Option (List ℕ)) → Keeps (sys_chdir env.devsw cwd path))
    × ((f : ℕ) (src : List ℕ) → Keeps (filewrite env t f src))

-- If the functions of devices and pipes leave the number of open transactions as it is, then so do
-- sys_link, sys_unlink, sys_open, sys_mkdir, sys_mknod, sys_chdir and filewrite: whichever way such
-- a call takes, if it is done, it has ended as many transactions as it began.
pub system_calls-Keeps :
    (env : Env) → EnvKeeps env → (cwd : ℕ) (o : Descriptors) (t : FileTable) → CallsKeep env cwd o t
system_calls-Keeps env k cwd o t = (
  Keeps-sys_link env.devsw k.devices cwd,
  Keeps-sys_unlink env.devsw k.devices cwd,
  Keeps-sys_open env k cwd o t,
  Keeps-sys_mkdir env.devsw k.devices cwd,
  Keeps-sys_mknod env.devsw k.devices cwd,
  Keeps-sys_chdir env.devsw k.devices cwd,
  Keeps-filewrite env k t,
)
