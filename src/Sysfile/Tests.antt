-- ===== src/Sysfile/Tests.antt =====
-- A system without devices and with pipes that do nothing.
use operating_systems_projec.Base.{
  ℕ, ◌≡◌, refl, true, Option, none, some, [], ◌∷◌, Result, ok, panic, pos,
}
use operating_systems_projec.Fs.{pure}
use operating_systems_projec.Sysfile.{Env}
use operating_systems_projec.Sysfile.Balance.Calls.{EnvKeeps, CallsKeep, system_calls-Keeps}
use operating_systems_projec.Kalloc.{Kmem, kalloc}
use operating_systems_projec.File.{
  blank as file_blank, filealloc, find_free, fdalloc, fdalloc_from, fileclose,
}
use operating_systems_projec.Sysfile.Pipes.{PipeReply, sys_pipe, pipealloc, with_page, drop_ends}

abbrev bare : Env
bare = record {
  devsw = record { read = λ n. none; write = λ n. none };
  pipeclose = λ p w. pure tt;
  piperead = λ p n. pure (pos 0, []);
  pipewrite = λ p src. pure (pos 0);
}

bare_keeps : EnvKeeps bare
bare_keeps = record {
  devices = record { reads = λ m r e. absurd (cc e); writes = λ m w e. absurd (cc e) };
  closes = λ p w s. refl;
  writes = λ p src s. refl;
}

system_calls-Keeps_example : CallsKeep bare 0 (none ∷ []) []
system_calls-Keeps_example = system_calls-Keeps bare bare_keeps 0 (none ∷ []) []

-- Two files and one page: a pipe takes them, and the page is at the address of the file's pipe.
abbrev one_page : Kmem
one_page = record { use_lock = true; freelist = 0x80200000; free_frame_cnt = 1; mem = λ a. 0 }

abbrev fds_of : Result PipeReply → Option (ℕ × ℕ)
fds_of panic = none
fds_of (ok r) = r.0

pipe_made :
    fds_of (sys_pipe (some 7 ∷ none ∷ none ∷ []) (file_blank ∷ file_blank ∷ []) one_page)
    ≡ some (1, 2)
unfolding sys_pipe pipealloc with_page filealloc find_free fdalloc fdalloc_from kalloc
pipe_made = refl

-- With one descriptor left there is no pipe.
pipe_refused : fds_of (sys_pipe (some 7 ∷ none ∷ []) (file_blank ∷ file_blank ∷ []) one_page) ≡ none
unfolding sys_pipe pipealloc with_page filealloc find_free fdalloc fdalloc_from kalloc drop_ends
    fileclose
pipe_refused = refl
