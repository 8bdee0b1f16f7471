-- ===== src/Exec/Tests.antt =====
-- exec of a path that does not exist, and what it makes of the arguments.
use operating_systems_projec.Base.{
  ℕ, ◌≡◌, refl, sym, subst, ◌∙◌, ◌≢◌, true, false, ◌&&◌, Option, none, some, List, [], ◌∷◌, arith,
  ◌==◌, if◌then◌else◌, ok, ℤ, negsuc,
}
use operating_systems_projec.Fs.{Fs, Run, done, panics, waits, blank}
use operating_systems_projec.Fs.Path.{skipelem, skip_slashes, split_elem, take_elem}
use operating_systems_projec.Fs.Inodes.{
  iget, find_inode, find_empty, ilock, load_dinode, words, iunlockput, iunlock, iput,
}
use operating_systems_projec.Fs.Dirs.{namei, namex, walk, enter, dirlookup, lookup_from}
use operating_systems_projec.Fs.Bytes.{byte_of}
use operating_systems_projec.Fs.Content.{Devsw}
use operating_systems_projec.Fs.Open.Content.{DevswKeeps}
use operating_systems_projec.Sysfile.{begin_op, end_op}
use operating_systems_projec.Kalloc.{Kmem}
use operating_systems_projec.Proc.{Proc}
use operating_systems_projec.Proc as Procs
use operating_systems_projec.Exec.Stack.{bytes_of, below}
use operating_systems_projec.Vm.{uva2ka, walkpgdir, pde_at}
use operating_systems_projec.Args.{User, fetchint, fetchstr, find_nul}
use operating_systems_projec.Exec.Args.{fetch_args, string_at}
use operating_systems_projec.Exec.Pages.{IsPage, UserPages}
use operating_systems_projec.Exec.Arguments.{room, Pushed, push_args-stands}
use operating_systems_projec.Exec.Stack.{push_args}
use operating_systems_projec.Exec.Call.{Reply, last_from, exec}
use operating_systems_projec.Exec.Balance.{Ends, exec-Ends}

abbrev bare : Devsw
bare = record { read = λ n. none; write = λ n. none }

bare-DevswKeeps : DevswKeeps bare
bare-DevswKeeps = record { reads = λ m r e. absurd (cc e); writes = λ m w e. absurd (cc e) }

-- A disk whose root directory is empty, and room for inodes.
abbrev disk : Fs
disk = record {
  sb = record {
    size = 1000;
    nblocks = 941;
    ninodes = 200;
    nlog = 30;
    logstart = 2;
    inodestart = 32;
    bmapstart = 58;
  };
  blocks = λ b w. if b == 32 && w == 16 then 1 else if b == 32 && w == 17 then 65536 else 0;
  logged = [];
  inodes = blank ∷ blank ∷ [];
  outstanding = 0;
}

abbrev memory : Kmem
memory = record { use_lock = true; freelist = 0; free_frame_cnt = 0; mem = λ a. 0 }

abbrev shell : Proc
shell = record Procs.blank { pid = 2; pgdir = 0x80200000; sz = 4096; name = b's' ∷ b'h' ∷ [] }

abbrev path : List ℕ
path = b'/' ∷ b'b' ∷ b'/' ∷ b'l' ∷ b's' ∷ []

exec-Ends_example :
    Ends shell path 0 (exec 0 0 bare [] 0 shell path ((b'l' ∷ b's' ∷ []) ∷ []) memory disk)
exec-Ends_example =
    exec-Ends shell path 0 0 bare [] 0 ((b'l' ∷ b's' ∷ []) ∷ []) memory bare-DevswKeeps disk

abbrev result_of : Run Reply → Option (ℤ × ℕ)
result_of (done r s) = some (r.result, s.outstanding)
result_of panics = none
result_of (waits i) = none

exec-missing : result_of (exec 0 0 bare [] 0 shell path [] memory disk) ≡ some (negsuc 0, 0)
unfolding exec begin_op end_op namei namex walk skipelem skip_slashes split_elem iget find_inode
    find_empty ilock load_dinode words enter dirlookup lookup_from iunlockput iunlock iput take_elem
exec-missing = refl

path-last : last_from path path ≡ b'l' ∷ b's' ∷ []
unfolding last_from
path-last = refl

words_to_bytes : bytes_of (0x01020304 ∷ []) ≡ 4 ∷ 3 ∷ 2 ∷ 1 ∷ []
unfolding bytes_of byte_of
words_to_bytes = refl

stack_places : below 8192 3 ∷ below 8192 4 ∷ below 8192 5 ∷ [] ≡ 8188 ∷ 8188 ∷ 8184 ∷ []
stack_places = refl

-- One page of the user, mapped through one page table.
abbrev mapped : Kmem
mapped = record memory {
  mem = λ a. if a == 0x80200000 then 0x201007 else if a == 0x80201000 then 0x202007 else 0;
}

abbrev frame : ℕ → ℕ
frame q = 0x80202000

first_page : (q : ℕ) → IsPage 0 4096 q → 0 ≡ q
first_page q h = let a = h.0 in let b = h.2 in omega arith

maps_first : uva2ka mapped 0x80200000 0 ≡ ok 0x80202000
unfolding uva2ka walkpgdir
maps_first = refl

entry_of_first : (walkpgdir mapped 0x80200000 0 false).0 ≡ 0x80201000
unfolding walkpgdir
entry_of_first = refl

mapped-UserPages : UserPages mapped 0x80200000 0 4096 frame
mapped-UserPages = record {
  maps = λ q h. subst (λ p. uva2ka mapped 0x80200000 p ≡ ok 0x80202000) (first_page q h) maps_first;
  exists = λ q h. omega arith;
  apart = λ p q h g ne. absurd (ne (sym (first_page p h) ∙ first_page q g));
  tables = λ p q a h g lo hi.
      let e = entry_of_first in
      subst (λ r. (a ≢ pde_at 0x80200000 r) × (a ≢ (walkpgdir mapped 0x80200000 r false).0))
        (first_page q g) (omega arith, omega arith);
}

abbrev arguments : List (List ℕ)
arguments = (b'l' ∷ b's' ∷ []) ∷ (b'/' ∷ []) ∷ []

push_args-stands_example :
    (l : Kmem) × (sp' : ℕ) × (addrs : List ℕ) × (push_args 0x80200000 0 4096 arguments mapped
      ≡ ok (some (sp', addrs), l))
    × Pushed mapped l 0x80200000 0 4096 frame 4096 sp' arguments addrs
unfolding room
push_args-stands_example =
    push_args-stands 0x80200000 0 4096 frame 0 4096 arguments mapped (omega arith) refl
      (omega arith) mapped-UserPages (omega arith) (omega arith)

-- argv at 16: a pointer to `l` at 32, then null.
abbrev caller : User
caller = record { sz = 64; mem = λ a. if a == 16 then 32 else if a == 32 then 108 else 0; esp = 0 }

arguments_fetched : fetch_args 32 caller 16 0 ≡ some ((108 ∷ []) ∷ [])
unfolding fetch_args fetchint fetchstr find_nul string_at
arguments_fetched = refl

too_many : fetch_args 1 caller 16 0 ≡ none
unfolding fetch_args fetchint fetchstr find_nul string_at
too_many = refl
