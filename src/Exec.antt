-- ===== src/Exec.antt =====
-- exec.c, and loaduvm and copyout of vm.c: a program is loaded from its file and replaces the image
-- of the process. A byte of a user page is the cell of its address in the memory of Kalloc. The
-- program's arguments are strings without their final 0.
mod Balance
mod Pages
mod Copy
mod Arguments
pub mod Stack
pub mod Call
pub mod Args
mod Tests
use operating_systems_projec.Base.{
  ℕ, zero, suc, ◌+◌, ◌-◌, ◌*◌, ◌/◌, ◌%◌, ◌^◌, ◌≤◌, ◌<◌, min, ◌≡◌, refl, sym, ap, subst, ◌∙◌, ◌≢◌,
  ◌↔◌, ◌⊎◌, inl, inr, Bool, true, false, ◌&&◌, ◌||◌, not, Option, none, some, List, [], ◌∷◌, ◌++◌,
  append-nil, append_assoc, arith, ltb, leb, ◌==◌, if◌then◌else◌, ltb→lt, lt→ltb, leb→le, ==→eq,
  ==_refl, ==_ne, tests, Bool-cases, Option-cases, update, length, get_elem?, get_or, set, take,
  drop, replicate, length-append, length-set, get_elem?-set_self, get_elem?-set_ne, get_or-set_self,
  get_or-set_ne, length-replicate, length-take, take-append-drop, length-drop, get_or-take,
  get_or-drop, All-take, All-drop, All, NotIn, Distinct, Result, ok, panic, >>=-eq-ok, ℤ, pos,
  negsuc,
}
use operating_systems_projec.Fs.{at, M, ◌>>=◌, ◌>>◌, pure, fails}
use operating_systems_projec.Fs.Bytes.{byte_of}
use operating_systems_projec.Fs.Inodes.{ilock, iunlockput}
use operating_systems_projec.Fs.Content.{Devsw, readi}
use operating_systems_projec.Fs.Dirs.{namei}
use operating_systems_projec.Kalloc.{Kmem, pgsize, word, p2v, pg_round_down, pg_round_up}
use operating_systems_projec.Vm.{walkpgdir, pte_addr, uva2ka, allocuvm, clearpteu, freevm, setupkvm}
use operating_systems_projec.Proc.{Proc}
use operating_systems_projec.Sysfile.{begin_op, end_op, lift}

abbrev pub maxarg : ℕ
maxarg = 32

abbrev pub elf_magic : ℕ
elf_magic = 0x464C457F

abbrev pub elf_prog_load : ℕ
elf_prog_load = 1

-- The sizes of struct elfhdr and of struct proghdr.
abbrev pub elf_size : ℕ
elf_size = 52

abbrev pub ph_size : ℕ
ph_size = 32

-- What exec looks at in the file's header and in a header of a program section.
pub record Elf : Type 0 where
  pub magic : ℕ
  pub entry : ℕ
  pub phoff : ℕ
  pub phnum : ℕ

pub record ProgHdr : Type 0 where
  pub type : ℕ
  pub off : ℕ
  pub vaddr : ℕ
  pub filesz : ℕ
  pub memsz : ℕ

-- A little-endian short and word among the bytes.
abbrev pub short_at : List ℕ → ℕ → ℕ
short_at bytes o = get_or bytes o 0 + 256 * get_or bytes (o + 1) 0

abbrev pub word_at : List ℕ → ℕ → ℕ
word_at bytes o = short_at bytes o + 65536 * short_at bytes (o + 2)

unfoldable pub elf_of : List ℕ → Elf
elf_of bytes = record {
  magic = word_at bytes 0;
  entry = word_at bytes 24;
  phoff = word_at bytes 28;
  phnum = short_at bytes 44;
}

unfoldable pub ph_of : List ℕ → ProgHdr
ph_of bytes = record {
  type = word_at bytes 0;
  off = word_at bytes 4;
  vaddr = word_at bytes 8;
  filesz = word_at bytes 16;
  memsz = word_at bytes 20;
}

-- The bytes are put at an address of the kernel.
abbrev pub put_bytes : Kmem → ℕ → List ℕ → Kmem
put_bytes k a bytes = record k {
  mem = λ b. if leb a b && ltb b (a + length bytes) then get_or bytes (b - a) 0 else k.mem b;
}

-- readi gave as many bytes as were asked for.
abbrev pub is_count : ℕ → ℤ → Bool
is_count n (pos m) = m == n
is_count n (negsuc m) = false

-- `readi(...) < sizeof(elf)`, where the sizeof makes both unsigned: a -1 is not less.
abbrev pub is_short : ℤ → Bool
is_short (pos m) = ltb m elf_size
is_short (negsuc m) = false

-- loaduvm's loop from offset `i` on, on fuel: each round is a page.
unfoldable pub load_from : ℕ → Devsw → ℕ → ℕ → ℕ → ℕ → ℕ → ℕ → Kmem → M (Bool × Kmem)
load_from zero devsw pgdir addr ip offset sz i k = fails
load_from (suc f) devsw pgdir addr ip offset sz i k =
    let pte = (walkpgdir k pgdir ((addr + i) % word) false).0 in
    let n = min (sz - i) pgsize in
    let page = do
      r ← readi devsw ip ((offset + i) % word) n
      let k' = put_bytes k (p2v (pte_addr (k.mem pte))) r.1
      (if not (is_count n r.0)
          then pure (false, k')
          else load_from f devsw pgdir addr ip offset sz (i + pgsize) k')
    in if leb sz i then pure (true, k) else if pte == 0 then fails else page

unfoldable pub loaduvm : Devsw → Kmem → ℕ → ℕ → ℕ → ℕ → ℕ → M (Bool × Kmem)
loaduvm devsw k pgdir addr ip offset sz =
    if not (addr % pgsize == 0)
    then fails
    else load_from (sz / pgsize + 2) devsw pgdir addr ip offset sz 0 k

-- copyout's loop, on fuel, over the bytes that are left; `false` is the return of -1.
unfoldable pub copy_out : ℕ → Kmem → ℕ → ℕ → List ℕ → Result (Bool × Kmem)
copy_out zero k pgdir va bytes = ok (true, k)
copy_out (suc f) k pgdir va [] = ok (true, k)
copy_out (suc f) k pgdir va (c ∷ bytes) =
    let va0 = pg_round_down va in
    let n = min (pgsize - (va - va0)) (length (c ∷ bytes)) in
    elim (uva2ka k pgdir va0) [
      | panic ↦ panic
      | ok pa0 ↦
          let rest =
            copy_out f (put_bytes k (pa0 + (va - va0)) (take n (c ∷ bytes))) pgdir
              ((va0 + pgsize) % word) (drop n (c ∷ bytes)) in
          if pa0 == 0 then ok (false, k) else rest
    ]

unfoldable pub copyout : Kmem → ℕ → ℕ → List ℕ → Result (Bool × Kmem)
copyout k pgdir va bytes = copy_out (length bytes) k pgdir va bytes

-- What exec has when it has read the file: nothing, with the new page table, or the loaded program.
pub data Load : Type 0 where
  bad : ℕ → Kmem → Load
  loaded : ℕ → ℕ → Kmem → Load

-- One section; `next` goes on with the size and the memory.
unfoldable pub load_section : ℕ → Devsw → ℕ → ℕ → ProgHdr → ℕ → Kmem → (ℕ → Kmem → M Load) → M Load
load_section kend devsw ip pgdir ph sz k next =
    if not (ph.type == elf_prog_load)
    then next sz k
    else if ltb ph.memsz ph.filesz
    then pure (bad pgdir k)
    else do
      (sz', k') ← lift (allocuvm kend k pgdir sz ((ph.vaddr + ph.memsz) % word))
      (if sz' == 0 then pure (bad pgdir k') else do
        (done, k'') ← loaduvm devsw k' pgdir ph.vaddr ip ph.off ph.filesz
        if done then next sz' k'' else pure (bad pgdir k''))

-- The loop over the `n` sections that are left, whose headers begin at `off`.
unfoldable pub load_sections : ℕ → ℕ → Devsw → ℕ → ℕ → ℕ → ℕ → Kmem → M Load
load_sections zero kend devsw ip pgdir off sz k = pure (loaded pgdir sz k)
load_sections (suc n) kend devsw ip pgdir off sz k = do
  r ← readi devsw ip off ph_size
  (if not (is_count ph_size r.0)
      then pure (bad pgdir k)
      else load_section kend devsw ip pgdir (ph_of r.1) sz k
          (λ sz' k'. load_sections n kend devsw ip pgdir ((off + ph_size) % word) sz' k'))

-- Checking the header and loading the sections; the inode is locked.
unfoldable pub load_file : ℕ → ℕ → Devsw → ℕ → Elf → Kmem → M Load
load_file kend data_start devsw ip elf k =
    if not (elf.magic == elf_magic) then pure (bad 0 k) else do
      (pgdir, k') ← lift (setupkvm data_start k)
      (if pgdir == 0
          then pure (bad 0 k')
          else load_sections elf.phnum kend devsw ip pgdir elf.phoff 0 k')
