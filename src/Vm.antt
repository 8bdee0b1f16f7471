-- ===== src/Vm.antt =====
-- vm.c: two-level page tables in the memory of Kalloc, whose pages they are. A page directory and a
-- page table are 1024 words each; an entry is a page's physical address with flags in its low bits.
use operating_systems_projec.Base.{
  ℕ, zero, suc, ◌+◌, ◌-◌, ◌*◌, ◌/◌, ◌%◌, ◌^◌, Bool, true, false, ◌&&◌, not, List, [], ◌∷◌, ltb, leb,
  ◌==◌, if◌then◌else◌, update, Result, ok, panic, ◌>>=◌,
}
use Prim.Native.Nat.{bit_or}
use operating_systems_projec.Kalloc.{
  Kmem, kalloc, kfree, pgsize, word, kernbase, phystop, v2p, p2v, pg_round_down, pg_round_up,
  fill_page,
}

abbrev pub pdx : ℕ → ℕ
pdx va = va / 2 ^ 22 % 1024

abbrev pub ptx : ℕ → ℕ
ptx va = va / 2 ^ 12 % 1024

abbrev pub pte_p : ℕ
pte_p = 1

abbrev pub pte_w : ℕ
pte_w = 2

abbrev pub pte_u : ℕ
pte_u = 4

-- `pte & PTE_P` and `pte & PTE_U` as tests, PTE_ADDR and PTE_FLAGS.
abbrev pub is_present : ℕ → Bool
is_present pte = pte % 2 == 1

abbrev pub is_user : ℕ → Bool
is_user pte = pte / 4 % 2 == 1

abbrev pub pte_addr : ℕ → ℕ
pte_addr pte = pte / pgsize * pgsize

abbrev pub pte_flags : ℕ → ℕ
pte_flags pte = pte % pgsize

abbrev pub store : Kmem → ℕ → ℕ → Kmem
store k a w = record k { mem = update k.mem a w }

-- memset(page, 0, PGSIZE)
abbrev pub zero_page : Kmem → ℕ → Kmem
zero_page k v = record k { mem = fill_page k.mem v 0 }

-- memmove(dst, src, PGSIZE) between two pages.
abbrev pub copy_page : Kmem → ℕ → ℕ → Kmem
copy_page k dst src = record k {
  mem = λ a. if leb dst a && ltb a (dst + pgsize) then k.mem (src + (a - dst)) else k.mem a;
}

abbrev pub pde_at : ℕ → ℕ → ℕ
pde_at pgdir va = pgdir + 4 * pdx va

abbrev pub pte_in : ℕ → ℕ → ℕ
pte_in pgtab va = pgtab + 4 * ptx va

-- walkpgdir with `alloc`, past the test of the directory's entry: a fresh page table, or none.
unfoldable pub new_table : ℕ → ℕ → ℕ × Kmem → ℕ × Kmem
new_table pgdir va (pgtab, k) = if pgtab == 0 then (0, k) else (
  pte_in pgtab va,
  store (zero_page k pgtab) (pde_at pgdir va)
      (bit_or (bit_or (bit_or (v2p pgtab) pte_p) pte_w) pte_u),
)

-- The address of the entry for `va`, or 0.
unfoldable pub walkpgdir : Kmem → ℕ → ℕ → Bool → ℕ × Kmem
walkpgdir k pgdir va alloc =
    let pde = k.mem (pde_at pgdir va) in
    if is_present pde
    then (pte_in (p2v (pte_addr pde)) va, k)
    else if alloc
    then new_table pgdir va (kalloc k)
    else (0, k)

-- The loop of mappages from page `a` to page `last`; `false` is the return of -1.
unfoldable pub map_entry : ℕ → ℕ → (Kmem → Result (Bool × Kmem)) → ℕ × Kmem → Result (Bool × Kmem)
map_entry pa perm next (pte, k) =
    if pte == 0
    then ok (false, k)
    else if is_present (k.mem pte)
    then panic
    else next (store k pte (bit_or (bit_or pa perm) pte_p))

unfoldable pub map_from : ℕ → Kmem → ℕ → ℕ → ℕ → ℕ → ℕ → Result (Bool × Kmem)
map_from zero k pgdir a last pa perm = ok (true, k)
map_from (suc f) k pgdir a last pa perm =
    map_entry pa perm
      (λ k'.
        let rest = map_from f k' pgdir ((a + pgsize) % word) last ((pa + pgsize) % word) perm in
        if a == last then ok (true, k') else rest)
      (walkpgdir k pgdir a true)

unfoldable pub mappages : Kmem → ℕ → ℕ → ℕ → ℕ → ℕ → Result (Bool × Kmem)
mappages k pgdir va size pa perm =
    let a = pg_round_down va in
    let last = pg_round_down ((va + size + word - 1) % word) in
    map_from ((last + word - a) % word / pgsize + 1) k pgdir a last pa perm

-- The loop of deallocuvm from page `a` on. A missing page table is skipped whole.
unfoldable pub dealloc_entry : ℕ → ℕ → Kmem → Result Kmem
dealloc_entry kend pte k =
    let pa = pte_addr (k.mem pte) in
    if not (is_present (k.mem pte))
    then ok k
    else if pa == 0
    then panic
    else do k' ← kfree kend k (p2v pa); ok (store k' pte 0)

unfoldable pub dealloc_from : ℕ → ℕ → Kmem → ℕ → ℕ → ℕ → Result Kmem
dealloc_from zero kend k pgdir a oldsz = ok k
dealloc_from (suc f) kend k pgdir a oldsz =
    let pte = (walkpgdir k pgdir a false).0 in
    let skip = dealloc_from f kend k pgdir ((a + 1024 * pgsize) % word) oldsz in
    let rest =
      dealloc_entry kend pte k >>= λ k'. dealloc_from f kend k' pgdir ((a + pgsize) % word) oldsz in
    if leb oldsz a then ok k else if pte == 0 then skip else rest

unfoldable pub deallocuvm : ℕ → Kmem → ℕ → ℕ → ℕ → Result (ℕ × Kmem)
deallocuvm kend k pgdir oldsz newsz = if leb oldsz newsz then ok (oldsz, k) else do
  k' ← dealloc_from (oldsz / pgsize + 2) kend k pgdir (pg_round_up newsz) oldsz
  ok (newsz, k')

-- The loop of allocuvm from page `a` on. The result of mappages is not looked at.
unfoldable pub alloc_from : ℕ → ℕ → Kmem → ℕ → ℕ → ℕ → ℕ → Result (ℕ × Kmem)
alloc_from zero kend k pgdir a oldsz newsz = ok (newsz, k)
alloc_from (suc f) kend k pgdir a oldsz newsz =
    let (mem, k') = kalloc k in
    let fail = deallocuvm kend k' pgdir newsz oldsz >>= λ r. ok (0, r.1) in
    let rest = mappages (zero_page k' mem) pgdir a pgsize (v2p mem) (bit_or pte_w pte_u) >>= λ r.
    alloc_from f kend r.1 pgdir ((a + pgsize) % word) oldsz newsz in
    if leb newsz a then ok (newsz, k) else if mem == 0 then fail else rest

unfoldable pub allocuvm : ℕ → Kmem → ℕ → ℕ → ℕ → Result (ℕ × Kmem)
allocuvm kend k pgdir oldsz newsz =
    if leb kernbase newsz
    then ok (0, k)
    else if ltb newsz oldsz
    then ok (oldsz, k)
    else alloc_from (newsz / pgsize + 2) kend k pgdir (pg_round_up oldsz) oldsz newsz

-- The second loop of freevm, over the directory's entries from `i` on.
unfoldable pub free_tables : ℕ → ℕ → ℕ → ℕ → Kmem → Result Kmem
free_tables zero kend pgdir i k = ok k
free_tables (suc n) kend pgdir i k = do
  let pde = k.mem (pgdir + 4 * i)
  k' ← (if is_present pde then kfree kend k (p2v (pte_addr pde)) else ok k)
  free_tables n kend pgdir (i + 1) k'

unfoldable pub freevm : ℕ → Kmem → ℕ → Result Kmem
freevm kend k pgdir = if pgdir == 0 then panic else do
  (sz, k') ← deallocuvm kend k pgdir kernbase 0
  k'' ← free_tables 1024 kend pgdir 0 k'
  kfree kend k'' pgdir

unfoldable pub clearpteu : Kmem → ℕ → ℕ → Result Kmem
clearpteu k pgdir uva =
    let pte = (walkpgdir k pgdir uva false).0 in
    if pte == 0
    then panic
    else ok (store k pte (if is_user (k.mem pte) then k.mem pte - pte_u else k.mem pte))

-- The kernel address of a user page, or 0. A missing page table is read through address 0, which
-- is no kernel memory: that has no result here.
unfoldable pub uva2ka : Kmem → ℕ → ℕ → Result ℕ
uva2ka k pgdir uva =
    let pte = (walkpgdir k pgdir uva false).0 in
    if pte == 0
    then panic
    else if not (is_present (k.mem pte))
    then ok 0
    else if not (is_user (k.mem pte))
    then ok 0
    else ok (p2v (pte_addr (k.mem pte)))

-- The rows of kmap: virtual start, physical start, physical end, permission. `data` is the address
-- that the linker gives the kernel's data.
pub record Kmap : Type 0 where
  pub virt : ℕ
  pub phys_start : ℕ
  pub phys_end : ℕ
  pub perm : ℕ

abbrev pub extmem : ℕ
extmem = 0x100000

abbrev pub devspace : ℕ
devspace = 0xFE000000

unfoldable pub kmap : ℕ → List Kmap
kmap data_start =
    record { virt = kernbase; phys_start = 0; phys_end = extmem; perm = pte_w }
    ∷ record { virt = kernbase + extmem; phys_start = extmem; phys_end = v2p data_start; perm = 0 }
    ∷ record { virt = data_start; phys_start = v2p data_start; phys_end = phystop; perm = pte_w }
    ∷ record { virt = devspace; phys_start = devspace; phys_end = 0; perm = pte_w }
    ∷ []

unfoldable pub map_kernel : List Kmap → Kmem → ℕ → Result (ℕ × Kmem)
map_kernel [] k pgdir = ok (pgdir, k)
map_kernel (m ∷ ms) k pgdir =
    mappages k pgdir m.virt ((m.phys_end + word - m.phys_start) % word) m.phys_start m.perm >>= λ r.
    if r.0 then map_kernel ms r.1 pgdir else ok (0, r.1)

-- PHYSTOP lies below DEVSPACE, so the check for that never panics.
unfoldable pub setupkvm : ℕ → Kmem → Result (ℕ × Kmem)
setupkvm data_start k =
    let (pgdir, k') = kalloc k in
    if pgdir == 0 then ok (0, k') else map_kernel (kmap data_start) (zero_page k' pgdir) pgdir

-- The loop of copyuvm from address `i` on; a failed kalloc or mappages frees the copy.
unfoldable pub copy_from : ℕ → ℕ → ℕ → ℕ → ℕ → ℕ → Kmem → Result (ℕ × Kmem)
copy_from zero kend pgdir d i sz k = ok (d, k)
copy_from (suc f) kend pgdir d i sz k =
    let pte = (walkpgdir k pgdir i false).0 in
    let (mem, k') = kalloc k in
    let bad = λ (q : Kmem). freevm kend q d >>= λ q'. ok (0, q') in
    let rest =
      mappages (copy_page k' mem (p2v (pte_addr (k.mem pte)))) d i pgsize (v2p mem)
        (pte_flags (k.mem pte))
      >>= λ r. if r.0 then copy_from f kend pgdir d ((i + pgsize) % word) sz r.1 else bad r.1 in
    if leb sz i
    then ok (d, k)
    else if pte == 0
    then panic
    else if not (is_present (k.mem pte))
    then panic
    else if mem == 0
    then bad k'
    else rest

unfoldable pub copyuvm : ℕ → ℕ → Kmem → ℕ → ℕ → Result (ℕ × Kmem)
copyuvm kend data_start k pgdir sz = do
  (d, k') ← setupkvm data_start k
  if d == 0 then ok (0, k') else copy_from (sz / pgsize + 2) kend pgdir d 0 sz k'

-- `sz` is below a page; `code` gives the words of the init program from its start on.
unfoldable pub inituvm : Kmem → ℕ → (ℕ → ℕ) → ℕ → Result Kmem
inituvm k pgdir code sz =
    let (mem, k') = kalloc k in
    if leb pgsize sz then panic else do
      r ← mappages (zero_page k' mem) pgdir 0 pgsize (v2p mem) (bit_or pte_w pte_u)
      ok (record r.1 {
        mem = λ a. if leb mem a && ltb a (mem + sz) then code (a - mem) else r.1.mem a;
      })
