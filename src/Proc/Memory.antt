-- ===== src/Proc/Memory.antt =====
-- The memory of a process: growproc (proc.c), sys_sbrk and sys_set_page_allocator (sysproc.c), and
-- the page-fault branch of trap (trap.c), which gives a lazy process its pages. An `int` argument is
-- given as an integer; sizes are unsigned words.
mod Tests
pub mod Lazy
pub mod Fault
use operating_systems_projec.Base.{
  ℕ, zero, suc, ◌+◌, ◌-◌, ◌*◌, ◌/◌, ◌%◌, ◌^◌, ◌≤◌, ◌<◌, min, ◌≡◌, refl, sym, ap, subst, ◌∙◌, ◌≢◌,
  ◌↔◌, ◌⊎◌, inl, inr, Bool, true, false, ◌&&◌, ◌||◌, not, Option, none, some, List, [], ◌∷◌, ◌++◌,
  append-nil, append_assoc, arith, ltb, leb, ◌==◌, if◌then◌else◌, ltb→lt, lt→ltb, leb→le, ==→eq,
  ==_refl, ==_ne, tests, Bool-cases, Option-cases, update, length, get_elem?, get_or, set, take,
  drop, replicate, length-append, length-set, get_elem?-set_self, get_elem?-set_ne, get_or-set_self,
  get_or-set_ne, length-replicate, length-take, take-append-drop, All, NotIn, Distinct, Result, ok,
  panic, ◌>>=◌, >>=-eq-ok, ℤ, pos, negsuc,
}
use Prim.Native.Nat.{bit_or}
use operating_systems_projec.Kalloc.{
  Kmem, kalloc, kfree, pgsize, word, kernbase, v2p, p2v, pg_round_down, fill_page,
}
use operating_systems_projec.Vm.{
  allocuvm, deallocuvm, mappages, zero_page, pte_w, pte_u, walkpgdir, map_from, map_entry,
  copy_from, is_present, pde_at, pte_in, pte_addr,
}
use operating_systems_projec.Proc.{Proc, State}

-- What the end of growproc does with the new size; switchuvm only reloads the page table.
abbrev pub resized : Proc → ℕ × Kmem → ℤ × Proc × Kmem
resized p (sz, k) = if sz == 0 then (negsuc 0, p, k) else (pos 0, record p { sz = sz }, k)

unfoldable pub growproc : ℕ → Proc → Kmem → ℤ → Result (ℤ × Proc × Kmem)
growproc kend p k (pos zero) = ok (pos 0, p, k)
growproc kend p k (pos (suc n)) =
    let sz = (p.sz + suc n) % word in
    if p.page_allocator_type == 1
    then (if leb kernbase sz then ok (negsuc 0, p, k) else ok (pos 0, record p { sz = sz }, k))
    else allocuvm kend k p.pgdir p.sz sz >>= λ r. ok (resized p r)
growproc kend p k (negsuc n) =
    deallocuvm kend k p.pgdir p.sz ((p.sz + word - suc n % word) % word) >>= λ r. ok (resized p r)

unfoldable pub sys_sbrk : ℕ → Proc → Kmem → ℤ → Result (ℤ × Proc × Kmem)
sys_sbrk kend p k n = growproc kend p k n >>= λ r.
    ok (elim (r.0) [ pos m ↦ (pos p.sz, r.1, r.2) | negsuc m ↦ (negsuc 0, r.1, r.2) ])

unfoldable pub sys_set_page_allocator : Proc → ℤ → ℤ × Proc
sys_set_page_allocator p (negsuc n) = (negsuc 0, p)
sys_set_page_allocator p (pos n) =
    if not (n == 0) && not (n == 1)
    then (negsuc 0, p)
    else (pos 0, record p { page_allocator_type = n })

-- Without a page table for it, the new page is given back and the process killed.
unfoldable pub mapped_or_freed : ℕ → Proc → ℕ → Kmem → Bool → Result (Proc × Kmem)
mapped_or_freed kend p mem k true = ok (p, k)
mapped_or_freed kend p mem k false = kfree kend k mem >>= λ k'. ok (record p { killed = true }, k')

-- The last part of the page fault: the new page is mapped, or given back.
unfoldable pub map_fault : ℕ → Proc → ℕ → ℕ × Kmem → Result (Proc × Kmem)
map_fault kend p va (mem, k) = if mem == 0 then ok (record p { killed = true }, k) else do
  (done, k') ← mappages (zero_page k mem) p.pgdir va pgsize (v2p mem) (bit_or pte_w pte_u)
  mapped_or_freed kend p mem k' done

-- trap at T_PGFLT; `cr2` is the faulting address.
unfoldable pub page_fault : ℕ → Proc → Kmem → ℕ → Result (Proc × Kmem)
page_fault kend p k cr2 =
    let va = pg_round_down cr2 in
    if p.page_allocator_type == 1
    then (if leb p.sz va || ltb va p.heap_start
        then ok (record p { killed = true }, k)
        else map_fault kend p va (kalloc k))
    else ok (record p { killed = true }, k)
