-- ===== src/Proc/Memory/Fault.antt =====
-- A page fault of a lazy process on a page of its heap, where its page directory has a table for it.
use operating_systems_projec.Base.{
  ℕ, ◌+◌, ◌-◌, ◌/◌, ◌%◌, ◌≤◌, ◌<◌, ◌≡◌, refl, sym, ◌∙◌, ◌≢◌, inl, inr, true, arith, if◌then◌else◌,
  Bool-cases, ok, panic,
}
use Prim.Native.Nat.{bit_or}
use operating_systems_projec.Kalloc.{Kmem, kalloc, pgsize, word, kernbase, v2p, p2v, pg_round_down}
use operating_systems_projec.Vm.{
  mappages, map_from, map_entry, walkpgdir, zero_page, store, pte_w, pte_u, pte_p, pte_in, pte_addr,
  pde_at, is_present,
}
use operating_systems_projec.Proc.{Proc}
use operating_systems_projec.Proc.Memory.{map_fault, mapped_or_freed, page_fault}

single :
    (k : Kmem) (pgdir a pa perm pte : ℕ)
    → walkpgdir k pgdir a true ≡ (pte, k)
    → pte ≢ 0
    → map_from 1 k pgdir a a pa perm ≡ (
        if is_present (k.mem pte)
        then panic
        else ok (true, store k pte (bit_or (bit_or pa perm) pte_p)))
unfolding map_from map_entry
single k pgdir a pa perm pte w ne = rw w (ground (arith, ne))

mappages-single :
    (k : Kmem) (pgdir va pa perm pte : ℕ)
    → va ≡ pg_round_down va
    → va < kernbase
    → walkpgdir k pgdir va true ≡ (pte, k)
    → pte ≢ 0
    → mappages k pgdir va pgsize pa perm ≡ (
        if is_present (k.mem pte)
        then panic
        else ok (true, store k pte (bit_or (bit_or pa perm) pte_p)))
unfolding mappages
mappages-single k pgdir va pa perm pte e user w ne =
    let a : pg_round_down va ≡ va = sym e in
    let last : pg_round_down ((va + pgsize + word - 1) % word) ≡ va = omega (arith, e) in
    let rounds : (va + word - va) % word / pgsize ≡ 0 = omega arith in
    rw (a, last, rounds) (single k pgdir va pa perm pte w ne)

-- A lazy process whose fault is in its heap, with a free page and a page table for the address.
pub record InHeap (p : Proc) (k : Kmem) (cr2 : ℕ) : Type 0 where
  pub lazy : p.page_allocator_type ≡ 1
  pub low : p.heap_start ≤ pg_round_down cr2
  pub high : pg_round_down cr2 < p.sz
  pub user : p.sz ≤ kernbase
  pub page : k.freelist ≢ 0

-- The allocator's state once the first free page is taken and cleared.
abbrev pub cleared : Kmem → Kmem
cleared k = zero_page (kalloc k).1 k.freelist

-- The entry for an address in the table that the page directory names.
abbrev pub entry : Kmem → ℕ → ℕ → ℕ
entry k pgdir va = pte_in (p2v (pte_addr (k.mem (pde_at pgdir va)))) va

walkpgdir-present :
    (k : Kmem) (pgdir va : ℕ)
    → is_present (k.mem (pde_at pgdir va)) ≡ true
    → walkpgdir k pgdir va true ≡ (entry k pgdir va, k)
unfolding walkpgdir
walkpgdir-present k pgdir va t = rw t refl

taken : (k : Kmem) → k.freelist ≢ 0 → (kalloc k).0 ≡ k.freelist
unfolding kalloc
taken k h = ground arith

page_fault_entered :
    (kend : ℕ) (p : Proc) (k : Kmem) (cr2 : ℕ)
    → InHeap p k cr2
    → page_fault kend p k cr2 ≡ map_fault kend p (pg_round_down cr2) (kalloc k)
unfolding page_fault
page_fault_entered kend p k cr2 h = ground (arith, h.lazy, h.low, h.high)

-- In the heap of a lazy process, with a page table for the address, a fault on an absent page takes
-- the first free page, clears it and maps it for the user to write. A fault on a page that is
-- present (the guard page below the stack, or a write to a page that is read-only) stops the
-- kernel.
pub page_fault-maps :
    (kend : ℕ) (p : Proc) (k : Kmem) (cr2 : ℕ)
    → InHeap p k cr2
    → let va = pg_round_down cr2 in
      let pte = entry (cleared k) p.pgdir va in
      is_present ((cleared k).mem (pde_at p.pgdir va)) ≡ true
      → pte ≢ 0
      → page_fault kend p k cr2 ≡ (
          if is_present ((cleared k).mem pte)
          then panic
          else ok (
            p,
            store (cleared k) pte (bit_or (bit_or (v2p k.freelist) (bit_or pte_w pte_u)) pte_p),
          ))
unfolding map_fault mapped_or_freed
page_fault-maps kend p k cr2 h there ne =
    let m =
      mappages-single (cleared k) p.pgdir (pg_round_down cr2) (v2p k.freelist) (bit_or pte_w pte_u)
        (entry (cleared k) p.pgdir (pg_round_down cr2)) (omega arith)
        (omega (arith, h.high, h.user))
        (walkpgdir-present (cleared k) p.pgdir (pg_round_down cr2) there) ne in
    page_fault_entered kend p k cr2 h
    ∙ rw (taken k h.page)
        (elim (Bool-cases
          (is_present ((cleared k).mem (entry (cleared k) p.pgdir (pg_round_down cr2))))) [
            | inl e ↦ ground (arith, e, m, h.page)
            | inr e ↦ ground (arith, e, m, h.page)
          ])
