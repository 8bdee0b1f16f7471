-- ===== src/Proc/Memory/Lazy.antt =====
-- Lazy allocation: growth without pages, and the page faults that are refused.
use operating_systems_projec.Base.{
  ℕ, zero, suc, ◌+◌, ◌%◌, ◌^◌, ◌≤◌, ◌<◌, ◌≡◌, ◌≢◌, ◌⊎◌, true, arith, ltb, if◌then◌else◌, ok, pos,
  negsuc,
}
use operating_systems_projec.Kalloc.{Kmem, kalloc, word, kernbase, pg_round_down}
use operating_systems_projec.Proc.{Proc}
use operating_systems_projec.Proc.Memory.{growproc, map_fault, page_fault}

-- A lazy process grows by `n` bytes without a page, up to the kernel's base, where it is refused.
pub growproc-lazy :
    (kend : ℕ) (p : Proc) (k : Kmem) (n : ℕ)
    → p.page_allocator_type ≡ 1
    → p.sz < kernbase
    → n < 2 ^ 31
    → growproc kend p k (pos n) ≡ (
        if ltb (p.sz + n) kernbase
        then ok (pos 0, record p { sz = p.sz + n }, k)
        else ok (negsuc 0, p, k))
unfolding growproc
growproc-lazy kend p k zero lazy s h = ground arith
growproc-lazy kend p k (suc n) lazy s h =
    let e : (p.sz + suc n) % word ≡ p.sz + suc n = omega arith in rw (e, lazy) (ground arith)

-- Where the fault is none of the process's business, it is killed and memory is as it was.
pub page_fault-refused :
    (kend : ℕ) (p : Proc) (k : Kmem) (cr2 : ℕ)
    → (p.page_allocator_type ≢ 1) ⊎ (p.sz ≤ pg_round_down cr2) ⊎ (pg_round_down cr2 < p.heap_start)
    → page_fault kend p k cr2 ≡ ok (record p { killed = true }, k)
unfolding page_fault
page_fault-refused kend p k cr2 h = ground arith

kalloc-mem : (k : Kmem) → (kalloc k).1.mem ≡ k.mem
unfolding kalloc
kalloc-mem k = ground arith

-- Without a free page the process is killed.
pub page_fault-no_memory :
    (kend : ℕ) (p : Proc) (k : Kmem) (cr2 : ℕ)
    → k.freelist ≡ 0
    → page_fault kend p k cr2 ≡ ok (record p { killed = true }, k)
unfolding page_fault map_fault kalloc
page_fault-no_memory kend p k cr2 h = ground arith
