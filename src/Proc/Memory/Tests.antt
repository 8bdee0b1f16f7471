-- ===== src/Proc/Memory/Tests.antt =====
-- A small process that shrinks to nothing, and a lazy one that touches its heap.
use operating_systems_projec.Base.{◌≡◌, refl, true, arith, ◌==◌, if◌then◌else◌, ok, panic, negsuc}
use Prim.Native.Nat.{bit_or}
use operating_systems_projec.Kalloc.{Kmem, kernbase, kalloc, v2p}
use operating_systems_projec.Vm.{
  deallocuvm, dealloc_from, walkpgdir, is_present, pde_at, pte_w, pte_u, pte_p, store,
}
use operating_systems_projec.Proc.{Proc, blank}
use operating_systems_projec.Proc.Memory.{sys_sbrk, growproc, page_fault}
use operating_systems_projec.Proc.Memory.Fault.{InHeap, cleared, entry, page_fault-maps}

abbrev no_memory : Kmem
no_memory = record { use_lock = true; freelist = 0; free_frame_cnt = 0; mem = λ a. 0 }

-- A size of 16 bytes, in a page directory without an entry.
abbrev small : Proc
small = record blank { sz = 16; pgdir = kernbase }

shrink_to_nothing : sys_sbrk 0 small no_memory (negsuc 15) ≡ ok (negsuc 0, small, no_memory)
unfolding sys_sbrk growproc deallocuvm dealloc_from walkpgdir
shrink_to_nothing = refl

-- The page directory has a table for the first 4 MB, at 0x80300000, and the table is empty.
abbrev memory : Kmem
memory = record {
  use_lock = true;
  freelist = 0x80200000;
  free_frame_cnt = 1;
  mem = λ a. if a == kernbase then 0x300001 else 0;
}

abbrev lazy : Proc
lazy = record blank { sz = 8192; pgdir = kernbase; page_allocator_type = 1 }

lazy-InHeap : InHeap lazy memory 5000
lazy-InHeap = record {
  lazy = refl;
  low = omega arith;
  high = omega arith;
  user = omega arith;
  page = omega arith;
}

table_there : is_present ((cleared memory).mem (pde_at kernbase 4096)) ≡ true
unfolding kalloc
table_there = refl

entry_there : entry (cleared memory) kernbase 4096 ≡ 0x80300004
unfolding kalloc
entry_there = refl

page_fault-maps_example : page_fault 0 lazy memory 5000 ≡ (
    if is_present ((cleared memory).mem (entry (cleared memory) kernbase 4096))
    then panic
    else ok (
      lazy,
      store
          (cleared memory)
          (entry (cleared memory) kernbase 4096)
          (bit_or (bit_or (v2p 0x80200000) (bit_or pte_w pte_u)) pte_p),
    ))
page_fault-maps_example =
    page_fault-maps 0 lazy memory 5000 lazy-InHeap table_there (omega (arith, entry_there))
