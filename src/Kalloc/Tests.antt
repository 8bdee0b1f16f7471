-- ===== src/Kalloc/Tests.antt =====
-- Runs of the allocator on a few pages, and its theorems at concrete inputs.
use operating_systems_projec.Base.{
  ℕ, ◌≡◌, refl, ◌≢◌, ◌⊎◌, false, List, [], ◌∷◌, arith, NotIn, Result, ok, panic,
}
use operating_systems_projec.Kalloc.{Kmem, kfree, kalloc, freerange, free_from}
use operating_systems_projec.Kalloc.Chain.{IsPage, IsFree}
use operating_systems_projec.Kalloc.Pages.{kalloc-IsFree}
use operating_systems_projec.Kalloc.Range.{freerange-IsFree}

abbrev empty : Kmem
empty = record { use_lock = false; freelist = 0; free_frame_cnt = 0; mem = λ a. 0 }

abbrev kend : ℕ
kend = 0x80100000

empty-IsFree : IsFree kend empty []
empty-IsFree = record { chain = refl; pages = tt; distinct = tt; counted = refl }

example_aligned : IsPage kend 0x80200000
example_aligned = omega arith

abbrev one_page : Kmem
one_page = record empty { freelist = 0x80200000; free_frame_cnt = 1 }

one_page-IsFree : IsFree kend one_page (0x80200000 ∷ [])
one_page-IsFree = record {
  chain = (refl, refl);
  pages = (example_aligned, tt);
  distinct = (tt, tt);
  counted = refl;
}

abbrev listed : List ℕ
listed = 0x80200000 ∷ []

kalloc-IsFree_example :
    ((listed ≡ []) × (kalloc one_page ≡ (0, one_page)))
    ⊎ ((v : ℕ) × (rest : List ℕ) × (listed ≡ v ∷ rest)
        × ((kalloc one_page).0 ≡ v)
        × (v ≢ 0)
        × IsPage kend v
        × NotIn v rest
        × IsFree kend (kalloc one_page).1 rest)
kalloc-IsFree_example = kalloc-IsFree kend one_page listed one_page-IsFree

freerange-IsFree_example :
    (k' : Kmem) × (freerange kend empty 0x80200001 0x80204000 ≡ ok k')
    × IsFree kend k' (0x80203000 ∷ 0x80202000 ∷ 0x80201000 ∷ [])
freerange-IsFree_example =
    freerange-IsFree kend 0x80200001 0x80204000 empty [] (omega arith) (omega arith) (omega arith)
      (omega arith) tt empty-IsFree

counts : Result Kmem → ℕ
counts (ok k) = k.free_frame_cnt
counts panic = 0

count_run : counts (freerange kend empty 0x80200001 0x80204000) ≡ 3
unfolding counts freerange free_from kfree
count_run = refl
