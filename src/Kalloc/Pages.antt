-- ===== src/Kalloc/Pages.antt =====
-- What kfree and kalloc do to the free list.
use operating_systems_projec.Base.{
  ℕ, ◌+◌, ◌-◌, ◌%◌, ◌<◌, ◌≡◌, ◌≢◌, ◌⊎◌, ◌↔◌, inl, inr, refl, sym, subst, List, [], ◌∷◌, arith,
  NotIn, update, ok, panic, Bool-cases, ==_refl,
}
use operating_systems_projec.Kalloc.{Kmem, kfree, kalloc, bad_page, word, fill_page, junk}
use operating_systems_projec.Kalloc.Chain.{Chain, IsPage, IsFree, Chain-frame, fill_page_other}

-- kfree panics exactly on an address that is not a page the kernel may hand out.
pub kfree-panic :
    (kend : ℕ) (k : Kmem) (v : ℕ) → v < word → (kfree kend k v ≡ panic) ↔ ¬ IsPage kend v
unfolding kfree
kfree-panic kend k v h = (there, back)
  where
    there : kfree kend k v ≡ panic → ¬ IsPage kend v
    there e p = ground arith

    back : ¬ IsPage kend v → kfree kend k v ≡ panic
    back n = elim (Bool-cases (bad_page kend v)) [
      | inl e ↦ ground arith
      | inr e ↦ absurd (n (ground arith))
    ]

-- A page that is freed while it is not free goes to the front of the free list, and is counted.
pub kfree-IsFree :
    (kend v : ℕ) (k : Kmem) (xs : List ℕ)
    → IsFree kend k xs
    → IsPage kend v
    → NotIn v xs
    → (k' : Kmem) × (kfree kend k v ≡ ok k') × IsFree kend k' (v ∷ xs)
unfolding kfree
kfree-IsFree kend v k xs f p n = (
  record k {
    mem = update (fill_page k.mem v junk) v k.freelist;
    freelist = v;
    free_frame_cnt = (k.free_frame_cnt + 1) % word;
  },
  ground arith,
  record {
    chain = (
      refl,
      rw ==_refl (
          Chain-frame k.mem _ k.freelist xs
            (fill_page_other kend k.mem v junk k.freelist xs p.aligned f.pages n) f.chain),
    );
    pages = (p, f.pages);
    distinct = (n, f.distinct);
    counted = omega (arith, f.counted);
  },
)

-- kalloc gives 0 and changes nothing if no page is free, and else takes the first free page, a
-- proper one, off the list and the count.
pub kalloc-IsFree :
    (kend : ℕ) (k : Kmem) (xs : List ℕ)
    → IsFree kend k xs
    → ((xs ≡ []) × (kalloc k ≡ (0, k)))
      ⊎ ((v : ℕ) × (rest : List ℕ) × (xs ≡ v ∷ rest)
          × ((kalloc k).0 ≡ v)
          × (v ≢ 0)
          × IsPage kend v
          × NotIn v rest
          × IsFree kend (kalloc k).1 rest)
unfolding kalloc
kalloc-IsFree kend k [] f = inl (refl, ground (arith, f.chain))
kalloc-IsFree kend k (v ∷ rest) f = inr (
  v,
  rest,
  refl,
  ground (arith, nonzero),
  nonzero,
  f.pages.0,
  f.distinct.0,
  record {
    chain = subst (λ (q : ℕ × Kmem). Chain q.1.mem q.1.freelist rest) (sym taken) tail_chain;
    pages = f.pages.1;
    distinct = f.distinct.1;
    counted = ground (arith, nonzero, f.counted);
  },
)
  where
    nonzero : v ≢ 0
    nonzero e = let b = (f.pages.0).below in omega arith

    taken : kalloc k ≡ (
      k.freelist,
      record k {
        free_frame_cnt = (k.free_frame_cnt + word - 1) % word;
        freelist = k.mem k.freelist;
      },
    )
    taken = ground (arith, nonzero, f.chain)

    tail_chain : Chain k.mem (k.mem k.freelist) rest
    tail_chain = subst (λ n. Chain k.mem (k.mem n) rest) (sym (f.chain.0)) f.chain.1
