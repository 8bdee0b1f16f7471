-- ===== src/Kalloc/Range.antt =====
-- freerange, and with it kinit1 and kinit2: handing a range of memory to the allocator.
use operating_systems_projec.Base.{
  ℕ, zero, suc, ◌+◌, ◌-◌, ◌/◌, ◌%◌, ◌≤◌, ◌<◌, ◌≡◌, refl, ◌⊎◌, inl, inr, List, [], ◌∷◌, arith, All,
  NotIn, ok,
}
use operating_systems_projec.Kalloc.{
  Kmem, free_from, freerange, pgsize, phystop, kernbase, pg_round_up,
}
use operating_systems_projec.Kalloc.Chain.{IsFree}
use operating_systems_projec.Kalloc.Pages.{kfree-IsFree}

-- `n` pages from `p` on, put one after the other in front of `xs`.
abbrev pub stack : ℕ → ℕ → List ℕ → List ℕ
stack p zero xs = xs
stack p (suc n) xs = stack (p + pgsize) n (p ∷ xs)

-- No page of `xs` is in the range from `lo` up to `hi`.
abbrev pub Outside : ℕ → ℕ → List ℕ → Type 0
Outside lo hi = All (λ x. (x < lo) ⊎ (hi ≤ x))

Outside-NotIn : (lo hi : ℕ) (xs : List ℕ) → lo < hi → Outside lo hi xs → NotIn lo xs
Outside-NotIn lo hi [] h o = tt
Outside-NotIn lo hi (x ∷ xs) h o = (λ e. omega (arith, o.0), Outside-NotIn lo hi xs h o.1)

Outside-mono : (lo lo' hi : ℕ) (xs : List ℕ) → lo ≤ lo' → Outside lo hi xs → Outside lo' hi xs
Outside-mono lo lo' hi [] h o = tt
Outside-mono lo lo' hi (x ∷ xs) h o =
    (elim (o.0) [ inl a ↦ inl (omega arith) | inr b ↦ inr b ], Outside-mono lo lo' hi xs h o.1)

free_from-IsFree :
    (n f kend p vend : ℕ) (k : Kmem) (xs : List ℕ)
    → (vend - p) / pgsize ≡ n
    → n < f
    → p % pgsize ≡ 0
    → kend ≤ p
    → kernbase ≤ p
    → vend ≤ kernbase + phystop
    → Outside p vend xs
    → IsFree kend k xs
    → (k' : Kmem) × (free_from f kend k p vend ≡ ok k') × IsFree kend k' (stack p n xs)
unfolding free_from
free_from-IsFree n zero kend p vend k xs en nf ap' kp bp vp o i = absurd (omega arith)
free_from-IsFree zero (suc f) kend p vend k xs en nf ap' kp bp vp o i = (k, ground arith, i)
free_from-IsFree (suc n) (suc f) kend p vend k xs en nf al kp bp vp o i =
    let freed =
      kfree-IsFree kend p k xs i
        (record { aligned = al; above = kp; below = omega arith; pointer = omega arith })
        (Outside-NotIn p vend xs (omega arith) o) in
    let rest =
      free_from-IsFree n f kend (p + pgsize) vend freed.0 (p ∷ xs) (omega arith) (omega arith)
        (omega arith) (omega arith) (omega arith) vp
        (inl (omega arith), Outside-mono p (p + pgsize) vend xs (omega arith) o) freed.2 in
    (rest.0, ground (arith, freed.1, rest.1), rest.2)

-- freerange, given a range of mapped memory above the kernel that holds no free page yet, does not
-- panic and frees every whole page of it, the last one on top of the free list.
pub freerange-IsFree :
    (kend vstart vend : ℕ) (k : Kmem) (xs : List ℕ)
    → kend ≤ vstart
    → kernbase ≤ vstart
    → vstart < vend
    → vend ≤ kernbase + phystop
    → Outside vstart vend xs
    → IsFree kend k xs
    → (k' : Kmem) × (freerange kend k vstart vend ≡ ok k')
      × IsFree kend k' (stack (pg_round_up vstart) ((vend - pg_round_up vstart) / pgsize) xs)
unfolding freerange
freerange-IsFree kend vstart vend k xs a b c d o i =
    free_from-IsFree ((vend - pg_round_up vstart) / pgsize) (vend / pgsize + 1) kend
      (pg_round_up vstart) vend k xs refl (omega arith) (omega arith) (omega arith) (omega arith) d
      (Outside-mono vstart (pg_round_up vstart) vend xs (omega arith) o) i
