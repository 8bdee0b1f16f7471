-- ===== src/Ulib/Tests.antt =====
-- Runs of the user library.
use operating_systems_projec.Base.{
  ◌-◌, ℕ, Option, none, some, ◌^◌, ◌≡◌, refl, true, [], ◌∷◌, negsuc,
}
use operating_systems_projec.Ulib.Heap.{
  Heap, malloc, malloc_from, morecore, free, place, join_above, join_below, take_from,
}
use operating_systems_projec.Ulib.{atoi, atoi_from, printint, digits_from, strcmp}

-- "405x" reads as 405.
number : atoi (52 ∷ 48 ∷ 53 ∷ 120 ∷ []) ≡ 405
unfolding atoi atoi_from
number = refl

-- -12 prints as "-12".
negative : printint (2 ^ 32 - 12) 10 true ≡ 45 ∷ 49 ∷ 50 ∷ []
unfolding printint digits_from
negative = refl

shorter : strcmp (97 ∷ []) (97 ∷ 98 ∷ []) ≡ negsuc 97
unfolding strcmp
shorter = refl

-- A process of 1000 headers that has called malloc never; `base` is header 10.
abbrev fresh : Heap
fresh = record {
  mem = λ p. record { ptr = 0; size = 0 };
  base = 10;
  freep = 0;
  brk = 1000;
  limit = 9000;
}

-- The pointer that malloc gives, and the one it gives when called again after a free of the first.
abbrev first_pointer : Option ℕ
first_pointer = elim (malloc 9 fresh 20) [ none ↦ none | some (p, h) ↦ some p ]

abbrev again : Option ℕ
again = elim (malloc 9 fresh 20) [
  | none ↦ none
  | some (p, h) ↦ elim (free 9 h p) [
    | none ↦ none
    | some h' ↦ elim (malloc 9 h' 20) [ none ↦ none | some (q, h'') ↦ some q ]
  ]
]

-- 20 bytes are 3 headers and the block's own, cut off the end of the 4096 from sbrk.
malloc_run : first_pointer ≡ some 5093
unfolding malloc malloc_from morecore free place join_above join_below take_from
malloc_run = refl

malloc-free_run : again ≡ some 5093
unfolding malloc malloc_from morecore free place join_above join_below take_from
malloc-free_run = refl
