-- ===== src/Exec/Copy.antt =====
-- copyout over the user's pages and their borders.
use operating_systems_projec.Base.{
  ℕ, zero, suc, ◌+◌, ◌-◌, ◌%◌, ◌≤◌, min, ◌≡◌, refl, sym, ap, ◌∙◌, ◌≢◌, inl, inr, Bool, true, false,
  ◌&&◌, List, [], ◌∷◌, arith, ltb, leb, ◌==◌, if◌then◌else◌, leb→le, ==_ne, Bool-cases, length,
  get_or, take, drop, length-take, length-drop, get_or-take, get_or-drop, Result, ok, panic,
}
use operating_systems_projec.Kalloc.{Kmem, pgsize, word, kernbase, pg_round_down}
use operating_systems_projec.Vm.{uva2ka}
use operating_systems_projec.Exec.{put_bytes, copy_out, copyout}
use operating_systems_projec.Exec.Pages.{IsPage, UserPages, phys, Copied, put_bytes-Copied}

get_or_split :
    (n v va : ℕ) (bytes : List ℕ)
    → va ≤ v
    → get_or bytes (v - va) 0 ≡ (
        if ltb v (va + n)
        then get_or (take n bytes) (v - va) 0
        else get_or (drop n bytes) (v - (va + n)) 0)
get_or_split n v va bytes h = elim (Bool-cases (ltb v (va + n))) [
  | inl e ↦ rw e (sym (get_or-take n (v - va) bytes 0 (ground (arith, e))))
  | inr e ↦ rw e (
      let q : v - va ≡ n + (v - (va + n)) = ground (arith, e) in
      ap (λ i. get_or bytes i 0) q ∙ sym (get_or-drop n (v - (va + n)) bytes 0))
]

pieces :
    (va n v : ℕ) (bytes : List ℕ) (c d : ℕ)
    → n ≤ length bytes
    → c ≡ (
        if leb va v && ltb v (va + length (take n bytes))
        then get_or (take n bytes) (v - va) 0
        else d)
    → (if leb (va + n) v && ltb v (va + n + length (drop n bytes))
        then get_or (drop n bytes) (v - (va + n)) 0
        else c)
      ≡ (if leb va v && ltb v (va + length bytes) then get_or bytes (v - va) 0 else d)
pieces va n v bytes c d h e =
    let lt = length-take n bytes in
    let ld = length-drop n bytes in
    elim (Bool-cases (leb va v)) [
      | inl f ↦ let g = get_or_split n v va bytes (leb→le va v f) in ground (arith, e, lt, ld, g)
      | inr f ↦ ground (arith, e, lt, ld, f)
    ]

-- Two pieces, one behind the other, are copied as one.
module _ (k l m : Kmem) (pgdir low top : ℕ) (frame : ℕ → ℕ) (va n : ℕ) (bytes : List ℕ) where
  Copied-both :
      n ≤ length bytes
      → Copied k l pgdir low top frame va (take n bytes)
      → Copied l m pgdir low top frame (va + n) (drop n bytes)
      → Copied k m pgdir low top frame va bytes
  Copied-both h first second = record {
    pages = second.pages;
    inside = λ v lo hi.
        second.inside v lo hi
        ∙ pieces va n v bytes (l.mem (phys frame v)) (k.mem (phys frame v)) h
            (first.inside v lo hi);
    outside = λ a g. second.outside a g ∙ first.outside a g;
  }

copy_out-nil : (f : ℕ) (k : Kmem) (pgdir va : ℕ) → copy_out f k pgdir va [] ≡ ok (true, k)
unfolding copy_out
copy_out-nil zero k pgdir va = refl
copy_out-nil (suc f) k pgdir va = refl

abbrev chunk : ℕ → List ℕ → ℕ
chunk va bytes = min (pgsize - (va - pg_round_down va)) (length bytes)

-- Behind a round of the loop there is nothing left, or the next page.
copy_out-next :
    (f : ℕ) (k : Kmem) (pgdir va : ℕ) (bytes : List ℕ)
    → va + length bytes ≤ kernbase
    → let n = chunk va bytes in
      copy_out f k pgdir ((pg_round_down va + pgsize) % word) (drop n bytes)
      ≡ copy_out f k pgdir (va + n) (drop n bytes)
copy_out-next f k pgdir va bytes h = elim (Bool-cases (ltb (chunk va bytes) (length bytes))) [
  | inl e ↦
      let q : (pg_round_down va + pgsize) % word ≡ va + chunk va bytes = ground (arith, e) in
      ap (λ a. copy_out f k pgdir a (drop (chunk va bytes) bytes)) q
  | inr e ↦
      let d : drop (chunk va bytes) bytes ≡ [] =
        drop_all (chunk va bytes) bytes (ground (arith, e)) in
      rw d (copy_out-nil f k pgdir _ ∙ sym (copy_out-nil f k pgdir _))
]
  where
    drop_all : (n : ℕ) (xs : List ℕ) → length xs ≤ n → drop n xs ≡ []
    drop_all zero [] l = refl
    drop_all zero (x ∷ xs) l = absurd (omega arith)
    drop_all (suc n) [] l = refl
    drop_all (suc n) (x ∷ xs) l = drop_all n xs (omega arith)

copy_out-round :
    (f : ℕ) (k : Kmem) (pgdir va pa c : ℕ) (bytes : List ℕ)
    → uva2ka k pgdir (pg_round_down va) ≡ ok pa
    → pa ≢ 0
    → let n = chunk va (c ∷ bytes) in
      copy_out (suc f) k pgdir va (c ∷ bytes)
      ≡ copy_out f
          (put_bytes k (pa + va % pgsize) (take n (c ∷ bytes)))
          pgdir
          ((pg_round_down va + pgsize) % word)
          (drop n (c ∷ bytes))
unfolding copy_out
copy_out-round f k pgdir va pa c bytes e ne =
    let o : va - pg_round_down va ≡ va % pgsize = omega arith in
    let n = chunk va (c ∷ bytes) in
    let rest : ℕ → ℕ → Result (Bool × Kmem) = λ pa0 x.
      copy_out f (put_bytes k (pa0 + x) (take n (c ∷ bytes))) pgdir
        ((pg_round_down va + pgsize) % word) (drop n (c ∷ bytes)) in
    let from : Result ℕ → Result (Bool × Kmem) = λ r. elim r [
      | panic ↦ panic
      | ok pa0 ↦ if pa0 == 0 then ok (false, k) else rest pa0 (va - pg_round_down va)
    ] in
    ap from e
    ∙ ap (λ b. if b then ok (false, k) else rest pa (va - pg_round_down va)) (==_ne pa 0 ne)
    ∙ ap (rest pa) o

module _ (pgdir low top : ℕ) (frame : ℕ → ℕ) (small : top ≤ kernbase) where
  copy_out-Copied :
      (f : ℕ) (k : Kmem) (va : ℕ) (bytes : List ℕ)
      → length bytes ≤ f
      → UserPages k pgdir low top frame
      → low ≤ pg_round_down va
      → va + length bytes ≤ top
      → (l : Kmem) × (copy_out f k pgdir va bytes ≡ ok (true, l))
        × Copied k l pgdir low top frame va bytes
  copy_out-Copied f k va [] h u lo hi = (
    k,
    copy_out-nil f k pgdir va,
    record { pages = u; inside = λ v l t. ground arith; outside = λ a g. refl },
  )
  copy_out-Copied zero k va (c ∷ bytes) h u lo hi = absurd (omega arith)
  copy_out-Copied (suc f) k va (c ∷ bytes) h u lo hi =
      let n = chunk va (c ∷ bytes) in
      let page : IsPage low top (pg_round_down va) = (omega arith, lo, omega arith) in
      let lt = length-take n (c ∷ bytes) in
      let ld = length-drop n (c ∷ bytes) in
      let first =
        put_bytes-Copied k pgdir low top frame va (take n (c ∷ bytes)) u lo (omega arith)
          (omega arith) in
      let k1 = put_bytes k (phys frame va) (take n (c ∷ bytes)) in
      let ih =
        copy_out-Copied f k1 (va + n) (drop n (c ∷ bytes)) (omega arith) first.pages (omega arith)
          (omega arith) in
      (
        ih.0,
        copy_out-round f k pgdir va (frame (pg_round_down va)) c bytes
              (u.maps (pg_round_down va) page) (u.exists (pg_round_down va) page)
            ∙ copy_out-next f k1 pgdir va (c ∷ bytes) (omega arith)
            ∙ ih.1,
        Copied-both k k1 ih.0 pgdir low top frame va n (c ∷ bytes) (omega arith) first ih.2,
      )

-- If the pages of the user from `low` up to `top` are mapped, apart from each other and from the
-- page table, then copyout of bytes to addresses in them succeeds: the bytes stand at their
-- addresses, also across the borders of pages, every other byte of the user is as it was, and so
-- are all other cells of the memory, and the mapping.
pub copyout-Copied :
    (k : Kmem) (pgdir low top : ℕ) (frame : ℕ → ℕ) (va : ℕ) (bytes : List ℕ)
    → top ≤ kernbase
    → UserPages k pgdir low top frame
    → low ≤ pg_round_down va
    → va + length bytes ≤ top
    → (l : Kmem) × (copyout k pgdir va bytes ≡ ok (true, l))
      × Copied k l pgdir low top frame va bytes
unfolding copyout
copyout-Copied k pgdir low top frame va bytes small u lo hi =
    copy_out-Copied pgdir low top frame small (length bytes) k va bytes (omega arith) u lo hi
