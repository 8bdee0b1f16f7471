-- ===== src/Exec/Pages.antt =====
-- The user's pages, in the memory of Kalloc, and what a write to one of them changes.
use operating_systems_projec.Base.{
  ℕ, ◌+◌, ◌-◌, ◌%◌, ◌≤◌, ◌<◌, ◌≡◌, refl, sym, ap, ◌∙◌, ◌≢◌, ◌⊎◌, inl, inr, false, ◌&&◌, List, arith,
  ltb, leb, ◌==◌, if◌then◌else◌, ==→eq, Bool-cases, length, get_or, ok,
}
use operating_systems_projec.Kalloc.{Kmem, pgsize, pg_round_down}
use operating_systems_projec.Vm.{walkpgdir, pde_at, uva2ka}
use operating_systems_projec.Exec.{put_bytes}

abbrev pub IsPage : ℕ → ℕ → ℕ → Type 0
IsPage low top q = (q % pgsize ≡ 0) × (low ≤ q) × (q < top)

-- The pages of the user from `low` on, below `top`, at the kernel's addresses `frame`: they are
-- mapped, they do not overlap, and no entry of the page table is in one of them.
pub record UserPages (k : Kmem) (pgdir low top : ℕ) (frame : ℕ → ℕ) : Type 0 where
  pub maps : (q : ℕ) → IsPage low top q → uva2ka k pgdir q ≡ ok (frame q)
  pub exists : (q : ℕ) → IsPage low top q → frame q ≢ 0
  pub apart :
      (p q : ℕ)
      → IsPage low top p
      → IsPage low top q
      → p ≢ q
      → (frame p + pgsize ≤ frame q) ⊎ (frame q + pgsize ≤ frame p)
  pub tables :
      (p q a : ℕ)
      → IsPage low top p
      → IsPage low top q
      → frame p ≤ a
      → a < frame p + pgsize
      → (a ≢ pde_at pgdir q) × (a ≢ (walkpgdir k pgdir q false).0)

-- Where the byte of a user's address is.
abbrev pub phys : (ℕ → ℕ) → ℕ → ℕ
phys frame v = frame (pg_round_down v) + v % pgsize

walkpgdir-agree :
    (k l : Kmem) (pgdir q : ℕ)
    → l.mem (pde_at pgdir q) ≡ k.mem (pde_at pgdir q)
    → (walkpgdir l pgdir q false).0 ≡ (walkpgdir k pgdir q false).0
unfolding walkpgdir
walkpgdir-agree k l pgdir q e = ground (arith, e)

uva2ka-agree :
    (k l : Kmem) (pgdir q : ℕ)
    → l.mem (pde_at pgdir q) ≡ k.mem (pde_at pgdir q)
    → l.mem (walkpgdir k pgdir q false).0 ≡ k.mem (walkpgdir k pgdir q false).0
    → uva2ka l pgdir q ≡ uva2ka k pgdir q
unfolding uva2ka
uva2ka-agree k l pgdir q e f = rw (walkpgdir-agree k l pgdir q e, f) refl

put_bytes-outside :
    (k : Kmem) (a : ℕ) (bytes : List ℕ) (b : ℕ)
    → (leb a b && ltb b (a + length bytes)) ≡ false
    → (put_bytes k a bytes).mem b ≡ k.mem b
put_bytes-outside k a bytes b h = rw h refl

-- A cell that no address of the page is lies outside what is put there.
not_in_page :
    (f o n c : ℕ)
    → o + n ≤ pgsize
    → ((a : ℕ) → f ≤ a → a < f + pgsize → a ≢ c)
    → (leb (f + o) c && ltb c (f + o + n)) ≡ false
not_in_page f o n c h g = elim (Bool-cases (leb (f + o) c && ltb c (f + o + n))) [
  | inl e ↦ absurd (g c (ground arith) (ground arith) refl)
  | inr e ↦ e
]

-- A write to a page of the user changes no entry of the page table.
module _ (k : Kmem) (pgdir low top : ℕ) (frame : ℕ → ℕ) (p o : ℕ) (bytes : List ℕ) where
  UserPages-put_bytes :
      UserPages k pgdir low top frame
      → IsPage low top p
      → o + length bytes ≤ pgsize
      → UserPages (put_bytes k (frame p + o) bytes) pgdir low top frame
  UserPages-put_bytes u page h =
      let l = put_bytes k (frame p + o) bytes in
      let pde : (q : ℕ) → IsPage low top q → l.mem (pde_at pgdir q) ≡ k.mem (pde_at pgdir q) =
        λ q iq. put_bytes-outside k (frame p + o) bytes (pde_at pgdir q) (
          not_in_page (frame p) o (length bytes) _ h
            (λ a lo hi. (u.tables p q a page iq lo hi).0)) in
      let pte : (q : ℕ)
          → IsPage low top q
          → l.mem (walkpgdir k pgdir q false).0 ≡ k.mem (walkpgdir k pgdir q false).0 =
        λ q iq. put_bytes-outside k (frame p + o) bytes (walkpgdir k pgdir q false).0 (
          not_in_page (frame p) o (length bytes) _ h
            (λ a lo hi. (u.tables p q a page iq lo hi).1)) in
      record {
        maps = λ q iq. uva2ka-agree k l pgdir q (pde q iq) (pte q iq) ∙ u.maps q iq;
        exists = u.exists;
        apart = u.apart;
        tables = λ r q a ir iq lo hi.
            let t = u.tables r q a ir iq lo hi in
            (t.0, λ e. t.1 (e ∙ walkpgdir-agree k l pgdir q (pde q iq)));
      }

-- What copyout leaves: the bytes from `va` on, and all else as it was.
pub record Copied (k l : Kmem) (pgdir low top : ℕ) (frame : ℕ → ℕ) (va : ℕ) (bytes : List ℕ)
    : Type 0 where
  pub pages : UserPages l pgdir low top frame
  pub inside :
      (v : ℕ)
      → low ≤ pg_round_down v
      → v < top
      → l.mem (phys frame v) ≡ (
          if leb va v && ltb v (va + length bytes)
          then get_or bytes (v - va) 0
          else k.mem (phys frame v))
  pub outside :
      (a : ℕ)
      → ((q : ℕ) → IsPage low top q → (a < frame q) ⊎ (frame q + pgsize ≤ a))
      → l.mem a ≡ k.mem a

-- Places in one page, and in two pages.
same_page :
    (frame : ℕ → ℕ) (va v : ℕ) (bytes : List ℕ) (c : ℕ)
    → pg_round_down va ≡ pg_round_down v
    → (if leb (phys frame va) (phys frame v) && ltb (phys frame v) (phys frame va + length bytes)
        then get_or bytes (phys frame v - phys frame va) 0
        else c)
      ≡ (if leb va v && ltb v (va + length bytes) then get_or bytes (v - va) 0 else c)
same_page frame va v bytes c e =
    let f : frame (pg_round_down v) ≡ frame (pg_round_down va) = ap frame (sym e) in
    let d : phys frame v - phys frame va ≡ v - va = omega (arith, e, f) in
    let t : (leb (phys frame va) (phys frame v)
          && ltb (phys frame v) (phys frame va + length bytes))
        ≡ (leb va v && ltb v (va + length bytes)) =
      ground (arith, e, f) in
    ap (λ b. if b then get_or bytes (phys frame v - phys frame va) 0 else c) t
    ∙ ap (λ i. if leb va v && ltb v (va + length bytes) then get_or bytes i 0 else c) d

far :
    (f o n a : ℕ)
    → o + n ≤ pgsize
    → (a < f) ⊎ (f + pgsize ≤ a)
    → (leb (f + o) a && ltb a (f + o + n)) ≡ false
far f o n a h g = ground (arith, g)

other_page :
    (f g va v : ℕ) (bytes : List ℕ) (c : ℕ)
    → pg_round_down va ≢ pg_round_down v
    → va % pgsize + length bytes ≤ pgsize
    → (f + pgsize ≤ g) ⊎ (g + pgsize ≤ f)
    → (if leb (f + va % pgsize) (g + v % pgsize)
          && ltb (g + v % pgsize) (f + va % pgsize + length bytes)
        then get_or bytes (g + v % pgsize - (f + va % pgsize)) 0
        else c)
      ≡ (if leb va v && ltb v (va + length bytes) then get_or bytes (v - va) 0 else c)
other_page f g va v bytes c ne h apart =
    let t : (leb va v && ltb v (va + length bytes)) ≡ false =
      elim (Bool-cases (leb va v && ltb v (va + length bytes))) [
        | inl e ↦
            let lo : va ≤ v = ground arith in
            let hi : v < va + length bytes = ground arith in absurd (ne (omega arith))
        | inr e ↦ e
      ] in
    let r : (g + v % pgsize < f) ⊎ (f + pgsize ≤ g + v % pgsize) = elim apart [
      | inl a ↦ inr (omega arith)
      | inr a ↦ inl (omega arith)
    ] in
    ap (λ b. if b then get_or bytes (g + v % pgsize - (f + va % pgsize)) 0 else c)
      (far f (va % pgsize) (length bytes) (g + v % pgsize) h r)
    ∙ ap (λ b. if b then get_or bytes (v - va) 0 else c) (sym t)

-- One round of copyout's loop: at most the rest of a page.
module _ (k : Kmem) (pgdir low top : ℕ) (frame : ℕ → ℕ) (va : ℕ) (bytes : List ℕ) where
  pub put_bytes-Copied :
      UserPages k pgdir low top frame
      → low ≤ pg_round_down va
      → va < top
      → va % pgsize + length bytes ≤ pgsize
      → Copied k (put_bytes k (phys frame va) bytes) pgdir low top frame va bytes
  put_bytes-Copied u lo hi h =
      let page : IsPage low top (pg_round_down va) = (omega arith, lo, omega arith) in
      record {
        pages =
            UserPages-put_bytes k pgdir low top frame (pg_round_down va) (va % pgsize) bytes u page
              h;
        inside = λ v l t. elim (Bool-cases (pg_round_down va == pg_round_down v)) [
          | inl e ↦
              same_page frame va v bytes (k.mem (phys frame v))
                (==→eq (pg_round_down va) (pg_round_down v) e)
          | inr e ↦
              let ne : pg_round_down va ≢ pg_round_down v = ground (arith, e) in
              other_page (frame (pg_round_down va)) (frame (pg_round_down v)) va v bytes
                (k.mem (phys frame v)) ne h
                (u.apart (pg_round_down va) (pg_round_down v) page (omega arith, l, omega arith) ne)
        ];
        outside = λ a g. put_bytes-outside k (phys frame va) bytes a (
            far (frame (pg_round_down va)) (va % pgsize) (length bytes) a h
              (g (pg_round_down va) page));
      }
