-- ===== src/Exec/Arguments.antt =====
-- The arguments on the stack of a new program.
use operating_systems_projec.Base.{
  ℕ, ◌+◌, ◌-◌, ◌%◌, ◌≤◌, ◌<◌, ◌≡◌, refl, ap, ◌∙◌, true, false, ◌&&◌, some, List, [], ◌∷◌, ◌++◌,
  arith, ltb, leb, if◌then◌else◌, length, get_or, length-append, ok,
}
use operating_systems_projec.Kalloc.{Kmem, pgsize, kernbase}
use operating_systems_projec.Exec.{maxarg}
use operating_systems_projec.Exec.Stack.{below, push_args}
use operating_systems_projec.Exec.Pages.{UserPages, Copied, phys}
use operating_systems_projec.Exec.Copy.{copyout-Copied}

-- The string with its final 0 stands at the user's address.
abbrev pub StandsAt : Kmem → (ℕ → ℕ) → List ℕ → ℕ → Type 0
StandsAt l frame s a =
    (i : ℕ) → i < length s + 1 → l.mem (phys frame (a + i)) ≡ get_or (s ++ (0 ∷ [])) i 0

-- Each string stands at its address.
abbrev pub AllStand : Kmem → (ℕ → ℕ) → List (List ℕ) → List ℕ → Type 0
AllStand l frame [] [] = Unit
AllStand l frame [] (a ∷ addrs) = ⊥
AllStand l frame (s ∷ argv) [] = ⊥
AllStand l frame (s ∷ argv) (a ∷ addrs) = StandsAt l frame s a × AllStand l frame argv addrs

-- The most bytes that the strings take: each has its final 0 and up to 3 bytes behind it.
unfoldable pub room : List (List ℕ) → ℕ
room [] = 0
room (s ∷ argv) = length s + 4 + room argv

below_lem :
    (sp n low : ℕ)
    → low % 4 ≡ 0
    → low + n + 3 ≤ sp
    → sp ≤ kernbase
    → (low ≤ below sp n) × (below sp n + n ≤ sp) × (sp ≤ below sp n + n + 3)
below_lem sp n low al h k = (omega arith, omega arith, omega arith)

-- What push_args leaves.
pub record Pushed (k l : Kmem) (pgdir low top : ℕ) (frame : ℕ → ℕ) (sp sp' : ℕ)
    (argv : List (List ℕ)) (addrs : List ℕ) : Type 0 where
  pub stand : AllStand l frame argv addrs
  pub pages : UserPages l pgdir low top frame
  pub above : (v : ℕ) → sp ≤ v → v < top → l.mem (phys frame v) ≡ k.mem (phys frame v)
  pub lowest : (sp' ≤ sp) × (sp ≤ sp' + room argv)

module _ (pgdir low top : ℕ) (frame : ℕ → ℕ) (small : top ≤ kernbase) (al : low % pgsize ≡ 0) where
  -- A string, and the others below it.
  Pushed-cons :
      (k c l : Kmem) (sp sp1 sp' : ℕ) (s : List ℕ) (argv : List (List ℕ)) (addrs : List ℕ)
      → low ≤ sp1
      → sp1 + (length s + 1) ≤ sp
      → sp ≤ sp1 + (length s + 1) + 3
      → sp ≤ top
      → Copied k c pgdir low top frame sp1 (s ++ (0 ∷ []))
      → Pushed c l pgdir low top frame sp1 sp' argv addrs
      → Pushed k l pgdir low top frame sp sp' (s ∷ argv) (sp1 ∷ addrs)
  unfolding room
  Pushed-cons k c l sp sp1 sp' s argv addrs lo hi near t copied pushed =
      let len = length-append s (0 ∷ []) in
      let low_most = pushed.lowest in
      record {
        stand = (
          λ i h.
              pushed.above (sp1 + i) (omega arith) (omega arith)
              ∙ copied.inside (sp1 + i) (omega arith) (omega arith)
              ∙ inner sp1 i (s ++ (0 ∷ [])) (k.mem (phys frame (sp1 + i))) (omega arith),
          pushed.stand,
        );
        pages = pushed.pages;
        above = λ v a b.
            pushed.above v (omega arith) b
            ∙ copied.inside v (omega arith) b
            ∙ outer sp1 v (s ++ (0 ∷ [])) (k.mem (phys frame v)) (omega arith);
        lowest = (omega arith, omega arith);
      }
    where
      inner :
          (a i : ℕ) (xs : List ℕ) (d : ℕ)
          → i < length xs
          → (if leb a (a + i) && ltb (a + i) (a + length xs) then get_or xs (a + i - a) 0 else d)
            ≡ get_or xs i 0
      inner a i xs d h =
          let e : a + i - a ≡ i = omega arith in
          let b : (leb a (a + i) && ltb (a + i) (a + length xs)) ≡ true = ground arith in
          ap (λ j. if leb a (a + i) && ltb (a + i) (a + length xs) then get_or xs j 0 else d) e
          ∙ ap (λ y. if y then get_or xs i 0 else d) b

      outer :
          (a v : ℕ) (xs : List ℕ) (d : ℕ)
          → a + length xs ≤ v
          → (if leb a v && ltb v (a + length xs) then get_or xs (v - a) 0 else d) ≡ d
      outer a v xs d h =
          let b : (leb a v && ltb v (a + length xs)) ≡ false = ground arith in
          ap (λ y. if y then get_or xs (v - a) 0 else d) b

  push_args-Pushed :
      (argc sp : ℕ) (argv : List (List ℕ)) (k : Kmem)
      → argc + length argv ≤ maxarg
      → UserPages k pgdir low top frame
      → low + room argv ≤ sp
      → sp ≤ top
      → (l : Kmem) × (sp' : ℕ) × (addrs : List ℕ) × (push_args pgdir argc sp argv k
          ≡ ok (some (sp', addrs), l))
        × Pushed k l pgdir low top frame sp sp' argv addrs
  unfolding push_args room
  push_args-Pushed argc sp [] k m u r t = (
    k,
    sp,
    [],
    refl,
    record { stand = tt; pages = u; above = λ v a b. refl; lowest = (omega arith, omega arith) },
  )
  push_args-Pushed argc sp (s ∷ argv) k m u r t =
      let b = below_lem sp (length s + 1) low (omega arith) (omega arith) (omega arith) in
      let len = length-append s (0 ∷ []) in
      let sp1 = below sp (length s + 1) in
      let c =
        copyout-Copied k pgdir low top frame sp1 (s ++ (0 ∷ [])) small u (omega arith)
          (omega arith) in
      let ih =
        push_args-Pushed (argc + 1) sp1 argv c.0 (omega arith) c.2.pages (omega arith)
          (omega arith) in
      let few : leb maxarg argc ≡ false = ground arith in
      (
        ih.0,
        ih.1,
        sp1 ∷ ih.2,
        rw (few, c.1, ih.3) refl,
        Pushed-cons k c.0 ih.0 sp sp1 ih.1 s argv ih.2 b.0 b.1 b.2 t c.2 ih.4,
      )

-- If the pages of the user from `low` to `top` are mapped, apart from each other and from the page
-- table, there are at most 32 arguments in all, and they fit between `low` and the stack pointer
-- with their final zeros and up to 3 bytes of padding each, then the loop of exec over the
-- arguments succeeds; behind it, each argument stands at the address that ustack gets for it, with
-- its final 0, also where it crosses a page, the bytes of the user from the old stack pointer on
-- are as they were, the pages are mapped as before, and the stack pointer has sunk by no more than
-- that room.
pub push_args-stands :
    (pgdir low top : ℕ) (frame : ℕ → ℕ) (argc sp : ℕ) (argv : List (List ℕ)) (k : Kmem)
    → top ≤ kernbase
    → low % pgsize ≡ 0
    → argc + length argv ≤ maxarg
    → UserPages k pgdir low top frame
    → low + room argv ≤ sp
    → sp ≤ top
    → (l : Kmem) × (sp' : ℕ) × (addrs : List ℕ) × (push_args pgdir argc sp argv k
        ≡ ok (some (sp', addrs), l))
      × Pushed k l pgdir low top frame sp sp' argv addrs
push_args-stands pgdir low top frame argc sp argv k small al m u r t =
    push_args-Pushed pgdir low top frame small al argc sp argv k m u r t
