-- ===== src/Kalloc/Chain.antt =====
-- The free list of kalloc.c as a chain of pages through memory, and the allocator's invariant.
use operating_systems_projec.Base.{
  ℕ, ◌%◌, ◌≤◌, ◌<◌, ◌≡◌, ◌≢◌, sym, subst, List, [], ◌∷◌, arith, All, NotIn, Distinct, length,
  update,
}
use operating_systems_projec.Kalloc.{Kmem, pgsize, word, phystop, v2p, fill_page}

abbrev pub Chain : (ℕ → ℕ) → ℕ → List ℕ → Type 0
Chain mem head [] = head ≡ 0
Chain mem head (x ∷ xs) = (head ≡ x) × Chain mem (mem x) xs

-- A page that the kernel may hand out.
pub record IsPage (kend v : ℕ) : Type 0 where
  pub aligned : v % pgsize ≡ 0
  pub above : kend ≤ v
  pub below : v2p v < phystop
  pub pointer : v < word

-- `xs` are the free pages, the next one to be handed out first.
pub record IsFree (kend : ℕ) (k : Kmem) (xs : List ℕ) : Type 0 where
  pub chain : Chain k.mem k.freelist xs
  pub pages : All (IsPage kend) xs
  pub distinct : Distinct xs
  pub counted : k.free_frame_cnt ≡ length xs % word

-- What is written outside the pages of a chain leaves it alone.
pub Chain-frame :
    (mem mem' : ℕ → ℕ) (head : ℕ) (xs : List ℕ)
    → All (λ x. mem' x ≡ mem x) xs
    → Chain mem head xs
    → Chain mem' head xs
Chain-frame mem mem' head [] h c = c
Chain-frame mem mem' head (x ∷ xs) h c =
    (c.0, Chain-frame mem mem' (mem' x) xs h.1 (subst (λ n. Chain mem n xs) (sym h.0) c.1))

pub fill_page_other :
    (kend : ℕ) (mem : ℕ → ℕ) (v w n : ℕ) (xs : List ℕ)
    → v % pgsize ≡ 0
    → All (IsPage kend) xs
    → NotIn v xs
    → All (λ x. update (fill_page mem v w) v n x ≡ mem x) xs
fill_page_other kend mem v w n [] a p d = tt
fill_page_other kend mem v w n (x ∷ xs) a p d =
    (one (p.0).aligned d.0, fill_page_other kend mem v w n xs a p.1 d.1)
  where
    one : x % pgsize ≡ 0 → v ≢ x → update (fill_page mem v w) v n x ≡ mem x
    one ax ne = ground arith
