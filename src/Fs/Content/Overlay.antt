-- ===== src/Fs/Content/Overlay.antt =====
-- Bytes laid over others.
use operating_systems_projec.Base.{
  ℕ, suc, ◌+◌, ◌-◌, ◌≤◌, ◌<◌, ◌≡◌, refl, sym, ap, ◌∙◌, inl, inr, true, false, ◌&&◌, List, [], ◌∷◌,
  arith, ltb, leb, ◌==◌, if◌then◌else◌, Bool-cases, length, get_or, take, drop, length-take,
  length-drop, get_or-take, get_or-drop, All,
}
use operating_systems_projec.Log.{Block}
use operating_systems_projec.Fs.Bytes.{get_byte, put_byte, put_bytes, get_byte-put_byte}

-- The bytes `f` with `src` in place of those from `off` on.
abbrev pub overlay : (ℕ → ℕ) → ℕ → List ℕ → ℕ → ℕ
overlay f off src x = if leb off x && ltb x (off + length src) then get_or src (x - off) 0 else f x

abbrev pub AreBytes : List ℕ → Type 0
AreBytes = All (λ v. v < 256)

pub overlay-nil : (f : ℕ → ℕ) (off x : ℕ) → overlay f off [] x ≡ f x
overlay-nil f off x = let e : (leb off x && ltb x (off + 0)) ≡ false = ground arith in rw e refl

-- First one part, then the part behind it.
pub overlay-parts :
    (f : ℕ → ℕ) (off m : ℕ) (src : List ℕ) (x : ℕ)
    → m ≤ length src
    → overlay (overlay f off (take m src)) (off + m) (drop m src) x ≡ overlay f off src x
overlay-parts f off m src x h = elim (Bool-cases (ltb x (off + m))) [
  | inl e ↦
      let a : (leb (off + m) x && ltb x (off + m + length (drop m src))) ≡ false =
        ground (arith, e) in
      elim (Bool-cases (leb off x)) [
        | inl g ↦
            let b : (leb off x && ltb x (off + length (take m src))) ≡ true =
              ground (arith, e, g, h, length-take m src) in
            let c : (leb off x && ltb x (off + length src)) ≡ true = ground (arith, e, g, h) in
            rw (a, b, c) (get_or-take m (x - off) src 0 (ground (arith, e, g)))
        | inr g ↦
            let b : (leb off x && ltb x (off + length (take m src))) ≡ false = ground (arith, g) in
            let c : (leb off x && ltb x (off + length src)) ≡ false = ground (arith, g) in
            rw (a, b, c) refl
      ]
  | inr e ↦
      let b : (leb off x && ltb x (off + length (take m src))) ≡ false =
        ground (arith, e, h, length-take m src) in
      elim (Bool-cases (ltb x (off + length src))) [
        | inl g ↦
            let a : (leb (off + m) x && ltb x (off + m + length (drop m src))) ≡ true =
              ground (arith, e, g, h, length-drop m src) in
            let c : (leb off x && ltb x (off + length src)) ≡ true = ground (arith, e, g) in
            let d : m + (x - (off + m)) ≡ x - off = ground (arith, e) in
            rw (a, c) (get_or-drop m (x - (off + m)) src 0 ∙ ap (λ k. get_or src k 0) d)
        | inr g ↦
            let a : (leb (off + m) x && ltb x (off + m + length (drop m src))) ≡ false =
              ground (arith, e, g, h, length-drop m src) in
            let c : (leb off x && ltb x (off + length src)) ≡ false = ground (arith, g) in
            rw (a, b, c) refl
      ]
]

pub get_byte-put_bytes :
    (blk : Block) (o : ℕ) (vs : List ℕ) (j : ℕ)
    → AreBytes vs
    → get_byte (put_bytes blk o vs) j ≡ overlay (get_byte blk) o vs j
unfolding put_bytes
get_byte-put_bytes blk o [] j h = sym (overlay-nil (get_byte blk) o j)
get_byte-put_bytes blk o (v ∷ vs) j (hv, hvs) =
    get_byte-put_bytes (put_byte blk o v) (o + 1) vs j hvs
    ∙ one (get_byte (put_byte blk o v)) (λ x. get_byte-put_byte blk o x v hv)
  where
    one :
        (f : ℕ → ℕ)
        → ((x : ℕ) → f x ≡ (if o == x then v else get_byte blk x))
        → overlay f (o + 1) vs j ≡ overlay (get_byte blk) o (v ∷ vs) j
    one f e = elim (Bool-cases (o == j)) [
      | inl g ↦
          let a : (leb (o + 1) j && ltb j (o + 1 + length vs)) ≡ false = ground (arith, g) in
          let c : (leb o j && ltb j (o + suc (length vs))) ≡ true = ground (arith, g) in
          let d : j - o ≡ 0 = ground (arith, g) in rw (a, c, d, e j, g) refl
      | inr g ↦ elim (Bool-cases (ltb j o)) [
        | inl l ↦
            let a : (leb (o + 1) j && ltb j (o + 1 + length vs)) ≡ false = ground (arith, l) in
            let c : (leb o j && ltb j (o + suc (length vs))) ≡ false = ground (arith, l) in
            rw (a, c, e j, g) refl
        | inr l ↦
            let d : j - o ≡ suc (j - (o + 1)) = ground (arith, l, g) in
            let t : (leb (o + 1) j && ltb j (o + 1 + length vs))
                ≡ (leb o j && ltb j (o + suc (length vs))) =
              ground (arith, l, g) in
            rw (t, d, e j, g) refl
      ]
    ]
