-- ===== src/Fs/Dirs/Names.antt =====
-- The names of directory entries: what is written, and when it is found.
use operating_systems_projec.Base.{
  ℕ, zero, suc, ◌<◌, ◌≡◌, refl, ap, ◌≢◌, ◌↔◌, inl, inr, true, List, [], ◌∷◌, arith, ◌==◌, ==→eq,
  ==_ne, Bool-cases, length, take, All,
}
use operating_systems_projec.Fs.{dirsiz}
use operating_systems_projec.Fs.Dirs.{same_name, namecmp, pad_name, decode, encode}

-- A string in C has no character 0.
abbrev pub IsName : List ℕ → Type 0
IsName = All (λ c. c ≢ 0)

same_name-pad_name :
    (n : ℕ) (s t : List ℕ)
    → IsName s
    → IsName t
    → (same_name n s (pad_name n t) ≡ true) ↔ (take n s ≡ take n t)
unfolding same_name pad_name
same_name-pad_name zero s t hs ht = (λ e. refl, λ e. refl)
same_name-pad_name (suc n) [] [] hs ht = (λ e. refl, λ e. refl)
same_name-pad_name (suc n) [] (d ∷ t) hs (hd, ht) =
    (λ e. absurd (ground (arith, e, hd)), λ e. absurd (cc e))
same_name-pad_name (suc n) (c ∷ s) [] (hc, hs) ht =
    (λ e. absurd (ground (arith, e, hc)), λ e. absurd (cc e))
same_name-pad_name (suc n) (c ∷ s) (d ∷ t) (hc, hs) (hd, ht) =
    let (to, from) = same_name-pad_name n s t hs ht in
    elim (Bool-cases (c == d)) [
      | inl e ↦
          let q : c ≡ d = ==→eq c d e in
          (
            λ h. rw (q, to (rw (==_ne c 0 hc, e) at h)) refl,
            λ h. rw (==_ne c 0 hc, e) (from (cc h)),
          )
      | inr e ↦ (λ h. absurd (cc (rw (==_ne c 0 hc, e) at h)), λ h. absurd (ground (arith, e, h)))
    ]

length-pad_name : (n : ℕ) (s : List ℕ) → length (pad_name n s) ≡ n
unfolding pad_name
length-pad_name zero s = refl
length-pad_name (suc n) [] = ap suc (length-pad_name n [])
length-pad_name (suc n) (c ∷ s) = ap suc (length-pad_name n s)

-- The entry that dirlink writes for a name takes 16 bytes. Read back, it has the number, and
-- dirlookup's comparison finds it under exactly those names that have the same first 14 characters.
pub namecmp-encode :
    (inum : ℕ) (name other : List ℕ)
    → inum < 65536
    → IsName name
    → IsName other
    → (length (encode inum name) ≡ 16)
      × ((decode (encode inum name)).inum ≡ inum)
      × ((namecmp other (decode (encode inum name)).name ≡ true)
          ↔ (take dirsiz other ≡ take dirsiz name))
unfolding namecmp
namecmp-encode inum name other h hn ho = (
  omega (arith, length-pad_name dirsiz name),
  omega (arith, h),
  same_name-pad_name dirsiz other name ho hn,
)
