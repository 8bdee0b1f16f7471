-- ===== src/Strings/Move.antt =====
-- memmove copies as if through a buffer, overlapping or not; memset fills; memcmp compares.
use operating_systems_projec.Base.{
  ℕ, zero, suc, ◌+◌, ◌-◌, ◌*◌, ◌/◌, ◌%◌, ◌≤◌, ◌<◌, ◌≡◌, refl, ap, ◌∙◌, ◌↔◌, ◌⊎◌, inl, inr, ◌&&◌,
  arith, ltb, leb, ◌==◌, if◌then◌else◌, ==→eq, Bool-cases, update, pos,
}
use native.Mathlib.Decide.{dec_lt}
use operating_systems_projec.Strings.{
  Memory, stosb, stosl, store_word, spread, memset, memcmp, move_down, move_up, memmove,
}

-- `n` bytes from `src` put at `dst`, all read before any is written.
abbrev pub moved : Memory → ℕ → ℕ → ℕ → Memory
moved m dst src n a = if leb dst a && ltb a (dst + n) then m (src + (a - dst)) else m a

first_byte :
    (n : ℕ) (m : Memory) (d s a : ℕ)
    → (d ≤ s) ⊎ (s + suc n ≤ d)
    → moved (update m d (m s)) (d + 1) (s + 1) n a ≡ moved m d s (suc n) a
first_byte n m d s a h = elim (dec_lt d a) [
  | yes lt ↦ let e : s + 1 + (a - (d + 1)) ≡ s + (a - d) = omega arith in ground (arith, ap m e)
  | no ge ↦ elim (Bool-cases (a == d)) [
    | inl q ↦ let e : s + (a - d) ≡ s = ground arith in ground (arith, ap m e)
    | inr q ↦ ground arith
  ]
]

move_up-moved :
    (n : ℕ) (m : Memory) (d s a : ℕ) → (d ≤ s) ⊎ (s + n ≤ d) → move_up m d s n a ≡ moved m d s n a
unfolding move_up
move_up-moved zero m d s a h = ground arith
move_up-moved (suc n) m d s a h =
    move_up-moved n (update m d (m s)) (d + 1) (s + 1) a
      (elim h [ inl p ↦ inl (omega arith) | inr p ↦ inr (omega arith) ])
    ∙ first_byte n m d s a h

last_byte :
    (n : ℕ) (m : Memory) (d s a : ℕ)
    → s ≤ d
    → moved (update m (d + n) (m (s + n))) d s n a ≡ moved m d s (suc n) a
last_byte n m d s a h = elim (Bool-cases (a == d + n)) [
  | inl q ↦ let e : s + (a - d) ≡ s + n = ground arith in ground (arith, ap m e)
  | inr q ↦ ground arith
]

move_down-moved :
    (n : ℕ) (m : Memory) (d s a : ℕ) → s ≤ d → move_down m (d + n) (s + n) n a ≡ moved m d s n a
unfolding move_down
move_down-moved zero m d s a h = ground arith
move_down-moved (suc n) m d s a h =
    let ed : d + suc n - 1 ≡ d + n = omega arith in
    let es : s + suc n - 1 ≡ s + n = omega arith in
    rw (ed, es) (move_down-moved n (update m (d + n) (m (s + n))) d s a h ∙ last_byte n m d s a h)

stosb_lem :
    (n : ℕ) (m : Memory) (dst c a : ℕ)
    → stosb m dst c n a ≡ (if leb dst a && ltb a (dst + n) then c % 256 else m a)
unfolding stosb
stosb_lem zero m dst c a = ground arith
stosb_lem (suc n) m dst c a = stosb_lem n (update m dst (c % 256)) (dst + 1) c a ∙ ground arith

stosl_lem :
    (n : ℕ) (m : Memory) (dst c a : ℕ)
    → c < 256
    → stosl m dst (spread c) n a ≡ (if leb dst a && ltb a (dst + 4 * n) then c else m a)
unfolding stosl
stosl_lem zero m dst c a h = ground arith
stosl_lem (suc n) m dst c a h =
    stosl_lem n (store_word m dst (spread c)) (dst + 4) c a h ∙ ground arith

-- memset writes the low byte of `c` to each of the `n` bytes, by words or by bytes, and no other.
pub memset_lem :
    (m : Memory) (dst c n a : ℕ)
    → memset m dst c n a ≡ (if leb dst a && ltb a (dst + n) then c % 256 else m a)
unfolding memset
memset_lem m dst c n a =
    ground (arith, stosb_lem n m dst c a, stosl_lem (n / 4) m dst (c % 256) a (omega arith))

-- memmove leaves at `dst` the `n` bytes that were at `src`, overlapping or not, and no other change.
pub memmove_lem : (m : Memory) (dst src n a : ℕ) → memmove m dst src n a ≡ moved m dst src n a
unfolding memmove
memmove_lem m dst src n a = elim (Bool-cases (ltb src dst && ltb dst (src + n))) [
  | inl e ↦ rw e (move_down-moved n m dst src a (ground arith))
  | inr e ↦ rw e (move_up-moved n m dst src a (ground arith))
]

-- memcmp is 0 exactly when all `n` bytes agree.
pub memcmp_lem :
    (n : ℕ) (m : Memory) (p q : ℕ)
    → (memcmp m p q n ≡ pos 0) ↔ ((i : ℕ) → i < n → m (p + i) ≡ m (q + i))
unfolding memcmp
memcmp_lem zero m p q = (λ e i h. absurd (omega arith), λ h. refl)
memcmp_lem (suc n) m p q = elim (Bool-cases (m p == m q)) [
  | inl e ↦
      let rest = memcmp_lem n m (p + 1) (q + 1) in
      (
        λ z. all_bytes (==→eq (m p) (m q) e) (rest.0 (ground (arith, z))),
        λ h. ground (arith, rest.1 (λ i l. tail_byte h i l)),
      )
  | inr e ↦ (λ z. ground (arith, z), λ h. let q : m p ≡ m q = first h in absurd (ground (arith, q)))
]
  where
    first : ((i : ℕ) → i < suc n → m (p + i) ≡ m (q + i)) → m p ≡ m q
    first h = ap m (omega arith) ∙ h 0 (omega arith) ∙ ap m (omega arith)

    tail_byte :
        ((i : ℕ) → i < suc n → m (p + i) ≡ m (q + i))
        → (i : ℕ) → i < n
        → m (p + 1 + i) ≡ m (q + 1 + i)
    tail_byte h i l = ap m (omega arith) ∙ h (suc i) (omega arith) ∙ ap m (omega arith)

    all_bytes :
        m p ≡ m q
        → ((i : ℕ) → i < n → m (p + 1 + i) ≡ m (q + 1 + i))
        → (i : ℕ) → i < suc n
        → m (p + i) ≡ m (q + i)
    all_bytes e h zero l = ap m (omega arith) ∙ e ∙ ap m (omega arith)
    all_bytes e h (suc i) l = ap m (omega arith) ∙ h i (omega arith) ∙ ap m (omega arith)
