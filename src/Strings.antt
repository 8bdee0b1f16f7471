-- ===== src/Strings.antt =====
-- string.c: the kernel's byte and string routines, over the bytes of a memory. A pointer is an
-- address; objects do not run past the end of the address space, so pointers do not wrap. A count
-- that is an `int` is taken as it is when positive and as 0 otherwise, which is how the loops act.
mod Tests
pub mod Move
use operating_systems_projec.Base.{
  ℕ, zero, suc, ◌+◌, ◌-◌, ◌*◌, ◌/◌, ◌%◌, ◌^◌, ◌≤◌, ◌<◌, min, ◌≡◌, refl, sym, ap, subst, ◌∙◌, ◌≢◌,
  ◌↔◌, ◌⊎◌, inl, inr, Bool, true, false, ◌&&◌, ◌||◌, not, Option, none, some, List, [], ◌∷◌, ◌++◌,
  append-nil, append_assoc, arith, ltb, leb, ◌==◌, if◌then◌else◌, ltb→lt, lt→ltb, leb→le, ==→eq,
  ==_refl, ==_ne, tests, Bool-cases, Option-cases, update, length, get_elem?, get_or, set, take,
  drop, replicate, length-append, length-set, get_elem?-set_self, get_elem?-set_ne, get_or-set_self,
  get_or-set_ne, length-replicate, length-take, take-append-drop, All, NotIn, Distinct, Result, ok,
  panic, ◌>>=◌, ℤ, pos, negsuc,
}

abbrev pub Memory : Type 0
Memory = ℕ → ℕ

-- `rep stosb`: n times the low byte of c.
unfoldable pub stosb : Memory → ℕ → ℕ → ℕ → Memory
stosb m dst c zero = m
stosb m dst c (suc n) = stosb (update m dst (c % 256)) (dst + 1) c n

abbrev pub store_word : Memory → ℕ → ℕ → Memory
store_word m a w =
    update
      (update (update (update m a (w % 256)) (a + 1) (w / 256 % 256)) (a + 2) (w / 65536 % 256))
      (a + 3) (w / 16777216 % 256)

-- `rep stosl`: n times the word w.
unfoldable pub stosl : Memory → ℕ → ℕ → ℕ → Memory
stosl m dst w zero = m
stosl m dst w (suc n) = stosl (store_word m dst w) (dst + 4) w n

-- Each byte of the word is c, so the shifted copies do not overlap and `|` adds them.
abbrev pub spread : ℕ → ℕ
spread c = c * 16777216 + c * 65536 + c * 256 + c

unfoldable pub memset : Memory → ℕ → ℕ → ℕ → Memory
memset m dst c n =
    if dst % 4 == 0 && n % 4 == 0 then stosl m dst (spread (c % 256)) (n / 4) else stosb m dst c n

unfoldable pub memcmp : Memory → ℕ → ℕ → ℕ → ℤ
memcmp m s1 s2 zero = pos 0
memcmp m s1 s2 (suc n) =
    if not (m s1 == m s2)
    then (if ltb (m s1) (m s2) then negsuc (m s2 - m s1 - 1) else pos (m s1 - m s2))
    else memcmp m (s1 + 1) (s2 + 1) n

-- The two loops of memmove; the first runs down from the ends.
unfoldable pub move_down : Memory → ℕ → ℕ → ℕ → Memory
move_down m d s zero = m
move_down m d s (suc n) = move_down (update m (d - 1) (m (s - 1))) (d - 1) (s - 1) n

unfoldable pub move_up : Memory → ℕ → ℕ → ℕ → Memory
move_up m d s zero = m
move_up m d s (suc n) = move_up (update m d (m s)) (d + 1) (s + 1) n

unfoldable pub memmove : Memory → ℕ → ℕ → ℕ → Memory
memmove m dst src n =
    if ltb src dst && ltb dst (src + n)
    then move_down m (dst + n) (src + n) n
    else move_up m dst src n

-- The result is a difference of unsigned chars.
unfoldable pub byte_diff : ℕ → ℕ → ℤ
byte_diff a b = if ltb a b then negsuc (b - a - 1) else pos (a - b)

unfoldable pub strncmp : Memory → ℕ → ℕ → ℕ → ℤ
unfolding byte_diff
strncmp m p q zero = pos 0
strncmp m p q (suc n) =
    if not (m p == 0) && m p == m q then strncmp m (p + 1) (q + 1) n else byte_diff (m p) (m q)

-- The second loop of strncpy.
unfoldable pub pad : Memory → ℕ → ℕ → Memory
pad m s zero = m
pad m s (suc n) = pad (update m s 0) (s + 1) n

unfoldable pub strncpy : Memory → ℕ → ℕ → ℕ → Memory
strncpy m s t zero = m
strncpy m s t (suc n) =
    if m t == 0 then pad (update m s 0) (s + 1) n else strncpy (update m s (m t)) (s + 1) (t + 1) n

-- The loop of safestrcpy with the NUL behind it; `n` is what `--n > 0` still lets through.
unfoldable pub safe_copy : Memory → ℕ → ℕ → ℕ → Memory
safe_copy m s t zero = update m s 0
safe_copy m s t (suc n) =
    if m t == 0
    then update (update m s 0) (s + 1) 0
    else safe_copy (update m s (m t)) (s + 1) (t + 1) n

unfoldable pub safestrcpy : Memory → ℕ → ℕ → ℕ → Memory
safestrcpy m s t zero = m
safestrcpy m s t (suc n) = safe_copy m s t n

-- The scan of strlen, on fuel.
unfoldable pub length_from : ℕ → Memory → ℕ → ℕ → Option ℕ
length_from zero m s n = none
length_from (suc f) m s n =
    let rest = length_from f m s (n + 1) in if m (s + n) == 0 then some n else rest

unfoldable pub strlen : ℕ → Memory → ℕ → Option ℕ
strlen fuel m s = length_from fuel m s 0
