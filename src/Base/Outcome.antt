-- ===== src/Base/Outcome.antt =====
-- `panic` stops the machine: a computation that reaches it has no result. A C `int` that is
-- returned.
use Prim.Native.Nat.{ℕ}
use mathlib.Core.Path.{◌≡◌, refl}

pub data Result {ℓ} (R : Type ℓ) : Type ℓ where
  panic : Result R
  ok : R → Result R

-- What follows a computation runs on its result.
infixl 5 ◌>>=◌
abbrev pub ◌>>=◌ {ℓ} : {R S : Type ℓ} → Result R → (R → Result S) → Result S
m >>= follow = elim m [ panic ↦ panic | ok result ↦ follow result ]

module _ {ℓ} {R S : Type ℓ} where
  pub >>=-eq-ok :
      (m : Result R) (follow : R → Result S) {s : S}
      → (m >>= follow) ≡ ok s
      → (r : R) × (m ≡ ok r) × (follow r ≡ ok s)
  >>=-eq-ok panic follow h = absurd (cc)
  >>=-eq-ok (ok r) follow h = (r, refl, h)

-- `negsuc n` is -(n + 1).
pub data ℤ : Type 0 where
  pos : ℕ → ℤ
  negsuc : ℕ → ℤ
