-- ===== src/Log/Loops.antt =====
-- The two copying loops of log.c, block by block: what they write, whatever the power.
use operating_systems_projec.Base.{
  ℕ, zero, suc, ◌+◌, ◌-◌, ◌≤◌, ◌<◌, ◌≡◌, refl, sym, ◌∙◌, ◌≢◌, ◌⊎◌, inl, inr, arith, ◌==◌, ==→eq,
  Bool-cases,
}
use operating_systems_projec.Log.{Block, Disk, Log, bwrite, write_log_from, install_from}

-- Block `a` is neither the log's header nor one of its data blocks.
abbrev pub Home : Log → ℕ → Type 0
Home l a = (a < l.start) ⊎ (l.start + l.size ≤ a)

-- What the log relies on: its blocks fit, and the logged blocks lie outside.
pub record Fits (l : Log) : Type 0 where
  pub room : l.n < l.size
  pub home : (i : ℕ) → i < l.n → Home l (l.block i)

pub bwrite-disk_other : (d : Disk) (b a : ℕ) (x : Block) → a ≢ b → (bwrite d b x).disk a ≡ d.disk a
unfolding bwrite
bwrite-disk_other d b a x h = ground arith

pub bwrite-cache_other :
    (d : Disk) (b a : ℕ) (x : Block) → a ≢ b → (bwrite d b x).cache a ≡ d.cache a
unfolding bwrite
bwrite-cache_other d b a x h = ground arith

pub bwrite-cache_self : (d : Disk) (b : ℕ) (x : Block) → (bwrite d b x).cache b ≡ x
unfolding bwrite
bwrite-cache_self d b x = ground arith

pub bwrite-disk_self : (d : Disk) (b : ℕ) (x : Block) → 0 < d.power → (bwrite d b x).disk b ≡ x
unfolding bwrite
bwrite-disk_self d b x h = ground arith

pub bwrite-dead : (d : Disk) (b : ℕ) (x : Block) → d.power ≡ 0 → (bwrite d b x).disk ≡ d.disk
unfolding bwrite
bwrite-dead d b x h = ground arith

pub bwrite-power : (d : Disk) (b : ℕ) (x : Block) → (bwrite d b x).power ≡ d.power - 1
unfolding bwrite
bwrite-power d b x = refl

-- Each block is as it was or as it was written.
pub bwrite-disk_either :
    (d : Disk) (b a : ℕ) (x : Block)
    → ((bwrite d b x).disk a ≡ d.disk a) ⊎ ((bwrite d b x).disk a ≡ x)
unfolding bwrite
bwrite-disk_either d b a x = ground arith

module _ (l : Log) where
  pub write_log_from-power :
      (k tail : ℕ) (d : Disk) → (write_log_from l k tail d).power ≡ d.power - k
  unfolding write_log_from
  write_log_from-power zero tail d = omega arith
  write_log_from-power (suc k) tail d = omega (
    arith,
    write_log_from-power k (tail + 1) (bwrite d (l.start + tail + 1) (d.cache (l.block tail))),
    bwrite-power d (l.start + tail + 1) (d.cache (l.block tail)),
  )

  -- The loop writes no block but the log's data blocks of its rounds.
  pub write_log_from-other :
      (k tail : ℕ) (d : Disk) (a : ℕ)
      → (a ≤ l.start + tail) ⊎ (l.start + tail + k < a)
      → ((write_log_from l k tail d).disk a ≡ d.disk a)
        × ((write_log_from l k tail d).cache a ≡ d.cache a)
  unfolding write_log_from
  write_log_from-other zero tail d a h = (refl, refl)
  write_log_from-other (suc k) tail d a h =
      let d' = bwrite d (l.start + tail + 1) (d.cache (l.block tail)) in
      let rest =
        write_log_from-other k (tail + 1) d' a
          (elim h [ inl p ↦ inl (omega arith) | inr p ↦ inr (omega arith) ]) in
      (
        rest.0 ∙ bwrite-disk_other d (l.start + tail + 1) a _ (omega arith),
        rest.1 ∙ bwrite-cache_other d (l.start + tail + 1) a _ (omega arith),
      )

  -- Round `i` leaves a copy of the logged block in the cache, and on the disk if there is power.
  pub write_log_from-copied :
      (k tail : ℕ) (d : Disk)
      → Fits l
      → tail + k ≤ l.n
      → (i : ℕ) → tail ≤ i
      → i < tail + k
      → ((write_log_from l k tail d).cache (l.start + i + 1) ≡ d.cache (l.block i))
        × (k ≤ d.power → (write_log_from l k tail d).disk (l.start + i + 1) ≡ d.cache (l.block i))
  unfolding write_log_from
  write_log_from-copied zero tail d fits le i lo hi = absurd (omega arith)
  write_log_from-copied (suc k) tail d fits le i lo hi = elim (Bool-cases (tail == i)) [
    | inl e ↦
        let same = ==→eq tail i e in
        let rest = write_log_from-other k (tail + 1) d' (l.start + i + 1) (inl (omega arith)) in
        (
          cc (rest.1, bwrite-cache_self d (l.start + tail + 1) x, same),
          λ p. cc (rest.0, bwrite-disk_self d (l.start + tail + 1) x (omega arith), same),
        )
    | inr ne ↦
        let lt : tail < i = ground arith in
        let home = fits.home i (omega arith) in
        let kept =
          bwrite-cache_other d (l.start + tail + 1) (l.block i) x (omega (arith, fits.room)) in
        let rest =
          write_log_from-copied k (tail + 1) d' fits (omega arith) i (omega arith) (omega arith) in
        (rest.0 ∙ kept, λ p. rest.1 (omega (arith, bwrite-power d (l.start + tail + 1) x)) ∙ kept)
  ]
    where
      x : Block
      x = d.cache (l.block tail)

      d' : Disk
      d' = bwrite d (l.start + tail + 1) (d.cache (l.block tail))

  -- install_trans writes no block but the logged ones.
  pub install_from-other :
      (k tail : ℕ) (d : Disk) (a : ℕ)
      → ((i : ℕ) → i < tail + k → l.block i ≢ a)
      → ((install_from l k tail d).disk a ≡ d.disk a)
        × ((install_from l k tail d).cache a ≡ d.cache a)
  unfolding install_from
  install_from-other zero tail d a h = (refl, refl)
  install_from-other (suc k) tail d a h =
      let d' = bwrite d (l.block tail) (d.cache (l.start + tail + 1)) in
      let rest = install_from-other k (tail + 1) d' a (λ i lt. h i (omega arith)) in
      let ne : a ≢ l.block tail = λ e. h tail (omega arith) (sym e) in
      (
        rest.0 ∙ bwrite-disk_other d (l.block tail) a _ ne,
        rest.1 ∙ bwrite-cache_other d (l.block tail) a _ ne,
      )

  pub install_from-power : (k tail : ℕ) (d : Disk) → (install_from l k tail d).power ≡ d.power - k
  unfolding install_from
  install_from-power zero tail d = omega arith
  install_from-power (suc k) tail d = omega (
    arith,
    install_from-power k (tail + 1) (bwrite d (l.block tail) (d.cache (l.start + tail + 1))),
    bwrite-power d (l.block tail) (d.cache (l.start + tail + 1)),
  )

  module _ (fits : Fits l) (v : ℕ → Block) where
    -- The log's data blocks hold what `v` says of the logged blocks.
    abbrev pub Holds : Disk → Type 0
    Holds d = (i : ℕ) → i < l.n → d.cache (l.start + i + 1) ≡ v (l.block i)

    pub Holds-step :
        (d : Disk) (tail : ℕ)
        → tail < l.n
        → Holds d
        → Holds (bwrite d (l.block tail) (d.cache (l.start + tail + 1)))
    Holds-step d tail lt h i li =
        let home = fits.home tail lt in
        bwrite-cache_other d (l.block tail) (l.start + i + 1) _ (omega (arith, fits.room)) ∙ h i li

    -- Whatever the power, install_trans leaves each block as it was or as `v` says.
    pub install_from-either :
        (k tail : ℕ) (d : Disk)
        → tail + k ≤ l.n
        → Holds d
        → (a : ℕ)
        → ((install_from l k tail d).disk a ≡ d.disk a) ⊎ ((install_from l k tail d).disk a ≡ v a)
    unfolding install_from
    install_from-either zero tail d le h a = inl refl
    install_from-either (suc k) tail d le h a =
        let x = d.cache (l.start + tail + 1) in
        let d' = bwrite d (l.block tail) x in
        let rest =
          install_from-either k (tail + 1) d' (omega arith) (Holds-step d tail (omega arith) h) a in
        let here : (d'.disk a ≡ d.disk a) ⊎ (d'.disk a ≡ v a) = either in
        elim rest [
          | inl e ↦ elim here [ inl p ↦ inl (e ∙ p) | inr p ↦ inr (e ∙ p) ]
          | inr e ↦ inr e
        ]
      where
        either :
            ((bwrite d (l.block tail) (d.cache (l.start + tail + 1))).disk a ≡ d.disk a)
            ⊎ ((bwrite d (l.block tail) (d.cache (l.start + tail + 1))).disk a ≡ v a)
        either = elim (Bool-cases (l.block tail == a)) [
          | inl e ↦ elim (bwrite-disk_either d (l.block tail) a (d.cache (l.start + tail + 1))) [
            | inl q ↦ inl q
            | inr q ↦ inr (cc (q, h tail (omega arith), ==→eq (l.block tail) a e))
          ]
          | inr ne ↦ inl (bwrite-disk_other d (l.block tail) a _ (ground arith))
        ]

    -- With the power for it, install_trans brings every logged block to what `v` says.
    pub install_from-installed :
        (k tail : ℕ) (d : Disk)
        → tail + k ≤ l.n
        → Holds d
        → k ≤ d.power
        → (i : ℕ) → tail ≤ i
        → i < tail + k
        → (install_from l k tail d).disk (l.block i) ≡ v (l.block i)
    unfolding install_from
    install_from-installed zero tail d le h p i lo hi = absurd (omega arith)
    install_from-installed (suc k) tail d le h p i lo hi =
        let x = d.cache (l.start + tail + 1) in
        let d' = bwrite d (l.block tail) x in
        let h' = Holds-step d tail (omega arith) h in
        elim (Bool-cases (tail == i)) [
          | inl e ↦
              let e' = ==→eq tail i e in
              elim (install_from-either k (tail + 1) d' (omega arith) h' (l.block i)) [
                | inl q ↦
                    cc (
                      q,
                      bwrite-disk_self d (l.block tail) x (omega arith),
                      h tail (omega arith),
                      e',
                    )
                | inr q ↦ q
              ]
          | inr ne ↦
              install_from-installed k (tail + 1) d' (omega arith) h'
                (omega (arith, bwrite-power d (l.block tail) x)) i (ground arith) (omega arith)
        ]

-- Home blocks and the log's own blocks are different blocks.
pub Home-ne : (l : Log) (a i : ℕ) → i < l.size → Home l a → a ≢ l.start + i
Home-ne l a i h (inl p) = omega arith
Home-ne l a i h (inr p) = omega arith
