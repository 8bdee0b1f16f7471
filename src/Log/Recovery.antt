-- ===== src/Log/Recovery.antt =====
-- Crash safety of commit and recover_from_log: the logged blocks change together or not at all.
use operating_systems_projec.Base.{
  ℕ, zero, suc, ◌+◌, ◌≤◌, ◌<◌, ◌≡◌, refl, sym, ap, subst, ◌∙◌, ◌≢◌, ◌⊎◌, inl, inr, false, arith,
  ltb, ltb→lt, lt→ltb, Bool-cases,
}
use native.Mathlib.Decide.{dec_lt}
use operating_systems_projec.Log.{
  Block, Disk, Log, bwrite, write_log, install_trans, install_from, write_log_from, header,
  write_head, read_head, recover_from_log, commit, crash,
}
use operating_systems_projec.Log.Loops.{
  Home, Fits, bwrite-disk_other, bwrite-cache_other, bwrite-disk_self, bwrite-dead, bwrite-power,
  write_log_from-power, write_log_from-other, write_log_from-copied, install_from-other,
  install_from-power, install_from-installed, Home-ne,
}

-- The log in memory after a reboot: place and size come from the superblock, the rest is arbitrary.
abbrev pub rebooted : Log → ℕ → (ℕ → ℕ) → Log
rebooted l m block = record l { outstanding = 0; committing = false; n = m; block = block }

-- No home block has changed.
abbrev pub Old : Log → Disk → Disk → Type 0
Old l d d' = (a : ℕ) → Home l a → d'.disk a ≡ d.disk a

-- Every logged block has its new contents, and no other home block has changed.
abbrev pub New : Log → Disk → Disk → Type 0
New l d d' =
    ((i : ℕ) → i < l.n → d'.disk (l.block i) ≡ d.cache (l.block i))
    × ((a : ℕ) → Home l a → ((i : ℕ) → i < l.n → l.block i ≢ a) → d'.disk a ≡ d.disk a)

install_from-dead :
    (l : Log) (k tail : ℕ) (d : Disk) → d.power ≡ 0 → (install_from l k tail d).disk ≡ d.disk
unfolding install_from
install_from-dead l zero tail d h = refl
install_from-dead l (suc k) tail d h =
    let x = d.cache (l.start + tail + 1) in
    install_from-dead l k (tail + 1) (bwrite d (l.block tail) x)
      (omega (arith, bwrite-power d (l.block tail) x))
    ∙ bwrite-dead d (l.block tail) x h

-- Recovery from a header that names no block changes nothing but the header.
recover-idle :
    (l : Log) (d : Disk) (a : ℕ)
    → d.cache l.start 0 ≡ 0
    → a ≢ l.start
    → (recover_from_log l d).1.disk a ≡ d.disk a
unfolding recover_from_log read_head write_head install_trans install_from
recover-idle l d a h ne = rw h (bwrite-disk_other d l.start a _ ne)

-- Recovery from the header and the data of a committed transaction installs it.
recover-replay :
    (l : Log) (m : ℕ) (blk : ℕ → ℕ) (d d0 : Disk)
    → Fits l
    → d.cache ≡ d.disk
    → d.cache l.start 0 ≡ l.n
    → ((i : ℕ) → i < l.n → d.cache l.start (i + 1) ≡ l.block i)
    → ((i : ℕ) → i < l.n → d.cache (l.start + i + 1) ≡ d0.cache (l.block i))
    → ((a : ℕ) → Home l a → ((i : ℕ) → i < l.n → l.block i ≢ a) → d.disk a ≡ d0.disk a)
    → l.n ≤ d.power
    → New l d0 (recover_from_log (rebooted l m blk) d).1
unfolding recover_from_log read_head write_head install_trans
recover-replay l m blk d d0 fits same hn hb hd ho pw = (
  λ i li.
      bwrite-disk_other t l.start (l.block i) _ (off (l.block i) (fits.home i li))
      ∙ subst (λ b. t.disk b ≡ d0.cache b) (same_block i li)
          (install_from-installed r r_fits d0.cache r.n 0 d (omega arith) holds (omega (arith, hn))
            i (omega arith) (omega (arith, hn))),
  λ a home ne.
      bwrite-disk_other t l.start a _ (off a home)
      ∙ (install_from-other r r.n 0 d a
          (λ i lt e. let li : i < l.n = omega (arith, hn) in ne i li (sym (same_block i li) ∙ e))).0
      ∙ ho a home ne,
)
  where
    r : Log
    r = read_head (rebooted l m blk) d

    t : Disk
    t = install_from r r.n 0 d

    off : (a : ℕ) → Home l a → a ≢ l.start
    off a h = omega (arith, fits.room)

    same_block : (i : ℕ) → i < l.n → r.block i ≡ l.block i
    same_block i li = ground (arith, hn, hb i li)

    r_fits : Fits r
    r_fits = record {
      room = omega (arith, hn, fits.room);
      home = λ i lt.
          let li : i < l.n = omega (arith, hn) in
          subst (Home l) (sym (same_block i li)) (fits.home i li);
    }

    holds : (i : ℕ) → i < r.n → d.cache (r.start + i + 1) ≡ d0.cache (r.block i)
    holds i lt =
        let li : i < l.n = omega (arith, hn) in hd i li ∙ ap d0.cache (sym (same_block i li))

-- What write_log and the first write_head leave if the power lasts so far, and what follows.
module _ (l : Log) (d : Disk) (fits : Fits l) (some_blocks : 0 < l.n) where
  abbrev logged : Disk
  logged = write_log_from l l.n 0 d

  abbrev headed : Disk
  headed = bwrite logged l.start (header l (logged.cache l.start))

  abbrev installed : Disk
  installed = install_from l l.n 0 headed

  abbrev done : Log
  done = record l { n = 0 }

  abbrev cleared : Disk
  cleared = bwrite installed l.start (header done (installed.cache l.start))

  commit_lem : commit l d ≡ (done, cleared)
  unfolding commit write_log write_head install_trans
  commit_lem = rw (lt→ltb 0 l.n some_blocks)

  logged-start : (logged.disk l.start ≡ d.disk l.start) × (logged.cache l.start ≡ d.cache l.start)
  logged-start = write_log_from-other l l.n 0 d l.start (inl (omega arith))

  logged-Home : (a : ℕ) → Home l a → (logged.disk a ≡ d.disk a) × (logged.cache a ≡ d.cache a)
  logged-Home a h =
      write_log_from-other l l.n 0 d a
        (elim h [ inl p ↦ inl (omega arith) | inr p ↦ inr (omega (arith, fits.room)) ])

  data_ne : (i : ℕ) → l.start + i + 1 ≢ l.start
  data_ne i = omega arith

  outside_head : (a : ℕ) → Home l a → a ≢ l.start
  outside_head a h = omega (arith, fits.room)

  headed-holds : (i : ℕ) → i < l.n → headed.cache (l.start + i + 1) ≡ d.cache (l.block i)
  headed-holds i li =
      bwrite-cache_other logged l.start (l.start + i + 1) _ (data_ne i)
      ∙ (write_log_from-copied l l.n 0 d fits (omega arith) i (omega arith) (omega arith)).0

  -- The power fails before the header is written: no home block and no header has changed.
  dead-Old : (d.power ≤ l.n) → (cleared.disk l.start ≡ d.disk l.start) × Old l d cleared
  dead-Old p =
      let p0 : logged.power ≡ 0 = omega (arith, write_log_from-power l l.n 0 d) in
      let p1 : headed.power ≡ 0 =
        omega (arith, p0, bwrite-power logged l.start (header l (logged.cache l.start))) in
      let p2 : installed.power ≡ 0 = omega (arith, p1, install_from-power l l.n 0 headed) in
      let same : cleared.disk ≡ logged.disk =
        bwrite-dead installed l.start _ p2
        ∙ install_from-dead l l.n 0 headed p1
        ∙ bwrite-dead logged l.start _ p0 in
      (
        ap (λ (f : ℕ → Block). f l.start) same ∙ logged-start.0,
        λ a h. ap (λ (f : ℕ → Block). f a) same ∙ (logged-Home a h).0,
      )

  module _ (alive : l.n < d.power) where
    logged-power : 0 < logged.power
    logged-power = omega (arith, write_log_from-power l l.n 0 d)

    headed-data : (i : ℕ) → i < l.n → headed.disk (l.start + i + 1) ≡ d.cache (l.block i)
    headed-data i li =
        bwrite-disk_other logged l.start (l.start + i + 1) _ (data_ne i)
        ∙ (write_log_from-copied l l.n 0 d fits (omega arith) i (omega arith) (omega arith)).1
            (omega arith)

    kept-by-install :
        (a : ℕ) → ((i : ℕ) → i < l.n → l.block i ≢ a) → installed.disk a ≡ headed.disk a
    kept-by-install a h = (install_from-other l l.n 0 headed a (λ i lt. h i (omega arith))).0

    unlogged :
        (a : ℕ) → Home l a → ((i : ℕ) → i < l.n → l.block i ≢ a) → installed.disk a ≡ d.disk a
    unlogged a h ne =
        kept-by-install a ne
        ∙ bwrite-disk_other logged l.start a _ (outside_head a h)
        ∙ (logged-Home a h).0

    installed-header : installed.disk l.start ≡ header l (logged.cache l.start)
    installed-header =
        kept-by-install l.start (λ i li e. outside_head (l.block i) (fits.home i li) e)
        ∙ bwrite-disk_self logged l.start _ logged-power

    installed-data : (i : ℕ) → i < l.n → installed.disk (l.start + i + 1) ≡ d.cache (l.block i)
    installed-data i li =
        kept-by-install (l.start + i + 1) (λ j lj e.
          Home-ne l (l.block j) (i + 1) (omega (arith, fits.room)) (fits.home j lj) (omega arith))
        ∙ headed-data i li

    -- The power lasts to the end: the home blocks are new, and the header is cleared.
    cleared-New : 0 < installed.power → (cleared.disk l.start 0 ≡ 0) × New l d cleared
    cleared-New p = (
      ap (λ (b : Block). b 0) (bwrite-disk_self installed l.start _ p),
      (
        λ i li.
            bwrite-disk_other installed l.start (l.block i) _
              (outside_head (l.block i) (fits.home i li))
            ∙ install_from-installed l fits d.cache l.n 0 headed (omega arith) headed-holds
                (omega (arith, install_from-power l l.n 0 headed)) i (omega arith) (omega arith),
        λ a h ne. bwrite-disk_other installed l.start a _ (outside_head a h) ∙ unlogged a h ne,
      ),
    )

    -- The power fails behind the commit point: recovery finds the transaction in the log.
    replayed-New :
        (m : ℕ) (blk : ℕ → ℕ) (power : ℕ)
        → l.n ≤ power
        → installed.power ≡ 0
        → New l d (recover_from_log (rebooted l m blk) (crash cleared power)).1
    replayed-New m blk power pw p =
        let same : cleared.disk ≡ installed.disk = bwrite-dead installed l.start _ p in
        let at = λ (a : ℕ). ap (λ (f : ℕ → Block). f a) same in
        let head = at l.start ∙ installed-header in
        recover-replay l m blk (crash cleared power) d fits refl (ap (λ (b : Block). b 0) head)
          (λ i li. ap (λ (b : Block). b (i + 1)) head ∙ ground arith)
          (λ i li. at (l.start + i + 1) ∙ installed-data i li) (λ a h ne. at a ∙ unlogged a h ne) pw

commit_none : (l : Log) (d : Disk) → ltb 0 l.n ≡ false → commit l d ≡ (l, d)
unfolding commit
commit_none l d h = rw h

module _ (l : Log) (d d' : Disk) (m : ℕ) (blk : ℕ → ℕ) (power : ℕ) (fits : Fits l) where
  idle_recovery :
      d'.disk l.start 0 ≡ 0
      → (a : ℕ) → Home l a
      → (recover_from_log (rebooted l m blk) (crash d' power)).1.disk a ≡ d'.disk a
  idle_recovery h a home =
      recover-idle (rebooted l m blk) (crash d' power) a h (omega (arith, fits.room))

  Old-recovery :
      d'.disk l.start 0 ≡ 0
      → Old l d d'
      → Old l d (recover_from_log (rebooted l m blk) (crash d' power)).1
  Old-recovery h o a home = idle_recovery h a home ∙ o a home

  New-recovery :
      d'.disk l.start 0 ≡ 0
      → New l d d'
      → New l d (recover_from_log (rebooted l m blk) (crash d' power)).1
  New-recovery h o = (
    λ i li. idle_recovery h (l.block i) (fits.home i li) ∙ o.0 i li,
    λ a home ne. idle_recovery h a home ∙ o.1 a home ne,
  )

-- Wherever the power fails during commit, recovery leaves the home blocks all as they were on the
-- disk, or with every logged block at its cached contents. The log fits its area, no logged block
-- lies there, no earlier transaction stands in the header, and recovery has the power to copy.
pub crash_atomic :
    (l : Log) (d : Disk) (m : ℕ) (blk : ℕ → ℕ) (power : ℕ)
    → Fits l
    → d.disk l.start 0 ≡ 0
    → l.n ≤ power
    → let d' = (recover_from_log (rebooted l m blk) (crash (commit l d).1 power)).1 in
      Old l d d' ⊎ New l d d'
crash_atomic l d m blk power fits idle pw = elim (Bool-cases (ltb 0 l.n)) [
  | inr no_blocks ↦
      rw (commit_none l d no_blocks) (inl (Old-recovery l d d m blk power fits idle (λ a h. refl)))
  | inl more ↦ let p = ltb→lt 0 l.n more in rw (commit_lem l d fits p) (by_power p)
]
  where
    by_power :
        (p : 0 < l.n)
        → let d' = (recover_from_log (rebooted l m blk) (crash (cleared l d fits p) power)).1 in
          Old l d d' ⊎ New l d d'
    by_power p = elim (dec_lt l.n d.power) [
      | no dead ↦
          let o = dead-Old l d fits p (omega arith) in
          inl (
            Old-recovery l d (cleared l d fits p) m blk power fits
              (ap (λ (b : Block). b 0) o.0 ∙ idle) o.1)
      | yes alive ↦ elim (dec_lt 0 (installed l d fits p).power) [
        | yes more ↦
            let n = cleared-New l d fits p alive more in
            inr (New-recovery l d (cleared l d fits p) m blk power fits n.0 n.1)
        | no none_left ↦ inr (replayed-New l d fits p alive m blk power pw (omega arith))
      ]
    ]

-- With power for two writes a block and two for the header, commit installs every logged block,
-- changes no other home block, and clears the header.
pub commit_durable :
    (l : Log) (d : Disk)
    → Fits l
    → 0 < l.n
    → l.n + l.n + 1 < d.power
    → ((commit l d).1.disk l.start 0 ≡ 0) × New l d (commit l d).1 × ((commit l d).0.n ≡ 0)
commit_durable l d fits some_blocks p =
    rw (commit_lem l d fits some_blocks)
      (let n = cleared-New l d fits some_blocks (omega arith) enough in (n.0, n.1, refl))
  where
    enough : 0 < (installed l d fits some_blocks).power
    enough = omega (
      arith,
      install_from-power l l.n 0 (headed l d fits some_blocks),
      bwrite-power (logged l d fits some_blocks) l.start
          (header l ((logged l d fits some_blocks).cache l.start)),
      write_log_from-power l l.n 0 d,
    )
