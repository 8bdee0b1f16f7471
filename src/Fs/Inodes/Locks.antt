-- ===== src/Fs/Inodes/Locks.antt =====
-- The lock of an inode: ilock and iunlock.
use operating_systems_projec.Base.{
  ℕ, zero, suc, ◌<◌, ◌≡◌, refl, sym, ap, subst, ◌∙◌, inl, inr, true, false, List, [], ◌∷◌, arith,
  ltb, ◌==◌, Bool-cases, length, set, get_or-set_self,
}
use operating_systems_projec.Fs.{Inode, Fs, at, put, blank, done, waits}
use operating_systems_projec.Fs.Inodes.{iblock, dinode, load_dinode, ilock, iunlock}

set-set : (xs : List Inode) (i : ℕ) (v w : Inode) → set (set xs i v) i w ≡ set xs i w
set-set [] i v w = refl
set-set (x ∷ xs) zero v w = refl
set-set (x ∷ xs) (suc i) v w = ap (λ ys. x ∷ ys) (set-set xs i v w)

-- What ilock leaves: the entry is busy and valid, and has a reference.
record Locked (s s' : Fs) (i : ℕ) : Type 0 where
  ip : Inode
  left : s' ≡ put i (record ip { busy = true; valid = true }) s
  referenced : 0 < ip.ref

ilock-Locked : (s s' : Fs) (i : ℕ) → ilock i s ≡ done tt s' → Locked s s' i
unfolding ilock load_dinode
ilock-Locked s s' i h = elim (Bool-cases (ltb (at s i).ref 1)) [
  | inl e ↦ absurd (cc (rw e at h))
  | inr e ↦ elim (Bool-cases (at s i).busy) [
    | inl b ↦ absurd (cc (rw (e, b) at h))
    | inr b ↦ elim (Bool-cases (at s i).valid) [
      | inl v ↦
          let q : put i (record (at s i) { busy = true }) s ≡ s' = cc (rw (e, b, v) at h) in
          record {
            ip = at s i;
            left = sym q ∙ ap (λ w. put i (record (at s i) { busy = true; valid = w }) s) v;
            referenced = ground (arith, e);
          }
      | inr v ↦ elim (Bool-cases (loaded.type == 0)) [
        | inl z ↦ absurd (cc (rw (e, b, v, z) at h))
        | inr z ↦
            let q : put i (record loaded { busy = true; valid = true }) s ≡ s' =
              cc (rw (e, b, v, z) at h) in
            record { ip = loaded; left = sym q; referenced = ground (arith, e) }
      ]
    ]
  ]
]
  where
    loaded : Inode
    loaded = load_dinode (s.blocks (iblock (at s i).inum s.sb)) (dinode (at s i).inum) (at s i)

-- A locked inode: its entry, and what the lock calls do.
pub record Holds (i : ℕ) (s' : Fs) : Type 0 where
  pub valid : (at s' i).valid ≡ true
  pub others_wait : ilock i s' ≡ waits i
  pub unlocked : Fs
  pub unlocks : iunlock i s' ≡ done tt unlocked
  pub locks_again : ilock i unlocked ≡ done tt s'

put-Holds :
    (s : Fs) (i : ℕ) (ip : Inode)
    → i < length s.inodes
    → 0 < ip.ref
    → Holds i (put i (record ip { busy = true; valid = true }) s)
unfolding ilock iunlock
put-Holds s i ip lt r = record {
  valid = ap (λ (x : Inode). x.valid) held_at;
  others_wait = rw (held_at, e) refl;
  unlocked = put i free_ip s;
  unlocks =
      rw (held_at, e)
        (ap (λ is. done tt (record s { inodes = is })) (set-set s.inodes i held free_ip));
  locks_again =
      rw (free_at, e)
        (ap (λ is. done tt (record s { inodes = is })) (set-set s.inodes i free_ip held));
}
  where
    held : Inode
    held = record ip { busy = true; valid = true }

    free_ip : Inode
    free_ip = record ip { busy = false; valid = true }

    held_at : at (put i held s) i ≡ held
    held_at = get_or-set_self s.inodes i held blank lt

    free_at : at (put i free_ip s) i ≡ free_ip
    free_at = get_or-set_self s.inodes i free_ip blank lt

    e : ltb ip.ref 1 ≡ false
    e = ground (arith, r)

-- Once ilock is done, the entry has a valid copy of the inode and every other ilock of it waits,
-- until iunlock, which succeeds and after which ilock locks the inode again, with the same result.
pub ilock-Holds : (s s' : Fs) (i : ℕ) → i < length s.inodes → ilock i s ≡ done tt s' → Holds i s'
ilock-Holds s s' i lt h =
    let l = ilock-Locked s s' i h in
    subst (Holds i) (sym l.left) (put-Holds s i l.ip lt l.referenced)
