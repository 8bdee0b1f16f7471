-- ===== src/Fs/Inodes/Cache.antt =====
-- The cache of inodes: iget keeps one entry for each inode in use.
use operating_systems_projec.Base.{
  ℕ, zero, suc, ◌+◌, ◌<◌, ◌≡◌, refl, sym, ap, subst, ◌∙◌, ◌≢◌, inl, inr, false, ◌&&◌, Option, none,
  some, List, [], ◌∷◌, arith, ltb, ◌==◌, ==→eq, Bool-cases, length, get_or, get_or-set_self,
  get_or-set_ne,
}
use operating_systems_projec.Fs.{Inode, Fs, Run, at, put, blank, done, panics}
use operating_systems_projec.Fs.Inodes.{find_inode, find_empty, iget}

-- The entry is in use and stands for inode `inum` of device `dev`.
pub record IsFor (dev inum : ℕ) (ip : Inode) : Type 0 where
  pub used : 0 < ip.ref
  pub same_dev : ip.dev ≡ dev
  pub same_inum : ip.inum ≡ inum

-- Two entries in use never stand for the same inode.
abbrev pub Unique : Fs → Type 0
Unique s = (i j dev inum : ℕ) → IsFor dev inum (at s i) → IsFor dev inum (at s j) → i ≡ j

data FoundInode (ips : List Inode) (k dev inum : ℕ) : Option ℕ → Type 0 where
  absent : ((j : ℕ) → IsFor dev inum (get_or ips j blank) → ⊥) → FoundInode ips k dev inum none
  present :
      (i : ℕ)
      → i < length ips
      → IsFor dev inum (get_or ips i blank)
      → FoundInode ips k dev inum (some (k + i))

find_inode_lem :
    (ips : List Inode) (k dev inum : ℕ) → FoundInode ips k dev inum (find_inode ips k dev inum)
unfolding find_inode
find_inode_lem [] k dev inum = absent (λ j u. absurd (omega (arith, u.used)))
find_inode_lem (ip ∷ ips) k dev inum =
    elim (Bool-cases (ltb 0 ip.ref && ip.dev == dev && ip.inum == inum)) [
      | inl e ↦ rw e (
          subst (λ n. FoundInode (ip ∷ ips) k dev inum (some n)) (omega arith)
            (present 0 (omega arith) (record {
              used = ground (arith, e);
              same_dev = ground (arith, e);
              same_inum = ground (arith, e);
            })))
      | inr e ↦
          rw e (later e (find_inode ips (k + 1) dev inum) (find_inode_lem ips (k + 1) dev inum))
    ]
  where
    no_match : (ltb 0 ip.ref && ip.dev == dev && ip.inum == inum) ≡ false → IsFor dev inum ip → ⊥
    no_match e u = ground (arith, e, u.used, u.same_dev, u.same_inum)

    later :
        (ltb 0 ip.ref && ip.dev == dev && ip.inum == inum) ≡ false
        → (r : Option ℕ) → FoundInode ips (k + 1) dev inum r
        → FoundInode (ip ∷ ips) k dev inum r
    later e none (absent h) = absent (λ j.
        elim j as (λ k'. IsFor dev inum (get_or (ip ∷ ips) k' blank) → ⊥) [
          | zero ↦ no_match e
          | suc j' ↦ h j'
        ])
    later e (some n) (present i lt u) =
        subst (λ m. FoundInode (ip ∷ ips) k dev inum (some m)) (omega arith)
          (present (suc i) (omega arith) u)

data FoundEmpty (ips : List Inode) (k : ℕ) : Option ℕ → Type 0 where
  all_used : ((j : ℕ) → j < length ips → 0 < (get_or ips j blank).ref) → FoundEmpty ips k none
  empty : (i : ℕ) → i < length ips → (get_or ips i blank).ref ≡ 0 → FoundEmpty ips k (some (k + i))

find_empty_lem : (ips : List Inode) (k : ℕ) → FoundEmpty ips k (find_empty ips k)
unfolding find_empty
find_empty_lem [] k = all_used (λ j h. absurd (omega arith))
find_empty_lem (ip ∷ ips) k = elim (Bool-cases (ip.ref == 0)) [
  | inl e ↦ rw e (
      subst (λ n. FoundEmpty (ip ∷ ips) k (some n)) (omega arith)
        (empty 0 (omega arith) (==→eq ip.ref 0 e)))
  | inr e ↦ rw e (later e (find_empty ips (k + 1)) (find_empty_lem ips (k + 1)))
]
  where
    later :
        (ip.ref == 0) ≡ false
        → (r : Option ℕ) → FoundEmpty ips (k + 1) r
        → FoundEmpty (ip ∷ ips) k r
    later e none (all_used h) = all_used (λ j.
        elim j as (λ k'. k' < length (ip ∷ ips) → 0 < (get_or (ip ∷ ips) k' blank).ref) [
          | zero ↦ λ lt. ground (arith, e)
          | suc j' ↦ λ lt. h j' (omega arith)
        ])
    later e (some n) (empty i lt z) =
        subst (λ m. FoundEmpty (ip ∷ ips) k (some m)) (omega arith) (empty (suc i) (omega arith) z)

-- iget when the entry `i` is the one it gives: the state after it.
pub record Gets (s : Fs) (dev inum i : ℕ) (s' : Fs) : Type 0 where
  pub is_for : IsFor dev inum (at s' i)
  pub counted : (at s' i).ref ≡ (at s i).ref + 1
  pub hit : (0 < (at s i).ref) → at s' i ≡ record (at s i) { ref = (at s i).ref + 1 }
  pub miss : ((at s i).ref ≡ 0) → ((at s' i).valid ≡ false) × ((at s' i).busy ≡ false)
  pub others : (j : ℕ) → i ≢ j → at s' j ≡ at s j
  pub unique : Unique s'

put-Unique :
    (s : Fs) (i dev inum : ℕ) (ip : Inode)
    → Unique s
    → i < length s.inodes
    → IsFor dev inum ip
    → ((j : ℕ) → i ≢ j → IsFor dev inum (at s j) → ⊥)
    → Unique (put i ip s)
put-Unique s i dev inum ip u lt f h a b d n fa fb = elim (Bool-cases (i == a)) [
  | inl e ↦ elim (Bool-cases (i == b)) [
    | inl e' ↦ sym (==→eq i a e) ∙ ==→eq i b e'
    | inr e' ↦ absurd (clash a b (==→eq i a e) (λ q. ground (arith, e', q)) fa fb)
  ]
  | inr e ↦ elim (Bool-cases (i == b)) [
    | inl e' ↦ absurd (clash b a (==→eq i b e') (λ q. ground (arith, e, q)) fb fa)
    | inr e' ↦
        u a b d n (old a (λ q. ground (arith, e, q)) fa) (old b (λ q. ground (arith, e', q)) fb)
  ]
]
  where
    old : (j : ℕ) → i ≢ j → IsFor d n (at (put i ip s) j) → IsFor d n (at s j)
    old j ne = subst (IsFor d n) (get_or-set_ne s.inodes i j ip blank ne)

    clash :
        (j k : ℕ)
        → i ≡ j
        → i ≢ k
        → IsFor d n (at (put i ip s) j)
        → IsFor d n (at (put i ip s) k)
        → ⊥
    clash j k e ne fj fk =
        let new : at (put i ip s) j ≡ ip =
          ap (at (put i ip s)) (sym e) ∙ get_or-set_self s.inodes i ip blank lt in
        let fi = subst (IsFor d n) new fj in
        let fo = old k ne fk in
        h k ne (record {
          used = fo.used;
          same_dev = fo.same_dev ∙ sym fi.same_dev ∙ f.same_dev;
          same_inum = fo.same_inum ∙ sym fi.same_inum ∙ f.same_inum;
        })

-- What iget does: it panics when no entry stands for the inode and none is free.
pub data Igets (s : Fs) (dev inum : ℕ) : Run ℕ → Type 0 where
  full :
      ((j : ℕ) → j < length s.inodes → (0 < (at s j).ref) × (IsFor dev inum (at s j) → ⊥))
      → Igets s dev inum panics
  gets : (i : ℕ) (s' : Fs) → Gets s dev inum i s' → Igets s dev inum (done i s')

Gets-hit :
    (s : Fs) (i dev inum : ℕ)
    → Unique s
    → i < length s.inodes
    → IsFor dev inum (at s i)
    → Gets s dev inum i (put i (record (at s i) { ref = (at s i).ref + 1 }) s)
Gets-hit s i dev inum u lt f =
    let ip : Inode = record (at s i) { ref = (at s i).ref + 1 } in
    let new : at (put i ip s) i ≡ ip = get_or-set_self s.inodes i ip blank lt in
    let f' : IsFor dev inum ip = record {
      used = omega arith;
      same_dev = f.same_dev;
      same_inum = f.same_inum;
    } in
    record {
      is_for = subst (IsFor dev inum) (sym new) f';
      counted = ap (λ (x : Inode). x.ref) new;
      hit = λ h. new;
      miss = λ h. absurd (omega (arith, h, f.used));
      others = λ j ne. get_or-set_ne s.inodes i j ip blank ne;
      unique = put-Unique s i dev inum ip u lt f' (λ j ne fj. ne (u i j dev inum f fj));
    }

Gets-miss :
    (s : Fs) (i dev inum : ℕ)
    → Unique s
    → i < length s.inodes
    → (at s i).ref ≡ 0
    → ((j : ℕ) → IsFor dev inum (at s j) → ⊥)
    → Gets s dev inum i
        (put i (record (at s i) { dev = dev; inum = inum; ref = 1; busy = false; valid = false }) s)
Gets-miss s i dev inum u lt z nobody =
    let ip : Inode = record (at s i) {
      dev = dev;
      inum = inum;
      ref = 1;
      busy = false;
      valid = false;
    } in
    let new : at (put i ip s) i ≡ ip = get_or-set_self s.inodes i ip blank lt in
    let f' : IsFor dev inum ip = record { used = omega arith; same_dev = refl; same_inum = refl } in
    record {
      is_for = subst (IsFor dev inum) (sym new) f';
      counted = ap (λ (x : Inode). x.ref) new ∙ omega (arith, z);
      hit = λ h. absurd (omega (arith, h, z));
      miss = λ h. (ap (λ (x : Inode). x.valid) new, ap (λ (x : Inode). x.busy) new);
      others = λ j ne. get_or-set_ne s.inodes i j ip blank ne;
      unique = put-Unique s i dev inum ip u lt f' (λ j ne fj. nobody j fj);
    }

-- In a cache where no two entries in use stand for the same inode, iget panics exactly when no
-- entry stands for the inode and all are in use. Else it gives an entry that stands for the inode,
-- with one reference more and, if it was not in use, with no valid copy and not busy; the other
-- entries are as before, and still no two stand for the same inode.
pub iget-Unique : (s : Fs) (dev inum : ℕ) → Unique s → Igets s dev inum (iget dev inum s)
unfolding iget
iget-Unique s dev inum u = go (find_inode s.inodes 0 dev inum) (find_inode_lem s.inodes 0 dev inum)
  where
    miss :
        ((j : ℕ) → IsFor dev inum (at s j) → ⊥)
        → (r : Option ℕ) → FoundEmpty s.inodes 0 r
        → Igets s dev inum (elim r [
          | none ↦ panics
          | some i ↦ done i (
              put i
                (record (at s i) { dev = dev; inum = inum; ref = 1; busy = false; valid = false })
                s)
        ])
    miss nobody none (all_used h) = full (λ j lt. (h j lt, nobody j))
    miss nobody (some n) (empty i lt z) =
        let e : 0 + i ≡ i = omega arith in rw e (gets i _ (Gets-miss s i dev inum u lt z nobody))

    go :
        (r : Option ℕ)
        → FoundInode s.inodes 0 dev inum r
        → Igets s dev inum (elim r [
          | some i ↦ done i (put i (record (at s i) { ref = (at s i).ref + 1 }) s)
          | none ↦ elim (find_empty s.inodes 0) [
            | none ↦ panics
            | some i ↦ done i (
                put i
                  (record (at s i) { dev = dev; inum = inum; ref = 1; busy = false; valid = false })
                  s)
          ]
        ])
    go none (absent nobody) = miss nobody (find_empty s.inodes 0) (find_empty_lem s.inodes 0)
    go (some n) (present i lt f) =
        let e : 0 + i ≡ i = omega arith in rw e (gets i _ (Gets-hit s i dev inum u lt f))
