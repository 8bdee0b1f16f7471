-- ===== src/Ide/Steps.antt =====
-- ide.c: one request and one interrupt on a sound queue.
use operating_systems_projec.Base.{
  ℕ, zero, suc, ◌≡◌, refl, sym, ap, subst, ◌≢◌, true, false, some, List, [], ◌∷◌, ◌++◌, arith,
  update, get_elem?, All, NotIn, Distinct, ok,
}
use operating_systems_projec.Bio.{Buf}
use operating_systems_projec.Ide.{
  Device, Driver, is_done, command, start_first, finished, intr_at, append, iderw,
}
use operating_systems_projec.Ide.Queue.{
  Waits, IsSound, answer, finished-answer, idestart-ok, Waits-update,
}

-- The buffer of a finished request.
abbrev pub synced : {S : Type 0} → Device S → Driver S → ℕ → Buf
synced device d i =
    let b = d.bufs i in
    record b { block_data = answer device d.disk b; valid = true; dirty = false }

-- After the interrupt for `i`, with `queue` behind it.
pub record After {S : Type 0} (device : Device S) (d : Driver S) (i : ℕ) (queue : List ℕ)
    (u : Driver S) : Type 0 where
  pub bufs : u.bufs ≡ update d.bufs i (synced device d i)
  pub idequeue : u.idequeue ≡ queue
  pub woken : u.woken ≡ i ∷ d.woken
  pub sound : IsSound device u queue

-- After a request for `i`, with `queue` in front of it.
pub record Asked {S : Type 0} (device : Device S) (d : Driver S) (i : ℕ) (queue : List ℕ)
    (u : Driver S) : Type 0 where
  pub bufs : u.bufs ≡ d.bufs
  pub idequeue : u.idequeue ≡ queue ++ (i ∷ [])
  pub sound : IsSound device u (queue ++ (i ∷ []))

All-append_one {κ} :
    {A : Type 0} → (P : A → Type κ) (xs : List A) (a : A) → All P xs → P a → All P (xs ++ (a ∷ []))
All-append_one P [] a h p = (p, tt)
All-append_one P (x ∷ xs) a h p = (h.0, All-append_one P xs a h.1 p)

Distinct-append_one : (xs : List ℕ) (a : ℕ) → Distinct xs → NotIn a xs → Distinct (xs ++ (a ∷ []))
Distinct-append_one [] a d n = (tt, tt)
Distinct-append_one (x ∷ xs) a d n =
    (All-append_one (λ y. x ≢ y) xs a d.0 (λ e. n.0 (sym e)), Distinct-append_one xs a d.1 n.1)

pub get_elem?-append_one :
    (xs : List ℕ) (k a i : ℕ) → get_elem? xs k ≡ some i → get_elem? (xs ++ (a ∷ [])) k ≡ some i
get_elem?-append_one [] k a i h = absurd (cc)
get_elem?-append_one (x ∷ xs) zero a i h = h
get_elem?-append_one (x ∷ xs) (suc k) a i h = get_elem?-append_one xs k a i h

-- A buffer at a place of a queue is in it, so what is not in it is another.
pub NotIn-get_elem? : (xs : List ℕ) (k a i : ℕ) → NotIn a xs → get_elem? xs k ≡ some i → i ≢ a
NotIn-get_elem? [] k a i n h e = absurd (cc)
NotIn-get_elem? (x ∷ xs) zero a i n h e = n.0 (cc)
NotIn-get_elem? (x ∷ xs) (suc k) a i n h e = NotIn-get_elem? xs k a i n.1 h e

module _ {S : Type 0} (device : Device S) where
  start_first-After :
      (d e : Driver S) (i : ℕ) (queue : List ℕ)
      → e.bufs ≡ update d.bufs i (synced device d i)
      → e.idequeue ≡ queue
      → e.woken ≡ i ∷ d.woken
      → Distinct queue
      → All (λ j. Waits (e.bufs j)) queue
      → (u : Driver S) × (start_first device e queue ≡ ok u) × After device d i queue u
  unfolding start_first
  start_first-After d e i [] b q w dq wq = (
    e,
    refl,
    record {
      bufs = b;
      idequeue = q;
      woken = w;
      sound = record { distinct = tt; waits = tt; active = tt };
    },
  )
  start_first-After d e i (j ∷ queue) b q w dq wq =
      let u = record e { disk = device.outb (command (e.bufs j)) e.disk } in
      (
        u,
        idestart-ok device e j wq.0,
        record {
          bufs = b;
          idequeue = q;
          woken = w;
          sound = record { distinct = dq; waits = wq; active = (e.disk, refl) };
        },
      )

  pub intr_at-After :
      (d : Driver S) (i : ℕ) (queue : List ℕ)
      → IsSound device d (i ∷ queue)
      → (u : Driver S) × (intr_at device d (i ∷ queue) ≡ ok u) × After device d i queue u
  unfolding intr_at
  intr_at-After d i queue s =
      let dq = s.distinct in
      let wq = s.waits in
      let act = s.active in
      let fin : finished device d.disk (d.bufs i) ≡ synced device d i =
        subst
          (λ t. finished device t (d.bufs i) ≡ record (d.bufs i) {
            block_data = answer device t (d.bufs i);
            valid = true;
            dirty = false;
          })
          (sym act.1) (finished-answer device (d.bufs i) act.0 wq.0) in
      start_first-After d _ i queue (ap (λ b. update d.bufs i b) fin) refl refl dq.1
        (Waits-update device d.bufs i _ queue dq.0 wq.1)

  pub append-Asked :
      (d : Driver S) (i : ℕ) (queue : List ℕ)
      → IsSound device d queue
      → NotIn i queue
      → Waits (d.bufs i)
      → (u : Driver S) × (append device d i queue ≡ ok u) × Asked device d i queue u
  unfolding append
  append-Asked d i [] s n w =
      let e = record d { idequeue = i ∷ [] } in
      let u = record e { disk = device.outb (command (d.bufs i)) d.disk } in
      (
        u,
        idestart-ok device e i w,
        record {
          bufs = refl;
          idequeue = refl;
          sound = record { distinct = (tt, tt); waits = (w, tt); active = (d.disk, refl) };
        },
      )
  append-Asked d i (j ∷ queue) s n w =
      let dq = s.distinct in
      let wq = s.waits in
      let act = s.active in
      (
        record d { idequeue = (j ∷ queue) ++ (i ∷ []) },
        refl,
        record {
          bufs = refl;
          idequeue = refl;
          sound = record {
            distinct = Distinct-append_one (j ∷ queue) i dq n;
            waits = All-append_one (λ k. Waits (d.bufs k)) (j ∷ queue) i wq w;
            active = act;
          };
        },
      )

  -- What iderw has found out when it comes to its queue.
  pub iderw-append :
      (d u : Driver S) (i : ℕ)
      → iderw device d i ≡ ok u
      → ((d.bufs i).busy ≡ true)
        × (is_done (d.bufs i) ≡ false)
        × (append device d i d.idequeue ≡ ok u)
  unfolding iderw
  iderw-append d u i h = ground arith
