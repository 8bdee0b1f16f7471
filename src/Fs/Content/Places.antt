-- ===== src/Fs/Content/Places.antt =====
-- Where the blocks of a file stand, and what a write to one of them leaves in place.
use operating_systems_projec.Base.{
  ℕ, ◌*◌, ◌/◌, ◌%◌, ◌<◌, ◌≡◌, refl, sym, ap, ◌∙◌, ◌≢◌, inl, inr, arith, ◌==◌, if◌then◌else◌, ==→eq,
  ==_refl, ==_ne, Bool-cases, get_or,
}
use operating_systems_projec.Log.{Block}
use operating_systems_projec.Fs.{Fs, at, write_block, bsize, ndirect}
use operating_systems_projec.Fs.Bytes.{get_byte}
use operating_systems_projec.Fs.Content.Reads.{addr_of, IsMapped, content}

-- The blocks of inode `i` below byte `n` are in place, they are different blocks, and none of them
-- is the indirect block.
pub record IsPlaced (s : Fs) (i n : ℕ) : Type 0 where
  pub mapped : (k : ℕ) → k * bsize < n → IsMapped s i k
  pub apart : (k l : ℕ) → k * bsize < n → l * bsize < n → addr_of s i k ≡ addr_of s i l → k ≡ l
  pub table_apart : (k : ℕ) → k * bsize < n → addr_of s i k ≢ get_or (at s i).addrs ndirect 0

-- Inode `i` has its blocks in the same places in `t` as in `s`.
pub record SamePlaces (s t : Fs) (i : ℕ) : Type 0 where
  pub same_table : get_or (at t i).addrs ndirect 0 ≡ get_or (at s i).addrs ndirect 0
  pub same_addrs : (k : ℕ) → addr_of t i k ≡ addr_of s i k

pub IsPlaced-SamePlaces : (s t : Fs) (i n : ℕ) → SamePlaces s t i → IsPlaced s i n → IsPlaced t i n
IsPlaced-SamePlaces s t i n p h = record {
  mapped = λ k lt. record {
    in_place = λ e. (h.mapped k lt).in_place (sym (p.same_addrs k) ∙ e);
    indirect = λ l e. (h.mapped k lt).indirect l (sym (p.same_table) ∙ e);
  };
  apart = λ k l hk hl e. h.apart k l hk hl (sym (p.same_addrs k) ∙ e ∙ p.same_addrs l);
  table_apart = λ k hk e. h.table_apart k hk (sym (p.same_addrs k) ∙ e ∙ p.same_table);
}

-- One block of the file written.
pub write_block-SamePlaces :
    (s : Fs) (i b : ℕ) (x : Block)
    → b ≢ get_or (at s i).addrs ndirect 0
    → SamePlaces s (write_block b x s) i
write_block-SamePlaces s i b x h = record {
  same_table = refl;
  same_addrs = λ k. rw (==_ne (get_or (at s i).addrs ndirect 0) b (λ e. h (sym e))) refl;
}

pub write_block-content :
    (s : Fs) (i n k : ℕ) (x : Block) (j : ℕ)
    → IsPlaced s i n
    → k * bsize < n
    → j < n
    → content (write_block (addr_of s i k) x s) i j
      ≡ (if j / bsize == k then get_byte x (j % bsize) else content s i j)
write_block-content s i n k x j h hk hj =
    let p =
      (write_block-SamePlaces s i (addr_of s i k) x (h.table_apart k hk)).same_addrs (j / bsize) in
    ap (λ b. get_byte ((write_block (addr_of s i k) x s).blocks b) (j % bsize)) p
    ∙ elim (Bool-cases (j / bsize == k)) [
      | inl e ↦ rw (e, ==→eq (j / bsize) k e, ==_refl (addr_of s i k)) refl
      | inr e ↦
          rw
            (
              e,
              ==_ne (addr_of s i (j / bsize)) (addr_of s i k)
                  (λ q. ground (arith, e, h.apart (j / bsize) k (omega arith) hk q)),
            )
            refl
    ]
