-- ===== src/Fs/Dirs/Walks.antt =====
-- The loop of namex: each round takes an element off the path, so it ends.
use operating_systems_projec.Base.{
  ℕ, zero, suc, ◌+◌, ◌<◌, ◌≡◌, refl, sym, ap, ◌∙◌, Bool, Option, none, some, List, arith,
  if◌then◌else◌, length,
}
use operating_systems_projec.Fs.{M, ◌>>◌, pure}
use operating_systems_projec.Fs.Path.{skipelem}
use operating_systems_projec.Fs.Path.Elements.{skipelem-shorter}
use operating_systems_projec.Fs.Inodes.{ilock, iput}
use operating_systems_projec.Fs.Content.{Devsw}
use operating_systems_projec.Fs.Dirs.{enter, walk}

-- What a round of the loop does with the element and the rest of the path, when `next` goes on.
abbrev pub step :
    Devsw
    → Bool
    → (List ℕ → List ℕ → ℕ → M (Option (ℕ × List ℕ)))
    → List ℕ
    → ℕ
    → Option (List ℕ × List ℕ)
    → M (Option (ℕ × List ℕ))
step devsw parent next name ip none =
    if parent then iput ip >> pure none else pure (some (ip, name))
step devsw parent next name ip (some (elem, rest)) =
    ilock ip >> enter devsw parent elem rest ip (next rest elem)

same_step :
    (devsw : Devsw) (parent : Bool) (next next' : List ℕ → List ℕ → ℕ → M (Option (ℕ × List ℕ)))
    → (name : List ℕ) (ip : ℕ) (r : Option (List ℕ × List ℕ))
    → ((elem rest : List ℕ) → r ≡ some (elem, rest) → next rest elem ≡ next' rest elem)
    → step devsw parent next name ip r ≡ step devsw parent next' name ip r
same_step devsw parent next next' name ip none h = refl
same_step devsw parent next next' name ip (some (elem, rest)) h =
    ap (λ n. ilock ip >> enter devsw parent elem rest ip n) (h elem rest refl)

walk-step :
    (f : ℕ) (devsw : Devsw) (parent : Bool) (path name : List ℕ) (ip : ℕ)
    → walk (suc f) devsw parent path name ip
      ≡ step devsw parent (walk f devsw parent) name ip (skipelem path)
unfolding walk
walk-step f devsw parent path name ip = elim (skipelem path) [
  | none ↦ refl
  | some (elem, rest) ↦ refl
]

walk_fuel :
    (f g : ℕ) (devsw : Devsw) (parent : Bool) (path name : List ℕ) (ip : ℕ)
    → length path < f
    → length path < g
    → walk f devsw parent path name ip ≡ walk g devsw parent path name ip
walk_fuel zero g devsw parent path name ip h h' = absurd (omega arith)
walk_fuel (suc f) zero devsw parent path name ip h h' = absurd (omega arith)
walk_fuel (suc f) (suc g) devsw parent path name ip h h' =
    walk-step f devsw parent path name ip
    ∙ same_step devsw parent (walk f devsw parent) (walk g devsw parent) name ip (skipelem path)
        (λ elem rest e.
          let lt = skipelem-shorter path elem rest e in
          λ i child.
            walk_fuel f g devsw parent rest elem child (omega (arith, lt)) (omega (arith, lt)) i)
    ∙ sym (walk-step g devsw parent path name ip)

-- With the fuel that namex gives it, and with any more, the loop does what it does without fuel: it
-- stops at the end of the path, and else enters the next element and goes on with the rest of the
-- path, for which that much fuel is enough again.
pub walk-loop :
    (f : ℕ) (devsw : Devsw) (parent : Bool) (path name : List ℕ) (ip : ℕ)
    → length path < f
    → walk f devsw parent path name ip
      ≡ step devsw parent (λ rest. walk (length rest + 1) devsw parent rest) name ip (skipelem path)
walk-loop zero devsw parent path name ip h = absurd (omega arith)
walk-loop (suc f) devsw parent path name ip h =
    walk-step f devsw parent path name ip
    ∙ same_step devsw parent (walk f devsw parent)
        (λ rest. walk (length rest + 1) devsw parent rest) name ip (skipelem path)
        (λ elem rest e.
          let lt = skipelem-shorter path elem rest e in
          λ i child.
            walk_fuel f (length rest + 1) devsw parent rest elem child (omega (arith, lt))
              (omega arith) i)
