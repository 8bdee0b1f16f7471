-- ===== src/Fs/Path.antt =====
-- skipelem of fs.c: the splitting of path names. A path is a list of characters without its
-- terminating 0.
pub mod Elements
use operating_systems_projec.Base.{ℕ, Option, none, some, List, [], ◌∷◌, ◌==◌, if◌then◌else◌, take}
use operating_systems_projec.Fs.{dirsiz}

abbrev pub slash : ℕ
slash = 47

unfoldable pub skip_slashes : List ℕ → List ℕ
skip_slashes [] = []
skip_slashes (c ∷ path) = if c == slash then skip_slashes path else c ∷ path

-- The characters up to the next slash, and the path from there on.
unfoldable pub split_elem : List ℕ → List ℕ × List ℕ
split_elem [] = ([], [])
split_elem (c ∷ path) =
    let (elem, rest) = split_elem path in if c == slash then ([], c ∷ path) else (c ∷ elem, rest)

-- The element at the start of a path, cut to the size of a name, and the path behind it.
unfoldable pub take_elem : List ℕ → Option (List ℕ × List ℕ)
take_elem [] = none
take_elem (c ∷ s) =
    let (elem, rest) = split_elem (c ∷ s) in some (take dirsiz elem, skip_slashes rest)

unfoldable pub skipelem : List ℕ → Option (List ℕ × List ℕ)
skipelem path = take_elem (skip_slashes path)
