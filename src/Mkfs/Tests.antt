-- ===== src/Mkfs/Tests.antt =====
-- A small image, and the theorem on its bitmap.
use operating_systems_projec.Base.{
  ℕ, ◌<◌, ◌≡◌, refl, ◌≢◌, List, [], ◌∷◌, arith, leb, Result, ok, panic,
}
use operating_systems_projec.Fs.{Fs, done, HasRoom}
use operating_systems_projec.Fs.Blocks.{balloc}
use operating_systems_projec.Fs.Blocks.Bitmap.{is_free}
use operating_systems_projec.Fs.Bytes.{byte_of, with_byte, get_byte, put_byte, put_bytes}
use operating_systems_projec.Fs.Inodes.{put_dinode, load_dinode, words}
use operating_systems_projec.Mkfs.{
  Image, sb, wsect, winode, rinode, ialloc, claim, claim_indirect, place, append_from, iappend,
  fresh, file_name,
}
use operating_systems_projec.Mkfs
use operating_systems_projec.Mkfs.Bitmap.{balloc-next}

balloc-next_example :
    (m' : Image) × (Mkfs.balloc 60 fresh ≡ ok m')
    × ((j : ℕ) → is_free (m'.blocks sb.bmapstart) j ≡ leb 60 j)
    × ((b : ℕ) → b ≢ sb.bmapstart → m'.blocks b ≡ fresh.blocks b)
    × ((s : Fs)
        → HasRoom 2 s
        → s.sb ≡ sb
        → s.blocks ≡ m'.blocks
        → 60 < sb.size
        → (s' : Fs) × (balloc s ≡ done 60 s'))
balloc-next_example = balloc-next 60 fresh (omega arith)

-- The first bytes of the first file go to the first block behind the meta blocks.
abbrev one_file : Result Image
one_file = iappend 1 (7 ∷ 9 ∷ []) (ialloc 2 fresh).1

abbrev seen : Result Image → List ℕ
seen panic = []
seen (ok m) =
    get_byte (m.blocks 59) 0 ∷ get_byte (m.blocks 59) 1 ∷ m.freeblock ∷ (rinode 1 m).size ∷ []

one_file-seen : seen one_file ≡ 7 ∷ 9 ∷ 60 ∷ 2 ∷ []
unfolding iappend append_from place claim ialloc winode rinode wsect fresh put_dinode load_dinode
    words get_byte put_byte put_bytes byte_of with_byte
one_file-seen = refl

name_without_mark : file_name (b'_' ∷ b'r' ∷ b'm' ∷ []) ≡ b'r' ∷ b'm' ∷ []
unfolding file_name
name_without_mark = refl
