-- ===== src/File/Props/Index.antt =====
-- vdf_get_file_index and vdf_dir_entry of libvdf/file.c.
use vdf.Prelude.{
  ℕ, ◌<◌, ◌≡◌, ap, ◌⊎◌, inl, inr, true, false, List, [], ◌∷◌, some, ok, arith, ◌==◌, length,
  get_elem?, lt→leb, ==→eq,
}
use vdf.Drive.{VdfDrive, file_is_valid, file_is_dir}
use vdf.File.Props.{index_of, get_file_index, dir_entry, has_parent}

-- The file is one of the list.
abbrev pub Among : ℕ → List ℕ → Type 0
Among i [] = ⊥
Among i (j ∷ js) = ((j == i) ≡ true) ⊎ (((j == i) ≡ false) × Among i js)

index_of-get :
    (i : ℕ) (is : List ℕ)
    → Among i is
    → (get_elem? is (index_of i is) ≡ some i) × (index_of i is < length is)
unfolding index_of
index_of-get i [] h = absurd h
index_of-get i (j ∷ js) (inl e) =
    (rw (index_of, e) (ap some (==→eq j i e)), rw (index_of, e) (omega arith))
index_of-get i (j ∷ js) (inr (e, h)) =
    let (g, l) = index_of-get i js h in (rw (index_of, e) g, rw (index_of, e) (omega (arith, l)))

-- Asked for the entry at the index of a file, a directory gives the file: for a valid file of a
-- directory other than the root, whose count is that of its entries.
pub dir_entry-get_file_index :
    (drv : VdfDrive) (i p : ℕ)
    → file_is_valid drv (some i) ≡ true
    → (drv.files i).parent ≡ some p
    → file_is_dir drv p ≡ true
    → has_parent drv p ≡ true
    → (drv.files p).cnt ≡ length (drv.files p).entries
    → Among i (drv.files p).entries
    → (n : ℕ) × (get_file_index drv i ≡ ok n) × (dir_entry drv p n ≡ ok i)
unfolding get_file_index dir_entry
dir_entry-get_file_index drv i p valid parent dir inner cnt among =
    let (g, l) = index_of-get i (drv.files p).entries among in
    let below = lt→leb (drv.files p).cnt (index_of i (drv.files p).entries) (omega (arith, l)) in
    (
      index_of i (drv.files p).entries,
      rw (get_file_index, valid, parent),
      rw (dir_entry, dir, inner, below, g),
    )
