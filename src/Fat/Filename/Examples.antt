-- ===== src/Fat/Filename/Examples.antt =====
-- `NOTES.TXT` and `NOTES`.
use operating_system_fa_maf.Common.{
  ℕ, ◌-◌, ◌<◌, ◌≡◌, ◌⊎◌, refl, List, [], ◌∷◌, ◌++◌, length, take, replicate, arith, done,
}
use operating_system_fa_maf.Fat.Filename.{build_filename}
use operating_system_fa_maf.Fat.Filename.Padding.{build_filename_pad}
use operating_system_fa_maf.Fat.Filename.Split.{filename_from_path}
use operating_system_fa_maf.Fat.Filename.Paths.{dotted, filename_from_path_lem}

abbrev notebook : List ℕ
notebook = b'N' ∷ b'O' ∷ b'T' ∷ b'E' ∷ b'B' ∷ b'O' ∷ b'O' ∷ b'K' ∷ []

abbrev txt : List ℕ
txt = b'T' ∷ b'X' ∷ b'T' ∷ []

build_filename_pad_example :
    (build_filename (b'N' ∷ b'O' ∷ b'T' ∷ b'E' ∷ b'S' ∷ replicate 3 b' ') (b'T' ∷ b'X' ∷ b'T' ∷ [])
      ≡ (b'N' ∷ b'O' ∷ b'T' ∷ b'E' ∷ b'S' ∷ []) ++ b'.' ∷ b'T' ∷ b'X' ∷ b'T' ∷ [])
    × (build_filename (b'N' ∷ b'O' ∷ b'T' ∷ b'E' ∷ b'S' ∷ replicate 3 b' ') (replicate 3 b' ')
        ≡ b'N' ∷ b'O' ∷ b'T' ∷ b'E' ∷ b'S' ∷ [])
build_filename_pad_example =
    build_filename_pad (b'N' ∷ b'O' ∷ b'T' ∷ b'E' ∷ []) (b'T' ∷ b'X' ∷ []) b'S' b'T' 3 0 refl refl
      refl refl

-- `NOTEBOOK.TXT`, which loses its extension.
filename_from_path_lem_example :
    ((length notebook < 8)
      × (filename_from_path (dotted notebook txt [])
          ≡ done (notebook ++ replicate (8 - length notebook) 0, take 3 (txt ++ 0 ∷ 0 ∷ 0 ∷ []))))
    ⊎ ((length notebook ≡ 8)
        × (filename_from_path (dotted notebook txt []) ≡ done (notebook, 0 ∷ 0 ∷ 0 ∷ [])))
filename_from_path_lem_example =
    filename_from_path_lem notebook txt [] refl refl (omega arith) (omega arith) (omega arith)
      (omega arith)
