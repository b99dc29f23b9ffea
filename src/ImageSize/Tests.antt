-- ===== src/ImageSize/Tests.antt =====
-- Runs of src/fssize.c, and an instance of its theorem.
use casync.Prelude.{ℕ, List, ◌∷◌, ◌++◌, replicate}
use casync.ImageSize.{Magics}

abbrev magics : Magics
magics = record { squashfs = 1936814952; ext2 = 61267 }

-- A squashfs image of 5000 bytes.
abbrev squashed : List ℕ
squashed = 104 ∷ 115 ∷ 113 ∷ 115 ∷ (replicate 36 0 ++ (136 ∷ 19 ∷ replicate 1040 0))
