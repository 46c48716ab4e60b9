-- ===== src/Block/Tests.antt =====
-- Two devices of one name.
use wnu.Prelude.{ℕ, ◌≡◌, refl, none, some, List, [], ◌∷◌}
use wnu.Str.{codes}
use wnu.Block.{Device, strip, strncmp_is_zero}
use wnu.Block.Laws.{first_named}

abbrev disk : ℕ → Device
disk n = record { name = codes "sata0"; read = none; capacity = n }

abbrev other : Device
other = record { name = codes "sata1"; read = none; capacity = 7 }

abbrev disks : List Device
disks = other ∷ disk 1 ∷ disk 2 ∷ []

-- The first of the two.
finds_first : first_named disks (strip (codes "/dev/sata0")) ≡ some (disk 1)
unfolding strip strncmp_is_zero
finds_first = refl
