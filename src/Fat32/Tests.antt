-- ===== src/Fat32/Tests.antt =====
-- A small disk, and the witnesses of the mount's theorems.
use wnu.Prelude.{
  ℕ, min, take, ◌+◌, ◌*◌, ◌/◌, ◌%◌, ◌≡◌, refl, Option, some, List, [], ◌∷◌, ◌++◌, ◌==◌,
  if◌then◌else◌, get_or, ltb, arith,
}
use wnu.Mem.{Bytes, slice}
use wnu.Str.{codes}
use wnu.Vfs.{blank, init, max_data}
use wnu.Vfs.Run.{init-IsWellFormed}
use wnu.Block.{Device, read, find, search_device, strip, strncmp_is_zero}
use wnu.Fat32.{mounted, fat32_mount}
use wnu.Fat32.Chain.{Volume, Copy, follow_chain, chain_fuel}
use wnu.Fat32.Image.{ReadsDisk, IsChain, bytes_of}
use wnu.Fat32.Content.{file_bytes}
use wnu.Fat32.Commands.{execute_with_fat32-IsSane}
use wnu.Shell.{Shell, execute}
use wnu.Shell.Laws.{IsSane}

-- Sectors of 64 bytes, one for a cluster; sector 3 is the table, 4 the directory's cluster, 5 and 8
-- the file's clusters 3 and 6.
abbrev boot : ℕ → ℕ
boot k =
    if k == 11
    then 64
    else if k == 13
    then 1
    else if k == 14
    then 3
    else if k == 16
    then 1
    else if k == 36
    then 1
    else if k == 44
    then 2
    else 0

abbrev entry : List ℕ
entry =
    codes "HI      TXT"
    ++ 0x20 ∷ 0 ∷ 0 ∷ 0 ∷ 0 ∷ 0 ∷ 0 ∷ 0 ∷ 0 ∷ 0 ∷ 0 ∷ 0 ∷ 0 ∷ 0 ∷ 0 ∷ 3 ∷ 0 ∷ 70 ∷ []

abbrev sector : ℕ → ℕ → ℕ
sector lba k =
    if lba == 0
    then boot k
    else if lba == 3
    then (if k == 12
        then 6
        else if k / 4 == 3
        then 0
        else if k == 24
        then 0xF8
        else if k == 27
        then 0x0F
        else 0xFF)
    else if lba == 4
    then get_or entry k 0
    else if lba == 5
    then b'a'
    else if lba == 8
    then get_or (codes "hello") k 0
    else 0

-- The disk's bytes.
abbrev image : Bytes
image a = sector (a / 64) (a % 64) % 256

abbrev disk : Device
disk = record {
  name = codes "sata0";
  read = some λ lba buf count. (1, λ k. if ltb k (64 * count) then image (lba * 64 + k) else buf k);
  capacity = 6;
}

abbrev devices : List (Option Device)
devices = some disk ∷ []

abbrev fresh : Bytes
fresh = λ _. 0

abbrev shell : Shell
shell = record { cwd = codes "/"; vfs = init blank }

shell-IsSane : IsSane shell
shell-IsSane = record {
  cwd = record { rooted = refl; fits = omega arith };
  vfs = init-IsWellFormed blank refl;
}

execute_with_fat32-IsSane_example :
    (fat32_mount fresh devices shell.vfs (codes "sata0") (codes "/mnt")
      ≡ some (mounted fresh devices shell.vfs (codes "sata0") (codes "/mnt")))
    × IsSane (execute (mounted fresh devices) shell (codes "mount sata0 /mnt")).0
execute_with_fat32-IsSane_example =
    execute_with_fat32-IsSane fresh devices shell (codes "mount sata0 /mnt") (codes "sata0")
      (codes "/mnt") shell-IsSane

-- The numbers of the disk's boot sector.
abbrev volume : Volume
volume = record {
  bytes_per_sector = 64;
  sectors_per_cluster = 1;
  first_fat_sector = 3;
  first_data_sector = 4;
}

disk-ReadsDisk : ReadsDisk devices (codes "sata0") volume image
unfolding read find search_device strip strncmp_is_zero
disk-ReadsDisk = record {
  words = 16;
  sector_size = refl;
  some_words = omega arith;
  some_sectors = omega arith;
  bytes = λ k. omega arith;
  succeeds = λ lba count buf p. refl;
  content = λ lba count buf k lt. ground arith;
}

-- The copy of the file of 70 bytes from cluster 3.
abbrev start : Copy
start = record {
  cluster = 3;
  bytes_left = 70;
  written = 0;
  file_buf = fresh;
  cluster_buf = fresh;
  fat_buf = fresh;
  out = [];
}

start-IsChain : IsChain volume image 3 (6 ∷ [])
start-IsChain = (
  record {
    at_least = omega arith;
    small = omega arith;
    data_fits = omega arith;
    table_fits = omega arith;
  },
  refl,
  omega arith,
  (
    record {
      at_least = omega arith;
      small = omega arith;
      data_fits = omega arith;
      table_fits = omega arith;
    },
    omega arith,
  ),
)

file_bytes_example :
    (d : Copy) × (follow_chain devices (codes "sata0") volume chain_fuel start ≡ some d)
    × (slice d.file_buf 0 d.written ≡ take (min 70 max_data) (bytes_of volume image (3 ∷ 6 ∷ [])))
file_bytes_example =
    file_bytes devices (codes "sata0") volume image disk-ReadsDisk start (6 ∷ []) refl start-IsChain
