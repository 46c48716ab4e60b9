-- ===== src/Fat32/Image.antt =====
-- FAT32 on a disk's bytes, and the sectors and the entries that src/fs/fat32.c computes.
use Prim.Native.Nat.{bit_or}
use wnu.Prelude.{
  ℕ, ◌+◌, ◌-◌, ◌*◌, ◌/◌, ◌%◌, ◌^◌, ◌<◌, ◌≤◌, ◌≡◌, ap, ◌∙◌, false, Option, List, [], ◌∷◌, ◌++◌, ◌==◌,
  arith,
}
use native.Mathlib.Nat.{div-add-mod, mod-lt}
use wnu.Bits.{bit_or-shifted_right}
use wnu.Mem.{Bytes, slice}
use wnu.Str.{Str}
use wnu.Block.{Device, read}
use wnu.Fat32.Chain.{Volume, u32, read_u32, sector_of, fat_sector}

-- A disk with the bytes `image`, and sectors of the volume's size, a positive multiple of 4 bytes: a
-- read of one sector or more succeeds, and gives their bytes.
pub record ReadsDisk (devices : List (Option Device)) (dev : Str) (v : Volume) (image : Bytes)
    : Type 0 where
  pub words : ℕ
  pub sector_size : v.bytes_per_sector ≡ words * 4
  pub some_words : 0 < words
  pub some_sectors : 0 < v.sectors_per_cluster
  pub bytes : (k : ℕ) → image k < 256
  pub succeeds :
      (lba count : ℕ) (buf : Bytes) → 0 < count → ((read devices dev lba buf count).0 == 0) ≡ false
  pub content :
      (lba count : ℕ) (buf : Bytes) (k : ℕ)
      → k < count * v.bytes_per_sector
      → (read devices dev lba buf count).1 k ≡ image (lba * v.bytes_per_sector + k)

-- FAT32 in terms of the disk's bytes.
module _ (v : Volume) (image : Bytes) where
  -- Four bytes, the lowest one first.
  abbrev pub word_at : ℕ → ℕ
  word_at a = image a + image (a + 1) * 2 ^ 8 + image (a + 2) * 2 ^ 16 + image (a + 3) * 2 ^ 24

  -- A cluster's entry in the table: the low 28 bits of four bytes.
  abbrev pub entry_of : ℕ → ℕ
  entry_of c = word_at (v.first_fat_sector * v.bytes_per_sector + c * 4) % 2 ^ 28

  -- The bytes of a cluster; the first cluster has the number 2.
  abbrev pub data_of : ℕ → List ℕ
  data_of c =
      let first = v.first_data_sector + (c - 2) * v.sectors_per_cluster in
      slice (λ k. image (first * v.bytes_per_sector + k)) 0
        (v.bytes_per_sector * v.sectors_per_cluster)

  abbrev pub bytes_of : List ℕ → List ℕ
  bytes_of [] = []
  bytes_of (c ∷ clusters) = data_of c ++ bytes_of clusters

  -- A cluster's number, and its sectors' numbers in 32 bits.
  pub record IsCluster (c : ℕ) : Type 0 where
    pub at_least : 2 ≤ c
    pub small : c < 2 ^ 32
    pub data_fits : v.first_data_sector + (c - 2) * v.sectors_per_cluster < 2 ^ 32
    pub table_fits : v.first_fat_sector + c * 4 / v.bytes_per_sector < 2 ^ 32

  -- A chain from a cluster on: each entry is the number of the next cluster, and the last one is
  -- 0x0FFFFFF8 or more.
  abbrev pub IsChain : ℕ → List ℕ → Type 0
  IsChain c [] = IsCluster c × (0x0FFFFFF8 ≤ entry_of c)
  IsChain c (d ∷ clusters) = IsCluster c × (entry_of c ≡ d) × (d < 0x0FFFFFF8) × IsChain d clusters

  pub IsChain-first : (c : ℕ) (clusters : List ℕ) → IsChain c clusters → IsCluster c
  IsChain-first c [] h = h.0
  IsChain-first c (d ∷ clusters) h = h.0

-- A table's entry lies in one sector.
pub entry_fits :
    (cluster size words : ℕ) → size ≡ words * 4 → 0 < size → cluster * 4 % size + 3 < size
entry_fits cluster size words e pos =
    let q = cluster * 4 / size in
    let whole : size * q + cluster * 4 % size ≡ cluster * 4 = div-add-mod (cluster * 4) size in
    let below : cluster * 4 % size < size = mod-lt (cluster * 4) pos in
    let fours : size * q ≡ words * q * 4 = ap (λ b. b * q) e ∙ omega arith in
    omega (arith, whole, below, fours)

-- The code's sector of a cluster is the one of FAT32.
pub sector_of_lem :
    (v : Volume) (image : Bytes) (c : ℕ)
    → IsCluster v image c
    → sector_of v c ≡ v.first_data_sector + (c - 2) * v.sectors_per_cluster
unfolding sector_of
sector_of_lem v image c h =
    let back : (c + u32 - 2) % u32 ≡ c - 2 = omega (arith, h.at_least, h.small) in
    rw back (omega (arith, h.data_fits))

pub fat_sector_lem :
    (v : Volume) (image : Bytes) (c : ℕ)
    → IsCluster v image c
    → fat_sector v c ≡ v.first_fat_sector + c * 4 / v.bytes_per_sector
unfolding fat_sector
fat_sector_lem v image c h =
    let q = c * 4 / v.bytes_per_sector in
    let fits : v.first_fat_sector + q < 2 ^ 32 = h.table_fits in
    let same : q % u32 ≡ q = omega (arith, fits) in rw same (omega (arith, fits))

pub read_u32-word :
    (p : Bytes) (k : ℕ)
    → p k < 256
    → p (k + 1) < 256
    → p (k + 2) < 256
    → p (k + 3) < 256
    → read_u32 p k ≡ p k + p (k + 1) * 2 ^ 8 + p (k + 2) * 2 ^ 16 + p (k + 3) * 2 ^ 24
unfolding read_u32
read_u32-word p k b0 b1 b2 b3 =
    let e1 : bit_or (p k) (p (k + 1) * 2 ^ 8) ≡ p (k + 1) * 2 ^ 8 + p k =
      bit_or-shifted_right 8 (p (k + 1)) (p k) b0 in
    let two = p (k + 1) * 2 ^ 8 + p k in
    let e2 : bit_or two (p (k + 2) * 2 ^ 16) ≡ p (k + 2) * 2 ^ 16 + two =
      bit_or-shifted_right 16 (p (k + 2)) two (omega (arith, b0, b1)) in
    let three = p (k + 2) * 2 ^ 16 + two in
    let e3 : bit_or three (p (k + 3) * 2 ^ 24) ≡ p (k + 3) * 2 ^ 24 + three =
      bit_or-shifted_right 24 (p (k + 3)) three (omega (arith, b0, b1, b2)) in
    rw (e1, e2, e3) (omega arith)
