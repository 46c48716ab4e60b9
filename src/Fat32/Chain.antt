-- ===== src/Fat32/Chain.antt =====
-- The loop of src/fs/fat32.c that copies a file's clusters.
use Prim.Native.Nat.{bit_or}
use wnu.Prelude.{
  ℕ, zero, suc, ◌+◌, ◌-◌, ◌*◌, ◌/◌, ◌%◌, ◌^◌, Bool, true, false, ◌&&◌, Option, none, some, List,
  ◌++◌, ◌==◌, ltb, leb, if◌then◌else◌, min, for_upto,
}
use wnu.Mem.{Bytes, store}
use wnu.Str.{Str, codes}
use wnu.Vfs.{max_data}
use wnu.Block.{Device, read}

abbrev pub u32 : ℕ
u32 = 2 ^ 32

unfoldable pub read_u16 : Bytes → ℕ → ℕ
read_u16 p k = bit_or (p k) (p (k + 1) * 2 ^ 8)

unfoldable pub read_u32 : Bytes → ℕ → ℕ
read_u32 p k =
    bit_or (bit_or (bit_or (p k) (p (k + 1) * 2 ^ 8)) (p (k + 2) * 2 ^ 16)) (p (k + 3) * 2 ^ 24)

-- What fat32_mount takes from the boot sector.
pub record Volume : Type 0 where
  pub bytes_per_sector : ℕ
  pub sectors_per_cluster : ℕ
  pub first_fat_sector : ℕ
  pub first_data_sector : ℕ

-- `bytes_per_sector * sectors_per_cluster_u32`, a 16-bit by an 8-bit number.
abbrev pub cluster_bytes : Volume → ℕ
cluster_bytes v = v.bytes_per_sector * v.sectors_per_cluster

-- The first sector of a cluster, in 32 bits.
unfoldable pub sector_of : Volume → ℕ → ℕ
sector_of v cluster =
    (v.first_data_sector + (cluster + u32 - 2) % u32 * v.sectors_per_cluster) % u32

-- The variables of the loop, and what it writes to the console.
pub record Copy : Type 0 where
  pub cluster : ℕ
  pub bytes_left : ℕ
  pub written : ℕ
  pub file_buf : Bytes
  pub cluster_buf : Bytes
  pub fat_buf : Bytes
  pub out : Str

-- `copy`, after its two bounds.
abbrev pub copy_size : Volume → Copy → ℕ
copy_size v c = min (min (cluster_bytes v) c.bytes_left) (max_data - c.written)

-- The cluster's bytes at the end of the file, and the two counts.
unfoldable pub append_cluster : Volume → Copy → Copy
append_cluster v c = record c {
  file_buf = for_upto (copy_size v c) 0 (λ i. store (c.written + i) (c.cluster_buf i)) c.file_buf;
  written = c.written + copy_size v c;
  bytes_left = c.bytes_left - copy_size v c;
}

-- The next cluster from a sector of the table; `none` ends the chain.
unfoldable pub next_cluster : Volume → Bytes → ℕ → Option ℕ
next_cluster v fat_buf cluster =
    let entry = read_u32 fat_buf (cluster * 4 % v.bytes_per_sector) % 2 ^ 28 in
    if leb 0x0FFFFFF8 entry then none else if entry == 0 then none else some entry

unfoldable pub fat_sector : Volume → ℕ → ℕ
fat_sector v cluster = (v.first_fat_sector + cluster * 4 / v.bytes_per_sector % u32) % u32

-- The loop breaks with a message, or with the chain's end; or it goes on with the next cluster.
abbrev pub breaks : Copy → Str → Bool × Copy
breaks c message = (false, record c { out = c.out ++ message })

abbrev pub goes_on : Copy → Option ℕ → Bool × Copy
goes_on c none = (false, c)
goes_on c (some next) = (true, record c { cluster = next })

-- The rest of a round, after the cluster has been copied.
unfoldable pub after_cluster : List (Option Device) → Str → Volume → Copy → Bool × Copy
after_cluster devices dev v c =
    let (found, fat) = read devices dev (fat_sector v c.cluster) c.fat_buf 1 in
    if found == 0
    then breaks (record c { fat_buf = fat }) (codes "fat32: failed to read FAT sector\n")
    else goes_on (record c { fat_buf = fat }) (next_cluster v fat c.cluster)

-- One round of the loop: whether it goes on, and the variables.
unfoldable pub copy_round : List (Option Device) → Str → Volume → Copy → Bool × Copy
copy_round devices dev v c =
    let (found, buf) =
      read devices dev (sector_of v c.cluster) c.cluster_buf v.sectors_per_cluster in
    if found == 0
    then breaks (record c { cluster_buf = buf }) (codes "fat32: failed to read file cluster\n")
    else after_cluster devices dev v (append_cluster v (record c { cluster_buf = buf }))

-- `none` means that the fuel ran out.
unfoldable pub follow_chain : List (Option Device) → Str → Volume → ℕ → Copy → Option Copy
follow_chain devices dev v zero c = none
follow_chain devices dev v (suc fuel) c =
    let (more, d) = copy_round devices dev v c in
    let rest = follow_chain devices dev v fuel d in
    if ltb 0 c.bytes_left && ltb c.written max_data then (if more then rest else some d) else some c

-- A round copies a byte at least, of 4096.
abbrev pub chain_fuel : ℕ
chain_fuel = 4097
