-- ===== src/Fat32.antt =====
-- src/fs/fat32.c: the files of a volume's root directory, copied into the file system.
-- A disk answers a read by a function of the sector and the count, so reading does not change it.
-- What an array holds before it is written is a parameter.
pub mod Chain
pub mod Laws
pub mod Image
pub mod Content
pub mod Commands
mod Tests
use Prim.Native.Nat.{bit_and, bit_or}
use wnu.Prelude.{
  ℕ, zero, suc, ◌+◌, ◌-◌, ◌*◌, ◌/◌, ◌%◌, ◌^◌, Bool, true, false, not, Option, none, some, List, [],
  ◌∷◌, ◌++◌, ◌==◌, ltb, leb, if◌then◌else◌, take, length, min, for_upto,
}
use wnu.Mem.{Bytes, store, slice}
use wnu.Str.{Str, codes}
use wnu.Vfs.{Vfs, max_data, exists, create_dir, create_file, write_file}
use wnu.Vfs.Path.{max_name, slash}
use wnu.Block.{Device, find, read}
use Chain.{
  Volume, read_u16, read_u32, Copy, follow_chain, chain_fuel, u32, sector_of, cluster_bytes,
}

-- The characters from index `k` on, `n` at most, before a space.
unfoldable pub before_space : Bytes → ℕ → ℕ → Str
before_space buf k zero = []
before_space buf k (suc n) =
    let rest = buf k ∷ before_space buf (k + 1) n in if buf k == b' ' then [] else rest

-- An array as the C string that it holds.
unfoldable pub up_to_zero : Str → Str
up_to_zero [] = []
up_to_zero (c ∷ s) = let rest = c ∷ up_to_zero s in if c == 0 then [] else rest

-- The name of the directory entry at `offset`, as the loops over `name` read it.
unfoldable pub entry_name : Bytes → ℕ → Str
entry_name buf offset = up_to_zero (
    before_space buf offset 8
    ++ (if buf (offset + 8) == b' ' then [] else b'.' ∷ before_space buf (offset + 8) 3))

-- Characters behind those in `path`, while one more place is left for the terminator.
abbrev pub append_limited : Str → Str → Str
append_limited path s = path ++ take (max_name - 1 - length path) s

unfoldable pub file_path : Str → Str → Str
file_path mountpoint name =
    append_limited (append_limited (append_limited [] mountpoint) (slash ∷ [])) name

-- What the loop over the entries changes: the cluster buffer, the file system, and the console.
pub record Walk : Type 0 where
  pub buf : Bytes
  pub vfs : Vfs
  pub out : Str

abbrev pub say : Walk → Str → Walk
say w s = record w { out = w.out ++ s }

-- The end of the loop's body: the file in the file system.
unfoldable pub store_file : Walk → Str → Copy → Walk
store_file w path c =
    let (made, done) = create_file w.vfs path in
    if not done
    then say (record w { vfs = made }) (codes "fat32: failed to create file in VFS\n")
    else let (written, ok) = write_file made path (some (slice c.file_buf 0 c.written)) c.written in
      if not ok
      then say (record w { vfs = written }) (codes "fat32: failed to write file in VFS\n")
      else record w { vfs = written }

-- The buffer and the messages that a copied chain leaves.
abbrev pub after_chain : Walk → Copy → Walk
after_chain w c = record w { buf = c.cluster_buf; out = w.out ++ c.out }

-- The variables of the copying loop at its start, from the directory entry at `offset`.
abbrev pub first_copy : Bytes → Walk → ℕ → Copy
first_copy fresh w offset = record {
  cluster = bit_or (read_u16 w.buf (offset + 20) * 2 ^ 16) (read_u16 w.buf (offset + 26));
  bytes_left = read_u32 w.buf (offset + 28);
  written = 0;
  file_buf = fresh;
  cluster_buf = w.buf;
  fat_buf = fresh;
  out = [];
}

-- A step that may run out of fuel, then another.
abbrev pub then_walk {ℓ κ} : {A : Type ℓ} {B : Type κ} → Option A → (A → Option B) → Option B
then_walk none f = none
then_walk (some a) f = f a

module _ (fresh : Bytes) (devices : List (Option Device)) (dev mountpoint : Str) (v : Volume) where
  -- The body of the loop for an entry that is a file.
  unfoldable pub import_file : Walk → ℕ → Option Walk
  import_file w offset =
      let path = file_path mountpoint (entry_name w.buf offset) in
      let size = read_u32 w.buf (offset + 28) in
      if size == 0
      then some (record w { vfs = (create_file w.vfs path).0 })
      else if ltb max_data v.bytes_per_sector
      then some (say w (codes "fat32: unsupported sector size for FAT read\n"))
      else then_walk (follow_chain devices dev v chain_fuel (first_copy fresh w offset))
          λ c. some (store_file (after_chain w c) path c)

  -- The loop over `n` entries from `offset` on.
  unfoldable pub import_entries : ℕ → ℕ → Walk → Option Walk
  import_entries zero offset w = some w
  import_entries (suc n) offset w =
      let skip = import_entries n (offset + 32) w in
      let import = then_walk (import_file w offset) (import_entries n (offset + 32)) in
      if w.buf offset == 0
      then some w
      else if w.buf offset == 0xE5
      then skip
      else if not (bit_and (w.buf (offset + 11)) 0x08 == 0)
      then skip
      else if not (bit_and (w.buf (offset + 11)) 0x0F == 0)
      then skip
      else import

-- The numbers that the boot sector gives.
unfoldable pub volume_of : Bytes → Volume
volume_of sector = record {
  bytes_per_sector = read_u16 sector 11;
  sectors_per_cluster = sector 13;
  first_fat_sector = read_u16 sector 14;
  first_data_sector = (read_u16 sector 14 + sector 16 * read_u32 sector 36 % u32) % u32;
}

-- What is returned: the file system, the result, and the text on the console.
abbrev pub Mounted : Type 0
Mounted = Vfs × Bool × Str

abbrev pub finished : Option Walk → Option Mounted
finished none = none
finished (some w) = some (w.vfs, true, w.out ++ codes "fat32: mounted\n")

module _ (fresh : Bytes) (devices : List (Option Device)) where
  -- From the first cluster of the root directory on.
  unfoldable pub mount_root : Vfs → Str → Str → Volume → ℕ → Option Mounted
  mount_root vfs dev mountpoint v root_cluster =
      let (found, buf) = read devices dev (sector_of v root_cluster) fresh v.sectors_per_cluster in
      if ltb 8192 (cluster_bytes v)
      then some (vfs, false, codes "fat32: cluster too large\n")
      else if found == 0
      then some (vfs, false, codes "fat32: failed to read root cluster\n")
      else finished (
          import_entries fresh devices dev mountpoint v (cluster_bytes v / 32) 0
            (record { buf = buf; vfs = vfs; out = [] }))

  -- The mount point, made where it is missing.
  unfoldable pub mount_volume : Vfs → Str → Str → Volume → ℕ → Option Mounted
  mount_volume vfs dev mountpoint v root_cluster =
      let (made, done) = create_dir vfs mountpoint in
      if exists vfs mountpoint
      then mount_root vfs dev mountpoint v root_cluster
      else if not done
      then some (made, false, codes "fat32: failed to create mountpoint\n")
      else mount_root made dev mountpoint v root_cluster

  unfoldable pub fat32_mount : Vfs → Str → Str → Option Mounted
  fat32_mount vfs dev mountpoint =
      let (found, sector) = read devices dev 0 fresh 1 in
      elim (find devices dev) [
        | none ↦ some (vfs, false, codes "fat32: device not found\n")
        | some d ↦
            if found == 0
            then some (vfs, false, codes "fat32: failed to read boot sector\n")
            else if read_u16 sector 11 == 0
            then some (vfs, false, codes "fat32: invalid bytes per sector\n")
            else mount_volume vfs dev mountpoint (volume_of sector) (read_u32 sector 44)
      ]

-- The mount as the shell calls it; the first case is a mount that does not return.
unfoldable pub mounted : Bytes → List (Option Device) → Vfs → Str → Str → Mounted
mounted fresh devices vfs dev mountpoint = elim (fat32_mount fresh devices vfs dev mountpoint) [
  | none ↦ (vfs, false, [])
  | some m ↦ m
]
