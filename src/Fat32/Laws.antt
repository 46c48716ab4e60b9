-- ===== src/Fat32/Laws.antt =====
-- fat32_mount of src/fs/fat32.c: that it returns, and what it keeps.
use Prim.Native.Nat.{bit_and}
use wnu.Prelude.{
  ℕ, zero, suc, ◌+◌, ◌/◌, ◌<◌, ◌≤◌, ◌≡◌, refl, Bool, true, false, not, ◌&&◌, Option, none, some,
  List, [], ◌==◌, ltb, if◌then◌else◌, arith, Bool-cases, Option-cases, inl, inr,
}
use wnu.Mem.{Bytes, slice}
use wnu.Str.{Str}
use wnu.Vfs.{Vfs, max_data, exists, create_file, create_dir, write_file}
use wnu.Vfs.Inv.{
  IsWellFormed, create_dir-IsWellFormed, create_file-IsWellFormed, write_file-IsWellFormed,
}
use wnu.Block.{Device, find, read}
use wnu.Fat32.Chain.{
  Volume, Copy, follow_chain, goes_on, chain_fuel, copy_round, after_cluster, append_cluster,
  copy_size, cluster_bytes, next_cluster, read_u16, read_u32, sector_of, fat_sector,
}
use wnu.Fat32.{
  Walk, Mounted, store_file, after_chain, import_file, import_entries, mount_root, mount_volume,
  fat32_mount, then_walk, first_copy, finished, file_path, entry_name,
}

-- A file's bytes and their number are those of another state.
record SameFile (c : Copy) (o : Bool × Copy) : Type 0 where
  written : o.1.written ≡ c.written
  file_buf : o.1.file_buf ≡ c.file_buf
  bytes_left : o.1.bytes_left ≡ c.bytes_left

SameFile-goes_on :
    (c d : Copy) (next : Option ℕ) → SameFile c (false, d) → SameFile c (goes_on d next)
SameFile-goes_on c d none h = h
SameFile-goes_on c d (some n) h = record {
  written = h.written;
  file_buf = h.file_buf;
  bytes_left = h.bytes_left;
}

-- A round that goes on has copied what fits; any round stays within the array.
record Rounds (v : Volume) (c : Copy) (o : Bool × Copy) : Type 0 where
  within : o.1.written ≤ max_data
  grown : o.0 ≡ true → o.1.written ≡ c.written + copy_size v c

module _ (devices : List (Option Device)) (dev : Str) (v : Volume) where
  SameFile-after_cluster : (c : Copy) → SameFile c (after_cluster devices dev v c)
  unfolding after_cluster
  SameFile-after_cluster c =
      let fat = read devices dev (fat_sector v c.cluster) c.fat_buf 1 in
      elim (Bool-cases (fat.0 == 0)) [
        | inl e ↦ rw e (record { written = refl; file_buf = refl; bytes_left = refl })
        | inr e ↦ rw e (
            SameFile-goes_on c (record c { fat_buf = fat.1 }) (next_cluster v fat.1 c.cluster)
              (record { written = refl; file_buf = refl; bytes_left = refl }))
      ]

  Rounds-copy_round : (c : Copy) → c.written ≤ max_data → Rounds v c (copy_round devices dev v c)
  unfolding copy_round append_cluster
  Rounds-copy_round c fits =
      let r = read devices dev (sector_of v c.cluster) c.cluster_buf v.sectors_per_cluster in
      elim (Bool-cases (r.0 == 0)) [
        | inl e ↦ rw e (record { within = fits; grown = λ more. cc })
        | inr e ↦
            let same = SameFile-after_cluster (append_cluster v (record c { cluster_buf = r.1 })) in
            rw e (record { within = omega (arith, same.written); grown = λ more. same.written })
      ]

  -- The loop returns, and no more than the array holds has been written.
  pub follow_chain_total :
      (fuel : ℕ) (c : Copy)
      → 0 < cluster_bytes v
      → c.written ≤ max_data
      → max_data < c.written + fuel
      → (d : Copy) × (follow_chain devices dev v fuel c ≡ some d) × (d.written ≤ max_data)
  unfolding follow_chain
  follow_chain_total zero c pos fits more = absurd (omega arith)
  follow_chain_total (suc fuel) c pos fits more =
      let d = (copy_round devices dev v c).1 in
      let r = Rounds-copy_round c fits in
      elim (Bool-cases (ltb 0 c.bytes_left && ltb c.written max_data)) [
        | inr stop ↦ (c, ground arith, fits)
        | inl go ↦ elim (Bool-cases (copy_round devices dev v c).0) [
          | inr ended ↦ (d, ground arith, r.within)
          | inl more_left ↦
              let (e, returns, within) =
                follow_chain_total fuel d pos r.within (ground (arith, r.grown more_left)) in
              (e, ground (arith, returns), within)
        ]
      ]

-- A walk that returns, with a well-formed file system.
pub record Arrives (o : Option Walk) : Type 0 where
  pub walk : Walk
  pub returns : o ≡ some walk
  pub vfs : IsWellFormed walk.vfs

Arrives-some : (w : Walk) → IsWellFormed w.vfs → Arrives (some w)
Arrives-some w h = record { walk = w; returns = refl; vfs = h }

Arrives-if : (b : Bool) (x y : Option Walk) → Arrives x → Arrives y → Arrives (if b then x else y)
Arrives-if true x y h k = h
Arrives-if false x y h k = k

Arrives-then_walk :
    (o : Option Walk) (f : Walk → Option Walk)
    → Arrives o
    → ((w : Walk) → IsWellFormed w.vfs → Arrives (f w))
    → Arrives (then_walk o f)
Arrives-then_walk o f a k = rw a.returns (k a.walk a.vfs)

store_file-IsWellFormed :
    (w : Walk) (path : Str) (c : Copy) → IsWellFormed w.vfs → IsWellFormed (store_file w path c).vfs
unfolding store_file
store_file-IsWellFormed w path c h =
    let made = create_file-IsWellFormed w.vfs path h in
    elim (Bool-cases (create_file w.vfs path).1) [
      | inr e ↦ rw e made
      | inl e ↦
          let u =
            write_file (create_file w.vfs path).0 path (some (slice c.file_buf 0 c.written))
              c.written in
          let kept : IsWellFormed u.0 = write_file-IsWellFormed _ path _ _ made in
          elim (Bool-cases u.1) [ inl ok ↦ rw (e, ok) kept | inr failed ↦ rw (e, failed) kept ]
    ]

module _ (fresh : Bytes) (devices : List (Option Device)) (dev mountpoint : Str) (v : Volume) where
  Arrives-import_file :
      (w : Walk) (offset : ℕ)
      → 0 < cluster_bytes v
      → IsWellFormed w.vfs
      → Arrives (import_file fresh devices dev mountpoint v w offset)
  unfolding import_file
  Arrives-import_file w offset pos h =
      let path = file_path mountpoint (entry_name w.buf offset) in
      let (d, returns, within) =
        follow_chain_total devices dev v chain_fuel (first_copy fresh w offset) pos (omega arith)
          (omega arith) in
      let stored = store_file-IsWellFormed (after_chain w d) path d h in
      elim (Bool-cases (read_u32 w.buf (offset + 28) == 0)) [
        | inl empty ↦ rw empty (Arrives-some _ (create_file-IsWellFormed w.vfs path h))
        | inr more ↦ elim (Bool-cases (ltb max_data v.bytes_per_sector)) [
          | inl large ↦ rw (more, large) (Arrives-some _ h)
          | inr small ↦ rw (more, small, returns) (Arrives-some _ stored)
        ]
      ]

  Arrives-import_entries :
      (n offset : ℕ) (w : Walk)
      → 0 < cluster_bytes v
      → IsWellFormed w.vfs
      → Arrives (import_entries fresh devices dev mountpoint v n offset w)
  unfolding import_entries
  Arrives-import_entries zero offset w pos h = Arrives-some w h
  Arrives-import_entries (suc n) offset w pos h =
      let skip = Arrives-import_entries n (offset + 32) w pos h in
      let import =
        Arrives-then_walk _ (import_entries fresh devices dev mountpoint v n (offset + 32))
          (Arrives-import_file w offset pos h)
          (λ u k. Arrives-import_entries n (offset + 32) u pos k) in
      Arrives-if (w.buf offset == 0) _ _ (Arrives-some w h) (
        Arrives-if (w.buf offset == 0xE5) _ _ skip (
          Arrives-if (not (bit_and (w.buf (offset + 11)) 0x08 == 0)) _ _ skip
            (Arrives-if (not (bit_and (w.buf (offset + 11)) 0x0F == 0)) _ _ skip import)))

-- A mount that returns, with a well-formed file system.
pub record Settles (o : Option Mounted) : Type 0 where
  pub result : Mounted
  pub returns : o ≡ some result
  pub vfs : IsWellFormed result.0

Settles-some : (m : Mounted) → IsWellFormed m.0 → Settles (some m)
Settles-some m h = record { result = m; returns = refl; vfs = h }

Settles-if :
    (b : Bool) (x y : Option Mounted) → Settles x → Settles y → Settles (if b then x else y)
Settles-if true x y h k = h
Settles-if false x y h k = k

Settles-finished : (o : Option Walk) → Arrives o → Settles (finished o)
Settles-finished o a = rw a.returns (Settles-some _ a.vfs)

module _ (fresh : Bytes) (devices : List (Option Device)) where
  -- A cluster that holds an entry is not empty.
  Arrives-entries :
      (dev mountpoint : Str) (v : Volume) (n : ℕ) (w : Walk)
      → n ≤ cluster_bytes v
      → IsWellFormed w.vfs
      → Arrives (import_entries fresh devices dev mountpoint v n 0 w)
  Arrives-entries dev mountpoint v zero w le h = unfold import_entries in Arrives-some w h
  Arrives-entries dev mountpoint v (suc n) w le h =
      Arrives-import_entries fresh devices dev mountpoint v (suc n) 0 w (omega arith) h

  Settles-mount_root :
      (vfs : Vfs) (dev mountpoint : Str) (v : Volume) (root_cluster : ℕ)
      → IsWellFormed vfs
      → Settles (mount_root fresh devices vfs dev mountpoint v root_cluster)
  unfolding mount_root
  Settles-mount_root vfs dev mountpoint v root_cluster h =
      let r = read devices dev (sector_of v root_cluster) fresh v.sectors_per_cluster in
      let start : Walk = record { buf = r.1; vfs = vfs; out = [] } in
      Settles-if (ltb 8192 (cluster_bytes v)) _ _ (Settles-some _ h) (
        Settles-if (r.0 == 0) _ _ (Settles-some _ h) (
          Settles-finished _
            (Arrives-entries dev mountpoint v (cluster_bytes v / 32) start (omega arith) h)))

  Settles-mount_volume :
      (vfs : Vfs) (dev mountpoint : Str) (v : Volume) (root_cluster : ℕ)
      → IsWellFormed vfs
      → Settles (mount_volume fresh devices vfs dev mountpoint v root_cluster)
  unfolding mount_volume
  Settles-mount_volume vfs dev mountpoint v root_cluster h =
      let made = create_dir-IsWellFormed vfs mountpoint h in
      Settles-if (exists vfs mountpoint) _ _
        (Settles-mount_root vfs dev mountpoint v root_cluster h)
        (Settles-if (not (create_dir vfs mountpoint).1) _ _ (Settles-some _ made)
          (Settles-mount_root (create_dir vfs mountpoint).0 dev mountpoint v root_cluster made))

  -- Whatever the disk holds, fat32_mount returns, and the file system stays well formed.
  pub fat32_mount-Settles :
      (vfs : Vfs) (dev mountpoint : Str)
      → IsWellFormed vfs
      → Settles (fat32_mount fresh devices vfs dev mountpoint)
  unfolding fat32_mount
  fat32_mount-Settles vfs dev mountpoint h = elim (Option-cases (find devices dev)) [
    | inl e ↦ rw (fat32_mount, e) (Settles-some _ h)
    | inr (d, e) ↦
        let r = read devices dev 0 fresh 1 in
        rw (fat32_mount, e)
          (Settles-if (r.0 == 0) _ _ (Settles-some _ h) (
            Settles-if (read_u16 r.1 11 == 0) _ _ (Settles-some _ h)
              (Settles-mount_volume vfs dev mountpoint _ _ h)))
  ]
