-- ===== src/Fat32/Content.antt =====
-- The bytes that the copying loop of src/fs/fat32.c puts into a file.
use wnu.Prelude.{
  take-append, ℕ, zero, suc, ◌+◌, ◌-◌, ◌*◌, ◌%◌, ◌^◌, ◌<◌, ◌≤◌, ◌≡◌, refl, sym, ap, ◌∙◌, false,
  ◌&&◌, Option, none, some, List, [], ◌∷◌, ◌++◌, ◌==◌, ltb, leb, if◌then◌else◌, length, take, min,
  arith, Bool-cases, inl, inr,
}
use mathlib.Core.List.{append_assoc, append-nil}
use native.Mathlib.Nat.{div-add-mod, mul-pos}
use wnu.Mem.{Bytes, slice, length-slice, slice-congr}
use wnu.Mem.Stores.{slice-stored_at, take-slice}
use wnu.Str.{Str}
use wnu.Vfs.{max_data}
use wnu.Block.{Device, read}
use wnu.Fat32.Chain.{
  Volume, Copy, follow_chain, goes_on, chain_fuel, copy_round, after_cluster, append_cluster,
  copy_size, cluster_bytes, next_cluster, read_u32, sector_of, fat_sector,
}
use wnu.Fat32.Image.{
  ReadsDisk, IsCluster, IsChain, IsChain-first, word_at, entry_of, data_of, bytes_of, entry_fits,
  sector_of_lem, fat_sector_lem, read_u32-word,
}

module _ (devices : List (Option Device)) (dev : Str) (v : Volume) (image : Bytes)
    (good : ReadsDisk devices dev v image) where
  -- The bytes from a sector on.
  abbrev from_sector : ℕ → Bytes
  from_sector lba k = image (lba * v.bytes_per_sector + k)

  read_u32-read :
      (lba k : ℕ) (buf : Bytes)
      → k + 3 < v.bytes_per_sector
      → read_u32 (read devices dev lba buf 1).1 k ≡ word_at v image (lba * v.bytes_per_sector + k)
  read_u32-read lba k buf lt =
      let p = (read devices dev lba buf 1).1 in
      let a = lba * v.bytes_per_sector + k in
      let same = λ (n : ℕ) (lt : k + n < v.bytes_per_sector).
        good.content lba 1 buf (k + n) (omega (arith, lt)) ∙ ap image (shift n) in
      let e0 = good.content lba 1 buf k (omega arith) in
      let e1 = same 1 (omega arith) in
      let e2 = same 2 (omega arith) in
      let e3 = same 3 (omega arith) in
      read_u32-word p k (omega (arith, e0, good.bytes a)) (omega (arith, e1, good.bytes (a + 1)))
        (omega (arith, e2, good.bytes (a + 2))) (omega (arith, e3, good.bytes (a + 3)))
      ∙ omega (arith, e0, e1, e2, e3)
    where
      shift : (n : ℕ) → lba * v.bytes_per_sector + (k + n) ≡ lba * v.bytes_per_sector + k + n
      shift n = omega arith

  -- The next cluster that the code finds.
  abbrev following : ℕ → Option ℕ
  following entry = if leb 0x0FFFFFF8 entry then none else if entry == 0 then none else some entry

  next_cluster-read :
      (c : ℕ) (buf : Bytes)
      → IsCluster v image c
      → next_cluster v (read devices dev (fat_sector v c) buf 1).1 c
        ≡ following (entry_of v image c)
  unfolding next_cluster
  next_cluster-read c buf h =
      let fits =
        entry_fits c v.bytes_per_sector good.words good.sector_size
          (omega (arith, good.sector_size, good.some_words)) in
      let lba = fat_sector v c in
      let place : lba * v.bytes_per_sector + c * 4 % v.bytes_per_sector
          ≡ v.first_fat_sector * v.bytes_per_sector + c * 4 =
        ap (λ l. l * v.bytes_per_sector + c * 4 % v.bytes_per_sector) (fat_sector_lem v image c h)
        ∙ omega (arith, div-add-mod (c * 4) v.bytes_per_sector) in
      ap (λ w. following (w % 2 ^ 28))
        (read_u32-read lba (c * 4 % v.bytes_per_sector) buf fits ∙ ap (word_at v image) place)

  -- What a round that copies leaves before it looks for the next cluster.
  abbrev copied : Copy → Copy
  copied c =
      let a = append_cluster v (record c {
        cluster_buf =
            (read devices dev (sector_of v c.cluster) c.cluster_buf v.sectors_per_cluster).1;
      }) in
      record a { fat_buf = (read devices dev (fat_sector v c.cluster) c.fat_buf 1).1 }

  copy_round_lem :
      (c : Copy)
      → IsCluster v image c.cluster
      → copy_round devices dev v c ≡ goes_on (copied c) (following (entry_of v image c.cluster))
  unfolding copy_round after_cluster append_cluster
  copy_round_lem c h =
      rw
        (
          good.succeeds (sector_of v c.cluster) v.sectors_per_cluster c.cluster_buf
              good.some_sectors,
          good.succeeds (fat_sector v c.cluster) 1 c.fat_buf (omega arith),
          next_cluster-read c.cluster c.fat_buf h,
        )
        refl

  data_lem :
      (c : Copy)
      → IsCluster v image c.cluster
      → slice (copied c).file_buf 0 (copied c).written
        ≡ slice c.file_buf 0 c.written
          ++ take (min c.bytes_left (max_data - c.written)) (data_of v image c.cluster)
  unfolding append_cluster
  data_lem c h =
      let n = copy_size v c in
      let buf = (read devices dev (sector_of v c.cluster) c.cluster_buf v.sectors_per_cluster).1 in
      let there = from_sector (sector_of v c.cluster) in
      let fits : n ≤ v.sectors_per_cluster * v.bytes_per_sector = omega arith in
      let same : slice buf 0 n ≡ slice there 0 n = slice-congr buf there 0 n (λ j lt.
        good.content (sector_of v c.cluster) v.sectors_per_cluster c.cluster_buf j
          (omega (arith, fits))) in
      let size : n ≡ min (min c.bytes_left (max_data - c.written)) (cluster_bytes v) =
        omega arith in
      slice-stored_at buf c.written n c.file_buf
      ∙ ap (λ l. slice c.file_buf 0 c.written ++ l)
          (same
            ∙ ap (slice there 0) size
            ∙ sym (take-slice there 0 _ (cluster_bytes v))
            ∙ ap
                (λ lba.
                  take (min c.bytes_left (max_data - c.written))
                    (slice (from_sector lba) 0 (cluster_bytes v)))
                (sector_of_lem v image c.cluster h))

  counts :
      (c : Copy)
      → ((copied c).written ≡ c.written + copy_size v c)
        × ((copied c).bytes_left ≡ c.bytes_left - copy_size v c)
  unfolding append_cluster
  counts c = (refl, refl)

  -- A copy that ends, with these bytes behind those that the file had.
  record Appends (c : Copy) (bytes : List ℕ) (o : Option Copy) : Type 0 where
    end : Copy
    returns : o ≡ some end
    bytes_now : slice end.file_buf 0 end.written ≡ slice c.file_buf 0 c.written ++ bytes

  -- No bytes wanted any more.
  Appends-stopped :
      (fuel : ℕ) (c : Copy) (bytes : List ℕ)
      → (ltb 0 c.bytes_left && ltb c.written max_data) ≡ false
      → Appends c
          (take (min c.bytes_left (max_data - c.written)) bytes)
          (follow_chain devices dev v (suc fuel) c)
  unfolding follow_chain
  Appends-stopped fuel c bytes stop =
      let nothing : min c.bytes_left (max_data - c.written) ≡ 0 = ground arith in
      let old = slice c.file_buf 0 c.written in
      record {
        end = c;
        returns = rw stop refl;
        bytes_now = sym (append-nil old) ∙ ap (λ k. old ++ take k bytes) (sym nothing);
      }

  Appends-follow_chain :
      (fuel : ℕ) (clusters : List ℕ) (c : Copy)
      → IsChain v image c.cluster clusters
      → c.written ≤ max_data
      → max_data < c.written + fuel
      → Appends c
          (take (min c.bytes_left (max_data - c.written)) (bytes_of v image (c.cluster ∷ clusters)))
          (follow_chain devices dev v fuel c)
  unfolding follow_chain
  Appends-follow_chain zero clusters c chain le lt = absurd (omega arith)
  Appends-follow_chain (suc fuel) [] c (here, last) le lt =
      let n = min c.bytes_left (max_data - c.written) in
      let bytes = data_of v image c.cluster in
      let old = slice c.file_buf 0 c.written in
      let round = copy_round_lem c here in
      let none_next : following (entry_of v image c.cluster) ≡ none = ground (arith, last) in
      elim (Bool-cases (ltb 0 c.bytes_left && ltb c.written max_data)) [
        | inr stop ↦ Appends-stopped fuel c (bytes ++ []) stop
        | inl go ↦ record {
          end = copied c;
          returns = rw (go, round, none_next) refl;
          bytes_now = data_lem c here ∙ ap (λ l. old ++ take n l) (sym (append-nil bytes));
        }
      ]
  Appends-follow_chain (suc fuel) (next ∷ clusters) c (here, entry, inner, chain) le lt =
      let n = min c.bytes_left (max_data - c.written) in
      let bytes = data_of v image c.cluster in
      let old = slice c.file_buf 0 c.written in
      let round = copy_round_lem c here in
      let more_bytes = bytes_of v image (next ∷ clusters) in
      let from_two = (IsChain-first v image next clusters chain).at_least in
      let more : following (entry_of v image c.cluster) ≡ some next =
        ap following entry ∙ ground (arith, inner, from_two) in
      elim (Bool-cases (ltb 0 c.bytes_left && ltb c.written max_data)) [
        | inr stop ↦ Appends-stopped fuel c (bytes ++ more_bytes) stop
        | inl go ↦
            let d : Copy = record (copied c) { cluster = next } in
            let (written, left) = counts c in
            let some_bytes : 0 < cluster_bytes v =
              mul-pos (omega (arith, good.sector_size, good.some_words)) good.some_sectors in
            let rest =
              Appends-follow_chain fuel clusters d chain (omega (arith, written))
                (ground (arith, written, some_bytes)) in
            let sized : length bytes ≡ cluster_bytes v = length-slice _ 0 (cluster_bytes v) in
            let left_over : min (copied c).bytes_left (max_data - (copied c).written)
                ≡ n - length bytes =
              omega (arith, written, left, sized) in
            record {
              end = rest.end;
              returns = rw (go, round, more) rest.returns;
              bytes_now =
                  rest.bytes_now
                  ∙ ap
                      (λ l.
                        l
                        ++ take (min (copied c).bytes_left (max_data - (copied c).written))
                            more_bytes)
                      (data_lem c here)
                  ∙ append_assoc old (take n bytes) _
                  ∙ ap (λ k. old ++ (take n bytes ++ take k more_bytes)) left_over
                  ∙ ap (λ l. old ++ l) (sym (take-append n bytes more_bytes));
            }
      ]

  -- On a disk with sectors of the volume's size, a positive multiple of 4 bytes, and at least one
  -- for a cluster, whose reads succeed and give the sectors' bytes, the copying loop of an empty
  -- file that stands at a chain's first cluster returns, and the file's bytes are those of the
  -- chain's clusters, one after the other, as many as the directory says and 4096 at most. The chain
  -- is that of FAT32: each entry of the table names the next cluster, the last one is 0x0FFFFFF8 or
  -- more, and cluster 2 is the first of the data; the sectors' numbers have 32 bits.
  pub file_bytes :
      (c : Copy) (clusters : List ℕ)
      → c.written ≡ 0
      → IsChain v image c.cluster clusters
      → (d : Copy) × (follow_chain devices dev v chain_fuel c ≡ some d)
        × (slice d.file_buf 0 d.written
            ≡ take (min c.bytes_left max_data) (bytes_of v image (c.cluster ∷ clusters)))
  file_bytes c clusters none_yet chain =
      let a = Appends-follow_chain chain_fuel clusters c chain (omega arith) (omega arith) in
      let room : min c.bytes_left (max_data - c.written) ≡ min c.bytes_left max_data =
        omega arith in
      let bytes = bytes_of v image (c.cluster ∷ clusters) in
      (
        a.end,
        a.returns,
        a.bytes_now
            ∙ ap (λ k. slice c.file_buf 0 k ++ take (min c.bytes_left (max_data - c.written)) bytes)
                none_yet
            ∙ (unfold slice in ap (λ k. take k bytes) room),
      )
