-- ===== src/Block.antt =====
-- src/block/block.c: the table of block devices, each with a file under /dev.
-- A pointer to a device is the device. `strncmp` is that of src/lib/lib.c.
pub mod Laws
mod Tests
use wnu.Prelude.{
  ℕ, zero, suc, ◌+◌, Bool, true, false, ◌&&◌, Option, none, some, List, [], ◌∷◌, ◌++◌, ◌==◌,
  if◌then◌else◌, take, drop, replicate,
}
use wnu.Mem.{Bytes}
use wnu.Str.{Str, codes, at}
use wnu.Vfs.{Vfs, exists, create_file, create_dir, write_file}

-- MAX_BLOCK_DEV
abbrev pub max_block_dev : ℕ
max_block_dev = 8

-- WNU_BLOCK_NAME_MAX
abbrev pub block_name_max : ℕ
block_name_max = 32

-- struct wnu_block_device. The name is what stands before the terminator, or all 32 characters.
-- `read` is the function pointer with its driver data, `none` the null pointer: from a sector, the
-- buffer and a count, the result and the new content of the buffer.
pub record Device : Type 0 where
  pub name : Str
  pub read : Option (ℕ → Bytes → ℕ → ℕ × Bytes)
  pub capacity : ℕ

-- `devices`, and the file system that the functions call.
pub record Registry : Type 0 where
  pub devices : List (Option Device)
  pub vfs : Vfs

-- strncmp(a, b, n) == 0
unfoldable pub strncmp_is_zero : Str → Str → ℕ → Bool
strncmp_is_zero a b zero = true
strncmp_is_zero [] [] (suc n) = true
strncmp_is_zero [] (y ∷ b) (suc n) = false
strncmp_is_zero (x ∷ a) [] (suc n) = false
strncmp_is_zero (x ∷ a) (y ∷ b) (suc n) =
    let rest = strncmp_is_zero a b n in if x == y then rest else false

abbrev then_slot : Option Device → Option (List (Option Device)) → Option (List (Option Device))
then_slot d none = none
then_slot d (some ds) = some (d ∷ ds)

-- The loop of wnu_block_register: the first null slot gets the device; `none` without one.
unfoldable pub add_device : List (Option Device) → Device → Option (List (Option Device))
add_device [] dev = none
add_device (none ∷ ds) dev = some (some dev ∷ ds)
add_device (some d ∷ ds) dev = then_slot (some d) (add_device ds dev)

abbrev pub device_path : Device → Str
device_path dev = codes "/dev/" ++ take block_name_max dev.name

-- The calls of the file system in wnu_block_register.
unfoldable pub publish : Vfs → Device → Vfs
publish v dev =
    let w = if exists v (codes "/dev") then v else (create_dir v (codes "/dev")).0 in
    let (u, made) = create_file w (device_path dev) in
    if made then (write_file u (device_path dev) (some (codes "block device")) 12).0 else u

unfoldable pub register : Registry → Device → Registry × Bool
register s dev = elim (add_device s.devices dev) [
  | none ↦ (s, false)
  | some ds ↦ (record { devices = ds; vfs = publish s.vfs dev }, true)
]

-- The name without "/dev/" in front.
unfoldable pub strip : Str → Str
strip name =
    if at name 0 == b'/'
      && (at name 1 == b'd' && (at name 2 == b'e' && (at name 3 == b'v' && at name 4 == b'/')))
    then drop 5 name
    else name

-- The loop of wnu_block_find.
unfoldable pub search_device : List (Option Device) → Str → Option Device
search_device [] lookup = none
search_device (none ∷ ds) lookup = search_device ds lookup
search_device (some d ∷ ds) lookup =
    let rest = search_device ds lookup in
    if strncmp_is_zero d.name lookup block_name_max then some d else rest

unfoldable pub find : List (Option Device) → Str → Option Device
find devices name = search_device devices (strip name)

-- The call through the function pointer.
abbrev pub call_read : Option Device → ℕ → Bytes → ℕ → ℕ × Bytes
call_read none lba buf count = (0, buf)
call_read (some d) lba buf count = elim d.read [ none ↦ (0, buf) | some f ↦ f lba buf count ]

unfoldable pub read : List (Option Device) → Str → ℕ → Bytes → ℕ → ℕ × Bytes
read devices name lba buf count = call_read (find devices name) lba buf count

-- The static table before the first device.
abbrev pub no_devices : Vfs → Registry
no_devices v = record { devices = replicate max_block_dev none; vfs = v }
