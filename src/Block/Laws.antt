-- ===== src/Block/Laws.antt =====
-- The table of devices against the sequence in which they were registered.
use wnu.Prelude.{
  ℕ, zero, suc, ◌≡◌, ◌∙◌, refl, sym, ap, Bool, true, false, Option, none, some, List, [], ◌∷◌, ◌++◌,
  take, arith, Option-cases, inl, inr, if◌then◌else◌,
}
use mathlib.Core.List.{append_assoc, append-nil}
use wnu.Str.{Str, codes}
use wnu.Vfs.{Vfs, exists, create_dir}
use wnu.Vfs.Inv.{
  IsWellFormed, create_dir-IsWellFormed, create_file-IsWellFormed, write_file-IsWellFormed,
}
use wnu.Block.{
  Device, Registry, add_device, register, publish, device_path, search_device, find, strip,
  strncmp_is_zero, block_name_max, max_block_dev, no_devices,
}

-- A table of `n` slots that holds the first devices of a list, in order.
abbrev pub slots : ℕ → List Device → List (Option Device)
slots zero ds = []
slots (suc n) [] = none ∷ slots n []
slots (suc n) (d ∷ ds) = some d ∷ slots n ds

-- The table after a device, or the old one.
abbrev or_old : List (Option Device) → Option (List (Option Device)) → List (Option Device)
or_old old none = old
or_old old (some new) = new

or_old-add_device :
    (n : ℕ) (ds : List Device) (d : Device)
    → or_old (slots n ds) (add_device (slots n ds) d) ≡ slots n (ds ++ d ∷ [])
unfolding add_device
or_old-add_device zero ds d = refl
or_old-add_device (suc n) [] d = refl
or_old-add_device (suc n) (e ∷ ds) d = elim (Option-cases (add_device (slots n ds) d)) [
  | inl h ↦ ground (arith, or_old-add_device n ds d)
  | inr (new, h) ↦ ground (arith, or_old-add_device n ds d)
]

devices-register :
    (s : Registry) (d : Device)
    → (register s d).0.devices ≡ or_old s.devices (add_device s.devices d)
unfolding register
devices-register s d = ground arith

-- The devices of a list, registered one after the other.
unfoldable pub register_all : Registry → List Device → Registry
register_all s [] = s
register_all s (d ∷ ds) = register_all (register s d).0 ds

devices-register_all :
    (new old : List Device) (s : Registry)
    → s.devices ≡ slots max_block_dev old
    → (register_all s new).devices ≡ slots max_block_dev (old ++ new)
unfolding register_all
devices-register_all [] old s h = h ∙ ap (slots max_block_dev) (sym (append-nil old))
devices-register_all (d ∷ new) old s h =
    devices-register_all new (old ++ d ∷ []) (register s d).0 (
      devices-register s d
      ∙ ap (λ t. or_old t (add_device t d)) h
      ∙ or_old-add_device max_block_dev old d)
    ∙ ap (slots max_block_dev) (append_assoc old (d ∷ []) new)

-- The first device of a list with a name, in its first 32 characters.
abbrev pub first_named : List Device → Str → Option Device
first_named [] name = none
first_named (d ∷ ds) name =
    if strncmp_is_zero d.name name block_name_max then some d else first_named ds name

search_device-slots :
    (n : ℕ) (ds : List Device) (name : Str)
    → search_device (slots n ds) name ≡ first_named (take n ds) name
unfolding search_device
search_device-slots zero ds name = refl
search_device-slots (suc n) [] name = search_device-slots n [] name ∙ nothing n
  where
    nothing : (n : ℕ) → first_named (take n []) name ≡ none
    nothing zero = refl
    nothing (suc n) = refl
search_device-slots (suc n) (d ∷ ds) name = ground (arith, search_device-slots n ds name)

-- After any devices have been registered from an empty table, a search finds the first of the
-- first eight whose name agrees with the one asked for, without its "/dev/", in 32 characters.
pub find_after_register_all :
    (v : Vfs) (ds : List Device) (name : Str)
    → find (register_all (no_devices v) ds).devices name
      ≡ first_named (take max_block_dev ds) (strip name)
unfolding find
find_after_register_all v ds name =
    ap (λ t. search_device t (strip name)) (devices-register_all ds [] (no_devices v) refl)
    ∙ search_device-slots max_block_dev ds (strip name)

IsWellFormed-if :
    (b : Bool) (v w : Vfs) → IsWellFormed v → IsWellFormed w → IsWellFormed (if b then v else w)
IsWellFormed-if true v w h k = h
IsWellFormed-if false v w h k = k

publish-IsWellFormed : (v : Vfs) (d : Device) → IsWellFormed v → IsWellFormed (publish v d)
unfolding publish
publish-IsWellFormed v d w =
    let with_dev =
      IsWellFormed-if (exists v (codes "/dev")) v (create_dir v (codes "/dev")).0 w
        (create_dir-IsWellFormed v (codes "/dev") w) in
    let made = create_file-IsWellFormed _ (device_path d) with_dev in
    IsWellFormed-if _ _ _ (write_file-IsWellFormed _ (device_path d) _ 12 made) made

-- Registering devices keeps the file system well formed.
pub register_all-IsWellFormed :
    (ds : List Device) (s : Registry) → IsWellFormed s.vfs → IsWellFormed (register_all s ds).vfs
unfolding register_all register
register_all-IsWellFormed [] s w = w
register_all-IsWellFormed (d ∷ ds) s w = register_all-IsWellFormed ds (register s d).0 (one s w)
  where
    one : (s : Registry) → IsWellFormed s.vfs → IsWellFormed (register s d).0.vfs
    one s w = elim (Option-cases (add_device s.devices d)) [
      | inl e ↦ rw (register, e) w
      | inr (new, e) ↦ rw (register, e) (publish-IsWellFormed s.vfs d w)
    ]
