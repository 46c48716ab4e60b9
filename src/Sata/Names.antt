-- ===== src/Sata/Names.antt =====
-- The block devices that src/drivers/sata.c registers, by their names.
use wnu.Prelude.{
  ℕ, zero, suc, ◌+◌, ◌≡◌, refl, sym, ap, Bool, true, false, List, [], ◌∷◌, ◌++◌, ◌==◌, length,
  arith, Bool-cases, inl, inr,
}
use wnu.Mem.{Bytes}
use wnu.Str.{Str, codes}
use wnu.Vfs.{Vfs}
use wnu.Block.{Device, Registry, register}
use wnu.Block.Laws.{register_all, register_all-IsWellFormed}
use wnu.Vfs.Inv.{IsWellFormed}
use wnu.Sata.{Controller, Bases, scan_pci, device_name, block_device, register_controllers, init}

-- A device's name, with or without the directory.
abbrev pub spelled : Bool → ℕ → Str
spelled true k = codes "/dev/" ++ device_name k
spelled false k = device_name k

module _ (block_read : ℕ → ℕ → Bytes → ℕ → ℕ × Bytes) where
  -- The devices of `n` controllers from place `i` on.
  abbrev pub devices_from : ℕ → ℕ → List Device
  devices_from zero i = []
  devices_from (suc n) i = block_device block_read i ∷ devices_from n (i + 1)

  module _ (bases : Bases) (mmio_read32 : ℕ → ℕ) where
    register_controllers-eq-register_all :
        (ctrls : List Controller) (i : ℕ) (s : Registry)
        → (register_controllers block_read bases mmio_read32 i ctrls s).0
          ≡ register_all s (devices_from (length ctrls) i)
    unfolding register_controllers register_all
    register_controllers-eq-register_all [] i s = refl
    register_controllers-eq-register_all (c ∷ ctrls) i s =
        register_controllers-eq-register_all ctrls (i + 1)
          (register s (block_device block_read i)).0

    init_registers :
        (space : ℕ → ℕ) (s : Registry)
        → (init block_read bases mmio_read32 space s).0
          ≡ register_all s (devices_from (length (scan_pci space).ctrls) 0)
    unfolding init
    init_registers space s =
        let ctrls = (scan_pci space).ctrls in
        let same = register_controllers-eq-register_all ctrls 0 s in
        elim (Bool-cases (length ctrls == 0)) [
          | inl none_there ↦
              let zero_there : length ctrls ≡ 0 = ground arith in
              rw none_there (
                unfold register_all in ap (λ n. register_all s (devices_from n 0)) (sym zero_there))
          | inr some_there ↦ rw some_there same
        ]

    -- The files for the devices keep the file system well formed.
    pub init-IsWellFormed :
        (space : ℕ → ℕ) (s : Registry)
        → IsWellFormed s.vfs
        → IsWellFormed (init block_read bases mmio_read32 space s).0.vfs
    init-IsWellFormed space s w =
        rw (init_registers space s)
          (register_all-IsWellFormed (devices_from (length (scan_pci space).ctrls) 0) s w)
