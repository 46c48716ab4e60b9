-- ===== src/Sata/Scan.antt =====
-- The search of src/drivers/sata.c against the list of all controllers.
use wnu.Prelude.{
  ℕ, zero, suc, ◌+◌, ◌≤◌, ◌≡◌, true, not, ◌||◌, List, [], ◌∷◌, ◌++◌, ◌==◌, if◌then◌else◌, length,
  take,
}
use wnu.Pci.{config_read16, function_count}
use wnu.Sata.{Controller, Found, max_controllers, describe}

-- What `f` lists from `i` on, `n` times.
abbrev pub listed {ℓ} : {A : Type ℓ} → ℕ → ℕ → (ℕ → List A) → List A
listed zero i f = []
listed (suc n) i f = f i ++ listed n (i + 1) f

-- After the search of what lists `all`: the first ones are in the table, and a full one is noticed.
record Scanned (all : List Controller) (s : Found) : Type 0 where
  table : s.ctrls ≡ take max_controllers all
  stopped : s.full ≡ true → max_controllers ≤ length all

module _ (space : ℕ → ℕ) where
  -- The SATA controller that a PCI function is, if it is one.
  abbrev pub controller_at : ℕ → ℕ → ℕ → List Controller
  controller_at bus slot func =
      let c = describe space bus slot func in
      if c.vendor_id == 0xffff
      then []
      else if not (c.class_code == 0x01) || not (c.subclass == 0x06)
      then []
      else c ∷ []

  abbrev pub controllers_in_slot : ℕ → ℕ → List Controller
  controllers_in_slot bus slot =
      if config_read16 space bus slot 0 0x00 == 0xffff
      then []
      else listed (function_count space bus slot) 0 (controller_at bus slot)

  abbrev pub all_controllers : List Controller
  all_controllers = listed 256 0 λ bus. listed 32 0 (controllers_in_slot bus)
