-- ===== src/Pci/Laws.antt =====
-- Configuration addresses, and what the search for a device finds.
use Prim.Native.Nat.{bit_and, bit_or}
use wnu.Prelude.{
  ℕ, zero, suc, ◌+◌, ◌*◌, ◌/◌, ◌^◌, ◌<◌, ◌≤◌, ◌≡◌, ◌≢◌, refl, ap, ◌∙◌, Option, none, some, ◌==◌,
  arith, Bool-cases, Option-cases, inl, inr,
}
use wnu.Bits.{pow2, bit_or-shifted, bit_and_halves, bit_and-mask}
use wnu.Pci.{
  Device, address, first_of_range, config_read16, describe, function_count, check_function,
  check_slot, find_device,
}

drop_low : (x m : ℕ) → bit_and x (2 * m) ≡ 2 * bit_and (x / 2) m
drop_low x m =
    let half : 2 * m / 2 ≡ m = omega arith in
    omega (arith, bit_and_halves x (2 * m), ap (bit_and (x / 2)) half)

-- `offset & 0xFC` is the offset of its word.
word_offset : (o : ℕ) → o < 256 → bit_and o 0xFC ≡ 4 * (o / 4)
word_offset o h =
    omega (arith, drop_low o 126, drop_low (o / 2) 63, bit_and-mask 6 (o / 2 / 2) (omega arith))

join_field : (k hi x lo : ℕ) → x ≡ hi * pow2 k → lo < pow2 k → bit_or x lo ≡ x + lo
join_field k hi x lo e lt = rw e (bit_or-shifted k hi lo lt)

-- The fields of an address do not overlap.
address_sum :
    (bus slot func offset : ℕ)
    → bus < 256
    → slot < 32
    → func < 8
    → offset < 256
    → address bus slot func offset
      ≡ 2 ^ 31 + bus * 2 ^ 16 + slot * 2 ^ 11 + func * 2 ^ 8 + 4 * (offset / 4)
unfolding address
address_sum bus slot func offset hb hs hf ho =
    let with_bus = join_field 31 1 (2 ^ 31) (bus * 2 ^ 16) refl (omega arith) in
    let a = 2 ^ 31 + bus * 2 ^ 16 in
    let with_slot = join_field 16 (2 ^ 15 + bus) a (slot * 2 ^ 11) (omega arith) (omega arith) in
    let b = a + slot * 2 ^ 11 in
    let with_func =
      join_field 11 (2 ^ 20 + bus * 32 + slot) b (func * 2 ^ 8) (omega arith) (omega arith) in
    let c = b + func * 2 ^ 8 in
    let with_offset =
      join_field 8 (2 ^ 23 + bus * 256 + slot * 8 + func) c (4 * (offset / 4)) (omega arith)
        (omega arith) in
    rw (with_bus, with_slot, with_func, word_offset offset ho, with_offset)

-- Equal addresses of words in range have the same bus, slot, function and word offset.
pub address_injective :
    (bus slot func offset bus' slot' func' offset' : ℕ)
    → (bus < 256) × (slot < 32) × (func < 8) × (offset < 256)
    → (bus' < 256) × (slot' < 32) × (func' < 8) × (offset' < 256)
    → address bus slot func offset ≡ address bus' slot' func' offset'
    → (bus ≡ bus') × (slot ≡ slot') × (func ≡ func') × (offset / 4 ≡ offset' / 4)
address_injective bus slot func offset bus' slot' func' offset' (b, s, f, o) (b', s', f', o') e =
    omega (
      arith,
      e,
      address_sum bus slot func offset b s f o,
      address_sum bus' slot' func' offset' b' s' f' o',
    )

-- The search returns the first success in its range, and nothing only if there is none.
pub first_of_range-some {ℓ} :
    {A : Type ℓ} (n i : ℕ) (f : ℕ → Option A) (a : A)
    → first_of_range n i f ≡ some a
    → (k : ℕ) × (i ≤ k) × (k < i + n) × (f k ≡ some a)
unfolding first_of_range
first_of_range-some zero i f a h = absurd (cc)
first_of_range-some (suc n) i f a h = elim (Option-cases (f i)) [
  | inl e ↦
      let (k, lo, hi, at_k) = first_of_range-some n (i + 1) f a (ground (arith, e)) in
      (k, omega arith, omega arith, at_k)
  | inr (b, e) ↦ (i, omega arith, omega arith, ground (arith, e))
]

pub first_of_range-none {ℓ} :
    {A : Type ℓ} (n i : ℕ) (f : ℕ → Option A) (k : ℕ)
    → first_of_range n i f ≡ none
    → i ≤ k
    → k < i + n
    → f k ≡ none
unfolding first_of_range
first_of_range-none zero i f k h lo hi = absurd (omega arith)
first_of_range-none (suc n) i f k h lo hi = elim (Option-cases (f i)) [
  | inr (b, e) ↦ absurd (ground (arith, e))
  | inl e ↦ elim (Bool-cases (k == i)) [
    | inl same ↦ let k_eq : k ≡ i = ground arith in ap f k_eq ∙ e
    | inr later ↦ first_of_range-none n (i + 1) f k (ground (arith, e)) (ground arith) (omega arith)
  ]
]

module _ (space : ℕ → ℕ) (vendor device : ℕ) where
  -- A function that the search looks at, with the identity it looks for.
  pub record IsFound (bus slot func : ℕ) : Type 0 where
    pub on_bus : bus < 256
    pub in_slot : slot < 32
    pub in_device : func < function_count space bus slot
    pub slot_present : config_read16 space bus slot 0 0x00 ≢ 0xffff
    pub present : config_read16 space bus slot func 0x00 ≢ 0xffff
    pub vendor_matches : config_read16 space bus slot func 0x00 ≡ vendor
    pub device_matches : config_read16 space bus slot func 0x02 ≡ device

module _ (space : ℕ → ℕ) (vendor device : ℕ) where
  check_slot_sound :
      (d : Device) (bus slot : ℕ)
      → check_slot space vendor device bus slot ≡ some d
      → (config_read16 space bus slot 0 0x00 ≢ 0xffff)
        × ((func : ℕ) × (func < function_count space bus slot)
            × (check_function space vendor device bus slot func ≡ some d))
  unfolding check_slot
  check_slot_sound d bus slot h =
      elim (Bool-cases (config_read16 space bus slot 0 0x00 == 0xffff)) [
        | inl e ↦ absurd (ground arith)
        | inr e ↦
            let (func, _, hf, at_func) =
              first_of_range-some (function_count space bus slot) 0
                (check_function space vendor device bus slot) d (ground arith) in
            (λ same. ground arith, (func, omega (arith, hf), at_func))
      ]

  check_function_sound :
      (d : Device) (bus slot func : ℕ)
      → check_function space vendor device bus slot func ≡ some d
      → (d ≡ describe space bus slot func)
        × (config_read16 space bus slot func 0x00 ≢ 0xffff)
        × (config_read16 space bus slot func 0x00 ≡ vendor)
        × (config_read16 space bus slot func 0x02 ≡ device)
  unfolding check_function
  check_function_sound d bus slot func h =
      (ground arith, λ e. absurd (ground arith), ground arith, ground arith)

  -- What the search returns describes a function of the configuration space with the vendor and
  -- device that were asked for.
  pub find_device_sound :
      (d : Device)
      → find_device space vendor device ≡ some d
      → (IsFound space vendor device d.bus d.slot d.func) × (d ≡ describe space d.bus d.slot d.func)
  unfolding find_device
  find_device_sound d h =
      let (bus, _, hb, at_bus) = first_of_range-some 256 0 _ d h in
      let (slot, _, hs, at_slot) = first_of_range-some 32 0 _ d at_bus in
      let (here, (func, hf, at_func)) = check_slot_sound d bus slot at_slot in
      let (same, present, v, i) = check_function_sound d bus slot func at_func in
      rw same (
        unfold describe in
        (
          record {
            on_bus = omega (arith, hb);
            in_slot = omega (arith, hs);
            in_device = hf;
            slot_present = here;
            present = present;
            vendor_matches = v;
            device_matches = i;
          },
          refl,
        ))

  -- The search returns nothing only if no function of the configuration space has the vendor and
  -- device that were asked for.
  pub find_device_complete :
      (bus slot func : ℕ)
      → find_device space vendor device ≡ none
      → ¬ (IsFound space vendor device bus slot func)
  unfolding find_device check_slot check_function
  find_device_complete bus slot func h f =
      let at_bus = first_of_range-none 256 0 _ bus h (omega arith) (omega (arith, f.on_bus)) in
      let at_slot =
        first_of_range-none 32 0 _ slot at_bus (omega arith) (omega (arith, f.in_slot)) in
      let in_slot_none : first_of_range (function_count space bus slot) 0
            (check_function space vendor device bus slot)
          ≡ none =
        ground (arith, at_slot, f.slot_present) in
      let at_func =
        first_of_range-none (function_count space bus slot) 0
          (check_function space vendor device bus slot) func in_slot_none (omega arith)
          (omega (arith, f.in_device)) in
      ground (arith, at_func, f.present, f.vendor_matches, f.device_matches)
