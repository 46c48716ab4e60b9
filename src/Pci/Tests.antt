-- ===== src/Pci/Tests.antt =====
-- A bus with one network card, and the witnesses of the search's theorems.
use wnu.Prelude.{ℕ, ◌+◌, ◌*◌, ◌/◌, ◌^◌, ◌≡◌, refl, none, some, ◌==◌, if◌then◌else◌}
use wnu.Pci.{
  Device, address, find_device, first_of_range, check_slot, check_function, describe,
  function_count, config_read8, config_read16, config_read32,
}
use wnu.Pci.Laws.{IsFound, find_device_sound, find_device_complete}

-- Vendor 0x10ec and device 0x8139 at bus 0, slot 3; the other slots are empty.
abbrev card_space : ℕ → ℕ
card_space a =
    if a == 2 ^ 31 + 3 * 2 ^ 11
    then 0x813910EC
    else if a / 256 == 2 ^ 23 + 3 * 8
    then 0
    else 0xFFFFFFFF

abbrev card : Device
card = record {
  bus = 0;
  slot = 3;
  func = 0;
  vendor_id = 0x10EC;
  device_id = 0x8139;
  class_code = 0;
  subclass = 0;
  prog_if = 0;
}

finds_card : find_device card_space 0x10EC 0x8139 ≡ some card
unfolding find_device first_of_range check_slot check_function describe function_count config_read8
    config_read16 config_read32 address
finds_card = refl

find_device_sound_example :
    (IsFound card_space 0x10EC 0x8139 0 3 0) × (card ≡ describe card_space 0 3 0)
find_device_sound_example = find_device_sound card_space 0x10EC 0x8139 card finds_card

finds_nothing : find_device card_space 0x8086 0x100E ≡ none
unfolding find_device first_of_range check_slot check_function describe function_count config_read8
    config_read16 config_read32 address
finds_nothing = refl

find_device_complete_example : ¬ (IsFound card_space 0x8086 0x100E 0 3 0)
find_device_complete_example = find_device_complete card_space 0x8086 0x100E 0 3 0 finds_nothing
