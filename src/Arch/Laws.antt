-- ===== src/Arch/Laws.antt =====
-- What src/arch/arch.c sets up, as the processor and the interrupt controllers read it.
use wnu.Prelude.{ℕ, ◌+◌, ◌*◌, ◌/◌, ◌%◌, ◌^◌, Bool, List, [], ◌∷◌, ◌==◌, if◌then◌else◌}
use wnu.Arch.{Gate, Write}

-- An 8259 interrupt controller by its manual: a command with bit 4 starts its set-up and clears the
-- mask; the next data are the first vector, the wiring and the mode; all other data are the mask.
pub record Chip : Type 0 where
  pub expects : ℕ
  pub first_vector : ℕ
  pub mask : ℕ

abbrev pub take_command : ℕ → Chip → Chip
take_command value c = if value / 2 ^ 4 % 2 == 1 then record c { expects = 1; mask = 0 } else c

abbrev pub take_data : ℕ → Chip → Chip
take_data value c =
    if c.expects == 1
    then record c { expects = 2; first_vector = value }
    else if c.expects == 2
    then record c { expects = 3 }
    else if c.expects == 3
    then record c { expects = 0 }
    else record c { mask = value }

-- A chip at two ports, after writes.
abbrev pub programmed : ℕ → ℕ → List Write → Chip → Chip
programmed command data_port [] c = c
programmed command data_port (w ∷ writes) c = programmed command data_port writes (
    if w.port == command
    then take_command w.value c
    else if w.port == data_port
    then take_data w.value c
    else c)

abbrev pub lets_through : Chip → ℕ → Bool
lets_through c line = c.mask / 2 ^ line % 2 == 0

-- The address that a gate holds, and its present bit.
abbrev pub gate_address : Gate → ℕ
gate_address g = g.offset_low + g.offset_mid * 2 ^ 16 + g.offset_high * 2 ^ 32

abbrev pub is_present : Gate → Bool
is_present g = g.type_attr / 2 ^ 7 % 2 == 1
