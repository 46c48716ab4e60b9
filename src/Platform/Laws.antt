-- ===== src/Platform/Laws.antt =====
-- include/wnu/platform.h: a text on the serial port arrives, and addresses convert both ways.
use Prim.Native.Nat.{bit_and}
use mathlib.Core.List.{map, append_assoc, append-nil}
use wnu.Prelude.{
  ℕ, zero, suc, ◌%◌, ◌^◌, ◌<◌, ◌≤◌, ◌≡◌, refl, sym, ap, ◌∙◌, true, false, Option, some, List, [],
  ◌∷◌, ◌++◌, ◌==◌, arith, Bool-cases, inl, inr,
}
use wnu.Str.{Str}
use wnu.Sata.{Bases, phys_to_virt}
use wnu.Platform.{virt_to_phys, Ports, wait_empty, serial_putc, write_chars, serial_write}

-- A virtual address of 64 bits is what phys_to_virt of src/drivers/sata.c makes of its physical
-- address.
pub phys_to_virt-virt_to_phys :
    (b : Bases) (virt : ℕ) → virt < 2 ^ 64 → phys_to_virt b (virt_to_phys b virt) ≡ virt
unfolding phys_to_virt virt_to_phys
phys_to_virt-virt_to_phys b virt lt = omega arith

-- The data sheet of the serial port, for a transmitter that is `busy u` status reads away from
-- being empty and has sent `out u`: the wait gets shorter, an empty transmitter takes a byte and
-- sends it, and the wait after it has a bound.
pub record FollowsUart {U : Type 0} (ports : Ports U) (busy : U → ℕ) (out : U → List ℕ)
    (longest : ℕ) : Type 0 where
  pub waits :
      (u : U)
      → (bit_and (ports.inb 0x3FD u).0 0x20 == 0) ≡ true
      → busy (ports.inb 0x3FD u).1 < busy u
  pub empty :
      (u : U) → (bit_and (ports.inb 0x3FD u).0 0x20 == 0) ≡ false → busy (ports.inb 0x3FD u).1 ≡ 0
  pub quiet : (u : U) → out (ports.inb 0x3FD u).1 ≡ out u
  pub takes : (c : ℕ) (u : U) → busy u ≡ 0 → out (ports.outb 0x3F8 c u) ≡ out u ++ c ∷ []
  pub bounded : (c : ℕ) (u : U) → busy (ports.outb 0x3F8 c u) ≤ longest

module _ {U : Type 0} (ports : Ports U) (busy : U → ℕ) (out : U → List ℕ) (longest : ℕ)
    (uart : FollowsUart ports busy out longest) where
  -- The port after some bytes.
  record Sends (u : U) (bytes : List ℕ) (o : Option U) : Type 0 where
    state : U
    returns : o ≡ some state
    sent : out state ≡ out u ++ bytes
    soon : busy state ≤ longest

  -- The end of the wait, with an empty transmitter.
  record Empties (u : U) (o : Option U) : Type 0 where
    state : U
    returns : o ≡ some state
    same : out state ≡ out u
    now : busy state ≡ 0

  Empties-wait_empty : (fuel : ℕ) (u : U) → busy u < fuel → Empties u (wait_empty ports fuel u)
  unfolding wait_empty
  Empties-wait_empty zero u lt = absurd (omega arith)
  Empties-wait_empty (suc fuel) u lt = elim (Bool-cases (bit_and (ports.inb 0x3FD u).0 0x20 == 0)) [
    | inl e ↦
        let rest = Empties-wait_empty fuel (ports.inb 0x3FD u).1 (omega (arith, uart.waits u e)) in
        record {
          state = rest.state;
          returns = rw e rest.returns;
          same = rest.same ∙ uart.quiet u;
          now = rest.now;
        }
    | inr e ↦ record {
      state = (ports.inb 0x3FD u).1;
      returns = rw e refl;
      same = uart.quiet u;
      now = uart.empty u e;
    }
  ]

  Sends-serial_putc :
      (fuel c : ℕ) (u : U) → busy u < fuel → Sends u (c % 256 ∷ []) (serial_putc ports fuel c u)
  unfolding serial_putc
  Sends-serial_putc fuel c u lt =
      let w = Empties-wait_empty fuel u lt in
      rw w.returns (record {
        state = ports.outb 0x3F8 (c % 256) w.state;
        returns = refl;
        sent = uart.takes (c % 256) w.state w.now ∙ ap (λ bytes. bytes ++ c % 256 ∷ []) w.same;
        soon = uart.bounded (c % 256) w.state;
      })

  Sends-write_chars :
      (fuel : ℕ) (s : Str) (u : U)
      → longest < fuel
      → busy u ≤ longest
      → Sends u (map (λ c. c % 256) s) (write_chars ports fuel s u)
  unfolding write_chars
  Sends-write_chars fuel [] u lt le = record {
    state = u;
    returns = refl;
    sent = sym (append-nil (out u));
    soon = le;
  }
  Sends-write_chars fuel (c ∷ s) u lt le =
      let first = Sends-serial_putc fuel c u (omega arith) in
      let rest = Sends-write_chars fuel s first.state lt first.soon in
      rw first.returns (record {
        state = rest.state;
        returns = rest.returns;
        sent =
            rest.sent
            ∙ ap (λ bytes. bytes ++ map (λ d. d % 256) s) first.sent
            ∙ append_assoc (out u) (c % 256 ∷ []) (map (λ d. d % 256) s);
        soon = rest.soon;
      })

  -- If the serial port follows its data sheet and the fuel is more than its longest wait, then
  -- wnu_serial_write returns for every text, and the port has sent the low bytes of the text's
  -- characters, in order and once, after what it had sent before.
  pub serial_write_sends :
      (fuel : ℕ) (s : Str) (u : U)
      → longest < fuel
      → busy u ≤ longest
      → (v : U) × (serial_write ports fuel (some s) u ≡ some v)
        × (out v ≡ out u ++ map (λ c. c % 256) s)
  serial_write_sends fuel s u lt le =
      let r = Sends-write_chars fuel s u lt le in (r.state, r.returns, r.sent)
