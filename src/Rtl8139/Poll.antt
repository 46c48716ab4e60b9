-- ===== src/Rtl8139/Poll.antt =====
-- The receive loop and the start of src/drivers/rtl8139.c.
use Prim.Native.Nat.{bit_and, bit_or}
use wnu.Prelude.{
  ℕ, zero, suc, ◌+◌, ◌-◌, ◌*◌, ◌/◌, ◌%◌, ◌^◌, Bool, true, false, not, ◌&&◌, ◌||◌, Option, none,
  some, [], ◌∷◌, ◌==◌, ltb, leb, if◌then◌else◌,
}
use wnu.Mem.{Bytes}
use wnu.Str.{Str, codes}
use wnu.Libc.Printf.{word}
use wnu.Pci.{Device, find_device, config_read32}
use wnu.Rtl8139.{
  Card, Places, Driver, rtl_read8, rtl_read16, rtl_write8, rtl_write16, rtl_write32, say, hand_over,
}

abbrev pub ring_size : ℕ
ring_size = 8192

-- `rx_offset` behind a frame of `len` bytes.
unfoldable pub next_offset : ℕ → ℕ → ℕ
next_offset offset len =
    let sum = (offset + len + 4 + 3) / 4 * 4 % 2 ^ 16 in
    if leb ring_size sum then sum - ring_size else sum

-- What CAPR gets.
abbrev pub capr_of : ℕ → ℕ
capr_of offset = if leb 16 offset then offset - 16 else 0

module _ {D : Type 0} (ops : Card D) (places : Places) where
  -- The loop ends with a message.
  unfoldable pub give_up : Str → Driver D → Driver D
  give_up message s = rtl_write16 ops 0x3E 0x0002 (say s message [])

  -- A frame of `len` bytes at the offset: the network gets it, and the card its place.
  unfoldable pub take_frame : ℕ → Driver D → Driver D
  take_frame len s =
      let packet : Bytes = λ k. ops.rx_buffer s.card (s.rx_offset + (4 + k)) in
      let handled = hand_over ops places packet (len - 4) s in
      let moved : Driver D = record handled { rx_offset = next_offset handled.rx_offset len } in
      rtl_write16 ops 0x3E 0x0003 (rtl_write16 ops 0x38 (capr_of moved.rx_offset) moved)

  -- The body of the loop: whether it goes on, and the state.
  unfoldable pub poll_round : Driver D → Bool × Driver D
  poll_round s =
      let at : Bytes = λ k. ops.rx_buffer s.card (s.rx_offset + k) in
      let status = bit_or (at 0) (at 1 * 2 ^ 8) in
      let len = bit_or (at 2) (at 3 * 2 ^ 8) in
      let told =
        say s (codes "rtl8139: rx status=0x%x len=%u off=%u\n")
          (word status ∷ word len ∷ word s.rx_offset ∷ []) in
      if bit_and status 0x0001 == 0
      then (false, give_up (codes "rtl8139: bad rx status\n") told)
      else if ltb len 4 || ltb 1600 len
      then (false, give_up (codes "rtl8139: bad rx len\n") told)
      else (true, take_frame len told)

  -- The loop; `none` is more than `fuel` tests.
  unfoldable pub poll_loop : ℕ → Driver D → Option (Driver D)
  poll_loop zero s = none
  poll_loop (suc fuel) s =
      let (cmd, tested) = rtl_read8 ops 0x37 s in
      let (more, t) = poll_round tested in
      let rest = poll_loop fuel t in
      if bit_and cmd 0x01 == 0 then (if more then rest else some t) else some tested

  -- The end of rtl8139_poll.
  abbrev pub confirm_sent : ℕ → Option (Driver D) → Option (Driver D)
  confirm_sent isr none = none
  confirm_sent isr (some s) =
      if bit_and isr 0x000C == 0 then some s else some (rtl_write16 ops 0x3E 0x000C s)

  -- The two counters of the text are read from left to right.
  unfoldable pub poll : ℕ → Driver D → Option (Driver D)
  poll fuel s =
      let (cmd, s1) = rtl_read8 ops 0x37 s in
      let (isr, s2) = rtl_read16 ops 0x3E s1 in
      let (cbr, s3) = rtl_read16 ops 0x3A s2 in
      let (capr, s4) = rtl_read16 ops 0x38 s3 in
      let told =
        say s4 (codes "rtl8139: poll cmd=0x%x isr=0x%x cbr=0x%x capr=0x%x\n")
          (word cmd ∷ word isr ∷ word cbr ∷ word capr ∷ []) in
      if s.io_base == 0
      then some s
      else if not (bit_and cmd 0x01 == 0) && (isr == 0)
      then some s2
      else confirm_sent isr (poll_loop fuel told)

  -- The loop that waits for the reset: what is left of the tests, and the state.
  unfoldable pub wait_reset : ℕ → Driver D → ℕ × Driver D
  wait_reset zero s = (0, (rtl_read8 ops 0x37 s).1)
  wait_reset (suc timeout) s =
      let (cmd, t) = rtl_read8 ops 0x37 s in
      let rest = wait_reset timeout t in if bit_and cmd 0x10 == 0 then (suc timeout, t) else rest

  unfoldable pub read_mac : Driver D → Driver D
  read_mac s =
      let (m0, s0) = rtl_read8 ops 0 s in
      let (m1, s1) = rtl_read8 ops 1 s0 in
      let (m2, s2) = rtl_read8 ops 2 s1 in
      let (m3, s3) = rtl_read8 ops 3 s2 in
      let (m4, s4) = rtl_read8 ops 4 s3 in
      let (m5, s5) = rtl_read8 ops 5 s4 in
      say
        (record s5 {
          mac = record { byte0 = m0; byte1 = m1; byte2 = m2; byte3 = m3; byte4 = m4; byte5 = m5 };
        })
        (codes "rtl8139: mac %x:%x:%x:%x:%x:%x\n")
        (word m0 ∷ word m1 ∷ word m2 ∷ word m3 ∷ word m4 ∷ word m5 ∷ [])

  -- The registers written once the ring has its place.
  unfoldable pub enable : Driver D → Driver D
  enable s =
      let s1 = rtl_write32 ops 0x30 places.rx s in
      let s2 = rtl_write16 ops 0x38 0 s1 in
      let s3 = rtl_write16 ops 0x3E 0xffff s2 in
      let s4 = rtl_write8 ops 0x37 0x0C s3 in
      let s5 = rtl_write32 ops 0x44 0x8B s4 in
      let s6 = rtl_write32 ops 0x40 0x03000000 s5 in
      say (rtl_write16 ops 0x3C 0 s6) (codes "rtl8139: initialized\n") []

  -- From the reset of the chip on.
  unfoldable pub start_chip : Driver D → Driver D
  start_chip s =
      let powered = rtl_write8 ops 0x52 0x00 s in
      let (left, ready) = wait_reset 1000000 (rtl_write8 ops 0x37 0x10 powered) in
      let known = read_mac ready in
      let placed =
        say (record known { tx_index = 0; rx_offset = 0 }) (codes "rtl8139: rx virt=%p phys=0x%x\n")
          (word places.rx_virt ∷ word places.rx ∷ []) in
      if left == 0
      then say (record ready { io_base = 0 }) (codes "rtl8139: reset timeout\n") []
      else if leb (2 ^ 32) places.rx
      then record (say placed (codes "rtl8139: rx buffer above 4GiB\n") []) { io_base = 0 }
      else enable placed

  -- The PCI function found, if any.
  abbrev pub with_card : Option Device → (ℕ → ℕ) → Driver D → Driver D
  with_card none space s = record (say s (codes "rtl8139: not found\n") []) { io_base = 0 }
  with_card (some dev) space s =
      let bar0 = config_read32 space dev.bus dev.slot dev.func 0x10 in
      let io_base = bar0 / 4 * 4 % 2 ^ 16 in
      if bit_and bar0 1 == 0
      then record (say s (codes "rtl8139: BAR0 is not I/O space\n") []) { io_base = 0 }
      else start_chip (
          say (record s { io_base = io_base }) (codes "rtl8139: found io=0x%x\n")
            (word io_base ∷ []))

  unfoldable pub init : (ℕ → ℕ) → Driver D → Driver D
  init space s =
      with_card (find_device space 0x10ec 0x8139) space (say s (codes "rtl8139: probing...\n") [])
