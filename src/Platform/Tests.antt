-- ===== src/Platform/Tests.antt =====
-- A serial port that is busy for three reads after each byte, and the witnesses of the platform's
-- theorems.
use mathlib.Core.List.{map}
use wnu.Prelude.{ℕ, ◌-◌, ◌%◌, ◌≡◌, refl, some, List, [], ◌∷◌, ◌++◌, ◌==◌, if◌then◌else◌, arith}
use wnu.Str.{codes}
use wnu.Platform.{Ports, serial_write}
use wnu.Platform.Laws.{FollowsUart, serial_write_sends}

abbrev State : Type 0
State = ℕ × List ℕ

abbrev busy : State → ℕ
busy u = u.0

abbrev out : State → List ℕ
out u = u.1

abbrev uart : Ports State
uart = record {
  inb = λ p u. (if u.0 == 0 then 0x60 else 0x40, (u.0 - 1, u.1));
  outb = λ p c u. (3, u.1 ++ c ∷ []);
}

uart-FollowsUart : FollowsUart uart busy out 3
uart-FollowsUart = record {
  waits = λ u e. ground arith;
  empty = λ u e. ground arith;
  quiet = λ u. refl;
  takes = λ c u e. refl;
  bounded = λ c u. omega arith;
}

serial_write_sends_example :
    (v : State) × (serial_write uart 4 (some (codes "ok")) (3, []) ≡ some v)
    × (out v ≡ map (λ c. c % 256) (codes "ok"))
serial_write_sends_example =
    serial_write_sends uart busy out 3 uart-FollowsUart 4 (codes "ok") (3, []) (omega arith)
      (omega arith)
