-- ===== src/Kernel/Output.antt =====
-- src/kernel/main.c: what the calls that only write and send leave alone.
use wnu.Prelude.{◌≡◌, refl, ap, true, ◌∙◌, Option, some, List, [], ◌∷◌}
use wnu.Block.{Device}
use wnu.Net.Protocol.{Net, Event, sent, printed, serial}
use wnu.Console.{Console}
use wnu.Arch.{Cpu}
use wnu.Console.Cursor.{
  IsOnScreen, Prints, Prints-refl, Prints-trans, Prints-IsOnScreen, putchar-Prints, write-Prints,
  clear-Prints,
}
use wnu.Console.Line.{HasLine, typed-Prints, HasLine-Prints}
use wnu.Shell.{Shell, char, clear_screen, ping, udp, lsblk, execute, prompt}
use wnu.Shell
use wnu.Shell.Laws.{IsSane}
use wnu.Rtl8139.{Driver}
use wnu.Rtl8139.Kept.{Kept, Kept-still, Kept-trans, Kept-call_net}
use wnu.Rtl8139.Laws.{IsInRing, IsInRing-Kept}
use wnu.Kernel.{Machine, Kernel, places, settle, write_texts, call_network, do_event, do_events}
use wnu.Kernel.Terminal.{Terminal, terminal_of}

-- The parts' invariants.
pub record IsHealthy {D : Type 0} (k : Kernel D) : Type 0 where
  pub shell : IsSane k.shell
  pub line : HasLine k.console
  pub ring : IsInRing k.driver
  pub interrupts : k.cpu.interrupts_on ≡ true

pub write_texts-Prints :
    (texts : List Event) (s : Console) → IsOnScreen s → Prints s (write_texts texts s)
unfolding write_texts
write_texts-Prints [] s h = Prints-refl s h
write_texts-Prints (sent frame ∷ texts) s h = write_texts-Prints texts s h
write_texts-Prints (printed text ∷ texts) s h =
    let p = write_texts-Prints texts s h in
    Prints-trans p (write-Prints text (write_texts texts s) (Prints-IsOnScreen h p))
write_texts-Prints (serial text ∷ texts) s h = write_texts-Prints texts s h

module _ {D : Type 0} where
  -- What the calls that only write and send keep.
  pub record Shows (k t : Kernel D) : Type 0 where
    pub console : Prints k.console t.console
    pub shell : t.shell ≡ k.shell
    pub devices : t.devices ≡ k.devices
    pub bases : t.bases ≡ k.bases
    pub line : t.line ≡ k.line
    pub phase : t.phase ≡ k.phase
    pub cpu : t.cpu ≡ k.cpu
    pub driver : Kept k.driver t.driver

  pub Shows-trans : {k t u : Kernel D} → Shows k t → Shows t u → Shows k u
  Shows-trans a b = record {
    console = Prints-trans a.console b.console;
    shell = b.shell ∙ a.shell;
    devices = b.devices ∙ a.devices;
    bases = b.bases ∙ a.bases;
    line = b.line ∙ a.line;
    phase = b.phase ∙ a.phase;
    cpu = b.cpu ∙ a.cpu;
    driver = Kept-trans a.driver b.driver;
  }

  -- Output to the console alone.
  pub Shows-print :
      (k : Kernel D) (console : Console)
      → Prints k.console console
      → Shows k (record k { console = console })
  Shows-print k console p = record {
    console = p;
    shell = refl;
    devices = refl;
    bases = refl;
    line = refl;
    phase = refl;
    cpu = refl;
    driver = Kept-still k.driver k.driver refl refl refl;
  }

  -- A state that the kernel gets to, with what the user sees, `t`.
  pub record Reaches (devices : List (Option Device)) (t : Terminal) (o : Option (Kernel D))
      : Type 0 where
    pub state : Kernel D
    pub returns : o ≡ some state
    pub healthy : IsHealthy state
    pub seen : terminal_of state ≡ t
    pub devices_kept : state.devices ≡ devices

  -- The calls whose last part is output.
  pub Reaches-Shows :
      (k t : Kernel D)
      → IsSane k.shell
      → HasLine k.console
      → IsInRing k.driver
      → k.cpu.interrupts_on ≡ true
      → Shows k t
      → Reaches k.devices (terminal_of k) (some t)
  Reaches-Shows k t sane line ring on s = record {
    state = t;
    returns = refl;
    healthy = record {
      shell = rw s.shell sane;
      line = HasLine-Prints line s.console;
      ring = IsInRing-Kept s.driver ring;
      interrupts = ap (λ (c : Cpu). c.interrupts_on) s.cpu ∙ on;
    };
    seen = λ i. record {
      typing = typed-Prints s.console i;
      shell = s.shell i;
      command = s.line i;
      phase = s.phase i;
    };
    devices_kept = s.devices;
  }

module _ {D : Type 0} (m : Machine D) where
  pub Shows-settle :
      (driver : Driver D) (k : Kernel D)
      → IsOnScreen k.console
      → Kept k.driver driver
      → Shows k (settle m driver k)
  unfolding settle
  Shows-settle driver k h kept = record {
    console = write_texts-Prints driver.texts k.console h;
    shell = refl;
    devices = refl;
    bases = refl;
    line = refl;
    phase = refl;
    cpu = refl;
    driver = record { base_kept = kept.base_kept; offset = kept.offset; slot = kept.slot };
  }

  Shows-call_network :
      (request : Net → Net) (k : Kernel D)
      → IsOnScreen k.console
      → Shows k (call_network m request k)
  unfolding call_network
  Shows-call_network request k h =
      Shows-settle _ k h (Kept-call_net m.ops (places m k.bases) request k.driver)

  Shows-do_event :
      (e : Shell.Event) (k : Kernel D) → IsOnScreen k.console → Shows k (do_event m e k)
  unfolding do_event
  Shows-do_event (char c) k h = Shows-print k _ (putchar-Prints k.console c h)
  Shows-do_event clear_screen k h = Shows-print k _ (clear-Prints k.console h)
  Shows-do_event ping k h = Shows-call_network _ k h
  Shows-do_event udp k h = Shows-call_network _ k h
  Shows-do_event lsblk k h = Shows-print k _ (write-Prints _ k.console h)

  pub Shows-do_events :
      (events : List Shell.Event) (k : Kernel D)
      → IsOnScreen k.console
      → Shows k (do_events m events k)
  unfolding do_events
  Shows-do_events [] k h = Shows-print k k.console (Prints-refl k.console h)
  Shows-do_events (e ∷ events) k h =
      let s = Shows-do_event e k h in
      Shows-trans s (Shows-do_events events (do_event m e k) (Prints-IsOnScreen h s.console))
