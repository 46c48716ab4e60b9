-- ===== src/Kernel/Started.antt =====
-- src/kernel/main.c: what _start leaves for its loop, and the loop after it.
use wnu.Prelude.{
  ℕ, ◌≡◌, ◌⊎◌, inl, inr, refl, sym, ap, subst, ◌∙◌, true, false, some, List, ◌∷◌, length, arith,
}
use wnu.Mem.{Bytes, slice}
use wnu.Vfs.{max_nodes}
use wnu.Vfs.Path.{root}
use wnu.Vfs.Path.Laws.{IsValid}
use wnu.Vfs.Run
use wnu.Vfs.Inv.{IsWellFormed}
use wnu.Sata.Names
use wnu.Sata.{Bases}
use wnu.Console.{Console, bind}
use wnu.Vfs.Path.Parent.{root-IsValid}
use wnu.Console.Cursor.{
  IsOnScreen, Prints, Prints-trans, Prints-IsOnScreen, bind-IsOnScreen, clear-Prints, write-Prints,
}
use wnu.Console.Draw.{Framebuffer, Font}
use wnu.Console.Draw.Bounds.{IsSound}
use wnu.Console.Line.{typed, HasLine, typed-Prints, HasLine-Prints}
use wnu.Shell.{Shell}
use wnu.Shell
use wnu.Shell.Laws.{IsSane}
use wnu.Rtl8139.Laws.{IsInRing, IsInRing-Kept}
use wnu.Rtl8139.Sends.{init-IsInRing}
use wnu.Kernel.{Machine, Kernel, polling, places, settle}
use wnu.Kernel.Boot.{
  LimineFramebuffer, Limine, font_init, framebuffer_init, start_screen, start_network_card,
  start_disks, start_interrupts, greet, welcome, start, boot,
}
use wnu.Kernel.Loop.{Turn, run}
use wnu.Kernel.Output.{IsHealthy, Reaches, Shows-do_events, write_texts-Prints}
use wnu.Kernel.Runs.{StopsInPoll, Runs-run}
use wnu.Kernel.Terminal.{Terminal, empty_line, fresh_terminal, moves, terminal_of}

-- What the static variables hold before _start.
pub record IsStatic {D : Type 0} (k : Kernel D) : Type 0 where
  pub table : length k.shell.vfs.nodes ≡ max_nodes
  pub cwd : k.shell.cwd ≡ root
  pub ring : IsInRing k.driver

-- A console that is bound and can draw.
pub record CanDraw (s : Console) : Type 0 where
  pub ready : s.screen.ready ≡ true
  pub sound : IsSound s.screen

bind-typed :
    (s : Console) (fb : Framebuffer) (font : Font)
    → typed (bind s (some fb) (some font)) ≡ empty_line
unfolding bind slice
bind-typed s fb font =
    let b = bind s (some fb) (some font) in
    let e : b.input_length ≡ 0 = ground arith in
    let d : b.line_ready ≡ false = ground arith in
    (λ i. record { text = slice b.input_buffer 0 (e i); done = d i })

bind-HasLine :
    (s : Console) (fb : Framebuffer) (font : Font)
    → CanDraw (bind s (some fb) (some font))
    → HasLine (bind s (some fb) (some font))
bind-HasLine s fb font h = record {
  ready = h.ready;
  on_screen = bind-IsOnScreen s fb font h.ready h.sound;
  room = unfold bind in ground arith;
}

welcome-Prints : (s : Console) → IsOnScreen s → Prints s (welcome s)
unfolding welcome
welcome-Prints s h =
    let p = write-Prints _ s h in Prints-trans p (write-Prints _ _ (Prints-IsOnScreen h p))

-- A boot loader that answers every request.
abbrev pub answers : Bases → LimineFramebuffer → List LimineFramebuffer → Limine
answers bases fb others = record {
  base_revision_supported = true;
  kernel_address = some bases;
  framebuffers = some (fb ∷ others);
}

module _ {D : Type 0} (m : Machine D) where
  -- A state on the way to the loop: what is typed is empty, and the parts are in order.
  record IsUnderWay (bases : Bases) (k : Kernel D) : Type 0 where
    vfs : IsWellFormed k.shell.vfs
    cwd : k.shell.cwd ≡ root
    line : HasLine k.console
    typing : typed k.console ≡ empty_line
    ring : IsInRing k.driver
    bases_known : k.bases ≡ bases

  -- Output on the way.
  IsUnderWay-Prints :
      {bases : Bases} (k : Kernel D) (console : Console)
      → IsUnderWay bases k
      → Prints k.console console
      → IsUnderWay bases (record k { console = console })
  IsUnderWay-Prints k console h p = record {
    vfs = h.vfs;
    cwd = h.cwd;
    line = HasLine-Prints h.line p;
    typing = typed-Prints p ∙ h.typing;
    ring = h.ring;
    bases_known = h.bases_known;
  }

  IsUnderWay-start_screen :
      (bases : Bases) (fb : Framebuffer) (font : Font) (k : Kernel D)
      → IsStatic k
      → CanDraw (bind k.console (some fb) (some font))
      → IsUnderWay bases (start_screen m bases fb font k)
  unfolding start_screen
  IsUnderWay-start_screen bases fb font k h draws =
      let line = bind-HasLine k.console fb font draws in
      let cleared = clear-Prints (bind k.console (some fb) (some font)) line.on_screen in
      record {
        vfs = Run.init-IsWellFormed k.shell.vfs h.table;
        cwd = h.cwd;
        line = HasLine-Prints line cleared;
        typing = typed-Prints cleared ∙ bind-typed k.console fb font;
        ring = h.ring;
        bases_known = refl;
      }

  IsUnderWay-start_network_card :
      (bases : Bases) (k : Kernel D)
      → IsUnderWay bases k
      → IsUnderWay bases (start_network_card m k)
  unfolding start_network_card settle
  IsUnderWay-start_network_card bases k h =
      let ring = init-IsInRing m.ops (places m k.bases) m.space k.driver h.ring in
      let p = write_texts-Prints _ k.console h.line.on_screen in
      record {
        vfs = h.vfs;
        cwd = h.cwd;
        line = HasLine-Prints h.line p;
        typing = typed-Prints p ∙ h.typing;
        ring = record { slot = ring.slot; offset = ring.offset; aligned = ring.aligned };
        bases_known = h.bases_known;
      }

  IsUnderWay-start_disks :
      (bases : Bases) (k : Kernel D) → IsUnderWay bases k → IsUnderWay bases (start_disks m k)
  unfolding start_disks
  IsUnderWay-start_disks bases k h =
      let p = write-Prints _ k.console h.line.on_screen in
      record {
        vfs = Names.init-IsWellFormed m.block_read k.bases m.mmio_read32 m.space _ h.vfs;
        cwd = h.cwd;
        line = HasLine-Prints h.line p;
        typing = typed-Prints p ∙ h.typing;
        ring = record { slot = h.ring.slot; offset = h.ring.offset; aligned = h.ring.aligned };
        bases_known = h.bases_known;
      }

  -- The end of _start, which turns interrupts on.
  Reaches-greet :
      (bases : Bases) (k : Kernel D)
      → IsUnderWay bases k
      → Reaches k.devices (fresh_terminal k.shell k.line) (some (start_interrupts m (greet m k)))
  unfolding greet start_interrupts
  Reaches-greet bases k h =
      let t : Kernel D = record k { console = welcome k.console; phase = polling } in
      let p = welcome-Prints k.console h.line.on_screen in
      let line = HasLine-Prints h.line p in
      let sane : IsSane k.shell = record {
        cwd = subst IsValid (sym h.cwd) root-IsValid;
        vfs = h.vfs;
      } in
      let s = Shows-do_events m (Shell.init k.shell) t line.on_screen in
      let ring = IsInRing-Kept s.driver h.ring in
      record {
        state = start_interrupts m (greet m k);
        returns = refl;
        healthy = record {
          shell = subst IsSane (sym s.shell) sane;
          line = HasLine-Prints line s.console;
          ring = record { slot = ring.slot; offset = ring.offset; aligned = ring.aligned };
          interrupts = refl;
        };
        seen = λ i. record {
          typing = (typed-Prints s.console ∙ typed-Prints p ∙ h.typing) i;
          shell = s.shell i;
          command = s.line i;
          phase = s.phase i;
        };
        devices_kept = s.devices;
      }

  -- On static variables as the program has them, with the boot loader's answers there, a known font
  -- and a framebuffer that the console can draw on, and with any network card: the kernel boots, the
  -- parts' invariants hold, and the user sees a terminal at the root directory with nothing typed.
  -- From there every schedule of the loop's calls, keys and changes of the card runs to its end, with
  -- the invariants, and the user sees this terminal after the schedule; or it stops inside
  -- rtl8139_poll, which the loop came to with all this true of the turns before.
  pub boot_then_run :
      (fuel : D → ℕ) (bases : Bases) (fb : LimineFramebuffer) (others : List LimineFramebuffer)
      (psf : Bytes) (font : Font) (k : Kernel D) (turns : List (Turn D))
      → font_init psf ≡ some font
      → IsStatic k
      → CanDraw (bind k.console (framebuffer_init (some (fb ∷ others))) (some font))
      → (s : Kernel D) × (boot m (answers bases fb others) psf k ≡ some s)
        × IsHealthy s
        × (s.shell.cwd ≡ root)
        × (terminal_of s ≡ fresh_terminal s.shell k.line)
        × (((t : Kernel D) × (run m fuel turns s ≡ some t)
              × IsHealthy t
              × (terminal_of t ≡ moves m.fresh s.devices turns (terminal_of s)))
            ⊎ StopsInPoll m fuel turns s)
  unfolding boot start start_screen start_network_card start_disks settle
  boot_then_run fuel bases fb others psf font k turns known static draws =
      let s0 = start_screen m bases _ font k in
      let s1 = start_network_card m s0 in
      let s2 = start_disks m s1 in
      let u = IsUnderWay-start_disks bases s1 (
        IsUnderWay-start_network_card bases s0
          (IsUnderWay-start_screen bases _ font k static draws)) in
      let r = Reaches-greet bases s2 u in
      (
        r.state,
        rw known r.returns,
        r.healthy,
        ap (λ (t : Terminal). t.shell.cwd) r.seen ∙ u.cwd,
        r.seen ∙ sym (ap (λ (t : Terminal). fresh_terminal t.shell k.line) r.seen),
        elim (Runs-run m fuel turns r.state r.healthy) [
          | inl x ↦ inl (x.state, x.returns, x.healthy, x.seen)
          | inr x ↦ inr x
        ],
      )
