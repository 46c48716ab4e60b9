-- ===== src/Shell/Tests.antt =====
-- Commands at the booted file system, and the witnesses of the shell's theorems.
use wnu.Prelude.{◌≡◌, refl, Bool, false, some, [], arith}
use wnu.Str.{Str, codes}
use wnu.Vfs.{Vfs, blank, init}
use wnu.Vfs.Path.Laws.{IsValid}
use wnu.Vfs.Inv.{IsWellFormed}
use wnu.Vfs.Run.{init-IsWellFormed}
use wnu.Shell.{Shell, execute}
use wnu.Shell.Resolve.{resolve_path, path_max}
use wnu.Shell.Laws.{IsSane, resolved, resolve_path-eq-resolved, execute-IsSane}

-- A driver that finds no disk.
abbrev no_disk : Vfs → Str → Str → Vfs × Bool × Str
no_disk v dev mp = (v, false, [])

no_disk-IsWellFormed : (v : Vfs) (dev mp : Str) → IsWellFormed v → IsWellFormed (no_disk v dev mp).0
no_disk-IsWellFormed v dev mp w = w

abbrev shell : Shell
shell = record { cwd = codes "/"; vfs = init blank }

root-IsValid : IsValid (codes "/")
root-IsValid = record { rooted = refl; fits = omega arith }

shell-IsSane : IsSane shell
shell-IsSane = record { cwd = root-IsValid; vfs = init-IsWellFormed blank refl }

execute-IsSane_example : IsSane (execute no_disk shell (codes "write notes hello")).0
execute-IsSane_example =
    execute-IsSane no_disk no_disk-IsWellFormed shell (codes "write notes hello") shell-IsSane

resolve_path-eq-resolved_example :
    resolve_path (codes "/") (some (codes "etc")) path_max ≡ resolved (codes "/") (codes "etc")
resolve_path-eq-resolved_example = resolve_path-eq-resolved (codes "/") (codes "etc") root-IsValid
