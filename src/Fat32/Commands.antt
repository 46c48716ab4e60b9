-- ===== src/Fat32/Commands.antt =====
-- The shell of src/shell/shell.c with the mount of src/fs/fat32.c.
use wnu.Prelude.{◌≡◌, refl, Option, some, List}
use wnu.Mem.{Bytes}
use wnu.Str.{Str}
use wnu.Vfs.{Vfs}
use wnu.Vfs.Inv.{IsWellFormed}
use wnu.Block.{Device}
use wnu.Fat32.{mounted, fat32_mount}
use wnu.Fat32.Laws.{fat32_mount-Settles}
use wnu.Shell.{Shell, execute}
use wnu.Shell.Laws.{IsSane, execute-IsSane}

module _ (fresh : Bytes) (devices : List (Option Device)) where
  pub mounted-IsWellFormed :
      (vfs : Vfs) (dev mountpoint : Str)
      → IsWellFormed vfs
      → IsWellFormed (mounted fresh devices vfs dev mountpoint).0
  unfolding mounted
  mounted-IsWellFormed vfs dev mountpoint h =
      let m = fat32_mount-Settles fresh devices vfs dev mountpoint h in
      rw (mounted, m.returns) m.vfs

  -- On a well-formed file system fat32_mount returns, and what it returns is what the shell's
  -- mount command gets; every command line of the shell keeps the current directory a valid path
  -- and the file system well formed, whatever is on the disk that is mounted.
  pub execute_with_fat32-IsSane :
      (s : Shell) (line dev mountpoint : Str)
      → IsSane s
      → (fat32_mount fresh devices s.vfs dev mountpoint
          ≡ some (mounted fresh devices s.vfs dev mountpoint))
        × IsSane (execute (mounted fresh devices) s line).0
  unfolding mounted
  execute_with_fat32-IsSane s line dev mountpoint h =
      let m = fat32_mount-Settles fresh devices s.vfs dev mountpoint h.vfs in
      (
        rw (mounted, m.returns) refl,
        execute-IsSane (mounted fresh devices) mounted-IsWellFormed s line h,
      )
