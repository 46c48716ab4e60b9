-- ===== src/Shell.antt =====
-- src/shell/shell.c: the current directory and the commands.
-- What a command writes to the console and asks of other components is a list of events; mounting
-- is a parameter, since fat32_mount returns a result that the shell reports.
pub mod Resolve
pub mod Laws
mod Tests
use Resolve.{resolve_path, path_max}
use mathlib.Core.List.{map}
use wnu.Prelude.{
  ℕ, zero, suc, ◌+◌, ◌-◌, Bool, true, false, not, ◌||◌, Option, none, some, List, [], ◌∷◌, ◌++◌,
  ◌==◌, leb, if◌then◌else◌, take, drop, min,
}
use wnu.Mem.{Bytes, slice}
use wnu.Str.{Str, codes, at, string_len, string_equal, string_starts_with, string_copy}
use wnu.Vfs.{Vfs, exists, is_dir, create_file, create_dir, delete, write_file, read_file}
use wnu.Vfs.Listing.{list_dir, tree}

-- A character to the console, or a call of another component.
pub data Event : Type 0 where
  char : ℕ → Event
  clear_screen ping udp lsblk : Event

abbrev pub says : Str → List Event
says s = map char s

pub record Shell : Type 0 where
  pub cwd : Str
  pub vfs : Vfs

abbrev pub line_feed : ℕ
line_feed = b'\n'

abbrev pub Outcome : Type 0
Outcome = Shell × List Event

-- A command on a path that may not resolve: what to do then, and otherwise.
abbrev pub with_path : Option Str → Outcome → (Str → Outcome) → Outcome
with_path none failed body = failed
with_path (some path) failed body = body path

unfoldable pub help_text : Str
help_text =
    codes "commands:\n  help\n  clear\n  about\n  echo <text>\n  pwd\n"
    ++ (codes "  cd <path>\n  ls [path]\n  cat <path>\n  touch <path>\n  mkdir <path>\n"
        ++ (codes "  rm <path>\n  tree <path>\n  write <path> <text>\n  ping\n  udp\n  lsblk\n"
            ++ codes "  mount <dev> <mountpoint>\n"))

unfoldable pub prompt : Shell → List Event
prompt s = says (s.cwd ++ codes " % ")

-- wnu_shell_init
unfoldable pub init : Shell → List Event
unfolding prompt
init s = says (codes "WNU console ready\n" ++ codes "type 'help'\n") ++ prompt s

unfoldable pub change_dir : Shell → Str → Outcome
change_dir s arg =
    with_path (resolve_path s.cwd (some arg) path_max) (s, says (codes "cd: invalid path\n"))
      λ path.
        if not (exists s.vfs path)
        then (s, says (codes "cd: no such file or directory\n"))
        else if not (is_dir s.vfs path)
        then (s, says (codes "cd: not a directory\n"))
        else (record s { cwd = string_copy s.cwd path path_max }, [])

unfoldable pub list : Shell → Str → Outcome
list s arg =
    with_path (resolve_path s.cwd (some arg) path_max) (s, says (codes "ls: invalid path\n"))
      λ path. (s, says (list_dir s.vfs path))

-- The text of a file, and a line feed if it does not end in one.
unfoldable pub shown : Bytes → ℕ → Str
shown bytes size =
    slice bytes 0 size
    ++ (if size == 0 || not (bytes (size - 1) == line_feed) then line_feed ∷ [] else [])

abbrev pub show_file : Shell → Option (Bytes × ℕ) → Outcome
show_file s none = (s, says (codes "cat: cannot read file\n"))
show_file s (some (bytes, size)) = (s, says (shown bytes size))

unfoldable pub cat : Shell → Str → Outcome
cat s arg =
    with_path (resolve_path s.cwd (some arg) path_max) (s, says (codes "cat: invalid path\n"))
      λ path. show_file s (read_file s.vfs path)

-- The shape of touch, mkdir and rm: a call on the resolved path, with a message on failure.
unfoldable pub on_path : Shell → Str → (Vfs → Str → Vfs × Bool) → Str → Str → Outcome
on_path s arg call invalid failed =
    with_path (resolve_path s.cwd (some arg) path_max) (s, says invalid)
      λ path.
        let (vfs, done) = call s.vfs path in
        (record s { vfs = vfs }, if done then [] else says failed)

unfoldable pub touch : Shell → Str → Outcome
touch s arg = on_path s arg create_file (codes "touch: invalid path\n") (codes "touch: failed\n")

unfoldable pub mkdir : Shell → Str → Outcome
mkdir s arg = on_path s arg create_dir (codes "mkdir: invalid path\n") (codes "mkdir: failed\n")

unfoldable pub rm : Shell → Str → Outcome
rm s arg = on_path s arg delete (codes "rm: invalid path\n") (codes "rm: failed\n")

-- The text that wnu_vfs_tree wrote; nothing stands for a walk out of fuel.
abbrev pub tree_text : Option Str → Str
tree_text none = []
tree_text (some text) = text

unfoldable pub show_tree : Shell → Str → Outcome
show_tree s arg =
    with_path (resolve_path s.cwd (some arg) path_max) (s, says (codes "tree: invalid path\n"))
      λ path. (s, says (tree_text (tree s.vfs path)))

abbrev pub space : ℕ
space = b' '

-- The index of the first space, or the end.
unfoldable pub word_len : Str → ℕ
word_len [] = 0
word_len (c ∷ s) = let rest = word_len s in if c == space then 0 else suc rest

-- The index of the first character that is no space.
unfoldable pub skip_spaces : Str → Str
skip_spaces [] = []
skip_spaces (c ∷ s) = let rest = skip_spaces s in if c == space then rest else c ∷ s

-- The end of the write command, on the resolved path.
unfoldable pub write_to : Shell → Str → Str → Outcome
write_to s text path =
    let made = if exists s.vfs path then s.vfs else (create_file s.vfs path).0 in
    let (vfs, done) = write_file made path (some text) (string_len text) in
    (record s { vfs = vfs }, if done then [] else says (codes "write: failed\n"))

unfoldable pub write_text : Shell → Str → Outcome
write_text s args =
    let i = word_len args in
    if not (at args i == space)
    then (s, says (codes "usage: write /file text\n"))
    else if leb path_max i
    then (s, says (codes "path too long\n"))
    else with_path (resolve_path s.cwd (some (take i args)) path_max)
        (s, says (codes "write: invalid path\n")) (write_to s (drop (i + 1) args))

module _ (fat32_mount : Vfs → Str → Str → Vfs × Bool × Str) where
  -- The end of the mount command, on the resolved mount point.
  unfoldable pub mount_at : Shell → Str → Str → Outcome
  mount_at s dev mp =
      let (vfs, done, text) = fat32_mount s.vfs dev mp in
      (record s { vfs = vfs }, says text ++ (if done then [] else says (codes "mount: failed\n")))

  unfoldable pub mount : Shell → Str → Outcome
  mount s args =
      let i = word_len args in
      if i == string_len args
      then (s, says (codes "usage: mount <dev> <mountpoint>\n"))
      else if string_equal (skip_spaces (drop i args)) []
      then (s, says (codes "usage: mount <dev> <mountpoint>\n"))
      else with_path (resolve_path s.cwd (some (skip_spaces (drop i args))) path_max)
          (s, says (codes "mount: invalid mountpoint\n"))
          (mount_at s (take (min i (path_max - 1)) args))

  -- The second half of the tests of wnu_shell_execute, in order.
  unfoldable pub execute_rest : Shell → Str → Outcome
  execute_rest s line =
      if string_starts_with line (codes "touch ")
      then touch s (drop 6 line)
      else if string_starts_with line (codes "mkdir ")
      then mkdir s (drop 6 line)
      else if string_equal line (codes "tree")
      then (s, says (tree_text (tree s.vfs s.cwd)))
      else if string_starts_with line (codes "tree ")
      then show_tree s (drop 5 line)
      else if string_starts_with line (codes "rm ")
      then rm s (drop 3 line)
      else if string_equal line (codes "ping")
      then (s, ping ∷ [])
      else if string_equal line (codes "udp")
      then (s, udp ∷ [])
      else if string_equal line (codes "lsblk")
      then (s, lsblk ∷ [])
      else if string_equal line (codes "mount")
      then (s, says (codes "usage: mount <dev> <mountpoint>\n"))
      else if string_starts_with line (codes "mount ")
      then mount s (drop 6 line)
      else if string_starts_with line (codes "write ")
      then write_text s (drop 6 line)
      else (s, says (codes "unknown command: " ++ (line ++ line_feed ∷ [])))

  -- The tests in the order of wnu_shell_execute.
  unfoldable pub execute : Shell → Str → Outcome
  execute s line =
      if string_equal line []
      then (s, [])
      else if string_equal line (codes "help")
      then (s, says help_text)
      else if string_equal line (codes "clear")
      then (s, clear_screen ∷ [])
      else if string_equal line (codes "about")
      then (s, says (codes "WNU v0.2.0\n"))
      else if string_equal line (codes "pwd")
      then (s, says (s.cwd ++ line_feed ∷ []))
      else if string_starts_with line (codes "echo ")
      then (s, says (drop 5 line ++ line_feed ∷ []))
      else if string_starts_with line (codes "cd ")
      then change_dir s (drop 3 line)
      else if string_equal line (codes "ls")
      then (s, says (list_dir s.vfs s.cwd))
      else if string_starts_with line (codes "ls ")
      then list s (drop 3 line)
      else if string_starts_with line (codes "cat ")
      then cat s (drop 4 line)
      else execute_rest s line
