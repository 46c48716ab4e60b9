-- ===== src/Vfs/Children.antt =====
-- What the loop of wnu_vfs_delete finds: a used node, other than the given one, below a path.
use wnu.Prelude.{ℕ, zero, suc, ◌+◌, ◌<◌, ◌≡◌, ◌≢◌, true, some, List, [], ◌∷◌, arith}
use wnu.Str.{Str, string_starts_with, at, string_len}
use wnu.Str.Laws.{string_equal_iff}
use wnu.Vfs.{Node, find_node, has_child}
use wnu.Vfs.Path.{slash}
use wnu.Vfs.Table.{get_node, match_of_zero, match_of_suc}

-- `q` lies below `p` in the sense of the code.
abbrev pub IsBelow : Str → Str → Type 0
IsBelow q p = (string_starts_with q p ≡ true) × (at q (string_len p) ≡ slash)

-- Past the node in question, every used node below the path is found.
has_child_past :
    (ns : List Node) (j i : ℕ) (p q : Str) (n : Node)
    → i < j
    → IsBelow q p
    → get_node ns q ≡ some n
    → has_child ns j i p ≡ true
unfolding has_child get_node
has_child_past [] j i p q n lt b h = absurd (cc)
has_child_past (m ∷ ns) j i p q n lt b h =
    ground (arith, string_equal_iff m.path q, has_child_past ns (j + 1) i p q n (omega arith) b)

-- A used node below the path of the found one makes the loop answer yes.
pub has_child_of_below :
    (ns : List Node) (j i k : ℕ) (p q : Str) (n : Node)
    → find_node ns p ≡ some k
    → i ≡ j + k
    → IsBelow q p
    → p ≢ q
    → get_node ns q ≡ some n
    → has_child ns j i p ≡ true
unfolding has_child get_node
has_child_of_below [] j i k p q n f e b ne h = absurd (cc)
has_child_of_below (m ∷ ns) j i zero p q n f e b ne h = ground (
  arith,
  match_of_zero m ns p f,
  string_equal_iff m.path q,
  string_equal_iff m.path p,
  has_child_past ns (j + 1) i p q n (omega arith) b,
)
has_child_of_below (m ∷ ns) j i (suc k) p q n f e b ne h = ground (
  arith,
  match_of_suc m ns p k f,
  string_equal_iff m.path q,
  has_child_of_below ns (j + 1) i k p q n (match_of_suc m ns p k f).1 (omega arith) b ne,
)
