-- ===== src/Vfs/Unique.antt =====
-- No two used nodes share a path: what keeps it, and what it gives to wnu_vfs_delete.
use wnu.Prelude.{
  ℕ, zero, suc, ◌≡◌, sym, ap, ◌∙◌, true, false, none, some, List, [], ◌∷◌, arith, if◌then◌else◌,
}
use wnu.Str.{Str, string_equal}
use wnu.Str.Laws.{string_equal_iff}
use wnu.Vfs.{Node, find_node, free_slot, modify}
use wnu.Vfs.Table.{
  get_node, zero_is_free, suc_is_free, match_of_zero, match_of_suc, get_node-modify_found,
  get_node-modify_free,
}

-- Behind a used node there is no other with its path.
abbrev pub IsUnique : List Node → Type 0
IsUnique [] = Unit
IsUnique (n ∷ ns) = (n.used ≡ true → get_node ns n.path ≡ none) × IsUnique ns

pub modify_found-IsUnique :
    (ns : List Node) (p : Str) (i : ℕ) (f : Node → Node)
    → ((m : Node) → ((f m).used ≡ m.used) × ((f m).path ≡ m.path))
    → find_node ns p ≡ some i
    → IsUnique ns
    → IsUnique (modify ns i f)
unfolding modify
modify_found-IsUnique [] p i f keep h u = tt
modify_found-IsUnique (m ∷ ns) p zero f keep h u =
    (λ used. ap (get_node ns) (keep m).1 ∙ u.0 (sym (keep m).0 ∙ used), u.1)
modify_found-IsUnique (m ∷ ns) p (suc i) f keep h u =
    let b : find_node ns p ≡ some i = (match_of_suc m ns p i h).1 in
    (
      λ used. ground (arith, u.0 used, get_node-modify_found ns p i f m.path keep b),
      modify_found-IsUnique ns p i f keep b u.1,
    )

pub modify_free-IsUnique :
    (ns : List Node) (p : Str) (i : ℕ) (f : Node → Node)
    → ((m : Node) → ((f m).used ≡ true) × ((f m).path ≡ p))
    → free_slot ns ≡ some i
    → get_node ns p ≡ none
    → IsUnique ns
    → IsUnique (modify ns i f)
unfolding modify get_node
modify_free-IsUnique [] p i f new h absent u = tt
modify_free-IsUnique (m ∷ ns) p zero f new h absent u =
    (λ used. ap (get_node ns) (new m).1 ∙ ground (arith, zero_is_free m ns h), u.1)
modify_free-IsUnique (m ∷ ns) p (suc i) f new h absent u =
    let (used, free) = suc_is_free m ns i h in
    let rest : get_node ns p ≡ none = ground arith in
    (
      λ _. ground (
        arith,
        u.0 used,
        string_equal_iff m.path p,
        string_equal_iff p m.path,
        (get_node-modify_free ns p i f new free rest).1 m.path,
      ),
      modify_free-IsUnique ns p i f new free rest u.1,
    )

-- Freeing the node at a found pointer removes its path and no other.
pub get_node-modify_freed :
    (ns : List Node) (p : Str) (i : ℕ) (f : Node → Node) (q : Str)
    → ((m : Node) → (f m).used ≡ false)
    → find_node ns p ≡ some i
    → IsUnique ns
    → get_node (modify ns i f) q ≡ (if string_equal p q then none else get_node ns q)
unfolding get_node modify
get_node-modify_freed [] p i f q off h u = absurd (unfold find_node in cc)
get_node-modify_freed (m ∷ ns) p zero f q off h u =
    let hit = match_of_zero m ns p h in
    let gone : get_node ns m.path ≡ none = u.0 (ground arith) in
    let same : m.path ≡ p = (string_equal_iff m.path p).0 (ground arith) in
    ground (arith, off m, gone, same, string_equal_iff p q, string_equal_iff m.path q)
get_node-modify_freed (m ∷ ns) p (suc i) f q off h u = ground (
  arith,
  match_of_suc m ns p i h,
  get_node-modify_freed ns p i f q off (match_of_suc m ns p i h).1 u.1,
  string_equal_iff m.path p,
  string_equal_iff m.path q,
  string_equal_iff p q,
)

pub modify_freed-IsUnique :
    (ns : List Node) (p : Str) (i : ℕ) (f : Node → Node)
    → ((m : Node) → (f m).used ≡ false)
    → find_node ns p ≡ some i
    → IsUnique ns
    → IsUnique (modify ns i f)
unfolding modify
modify_freed-IsUnique [] p i f off h u = tt
modify_freed-IsUnique (m ∷ ns) p zero f off h u = (λ used. absurd (cc (off m)), u.1)
modify_freed-IsUnique (m ∷ ns) p (suc i) f off h u =
    let b : find_node ns p ≡ some i = (match_of_suc m ns p i h).1 in
    (
      λ used. ground (arith, u.0 used, get_node-modify_freed ns p i f m.path off b u.1),
      modify_freed-IsUnique ns p i f off b u.1,
    )
