-- ===== src/Vfs/Table.antt =====
-- Lookups in the node table, and how each write to it changes them.
use wnu.Prelude.{
  ℕ, zero, suc, ◌≡◌, ◌≢◌, refl, sym, ap, ◌∙◌, Bool, true, false, Option, none, some, List, [], ◌∷◌,
  ◌&&◌, length, get_elem?, arith, if◌then◌else◌,
}
use wnu.Str.{Str, string_equal}
use wnu.Str.Laws.{string_equal_iff}
use wnu.Vfs.{Node, find_node, node_at, free_slot, modify, shift}

-- The node that a path names.
unfoldable pub get_node : List Node → Str → Option Node
get_node [] p = none
get_node (n ∷ ns) p = if n.used && string_equal n.path p then some n else get_node ns p

abbrev pub map_node : (Node → Node) → Option Node → Option Node
map_node f none = none
map_node f (some n) = some (f n)

node_at-shift :
    (n : Node) (ns : List Node) (o : Option ℕ) → node_at (n ∷ ns) (shift o) ≡ node_at ns o
unfolding node_at
node_at-shift n ns none = refl
node_at-shift n ns (some i) = refl

pub node_at-find_node : (ns : List Node) (p : Str) → node_at ns (find_node ns p) ≡ get_node ns p
unfolding node_at find_node get_node
node_at-find_node [] p = refl
node_at-find_node (n ∷ ns) p =
    ground (arith, node_at-shift n ns (find_node ns p), node_at-find_node ns p)

pub get_node-eq-none : (ns : List Node) (p : Str) → find_node ns p ≡ none → get_node ns p ≡ none
unfolding node_at
get_node-eq-none ns p h = sym (node_at-find_node ns p) ∙ ap (node_at ns) h

pub get_elem?-eq-get_node :
    (ns : List Node) (p : Str) (i : ℕ) → find_node ns p ≡ some i → get_elem? ns i ≡ get_node ns p
unfolding node_at
get_elem?-eq-get_node ns p i h = sym (ap (node_at ns) h) ∙ node_at-find_node ns p

shift-ne-zero : (o : Option ℕ) → shift o ≢ some 0
shift-ne-zero none e = cc
shift-ne-zero (some i) e = ground arith

shift-suc : (o : Option ℕ) (i : ℕ) → shift o ≡ some (suc i) → o ≡ some i
shift-suc none i e = absurd (cc)
shift-suc (some j) i e = ground arith

-- The head is what the search finds.
abbrev pub is_match : Node → Str → Bool
is_match n p = n.used && string_equal n.path p

pub match_of_zero :
    (n : Node) (ns : List Node) (p : Str) → find_node (n ∷ ns) p ≡ some 0 → is_match n p ≡ true
unfolding find_node
match_of_zero n ns p h = ground (arith, shift-ne-zero (find_node ns p))

pub match_of_suc :
    (n : Node) (ns : List Node) (p : Str) (i : ℕ)
    → find_node (n ∷ ns) p ≡ some (suc i)
    → (is_match n p ≡ false) × (find_node ns p ≡ some i)
unfolding find_node
match_of_suc n ns p i h = ground (arith, shift-suc (find_node ns p) i)

-- What is found is there.
pub get_node_found :
    (ns : List Node) (p : Str) (i : ℕ)
    → find_node ns p ≡ some i
    → (n : Node) × (get_node ns p ≡ some n)
unfolding get_node
get_node_found [] p i h = absurd (unfold find_node in cc)
get_node_found (m ∷ ns) p zero h = (m, rw (match_of_zero m ns p h))
get_node_found (m ∷ ns) p (suc i) h =
    let (a, b) = match_of_suc m ns p i h in let (n, e) = get_node_found ns p i b in (n, rw a e)

-- A node carries the path by which it is found, and is in use.
pub get_node-path :
    (ns : List Node) (p : Str) (n : Node) → get_node ns p ≡ some n → (n.path ≡ p) × (n.used ≡ true)
unfolding get_node
get_node-path [] p n h = absurd (cc)
get_node-path (m ∷ ns) p n h = ground (arith, string_equal_iff m.path p, get_node-path ns p n)

-- Free slots.
pub zero_is_free : (n : Node) (ns : List Node) → free_slot (n ∷ ns) ≡ some 0 → n.used ≡ false
unfolding free_slot
zero_is_free n ns h = ground (arith, shift-ne-zero (free_slot ns))

pub suc_is_free :
    (n : Node) (ns : List Node) (i : ℕ)
    → free_slot (n ∷ ns) ≡ some (suc i)
    → (n.used ≡ true) × (free_slot ns ≡ some i)
unfolding free_slot
suc_is_free n ns i h = ground (arith, shift-suc (free_slot ns) i)

pub modify-modify :
    (ns : List Node) (i : ℕ) (f g : Node → Node)
    → modify (modify ns i f) i g ≡ modify ns i (λ n. g (f n))
unfolding modify
modify-modify [] i f g = refl
modify-modify (n ∷ ns) zero f g = refl
modify-modify (n ∷ ns) (suc i) f g = ap (λ t. n ∷ t) (modify-modify ns i f g)

pub length-modify : (ns : List Node) (i : ℕ) (f : Node → Node) → length (modify ns i f) ≡ length ns
unfolding modify
length-modify [] i f = refl
length-modify (n ∷ ns) zero f = refl
length-modify (n ∷ ns) (suc i) f = ap suc (length-modify ns i f)

-- A write through a found pointer that keeps `used` and `path` shows at that path alone.
pub get_node-modify_found :
    (ns : List Node) (p : Str) (i : ℕ) (f : Node → Node) (q : Str)
    → ((m : Node) → ((f m).used ≡ m.used) × ((f m).path ≡ m.path))
    → find_node ns p ≡ some i
    → get_node (modify ns i f) q
      ≡ (if string_equal p q then map_node f (get_node ns q) else get_node ns q)
unfolding get_node modify
get_node-modify_found [] p i f q keep h = absurd (unfold find_node in cc)
get_node-modify_found (m ∷ ns) p zero f q keep h = ground (
  arith,
  keep m,
  match_of_zero m ns p h,
  string_equal_iff m.path p,
  string_equal_iff m.path q,
  string_equal_iff p q,
)
get_node-modify_found (m ∷ ns) p (suc i) f q keep h = ground (
  arith,
  match_of_suc m ns p i h,
  get_node-modify_found ns p i f q keep,
  string_equal_iff m.path p,
  string_equal_iff m.path q,
  string_equal_iff p q,
)

-- Taking a free slot for a new path shows at that path alone.
pub get_node-modify_free :
    (ns : List Node) (p : Str) (i : ℕ) (f : Node → Node)
    → ((m : Node) → ((f m).used ≡ true) × ((f m).path ≡ p))
    → free_slot ns ≡ some i
    → get_node ns p ≡ none
    → (m : Node) × ((q : Str)
        → get_node (modify ns i f) q ≡ (if string_equal p q then some (f m) else get_node ns q))
unfolding get_node modify
get_node-modify_free [] p i f new h absent = absurd (unfold free_slot in cc)
get_node-modify_free (m ∷ ns) p zero f new h absent =
    (m, λ q. ground (arith, new m, zero_is_free m ns h))
get_node-modify_free (m ∷ ns) p (suc i) f new h absent =
    let (used, free) = suc_is_free m ns i h in
    let (k, e) = get_node-modify_free ns p i f new free (ground arith) in
    (
      k,
      λ q.
          ground (
            arith,
            e q,
            string_equal_iff m.path p,
            string_equal_iff m.path q,
            string_equal_iff p q,
          ),
    )
