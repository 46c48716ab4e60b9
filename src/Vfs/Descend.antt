-- ===== src/Vfs/Descend.antt =====
-- From a node anywhere below a path, as the loop of wnu_vfs_delete finds it, up to a child of the
-- path.
use wnu.Prelude.{
  ℕ, zero, suc, ◌+◌, ◌-◌, ◌<◌, ◌≤◌, ◌≡◌, ◌≢◌, ◌⊎◌, inl, inr, refl, sym, ap, ◌∙◌, true, false, ◌==◌,
  Option, some, none, List, [], ◌∷◌, length, take, drop, arith, ltb, Bool-cases, Option-cases,
}
use wnu.Str.{Str, at, string_len, string_starts_with}
use wnu.Str.Laws.{string_len-eq-length, string_equal_iff}
use wnu.Vfs.{Node, Vfs, has_child, type_is_dir}
use wnu.Vfs.Path.{slash, root, has_slash}
use wnu.Vfs.Path.Laws.{IsValid, last_slash_cases, has_slash→at, length_pos}
use wnu.Vfs.Path.Parent.{parent, parent_cut, at-take, length-parent}
use wnu.Vfs.Table.{get_node}
use wnu.Vfs.Children.{IsBelow}
use wnu.Vfs.Inv.{IsWellFormed}

-- What the loop finds is a node below the path.
pub IsBelow-of_has_child :
    (ns : List Node) (j i : ℕ) (p : Str)
    → has_child ns j i p ≡ true
    → (q : Str) × (n : Node) × (get_node ns q ≡ some n) × IsBelow q p
unfolding has_child get_node
IsBelow-of_has_child [] j i p h = absurd (cc)
IsBelow-of_has_child (m ∷ ns) j i p h = elim (Bool-cases (has_child ns (j + 1) i p)) [
  | inl e ↦
      let (q, n, a, b) = IsBelow-of_has_child ns (j + 1) i p e in
      elim (Option-cases (get_node (m ∷ ns) q)) [
        | inl nothing ↦ absurd (ground (arith, a))
        | inr (k, found) ↦ (q, k, found, b)
      ]
  | inr e ↦
      (m.path, m, ground (arith, string_equal_iff m.path m.path), (ground arith, ground arith))
]

at-drop : (k i : ℕ) (s : Str) → at (drop k s) i ≡ at s (k + i)
at-drop zero i s = ap (at s) {x = i} {y = 0 + i} (omega arith)
at-drop (suc k) i [] = refl
at-drop (suc k) i (c ∷ s) =
    at-drop k i s ∙ ap (at (c ∷ s)) {x = suc (k + i)} {y = suc k + i} (omega arith)

starts_with_cut :
    (q p : Str) (k : ℕ)
    → length p ≤ k
    → string_starts_with q p ≡ true
    → string_starts_with (take k q) p ≡ true
unfolding string_starts_with
starts_with_cut q [] k h e = refl
starts_with_cut [] (d ∷ p) k h e = absurd (cc)
starts_with_cut (c ∷ q) (d ∷ p) zero h e = absurd (omega arith)
starts_with_cut (c ∷ q) (d ∷ p) (suc k) h e = ground (arith, starts_with_cut q p k (omega arith))

take_of_starts_with : (q p : Str) → string_starts_with q p ≡ true → take (length p) q ≡ p
unfolding string_starts_with
take_of_starts_with q [] e = refl
take_of_starts_with [] (d ∷ p) e = absurd (cc)
take_of_starts_with (c ∷ q) (d ∷ p) e = ground (arith, take_of_starts_with q p)

-- One step up from a path below another stays below it or reaches it.
pub step_up :
    (p q : Str)
    → IsValid p
    → IsValid q
    → q ≢ root
    → IsBelow q p
    → (parent q ≡ p) ⊎ IsBelow (parent q) p
step_up p q vp vq ne b = elim (last_slash_cases q 0 0) [
  | inl h ↦ absurd (has_slash→at q h.0 0 vq.rooted)
  | inr (k, a, inside, s, d) ↦
      let far : length p ≤ k = reaches k d in
      let up : parent q ≡ take k q =
        ground (arith, parent_cut q k vq ne (omega (arith, a)) inside, length_pos p vp) in
      elim (Bool-cases (k == length p)) [
        | inl e ↦ inl (ground (arith, up, take_of_starts_with q p b.0))
        | inr e ↦ inr (
          rw up (starts_with_cut q p k far b.0),
          rw up (at-take k (string_len p) q (ground (arith, string_len-eq-length p)) ∙ b.1),
        )
      ]
]
  where
    reaches : (k : ℕ) → has_slash (drop (suc k) q) ≡ false → length p ≤ k
    reaches k d = elim (Bool-cases (ltb k (length p))) [
      | inl lt ↦
          let past : suc k + (length p - suc k) ≡ string_len p =
            ground (arith, string_len-eq-length p) in
          absurd (
            has_slash→at (drop (suc k) q) d (length p - suc k)
              (at-drop (suc k) (length p - suc k) q ∙ ap (at q) past ∙ b.1))
      | inr ge ↦ ground arith
    ]

at-root : (k : ℕ) → at root k ≡ slash → k ≡ 0
at-root zero h = refl
at-root (suc k) h = absurd (cc)

module _ (s : Vfs) (p : Str) (w : IsWellFormed s) (v : IsValid p) where
  some_of_is_dir : (o : Option Node) → type_is_dir o ≡ true → (n : Node) × (o ≡ some n)
  some_of_is_dir none h = absurd (cc)
  some_of_is_dir (some n) h = (n, refl)

  below_ne_root : (q : Str) → IsBelow q p → q ≢ root
  below_ne_root q b e =
      let first = at-root (string_len p) (ap (λ t. at t (string_len p)) (sym e) ∙ b.1) in
      omega (arith, first, length_pos p v, string_len-eq-length p)

  -- The walk up from a node below the path ends at a child of the path.
  pub child_of_below :
      (fuel : ℕ) (q : Str) (n : Node)
      → length q < fuel
      → get_node s.nodes q ≡ some n
      → IsBelow q p
      → (c : Str) × (m : Node) × (get_node s.nodes c ≡ some m) × (c ≢ root) × (parent c ≡ p)
  child_of_below zero q n lt h b = elim lt [ ]
  child_of_below (suc fuel) q n lt h b =
      let vq = w.valid q n h in
      let ne = below_ne_root q b in
      elim (step_up p q v vq ne b) [
        | inl e ↦ (q, n, h, ne, e)
        | inr up ↦
            let (m, at_parent) = some_of_is_dir (get_node s.nodes (parent q)) (w.closed q n h ne) in
            child_of_below fuel (parent q) m (omega (arith, length-parent q vq ne)) at_parent up
      ]
