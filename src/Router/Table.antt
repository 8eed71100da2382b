-- ===== src/Router/Table.antt =====
-- The compiled table against the list of declared routes.
use goichi.Prelude.{
  ℕ, ◌≡◌, refl, Bool, true, false, ◌&&◌, List, [], ◌∷◌, ◌==◌, if◌then◌else◌, drop, arith,
  Bool-cases, inl, inr,
}
use goichi.Prelude.Text.{Bytes, bytes_eq, bytes_eq_iff}
use goichi.Http.{Context, Outcome, Handler, lookup}
use goichi.Http
use goichi.Http.Maps.{lookup-insert}
use goichi.Tree.{Node, node, insert}
use goichi.Tree.Spec.{accepts, starts, holds, offers}
use goichi.Tree.Prefix.{accepts-nil}
use goichi.Tree.Grows.{Grows}
use goichi.Tree.Laws.{IsRoot, insert-IsRoot, offers-insert}
use goichi.Router.Paths.{match_path, trim_slashes}
use goichi.Router.Compile.{root_path, tree_of, set_handler, place}

abbrev pub has_slash : Bytes → Bool
has_slash [] = false
has_slash (c ∷ path) = c == b'/'

-- Whether a declared path serves a request path, both as `matchPath` leaves them. The root is
-- served by the root alone.
unfoldable pub serves : Bool → Bytes → Bytes → Bool
serves ci p s =
    if bytes_eq s root_path then bytes_eq p root_path else accepts false ci (drop 1 p) (drop 1 s)

pub match_path-slash :
    (strict : Bool) (p : Bytes) → has_slash p ≡ true → has_slash (match_path strict p) ≡ true
unfolding match_path trim_slashes
match_path-slash strict [] h = cc
match_path-slash strict (c ∷ p) h = ground arith

module _ {C : Type 0} (test : (Context C → Outcome C) → Bool) where
  -- The root of a tree offers a handler that passes the test.
  abbrev pub finds : Bool → Bytes → Node (Context C → Outcome C) → Bool
  finds ci s (node p ty cs h k) =
      if bytes_eq s root_path then holds test h else offers test ci (node p ty cs h k) (drop 1 s)

  pub finds-below :
      (ci : Bool) (s : Bytes) (n : Node (Context C → Outcome C))
      → bytes_eq s root_path ≡ false
      → finds ci s n ≡ offers test ci n (drop 1 s)
  finds-below ci s (node p ty cs h k) e = rw e refl

  finds-insert_at_root :
      (ci : Bool) (c : ℕ) (p s : Bytes) (h : Handler C) (n : Node (Context C → Outcome C))
      → bytes_eq s root_path ≡ true
      → finds ci s (insert n (c ∷ p) h ci) ≡ finds ci s n
  unfolding insert
  finds-insert_at_root ci c p s h (node q ty cs own k) e = rw e refl

  -- A handler placed at the root or below it is found by exactly the paths that its own path serves.
  place_below-Grows :
      (ci : Bool) (q s : Bytes) (h : Handler C) (root : Node (Context C → Outcome C))
      → IsRoot ci root
      → has_slash q ≡ true
      → bytes_eq q root_path ≡ false
      → Grows
          (holds test h)
          (serves ci q s)
          (finds ci s root)
          (finds ci s (insert root (drop 1 q) h ci))
  unfolding serves
  place_below-Grows ci [] s h root r e ne = cc
  place_below-Grows ci (d ∷ []) s h root r e ne = cc (slash_only d e ne)
    where
      slash_only : (d : ℕ) → (d == b'/') ≡ true → (d == b'/' && true) ≡ false → false ≡ true
      slash_only d e ne = ground arith
  place_below-Grows ci (d ∷ c ∷ p) s h root r e ne = elim (Bool-cases (bytes_eq s root_path)) [
    | inl top ↦
        rw (top, ne, finds-insert_at_root ci c p s h root top)
          (record { sound = λ x. ground arith; complete = λ x y. ground arith })
    | inr below ↦
        rw (below, finds-below ci s root below, finds-below ci s (insert root (c ∷ p) h ci) below)
          (offers-insert ci test root (c ∷ p) (drop 1 s) h r)
  ]

  place_root-Grows :
      (ci : Bool) (s : Bytes) (h : Handler C) (root : Node (Context C → Outcome C))
      → IsRoot ci root
      → Grows
          (holds test h)
          (serves ci root_path s)
          (finds ci s root)
          (finds ci s (set_handler h root))
  unfolding serves offers starts
  place_root-Grows ci s h root r =
      rw (r.shape, accepts-nil ci (drop 1 s))
        (record { sound = λ x. ground arith; complete = λ x y. ground arith })

  pub place-Grows :
      (strict ci : Bool) (path s : Bytes) (h : Handler C) (root : Node (Context C → Outcome C))
      → IsRoot ci root
      → has_slash path ≡ true
      → Grows
          (holds test h)
          (serves ci (match_path strict path) s)
          (finds ci s root)
          (finds ci s (place strict ci path h root))
  unfolding place
  place-Grows strict ci path s h root r e =
      elim (Bool-cases (bytes_eq (match_path strict path) root_path)) [
        | inl top ↦
            rw (top, (bytes_eq_iff (match_path strict path) root_path).0 top)
              (place_root-Grows ci s h root r)
        | inr below ↦ rw below (
            place_below-Grows ci (match_path strict path) s h root r
              (match_path-slash strict path e) below)
      ]

module _ {C : Type 0} where
  pub place-IsRoot :
      (strict ci : Bool) (path : Bytes) (h : Handler C) (root : Node (Context C → Outcome C))
      → IsRoot ci root
      → IsRoot ci (place strict ci path h root)
  unfolding place
  place-IsRoot strict ci path h root r =
      elim (Bool-cases (bytes_eq (match_path strict path) root_path)) [
        | inl top ↦
            rw (top, r.shape)
              (record { kids = r.kids; own = h; name = r.name; shape = refl; good = r.good })
        | inr below ↦ rw below (insert-IsRoot ci root (drop 1 (match_path strict path)) h r)
      ]

  pub tree_of-insert :
      (k j : Bytes) (t : Node (Context C → Outcome C))
      (trees : List (Bytes × Node (Context C → Outcome C)))
      → tree_of j (Http.insert k t trees) ≡ (if bytes_eq k j then t else tree_of j trees)
  tree_of-insert k j t trees = elim (Bool-cases (bytes_eq k j)) [
    | inl e ↦ rw (lookup-insert k j t trees, e, tree_of) refl
    | inr e ↦ rw (lookup-insert k j t trees, e, tree_of) refl
  ]
