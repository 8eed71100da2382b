-- ===== src/OpenApi/Grouping.antt =====
-- What the loop over the routes collects.
use mathlib.Core.List.{append-nil, append_assoc}
use goichi.Prelude.{
  ℕ, suc, ◌+◌, ◌≡◌, refl, sym, ap, ◌∙◌, Bool, true, ◌||◌, some, List, [], ◌∷◌, ◌++◌, if◌then◌else◌,
  any, is_some, arith, inl, inr, Bool-cases, if_of_true, if_of_false,
}
use goichi.Prelude.Text.{Bytes, bytes_eq, bytes_eq_iff}
use goichi.Http.{lookup}
use goichi.Http.Maps.{lookup-insert}
use goichi.Router.{RouteInfo}
use goichi.OpenApi.{
  Reflection, SecurityScheme, Paths, ops_in, operations_at, add_operation, operation,
  to_open_api_path, group_routes,
}

-- How often a path stands in a list.
abbrev pub times : Bytes → List Bytes → ℕ
times q [] = 0
times q (p ∷ ps) = if bytes_eq p q then suc (times q ps) else times q ps

times_append :
    (q p : Bytes) (ps : List Bytes) → times q (ps ++ p ∷ []) ≡ times q ps + times q (p ∷ [])
times_append q p [] = ground arith
times_append q p (p' ∷ ps) = ground (arith, times_append q p ps)

-- A path is listed once if it has operations, and else not at all.
abbrev IsListed : Bytes → Paths → Type 0
IsListed q s = times q s.order ≡ (if is_some (lookup q s.grouped) then 1 else 0)

abbrev pub empty_paths : Paths
empty_paths = record { order = []; grouped = [] }

module _ (p q op : Bytes) (s : Paths) where
  lookup-add_operation :
      lookup q (add_operation p op s).grouped
      ≡ (if bytes_eq p q then some (operations_at p s ++ op ∷ []) else lookup q s.grouped)
  unfolding add_operation
  lookup-add_operation = lookup-insert p q (operations_at p s ++ op ∷ []) s.grouped

  operations_at-add_operation :
      operations_at q (add_operation p op s)
      ≡ (if bytes_eq p q then operations_at p s ++ op ∷ [] else operations_at q s)
  operations_at-add_operation = elim (Bool-cases (bytes_eq p q)) [
    | inl same ↦ ap ops_in (lookup-add_operation ∙ if_of_true _ _ same) ∙ sym (if_of_true _ _ same)
    | inr other ↦
        ap ops_in (lookup-add_operation ∙ if_of_false _ _ other) ∙ sym (if_of_false _ _ other)
  ]

  known_after :
      is_some (lookup q (add_operation p op s).grouped)
      ≡ (if bytes_eq p q then true else is_some (lookup q s.grouped))
  known_after = elim (Bool-cases (bytes_eq p q)) [
    | inl same ↦ ap is_some (lookup-add_operation ∙ if_of_true _ _ same) ∙ sym (if_of_true _ _ same)
    | inr other ↦
        ap is_some (lookup-add_operation ∙ if_of_false _ _ other) ∙ sym (if_of_false _ _ other)
  ]

  times_after : times q (add_operation p op s).order ≡ (
      if is_some (lookup p s.grouped)
      then times q s.order
      else times q s.order + (if bytes_eq p q then 1 else 0))
  unfolding add_operation
  times_after = elim (Bool-cases (is_some (lookup p s.grouped))) [
    | inl known ↦ ap (times q) (if_of_true _ _ known) ∙ sym (if_of_true _ _ known)
    | inr fresh ↦
        ap (times q) (if_of_false _ _ fresh)
        ∙ times_append q p s.order
        ∙ sym (if_of_false _ _ fresh)
  ]

add_operation-IsListed :
    (p q op : Bytes) (s : Paths) → IsListed q s → IsListed q (add_operation p op s)
add_operation-IsListed p q op s listed = elim (Bool-cases (bytes_eq p q)) [
  | inl same ↦
      let e = ap (λ u. is_some (lookup u s.grouped)) ((bytes_eq_iff p q).0 same) in
      ground (arith, same, e, listed, known_after p q op s, times_after p q op s)
  | inr other ↦ ground (arith, other, listed, known_after p q op s, times_after p q op s)
]

module _ (R : Reflection) (security : SecurityScheme) where
  -- The operations of the routes whose path becomes the template, in the routes' order.
  abbrev pub operations_of : Bytes → List RouteInfo → List Bytes
  operations_of q [] = []
  operations_of q (r ∷ routes) =
      if bytes_eq (to_open_api_path r.path) q
      then operation R security r ∷ operations_of q routes
      else operations_of q routes

  abbrev pub serves : Bytes → RouteInfo → Bool
  serves q r = bytes_eq (to_open_api_path r.path) q

  operations_at-group :
      (q : Bytes) (routes : List RouteInfo) (s : Paths)
      → operations_at q (group_routes R security routes s)
        ≡ operations_at q s ++ operations_of q routes
  unfolding group_routes
  operations_at-group q [] s = sym (append-nil (operations_at q s))
  operations_at-group q (r ∷ routes) s =
      let p = to_open_api_path r.path in
      let op = operation R security r in
      operations_at-group q routes (add_operation p op s) ∙ (elim (Bool-cases (bytes_eq p q)) [
        | inl same ↦
            ap (λ ops. ops ++ operations_of q routes)
              (operations_at-add_operation p q op s
                ∙ if_of_true _ _ same
                ∙ ap (λ u. operations_at u s ++ op ∷ []) ((bytes_eq_iff p q).0 same))
            ∙ append_assoc (operations_at q s) (op ∷ []) (operations_of q routes)
            ∙ ap (λ ops. operations_at q s ++ ops) (sym (if_of_true _ _ same))
        | inr other ↦
            ap (λ ops. ops ++ operations_of q routes)
              (operations_at-add_operation p q op s ∙ if_of_false _ _ other)
            ∙ ap (λ ops. operations_at q s ++ ops) (sym (if_of_false _ _ other))
      ])

  times-group :
      (q : Bytes) (routes : List RouteInfo) (s : Paths)
      → IsListed q s
      → times q (group_routes R security routes s).order
        ≡ (if is_some (lookup q s.grouped) || any (serves q) routes then 1 else 0)
  unfolding group_routes
  times-group q [] s listed = ground (arith, listed)
  times-group q (r ∷ routes) s listed =
      let p = to_open_api_path r.path in
      let op = operation R security r in
      ground (
        arith,
        known_after p q op s,
        times-group q routes (add_operation p op s) (add_operation-IsListed p q op s listed),
      )

  -- The document lists a path once exactly if some route has it as its template, and it has under the
  -- path the operations of the routes with that template, in the routes' order.
  pub group_routes-grouped :
      (q : Bytes) (routes : List RouteInfo)
      → (operations_at q (group_routes R security routes empty_paths) ≡ operations_of q routes)
        × (times q (group_routes R security routes empty_paths).order
            ≡ (if any (serves q) routes then 1 else 0))
  unfolding lookup
  group_routes-grouped q routes =
      (operations_at-group q routes empty_paths, times-group q routes empty_paths refl)
