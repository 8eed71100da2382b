-- ===== src/Tree.antt =====
-- node.go: the radix tree that holds the routes of one HTTP method.
pub mod Spec
pub mod Prefix
pub mod Grows
pub mod Insertion
pub mod Matching
pub mod Termination
pub mod Shape
pub mod Literal
pub mod Laws
mod Tests
use mathlib.Core.Option
use goichi.Prelude.{
  ℕ, zero, suc, ◌+◌, ◌-◌, Bool, true, false, not, ◌&&◌, ◌||◌, Option, none, some, List, [], ◌∷◌,
  ◌++◌, ltb, leb, ◌==◌, if◌then◌else◌, length, is_empty, take, drop,
}
use goichi.Prelude.Text.{Bytes, bytes_eq, index_byte}

pub data NodeType : Type 0 where
  static param catch_all : NodeType

-- A handler is `none` where the code holds nil. The fields are path, nType, children, handler and
-- paramKey.
mutual
  pub data Node (H : Type 0) : Type 0 where
    node : Bytes → NodeType → Nodes H → Option H → Bytes → Node H

  pub data Nodes (H : Type 0) : Type 0 where
    nil : Nodes H
    cons : Node H → Nodes H → Nodes H

abbrev pub same_type : NodeType → NodeType → Bool
same_type static static = true
same_type param param = true
same_type catch_all catch_all = true
same_type _ _ = false

unfoldable pub lower_ascii : ℕ → ℕ
lower_ascii b = if leb b'A' b && leb b b'Z' then b + (b'a' - b'A') else b

-- A byte as the two comparisons below see it.
unfoldable pub norm : Bool → ℕ → ℕ
unfolding lower_ascii
norm ci b = if ci then lower_ascii b else b

-- The loop of `hasPrefix`, after the test of the lengths.
prefix_loop : Bytes → Bytes → Bool
unfolding lower_ascii
prefix_loop s [] = true
prefix_loop [] (y ∷ ys) = false
prefix_loop (x ∷ xs) (y ∷ ys) = lower_ascii x == lower_ascii y && prefix_loop xs ys

unfoldable pub has_prefix : Bytes → Bytes → Bool → Bool
unfolding prefix_loop
has_prefix s prefix ci =
    if ltb (length s) (length prefix)
    then false
    else if not ci
    then bytes_eq (take (length prefix) s) prefix
    else prefix_loop s prefix

unfoldable pub common_prefix : Bytes → Bytes → Bool → ℕ
unfolding norm
common_prefix [] b ci = 0
common_prefix (x ∷ xs) [] ci = 0
common_prefix (x ∷ xs) (y ∷ ys) ci =
    let rest = common_prefix xs ys ci in if norm ci x == norm ci y then suc rest else 0

-- strings.IndexAny(path, ":*"); `none` is its -1.
abbrev pub index_special : Bytes → Option ℕ
index_special [] = none
index_special (x ∷ xs) =
    if x == b':' || x == b'*' then some 0 else Option.map suc (index_special xs)

-- key, rest: the name of a parameter and what follows it. A walk cuts a value off in the same way.
unfoldable pub cut_slash : Bytes → Bytes × Bytes
cut_slash s = elim (index_byte s b'/') [ none ↦ (s, []) | some end ↦ (take end s, drop end s) ]

-- staticPart, rest: the leading literal run of a path that does not start with ':' or '*'.
unfoldable pub cut_static : Bytes → Bytes × Bytes
cut_static s = elim (index_special s) [
  | none ↦ (s, [])
  | some i ↦ if ltb 0 i then (take i s, drop i s) else (s, [])
]

module _ {H : Type 0} where
  abbrev pub type_of : Node H → NodeType
  type_of (node p ty cs h k) = ty

  abbrev pub append : Nodes H → Node H → Nodes H
  append nil m = cons m nil
  append (cons c cs) m = cons c (append cs m)

  -- A loop over the children that changes the first one that passes the test and returns.
  unfoldable pub update_first : (Node H → Bool) → (Node H → Node H) → Nodes H → Option (Nodes H)
  update_first test change nil = none
  update_first test change (cons c cs) =
      if test c
      then some (cons (change c) cs)
      else Option.map (cons c) (update_first test change cs)

  abbrev pub or_append : Option (Nodes H) → Nodes H → Node H → Nodes H
  or_append none cs m = append cs m
  or_append (some cs) _ m = cs

  abbrev pub is_type : NodeType → Node H → Bool
  is_type ty n = same_type ty (type_of n)

  -- The case of ':', with the recursive call as `go`.
  unfoldable pub insert_param : (Bytes → Node H → Node H) → Bytes → Nodes H → Nodes H
  insert_param go path cs =
      let (key, rest) = cut_slash path in
      or_append (update_first (is_type param) (go rest) cs) cs
        (go rest (node [] param nil none key))

  abbrev pub set_catch_all : Bytes → Option H → Node H → Node H
  set_catch_all key handler (node p ty cs h k) = node p ty cs handler key

  -- The case of '*'.
  unfoldable pub insert_catch_all : Bytes → Option H → Nodes H → Nodes H
  insert_catch_all key handler cs =
      or_append (update_first (is_type catch_all) (set_catch_all key handler) cs) cs
        (node [] catch_all nil handler key)

  -- A static child that shares a leading run with the path.
  unfoldable pub shares : Bytes → Bool → Node H → Bool
  shares static_part ci (node p ty cs h k) =
      same_type static ty && not (common_prefix p static_part ci == 0)

  -- The child is split where the runs part, unless its whole path is shared, and takes the rest.
  unfoldable pub descend : (Bytes → Node H → Node H) → Bytes → Bytes → Bool → Node H → Node H
  descend go static_part rest ci (node p ty cs h k) =
      let lcp = common_prefix p static_part ci in
      go (drop lcp static_part ++ rest) (
        if lcp == length p
        then node p ty cs h k
        else node (take lcp p) ty (cons (node (drop lcp p) static cs h []) nil) none k)

  -- The case of a literal run, cut off from what follows it.
  unfoldable pub insert_run :
      (Bytes → Node H → Node H) → Bytes → Bytes → Option H → Bool → Nodes H → Nodes H
  insert_run go static_part rest handler ci cs =
      or_append (update_first (shares static_part ci) (descend go static_part rest ci) cs) cs (
        if is_empty rest
        then node static_part static nil handler []
        else go rest (node static_part static nil none []))

  unfoldable pub insert_static :
      (Bytes → Node H → Node H) → Bytes → Option H → Bool → Nodes H → Nodes H
  insert_static go path handler ci cs =
      let (static_part, rest) = cut_static path in insert_run go static_part rest handler ci cs

  -- The children after an insertion of a path that is not empty.
  unfoldable pub insert_step :
      (Bytes → Node H → Node H) → Option H → Bool → ℕ → Bytes → Nodes H → Nodes H
  insert_step go handler ci c path cs =
      if c == b':'
      then insert_param go path cs
      else if c == b'*'
      then insert_catch_all path handler cs
      else insert_static go (c ∷ path) handler ci cs

  -- `insert`, on fuel: each recursive call is for a shorter path.
  unfoldable pub insert_fuel : ℕ → Option H → Bool → Bytes → Node H → Node H
  insert_fuel zero handler ci path n = n
  insert_fuel (suc f) handler ci [] (node p ty cs h k) = node p ty cs handler k
  insert_fuel (suc f) handler ci (c ∷ path) (node p ty cs h k) =
      node p ty (insert_step (insert_fuel f handler ci) handler ci c path cs) h k

  unfoldable pub insert : Node H → Bytes → Option H → Bool → Node H
  unfolding insert_fuel insert_step insert_param insert_catch_all insert_static insert_run
      update_first shares descend common_prefix cut_slash cut_static
  insert n path handler ci = insert_fuel (suc (length path)) handler ci path n

-- One parameter value bound during a walk.
pub record Capture : Type 0 where
  pub key : Bytes
  pub value : Bytes

module _ {H : Type 0} where
  abbrev with_captures : List Capture → Option H → Option (H × List Capture)
  with_captures caps = Option.map (λ h. (h, caps))

  -- The loop over the children for an empty remainder: a catch-all child still matches it.
  abbrev bare_catch_all : Nodes H → List Capture → Option (H × List Capture)
  bare_catch_all nil caps = none
  bare_catch_all (cons (node p catch_all cs (some h) k) rest) caps =
      some (h, caps ++ record { key = k; value = [] } ∷ [])
  bare_catch_all (cons (node p ty cs h k) rest) caps = bare_catch_all rest caps

  -- The remainder is empty at a node with this handler and these children.
  abbrev at_end : Option H → Nodes H → List Capture → Option (H × List Capture)
  at_end (some h) cs caps = some (h, caps)
  at_end none cs caps = bare_catch_all cs caps

  abbrev or_try : Option (H × List Capture) → Option (H × List Capture) → Option (H × List Capture)
  or_try none next = next
  or_try (some r) next = some r

  -- The order in which the kinds of children are tried is static, param, catch_all.
  abbrev try_children :
      Option H
      → Nodes H
      → Bytes
      → List Capture
      → (NodeType → Option (H × List Capture))
      → Option (H × List Capture)
  try_children h cs [] caps try = at_end h cs caps
  try_children h cs (x ∷ xs) caps try = or_try (try static) (or_try (try param) (try catch_all))

-- A result that the code gives as a nil handler is `none`: both callers drop the captures then.
-- `caps` grows on the way down only, so the truncation on the way back is the argument's scope.
unfoldable mutual
  pub match : {H : Type 0} → Node H → Bytes → List Capture → Bool → Option (H × List Capture)
  match (node p static cs h k) path caps ci = elim (has_prefix path p ci) [
    | true ↦
        let rest = drop (length p) path in
        try_children h cs rest caps (λ want. match_children cs want rest caps ci)
    | false ↦ none
  ]
  match (node p param cs h k) path caps ci =
      let (value, rest) = cut_slash path in
      let caps' = caps ++ record { key = k; value = value } ∷ [] in
      elim (is_empty value) [
        | true ↦ none
        | false ↦ try_children h cs rest caps' (λ want. match_children cs want rest caps' ci)
      ]
  match (node p catch_all cs h k) path caps ci =
      with_captures (caps ++ record { key = k; value = path } ∷ []) h

  -- The loop over the children of one kind.
  pub match_children :
      {H : Type 0} → Nodes H → NodeType → Bytes → List Capture → Bool → Option (H × List Capture)
  match_children nil want path caps ci = none
  match_children (cons c cs) want path caps ci = elim (same_type want (type_of c)) [
    | true ↦ elim (match c path caps ci) [
      | some r ↦ some r
      | none ↦ match_children cs want path caps ci
    ]
    | false ↦ match_children cs want path caps ci
  ]

-- params[key] = value.
unfoldable pub put_param : Bytes → Bytes → List (Bytes × Bytes) → List (Bytes × Bytes)
put_param key value [] = (key, value) ∷ []
put_param key value ((k, v) ∷ params) =
    if bytes_eq k key then (key, value) ∷ params else (k, v) ∷ put_param key value params

unfoldable pub to_params : List Capture → List (Bytes × Bytes) → List (Bytes × Bytes)
unfolding put_param
to_params [] params = params
to_params (c ∷ caps) params = to_params caps (put_param c.key c.value params)

unfoldable pub search : {H : Type 0} → Node H → Bytes → Bool → Option (H × List (Bytes × Bytes))
unfolding match to_params cut_slash has_prefix
search n path ci = Option.map (λ r. (r.0, to_params r.1 [])) (match n path [] ci)
