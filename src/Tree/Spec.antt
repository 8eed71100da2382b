-- ===== src/Tree/Spec.antt =====
-- What a route pattern of node.go accepts, read off its bytes with no tree in sight, and what a tree
-- offers for a path: every handler that some walk reaches, whatever the order of the walks.
use goichi.Prelude.{
  ℕ, Bool, true, false, not, ◌&&◌, ◌||◌, Option, none, some, [], ◌∷◌, ◌==◌, if◌then◌else◌, length,
  is_empty, drop, ◌+◌,
}
use goichi.Prelude.Text.{Bytes}
use goichi.Tree.{Node, Nodes, node, nil, cons, static, param, catch_all, norm}

-- A literal run at the head of a path.
unfoldable pub starts : Bool → Bytes → Bytes → Bool
starts ci [] s = true
starts ci (y ∷ ys) [] = false
starts ci (y ∷ ys) (x ∷ xs) = norm ci y == norm ci x && starts ci ys xs

-- The bytes before the first '/', and those from it on.
unfoldable pub until_slash : Bytes → Bytes
until_slash [] = []
until_slash (x ∷ xs) = if x == b'/' then [] else x ∷ until_slash xs

unfoldable pub from_slash : Bytes → Bytes
from_slash [] = []
from_slash (x ∷ xs) = if x == b'/' then x ∷ xs else from_slash xs

-- The first argument says that the name of a parameter is being skipped. A parameter takes a
-- non-empty value up to the next '/', a '*' takes all the rest, any other byte takes itself.
unfoldable pub accepts : Bool → Bool → Bytes → Bytes → Bool
accepts skip ci [] [] = true
accepts skip ci [] (x ∷ xs) = false
accepts skip ci (c ∷ p) s =
    if skip && not (c == b'/')
    then accepts true ci p s
    else if c == b':'
    then not (is_empty (until_slash s)) && accepts true ci p (from_slash s)
    else if c == b'*'
    then true
    else starts ci (c ∷ []) s && accepts false ci p (drop 1 s)

abbrev pub holds : {H : Type 0} → (H → Bool) → Option H → Bool
holds test none = false
holds test (some h) = test h

unfoldable mutual
  -- Some walk of the tree over the path ends at a handler that passes the test.
  pub offers : {H : Type 0} → (H → Bool) → Bool → Node H → Bytes → Bool
  offers test ci (node p static cs h k) s =
      starts ci p s
      && ((is_empty (drop (length p) s) && holds test h)
          || offers_below test ci cs (drop (length p) s))
  offers test ci (node p param cs h k) s =
      not (is_empty (until_slash s))
      && ((is_empty (from_slash s) && holds test h) || offers_below test ci cs (from_slash s))
  offers test ci (node p catch_all cs h k) s = holds test h

  pub offers_below : {H : Type 0} → (H → Bool) → Bool → Nodes H → Bytes → Bool
  offers_below test ci nil s = false
  offers_below test ci (cons c cs) s = offers test ci c s || offers_below test ci cs s

module _ {H : Type 0} where
  abbrev pub children_of : Node H → Nodes H
  children_of (node p ty cs h k) = cs

  -- What a child competes for: the param place, the catch-all place, or a first literal byte.
  abbrev pub slot : Bool → Node H → ℕ
  slot ci (node p param cs h k) = 0
  slot ci (node p catch_all cs h k) = 1
  slot ci (node [] static cs h k) = 2
  slot ci (node (x ∷ p) static cs h k) = norm ci x + 2

  abbrev pub has_path : Node H → Bool
  has_path (node [] static cs h k) = false
  has_path (node (x ∷ p) static cs h k) = true
  has_path (node p param cs h k) = true
  has_path (node p catch_all cs h k) = true

  unfoldable pub absent : Bool → ℕ → Nodes H → Bool
  absent ci place nil = true
  absent ci place (cons c cs) = not (slot ci c == place) && absent ci place cs

-- Below a well-formed node each static child has a path, and no two children compete.
unfoldable mutual
  pub well_formed : {H : Type 0} → Bool → Node H → Bool
  well_formed ci (node p ty cs h k) = has_path (node p ty cs h k) && well_formed_below ci cs

  pub well_formed_below : {H : Type 0} → Bool → Nodes H → Bool
  well_formed_below ci nil = true
  well_formed_below ci (cons c cs) =
      well_formed ci c && absent ci (slot ci c) cs && well_formed_below ci cs
