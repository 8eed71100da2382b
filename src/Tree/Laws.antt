-- ===== src/Tree/Laws.antt =====
-- What `insert` and `search` promise together.
use goichi.Prelude.{
  suc, ◌≡◌, refl, sym, Bool, true, false, ◌&&◌, ◌||◌, List, [], length, arith, Option, none, some,
  is_some,
}
use goichi.Prelude.Text.{Bytes}
use goichi.Tree.{Node, Nodes, node, static, Capture, match, insert, search, to_params}
use goichi.Tree.Spec.{starts, accepts, holds, offers, well_formed_below}
use goichi.Tree.Prefix.{is_literal}
use goichi.Tree.Literal.{insert_fuel-Finds}
use goichi.Tree.Insertion.{insert_fuel-Keeps}
use goichi.Tree.Shape.{insert_fuel-well_formed}
use goichi.Tree.Grows.{Grows, Grows-eq}
use goichi.Tree.Matching.{passes, match_sound_walk, match_complete_walk}

pub eq_of_iff : (a b : Bool) → (a ≡ true → b ≡ true) → (b ≡ true → a ≡ true) → a ≡ b
eq_of_iff true b h k = sym (h refl)
eq_of_iff false true h k = k refl
eq_of_iff false false h k = refl

passes-true : {H : Type 0} (r : Option (H × List Capture)) → passes (λ _. true) r ≡ is_some r
passes-true none = refl
passes-true (some (h, caps)) = refl

-- The root of a tree: a static node with no path of its own.
pub record IsRoot {H : Type 0} (ci : Bool) (n : Node H) : Type 0 where
  pub kids : Nodes H
  pub own : Option H
  pub name : Bytes
  pub shape : n ≡ node [] static kids own name
  pub good : well_formed_below ci kids ≡ true

module _ {H : Type 0} (ci : Bool) where
  -- An insertion into the root of a well-formed tree gives one.
  pub insert-IsRoot :
      (n : Node H) (p : Bytes) (handler : Option H)
      → IsRoot ci n
      → IsRoot ci (insert n p handler ci)
  unfolding insert
  insert-IsRoot n p handler r =
      let (ds, h', same, w) =
        insert_fuel-well_formed ci handler (suc (length p)) p (omega arith) [] static r.kids r.own
          r.name r.good in
      rw r.shape (record { kids = ds; own = h'; name = r.name; shape = same; good = w })

  pub offers-insert :
      (test : H → Bool) (n : Node H) (p s : Bytes) (handler : Option H)
      → IsRoot ci n
      → Grows
          (holds test handler)
          (accepts false ci p s)
          (offers test ci n s)
          (offers test ci (insert n p handler ci) s)
  unfolding insert offers starts
  offers-insert test n p s handler r =
      let (ds, h', same, grows) =
        insert_fuel-Keeps test ci handler (suc (length p)) p (omega arith) [] static r.kids r.own
          r.name in
      rw (r.shape, same) (grows s)

  is_some-search : (n : Node H) (s : Bytes) → is_some (search n s ci) ≡ is_some (match n s [] ci)
  unfolding search
  is_some-search n s = ground arith

  pub found-eq-offers :
      (n : Node H) (s : Bytes) → IsRoot ci n → is_some (search n s ci) ≡ offers (λ _. true) ci n s
  found-eq-offers n s r =
      let sound = match_sound_walk (λ (_ : H). true) ci n s [] in
      let complete = match_complete_walk (λ (_ : H). true) ci n s [] (rw r.shape r.good) in
      rw (is_some-search n s) (eq_of_iff _ _ (λ e. sound (rw passes-true e)) complete)

  -- After a handler is inserted at a pattern into the root of a well-formed tree, a path is found
  -- exactly when it was found before or the pattern accepts it: no insertion, whatever nodes it splits,
  -- loses or adds another path.
  pub search-insert :
      (n : Node H) (p s : Bytes) (h : H)
      → IsRoot ci n
      → is_some (search (insert n p (some h) ci) s ci)
        ≡ (is_some (search n s ci) || accepts false ci p s)
  search-insert n p s h r =
      rw (found-eq-offers n s r, found-eq-offers _ s (insert-IsRoot n p (some h) r))
        (Grows-eq true (offers-insert (λ _. true) n p s (some h) r) refl)

  -- A handler that `search` returns is on offer: it passes every test that no offered one fails.
  pub search-offers :
      (n : Node H) (s : Bytes) (test : H → Bool) (h : H) (params : List (Bytes × Bytes))
      → search n s ci ≡ some (h, params)
      → test h ≡ true
      → offers test ci n s ≡ true
  unfolding search
  search-offers n s test h params e t = match_sound_walk test ci n s [] (ground arith)

  -- An insertion into the root of a well-formed tree offers nothing that was not on offer, but the
  -- handler itself where the pattern accepts the path.
  pub offers-insert_sound :
      (test : H → Bool) (n : Node H) (p s : Bytes) (handler : Option H)
      → IsRoot ci n
      → offers test ci (insert n p handler ci) s ≡ true
      → (offers test ci n s || (holds test handler && accepts false ci p s)) ≡ true
  offers-insert_sound test n p s handler r = (offers-insert test n p s handler r).sound

  -- After a handler is inserted at a pattern without ':' and '*' into the root of a well-formed tree,
  -- every path that the pattern accepts finds that handler and no parameters, whatever parameters and
  -- catch-alls also match.
  pub search-insert_literal :
      (n : Node H) (p s : Bytes) (h : H)
      → IsRoot ci n
      → is_literal p ≡ true
      → accepts false ci p s ≡ true
      → search (insert n p (some h) ci) s ci ≡ some (h, [])
  unfolding insert search match to_params
  search-insert_literal n p s h r lit acc =
      let (ds, h', same, reach) =
        insert_fuel-Finds ci h (suc (length p)) p (omega arith) lit [] static r.kids r.own r.name s
          r.good acc in
      rw (r.shape, same) (ground (arith, reach []))
