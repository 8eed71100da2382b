-- ===== src/Tree/Literal.antt =====
-- `match` below the nodes that `insert` reaches for a pattern without parameters, whose handler is tried
-- before any param or catch_all child.
use goichi.Prelude.{
  ℕ, zero, suc, ◌<◌, ◌≡◌, refl, ◌∙◌, ap, Bool, true, false, List, [], ◌∷◌, ◌++◌, ◌==◌, length,
  is_empty, take, drop, arith, Option, none, some, Option-cases, Bool-cases, ◌≢◌, inl, inr,
}
use mathlib.Core.Option
use mathlib.Core.List.{append-nil}
use goichi.Prelude.Text.{Bytes}
use goichi.Tree.{
  Node, Nodes, node, nil, cons, NodeType, static, param, catch_all, Capture, append, update_first,
  or_append, shares, descend, insert_static, insert_run, insert_step, insert_fuel, common_prefix,
  cut_static, index_special, match, match_children, try_children,
}
use goichi.Tree.Spec.{starts, accepts, absent, well_formed, well_formed_below}
use goichi.Tree.Shape.{drop-well_formed}
use goichi.Tree.Prefix.{
  is_literal, has_prefix-eq-starts, accepts-nil, accepts-append, accepts-common_prefix,
  length-take-common_prefix, length-drop-lt, take-length, length-take-add-drop,
}

is_literal-drop : (l : ℕ) (s : Bytes) → is_literal s ≡ true → is_literal (drop l s) ≡ true
unfolding is_literal
is_literal-drop zero s h = h
is_literal-drop (suc l) [] h = refl
is_literal-drop (suc l) (x ∷ s) h = is_literal-drop l s (ground arith)

index_special-is_literal : (s : Bytes) → is_literal s ≡ true → index_special s ≡ none
unfolding is_literal
index_special-is_literal [] h = refl
index_special-is_literal (x ∷ s) h = ground (arith, index_special-is_literal s)

cut_static-is_literal : (s : Bytes) → is_literal s ≡ true → cut_static s ≡ (s, [])
unfolding cut_static
cut_static-is_literal s lit = rw (index_special-is_literal s lit, cut_static) refl

module _ {H : Type 0} (ci : Bool) (x : H) where
  -- A walk that is at a node with this handler and these children ends at `x`, with no capture more.
  abbrev pub Reaches : Option H → Nodes H → Bytes → Type 0
  Reaches h ds s =
      (caps : List Capture)
      → try_children h ds s caps (λ want. match_children ds want s caps ci) ≡ some (x, caps)

  abbrev pub Finds : (Bytes → Node H → Node H) → Bytes → Type 0
  Finds go q =
      (p : Bytes) (ty : NodeType) (cs : Nodes H) (h : Option H) (k s : Bytes)
      → well_formed_below ci cs ≡ true
      → accepts false ci q s ≡ true
      → (ds : Nodes H) × (h' : Option H) × (go q (node p ty cs h k) ≡ node p ty ds h' k)
        × Reaches h' ds s

  -- The loop over the static children ends at this child, or goes on past it.
  abbrev Hits : Bytes → Node H → Type 0
  Hits s c =
      (cs : Nodes H) (caps : List Capture)
      → match_children (cons c cs) static s caps ci ≡ some (x, caps)

  abbrev Misses : Bytes → Node H → Type 0
  Misses s c =
      (cs : Nodes H) (caps : List Capture)
      → match_children (cons c cs) static s caps ci ≡ match_children cs static s caps ci

  module _ (s : Bytes) (pick : Node H → Bool) (change : Node H → Node H)
      (hit : (c : Node H) → well_formed ci c ≡ true → pick c ≡ true → Hits s (change c))
      (miss : (c : Node H) → well_formed ci c ≡ true → pick c ≡ false → Misses s c) where
    update_first-Hits :
        (cs ds : Nodes H) (caps : List Capture)
        → well_formed_below ci cs ≡ true
        → update_first pick change cs ≡ some ds
        → match_children ds static s caps ci ≡ some (x, caps)
    unfolding update_first well_formed
    update_first-Hits nil ds caps w e = cc
    update_first-Hits (cons c cs) ds caps w e = elim (Bool-cases (pick c)) [
      | inl h ↦
          let same : cons (change c) cs ≡ ds = ground arith in
          rw (← same) (hit c (ground arith) h cs caps)
      | inr h ↦
          let (rest, found, same) = (Option.map-eq-some_iff _ _).0 (rw (h, update_first) at e) in
          rw (← same) (
            miss c (ground arith) h rest caps ∙ update_first-Hits cs rest caps (ground arith) found)
    ]

    append-Hits :
        (cs : Nodes H) (m : Node H) (caps : List Capture)
        → well_formed_below ci cs ≡ true
        → update_first pick change cs ≡ none
        → Hits s m
        → match_children (append cs m) static s caps ci ≡ some (x, caps)
    unfolding update_first well_formed
    append-Hits nil m caps w e new = new nil caps
    append-Hits (cons c cs) m caps w e new = elim (Bool-cases (pick c)) [
      | inl h ↦ absurd (ground arith)
      | inr h ↦
          miss c (ground arith) h (append cs m) caps
          ∙ append-Hits cs m caps (ground arith) (ground arith) new
    ]

    or_append-Hits :
        (cs : Nodes H) (m : Node H) (caps : List Capture)
        → well_formed_below ci cs ≡ true
        → Hits s m
        → match_children (or_append (update_first pick change cs) cs m) static s caps ci
          ≡ some (x, caps)
    or_append-Hits cs m caps w new = elim (Option-cases (update_first pick change cs)) [
      | inl e ↦ rw e (append-Hits cs m caps w e new)
      | inr (ds, e) ↦ rw e (update_first-Hits cs ds caps w e)
    ]

  node-Hits :
      (p s : Bytes) (ds : Nodes H) (h : Option H) (k : Bytes)
      → starts ci p s ≡ true
      → Reaches h ds (drop (length p) s)
      → Hits s (node p static ds h k)
  unfolding match
  node-Hits p s ds h k e r = λ cs caps. ground (arith, has_prefix-eq-starts s p ci, r caps)

  module _ (go : Bytes → Node H → Node H) where
    go-Hits :
        (q p s : Bytes) (cs : Nodes H) (h : Option H) (k : Bytes)
        → Finds go q
        → well_formed_below ci cs ≡ true
        → starts ci p s ≡ true
        → accepts false ci q (drop (length p) s) ≡ true
        → Hits s (go q (node p static cs h k))
    go-Hits q p s cs h k finds w e a =
        let (ds, h', same, r) = finds p static cs h k (drop (length p) s) w a in
        rw same (node-Hits p s ds h' k e r)

    -- A child that shares a run with the pattern is entered, split or not.
    descend-Hits :
        (a s : Bytes) (c : Node H)
        → ((l : ℕ) → 0 < l → Finds go (drop l a ++ []))
        → is_literal a ≡ true
        → accepts false ci (a ++ []) s ≡ true
        → well_formed ci c ≡ true
        → shares a ci c ≡ true
        → Hits s (descend go a [] ci c)
    unfolding shares descend well_formed
    descend-Hits a s (node p param cs h k) finds lit acc w e = cc
    descend-Hits a s (node p catch_all cs h k) finds lit acc w e = cc
    descend-Hits a s (node p static cs h k) finds lit acc w e =
        let l = common_prefix p a ci in
        let find = finds l (ground arith) in
        let parts = rw (accepts-common_prefix ci p a [] s lit) at acc in
        let (size, _) = length-take-common_prefix ci p a in
        elim (Bool-cases (l == length p)) [
          | inl all ↦
              let full : l ≡ length p = ground arith in
              let same : take l p ≡ p = rw full (take-length p).0 in
              let head : starts ci p s ≡ true = ground (arith, ap (λ r. starts ci r s) same) in
              let tail : accepts false ci (drop l a ++ []) (drop (length p) s) ≡ true =
                rw (← full) (ground arith) in
              rw all (go-Hits (drop l a ++ []) p s cs h k find (ground arith) head tail)
          | inr part ↦
              let ne : l ≢ length p = ground arith in
              let less : l < length p = omega (arith, size, length-take-add-drop l p, ne) in
              let tail : accepts false ci (drop l a ++ []) (drop (length (take l p)) s) ≡ true =
                rw size (ground arith) in
              let below = drop-well_formed ci (some x) l p cs h less (ground arith) in
              let one : well_formed_below ci (cons (node (drop l p) static cs h []) nil) ≡ true =
                unfold absent in ground (arith, below) in
              rw part (go-Hits (drop l a ++ []) (take l p) s _ none k find one (ground arith) tail)
        ]

  shares-Misses :
      (a s : Bytes) (c : Node H)
      → is_empty a ≡ false
      → is_literal a ≡ true
      → starts ci a s ≡ true
      → well_formed ci c ≡ true
      → shares a ci c ≡ false
      → Misses s c
  unfolding shares common_prefix well_formed match starts
  shares-Misses a s (node [] static ds h k) ne lit acc w e = cc
  shares-Misses [] s (node (y ∷ p) static ds h k) ne lit acc w e = cc
  shares-Misses (u ∷ a) [] (node (y ∷ p) static ds h k) ne lit acc w e = cc
  shares-Misses (u ∷ a) (z ∷ s) (node (y ∷ p) static ds h k) ne lit acc w e =
      λ cs caps. ground (arith, has_prefix-eq-starts (z ∷ s) (y ∷ p) ci)
  shares-Misses a s (node p param ds h k) ne lit acc w e = λ cs caps. refl
  shares-Misses a s (node p catch_all ds h k) ne lit acc w e = λ cs caps. refl

  module _ (go : Bytes → Node H → Node H) where
    insert_run-Hits :
        (a s : Bytes) (cs : Nodes H) (caps : List Capture)
        → ((l : ℕ) → 0 < l → Finds go (drop l a ++ []))
        → is_empty a ≡ false
        → is_literal a ≡ true
        → accepts false ci a s ≡ true
        → well_formed_below ci cs ≡ true
        → match_children (insert_run go a [] (some x) ci cs) static s caps ci ≡ some (x, caps)
    unfolding insert_run
    insert_run-Hits a s cs caps finds ne lit acc w =
        let acc' : accepts false ci (a ++ []) s ≡ true = rw (append-nil a) acc in
        let parts = rw (accepts-append ci a [] s lit) at acc' in
        let head : starts ci a s ≡ true = ground arith in
        let done = rw (accepts-nil ci (drop (length a) s)) at parts in
        or_append-Hits s (shares a ci) (descend go a [] ci)
          (λ c v e. descend-Hits go a s c finds lit acc' v e)
          (λ c v e. shares-Misses a s c ne lit head v e) cs (node a static nil (some x) []) caps w
          (node-Hits a s nil (some x) [] head (ends (drop (length a) s) (ground arith)))
      where
        ends : (r : Bytes) → is_empty r ≡ true → Reaches (some x) nil r
        ends [] e = λ caps. refl
        ends (y ∷ r) e = cc

  insert_step-is_literal :
      (go : Bytes → Node H → Node H) (c : ℕ) (path : Bytes) (cs : Nodes H)
      → is_literal (c ∷ path) ≡ true
      → insert_step go (some x) ci c path cs ≡ insert_run go (c ∷ path) [] (some x) ci cs
  unfolding insert_step insert_static is_literal
  insert_step-is_literal go c path cs lit =
      let colon : (c == b':') ≡ false = ground arith in
      let star : (c == b'*') ≡ false = ground arith in
      rw (colon, star, insert_static, cut_static-is_literal (c ∷ path) lit) refl

  -- A path that is left is looked for below the static children first.
  try_children-static :
      (c : ℕ) (path : Bytes) (ds : Nodes H) (h : Option H) (s : Bytes)
      → is_literal (c ∷ path) ≡ true
      → accepts false ci (c ∷ path) s ≡ true
      → ((caps : List Capture) → match_children ds static s caps ci ≡ some (x, caps))
      → Reaches h ds s
  unfolding accepts is_literal starts
  try_children-static c path ds h [] lit acc each = absurd (ground arith)
  try_children-static c path ds h (y ∷ s) lit acc each = λ caps. rw (each caps) refl

  pub insert_fuel-Finds :
      (f : ℕ) (q : Bytes) → length q < f → is_literal q ≡ true → Finds (insert_fuel f (some x) ci) q
  unfolding insert_fuel
  insert_fuel-Finds zero q short lit = absurd (omega arith)
  insert_fuel-Finds (suc f) [] short lit =
      λ p ty cs h k s w acc. (cs, some x, refl, at_once cs s acc)
    where
      at_once : (cs : Nodes H) (s : Bytes) → accepts false ci [] s ≡ true → Reaches (some x) cs s
      at_once cs [] acc = λ caps. refl
      at_once cs (y ∷ s) acc = unfold accepts in cc
  insert_fuel-Finds (suc f) (c ∷ path) short lit = λ p ty cs h k s w acc.
      let go = insert_fuel f (some x) ci in
      let finds : (l : ℕ) → 0 < l → Finds go (drop l (c ∷ path) ++ []) = λ l pos.
        rw (append-nil (drop l (c ∷ path))) (
          insert_fuel-Finds f (drop l (c ∷ path))
            (omega (arith, length-drop-lt l (c ∷ path) pos refl, short))
            (is_literal-drop l (c ∷ path) lit)) in
      let run =
        λ (caps : List Capture). insert_run-Hits go (c ∷ path) s cs caps finds refl lit acc w in
      let each = rw (← insert_step-is_literal go c path cs lit) at run in
      (_, h, refl, try_children-static c path _ h s lit acc each)
