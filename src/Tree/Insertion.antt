-- ===== src/Tree/Insertion.antt =====
-- `insert` and what a tree offers for a path.
pub mod Siblings
use mathlib.Core.Option
use goichi.Prelude.{
  ℕ, zero, suc, ◌<◌, ◌≡◌, refl, ap, subst, ◌∙◌, Bool, true, false, not, ◌&&◌, ◌||◌, [], ◌∷◌, ◌++◌,
  ◌==◌, if◌then◌else◌, length, is_empty, take, drop, arith, Option, none, some, Option-cases,
  Bool-cases, inl, inr,
}
use goichi.Prelude.Text.{Bytes}
use goichi.Tree.{
  Node, Nodes, node, nil, cons, NodeType, static, param, catch_all, append, update_first, or_append,
  is_type, insert_param, set_catch_all, insert_catch_all, shares, descend, insert_static,
  insert_run, insert_step, insert_fuel, common_prefix, cut_slash, cut_static,
}
use goichi.Tree.Spec.{starts, until_slash, from_slash, accepts, holds, offers, offers_below}
use goichi.Tree.Prefix.{
  Cut-lengths, cut_slash_lem, accepts-skip, accepts-append, accepts-common_prefix, accepts-nil,
  starts-take-drop, drop-take-drop, length-from_slash-le, length-take-common_prefix, take-length,
  is_literal, cut_static-Cut,
}
use goichi.Tree.Grows.{Grows, Grows-and, Grows-or, Grows-or_left, Grows-more}
use goichi.Tree.Insertion.Siblings.{or_append-Grows}

module _ {H : Type 0} (test : H → Bool) (ci : Bool) (handler : Option H) where
  -- What a node offers for the path that is left once its own part is taken off.
  abbrev pub inner : Node H → Bytes → Bool
  inner (node p ty cs h k) s = (is_empty s && holds test h) || offers_below test ci cs s

  -- `go q` inserts the pattern q below a node, and keeps the node's own path, kind and name.
  abbrev pub Keeps : (Bytes → Node H → Node H) → Bytes → Type 0
  Keeps go q =
      (p : Bytes) (ty : NodeType) (cs : Nodes H) (h : Option H) (k : Bytes)
      → (ds : Nodes H) × (h' : Option H) × (go q (node p ty cs h k) ≡ node p ty ds h' k)
        × ((s : Bytes)
            → Grows (holds test handler) (accepts false ci q s) (inner (node p ty cs h k) s)
                (inner (node p ty ds h' k) s))

  go_param-Grows :
      (go : Bytes → Node H → Node H) (q : Bytes)
      → Keeps go q
      → (n : Node H) (s : Bytes) → is_type param n ≡ true
      → Grows
          (holds test handler)
          (not (is_empty (until_slash s)) && accepts false ci q (from_slash s))
          (offers test ci n s)
          (offers test ci (go q n) s)
  unfolding offers
  go_param-Grows go q keeps (node p static cs h k) s e = cc
  go_param-Grows go q keeps (node p catch_all cs h k) s e = cc
  go_param-Grows go q keeps (node p param cs h k) s e =
      let (ds, h', same, grows) = keeps p param cs h k in
      rw same
        (Grows-and (holds test handler) (not (is_empty (until_slash s))) (grows (from_slash s)))

  go_static-Grows :
      (go : Bytes → Node H → Node H) (q : Bytes)
      → Keeps go q
      → (p : Bytes) (cs : Nodes H) (h : Option H) (k s : Bytes)
      → Grows
          (holds test handler)
          (starts ci p s && accepts false ci q (drop (length p) s))
          (offers test ci (node p static cs h k) s)
          (offers test ci (go q (node p static cs h k)) s)
  unfolding offers
  go_static-Grows go q keeps p cs h k s =
      let (ds, h', same, grows) = keeps p static cs h k in
      rw same (Grows-and (holds test handler) (starts ci p s) (grows (drop (length p) s)))

  offers-new_param : (k s : Bytes) → offers test ci (node [] param nil none k) s ≡ false
  unfolding offers
  offers-new_param k s = ground arith

  offers-new_static : (p s : Bytes) → offers test ci (node p static nil none []) s ≡ false
  unfolding offers
  offers-new_static p s = ground arith

  insert_param-Grows :
      (go : Bytes → Node H → Node H) (path : Bytes) (cs : Nodes H) (s : Bytes)
      → Keeps go (from_slash path)
      → Grows
          (holds test handler)
          (accepts false ci (b':' ∷ path) s)
          (offers_below test ci cs s)
          (offers_below test ci (insert_param go path cs) s)
  unfolding insert_param accepts
  insert_param-Grows go path cs s keeps =
      rw (accepts-skip ci path (from_slash s), (cut_slash_lem path).1)
        (or_append-Grows test ci handler (is_type param) (go (from_slash path)) _ s
          (λ n e. go_param-Grows go (from_slash path) keeps n s e) cs _
          (rw (offers-new_param (cut_slash path).0 s) at (
            go_param-Grows go (from_slash path) keeps (node [] param nil none (cut_slash path).0) s
              refl)))

  insert_catch_all-Grows :
      (path : Bytes) (cs : Nodes H) (s : Bytes)
      → Grows
          (holds test handler)
          (accepts false ci (b'*' ∷ path) s)
          (offers_below test ci cs s)
          (offers_below test ci (insert_catch_all path handler cs) s)
  unfolding insert_catch_all accepts
  insert_catch_all-Grows path cs s =
      or_append-Grows test ci handler (is_type catch_all) (set_catch_all path handler) true s better
        cs _ fresh
    where
      fresh :
          Grows
            (holds test handler)
            true
            false
            (offers test ci (node [] catch_all nil handler path) s)
      fresh = unfold offers in record { sound = λ e. ground arith; complete = λ e e'. e }

      better :
          (n : Node H)
          → is_type catch_all n ≡ true
          → Grows
              (holds test handler)
              true
              (offers test ci n s)
              (offers test ci (set_catch_all path handler n) s)
      better (node p static ds h k) e = cc
      better (node p param ds h k) e = cc
      better (node p catch_all ds h k) e =
          unfold offers in record { sound = λ e. ground arith; complete = λ e e'. e }

  -- The child that is split, or not, offers what it did.
  offers-split :
      (l : ℕ) (p : Bytes) (cs : Nodes H) (h : Option H) (k s : Bytes)
      → offers test ci (node (take l p) static (cons (node (drop l p) static cs h []) nil) none k) s
        ≡ offers test ci (node p static cs h k) s
  unfolding offers
  offers-split l p cs h k s = rw (starts-take-drop ci l p s, drop-take-drop l p s) (ground arith)

  descend-Grows :
      (go : Bytes → Node H → Node H) (a rest s : Bytes) (n : Node H)
      → is_literal a ≡ true
      → ((l : ℕ) → 0 < l → Keeps go (drop l a ++ rest))
      → shares a ci n ≡ true
      → Grows
          (holds test handler)
          (accepts false ci (a ++ rest) s)
          (offers test ci n s)
          (offers test ci (descend go a rest ci n) s)
  unfolding shares descend
  descend-Grows go a rest s (node p param cs h k) lit keeps e = cc
  descend-Grows go a rest s (node p catch_all cs h k) lit keeps e = cc
  descend-Grows go a rest s (node p static cs h k) lit keeps e =
      let l = common_prefix p a ci in
      let q = drop l a ++ rest in
      let keep = keeps l (ground arith) in
      let whole = accepts-common_prefix ci p a rest s lit in
      let len : length (take l p) ≡ l = (length-take-common_prefix ci p a).0 in
      elim (Bool-cases (l == length p)) [
        | inl all ↦
            let el : l ≡ length p = ground arith in
            let same : take l p ≡ p = ap (λ i. take i p) el ∙ (take-length p).0 in
            let b : accepts false ci (a ++ rest) s
                ≡ (starts ci p s && accepts false ci q (drop (length p) s)) =
              whole ∙ cc (same, el) in
            rw (all, b) (go_static-Grows go q keep p cs h k s)
        | inr part ↦
            let below = cons (node (drop l p) static cs h []) nil in
            let b : accepts false ci (a ++ rest) s
                ≡ (starts ci (take l p) s && accepts false ci q (drop (length (take l p)) s)) =
              whole ∙ cc len in
            rw (part, b, ← offers-split l p cs h k s)
              (go_static-Grows go q keep (take l p) below none k s)
      ]

  insert_run-Grows :
      (go : Bytes → Node H → Node H) (a rest : Bytes) (cs : Nodes H) (s : Bytes)
      → is_literal a ≡ true
      → ((l : ℕ) → 0 < l → Keeps go (drop l a ++ rest))
      → Keeps go rest
      → Grows
          (holds test handler)
          (accepts false ci (a ++ rest) s)
          (offers_below test ci cs s)
          (offers_below test ci (insert_run go a rest handler ci cs) s)
  unfolding insert_run
  insert_run-Grows go a rest cs s lit keeps keep =
      or_append-Grows test ci handler (shares a ci) (descend go a rest ci) _ s
        (λ n e. descend-Grows go a rest s n lit keeps e) cs _ (fresh rest keep)
    where
      fresh :
          (rest : Bytes)
          → Keeps go rest
          → Grows (holds test handler) (accepts false ci (a ++ rest) s) false (
              offers test ci
                (if is_empty rest
                  then node a static nil handler []
                  else go rest (node a static nil none []))
                s)
      fresh [] _ =
          rw (accepts-append ci a [] s lit, accepts-nil ci (drop (length a) s))
            (unfold offers in record { sound = λ e. ground arith; complete = λ e e'. ground arith })
      fresh (x ∷ xs) k =
          rw (accepts-append ci a (x ∷ xs) s lit)
            (rw (offers-new_static a s) at (go_static-Grows go (x ∷ xs) k a nil none [] s))

  insert_static-Grows :
      (go : Bytes → Node H → Node H) (c : ℕ) (path : Bytes) (cs : Nodes H) (s : Bytes)
      → ((q : Bytes) → length q < suc (length path) → Keeps go q)
      → (c == b':') ≡ false
      → (c == b'*') ≡ false
      → Grows
          (holds test handler)
          (accepts false ci (c ∷ path) s)
          (offers_below test ci cs s)
          (offers_below test ci (insert_static go (c ∷ path) handler ci cs) s)
  unfolding insert_static
  insert_static-Grows go c path cs s keeps h k =
      let cut = cut_static-Cut c path h k in
      let (a, rest) = cut_static (c ∷ path) in
      let (shorter, short) = Cut-lengths c path (a, rest) cut in
      subst
        (λ x.
          Grows (holds test handler) (accepts false ci x s) (offers_below test ci cs s)
            (offers_below test ci (insert_run go a rest handler ci cs) s))
        cut.whole
        (insert_run-Grows go a rest cs s cut.literal
          (λ l pos. keeps (drop l a ++ rest) (shorter l pos)) (keeps rest short))

  insert_step-Grows :
      (go : Bytes → Node H → Node H) (c : ℕ) (path : Bytes) (cs : Nodes H) (s : Bytes)
      → ((q : Bytes) → length q < suc (length path) → Keeps go q)
      → Grows
          (holds test handler)
          (accepts false ci (c ∷ path) s)
          (offers_below test ci cs s)
          (offers_below test ci (insert_step go handler ci c path cs) s)
  unfolding insert_step
  insert_step-Grows go c path cs s keeps = elim (Bool-cases (c == b':')) [
    | inl colon ↦
        let same : c ≡ b':' = ground arith in
        rw same (
          insert_param-Grows go path cs s
            (keeps (from_slash path) (omega (arith, length-from_slash-le path))))
    | inr other ↦ elim (Bool-cases (c == b'*')) [
      | inl star ↦ let same : c ≡ b'*' = ground arith in rw same (insert_catch_all-Grows path cs s)
      | inr literal ↦ rw (other, literal) (insert_static-Grows go c path cs s keeps other literal)
    ]
  ]

  pub insert_fuel-Keeps : (f : ℕ) (q : Bytes) → length q < f → Keeps (insert_fuel f handler ci) q
  unfolding insert_fuel
  insert_fuel-Keeps zero q short = absurd (omega arith)
  insert_fuel-Keeps (suc f) [] short = λ p ty cs h k. (
    cs,
    handler,
    refl,
    λ s.
        rw (accepts-nil ci s)
          (record { sound = λ e. ground arith; complete = λ e e'. ground arith }),
  )
  insert_fuel-Keeps (suc f) (c ∷ path) short = λ p ty cs h k. (
    _,
    h,
    refl,
    λ s. Grows-or_left (holds test handler) (is_empty s && holds test h) (
        insert_step-Grows (insert_fuel f handler ci) c path cs s
          (λ q le. insert_fuel-Keeps f q (omega arith))),
  )
