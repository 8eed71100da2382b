-- ===== src/Tree/Shape.antt =====
-- `insert` and the well-formed trees, in which no two children of a node compete for the same byte, the
-- param place or the catch-all place.
pub mod Siblings
use mathlib.Core.Option
use goichi.Prelude.{
  ℕ, zero, suc, ◌+◌, ◌<◌, ◌≡◌, refl, ◌∙◌, Bool, true, false, [], ◌∷◌, ◌++◌, ◌==◌, if◌then◌else◌,
  length, is_empty, take, drop, arith, Option, none, some, ◌≢◌, Option-cases, Bool-cases, inl, inr,
}
use goichi.Prelude.Text.{Bytes}
use goichi.Tree.{
  Node, Nodes, node, nil, cons, NodeType, static, param, catch_all, append, update_first, or_append,
  is_type, insert_param, set_catch_all, insert_catch_all, shares, descend, insert_static,
  insert_run, insert_step, insert_fuel, common_prefix, cut_slash, cut_static, norm,
}
use goichi.Tree.Spec.{slot, absent, well_formed, well_formed_below, from_slash}
use goichi.Tree.Prefix.{
  Cut-lengths, cut_slash_lem, length-from_slash-le, cut_static-Cut, length-take-common_prefix,
  length-take-add-drop,
}
use goichi.Tree.Shape.Siblings.{or_append-well_formed}

module _ {H : Type 0} (ci : Bool) (handler : Option H) where
  abbrev pub Keeps : (Bytes → Node H → Node H) → Bytes → Type 0
  Keeps go q =
      (p : Bytes) (ty : NodeType) (cs : Nodes H) (h : Option H) (k : Bytes)
      → well_formed_below ci cs ≡ true
      → (ds : Nodes H) × (h' : Option H) × (go q (node p ty cs h k) ≡ node p ty ds h' k)
        × (well_formed_below ci ds ≡ true)

  -- So `go` keeps a node well formed, and in its slot.
  go-well_formed :
      (go : Bytes → Node H → Node H) (q : Bytes)
      → Keeps go q
      → (n : Node H) → well_formed ci n ≡ true
      → (well_formed ci (go q n) ≡ true) × (slot ci (go q n) ≡ slot ci n)
  unfolding well_formed
  go-well_formed go q keeps (node [] static cs h k) w = cc
  go-well_formed go q keeps (node (x ∷ p) static cs h k) w =
      let (ds, h', same, w') = keeps (x ∷ p) static cs h k w in rw same (w', refl)
  go-well_formed go q keeps (node p param cs h k) w =
      let (ds, h', same, w') = keeps p param cs h k w in rw same (w', refl)
  go-well_formed go q keeps (node p catch_all cs h k) w =
      let (ds, h', same, w') = keeps p catch_all cs h k w in rw same (w', refl)

  insert_param-well_formed :
      (go : Bytes → Node H → Node H) (path : Bytes) (cs : Nodes H)
      → Keeps go (from_slash path)
      → well_formed_below ci cs ≡ true
      → well_formed_below ci (insert_param go path cs) ≡ true
  unfolding insert_param
  insert_param-well_formed go path cs keeps w =
      let rest = (cut_slash path).1 in
      let keep : Keeps go rest = rw (cut_slash_lem path).1 keeps in
      let fresh = node [] param nil none (cut_slash path).0 in
      let new = go-well_formed go rest keep fresh fresh_lem in
      or_append-well_formed ci (is_type param) (go rest) (λ c e v. go-well_formed go rest keep c v)
        cs (go rest fresh) w new.0 (λ c v e. rw new.1 (other c v e))
    where
      fresh_lem : well_formed {H = H} ci (node [] param nil none (cut_slash path).0) ≡ true
      fresh_lem = unfold well_formed in refl

      other :
          (c : Node H)
          → well_formed ci c ≡ true
          → is_type param c ≡ false
          → (slot ci c == 0) ≡ false
      other (node [] static ds h k) v e = refl
      other (node (x ∷ p) static ds h k) v e = ground arith
      other (node p param ds h k) v e = cc
      other (node p catch_all ds h k) v e = refl

  insert_catch_all-well_formed :
      (path : Bytes) (cs : Nodes H)
      → well_formed_below ci cs ≡ true
      → well_formed_below ci (insert_catch_all path handler cs) ≡ true
  unfolding insert_catch_all well_formed
  insert_catch_all-well_formed path cs w =
      or_append-well_formed ci (is_type catch_all) (set_catch_all path handler) better cs
        (node [] catch_all nil handler path) w refl other
    where
      better :
          (c : Node H)
          → is_type catch_all c ≡ true
          → well_formed ci c ≡ true
          → (well_formed ci (set_catch_all path handler c) ≡ true)
            × (slot ci (set_catch_all path handler c) ≡ slot ci c)
      better (node p static ds h k) e v = cc
      better (node p param ds h k) e v = cc
      better (node p catch_all ds h k) e v = (ground arith, refl)

      other :
          (c : Node H)
          → well_formed ci c ≡ true
          → is_type catch_all c ≡ false
          → (slot ci c == 1) ≡ false
      other (node [] static ds h k) v e = refl
      other (node (x ∷ p) static ds h k) v e = ground arith
      other (node p param ds h k) v e = refl
      other (node p catch_all ds h k) v e = cc

  pub drop-well_formed :
      (l : ℕ) (p : Bytes) (cs : Nodes H) (h : Option H)
      → l < length p
      → well_formed_below ci cs ≡ true
      → well_formed ci (node (drop l p) static cs h []) ≡ true
  unfolding well_formed
  drop-well_formed l [] cs h lt w = absurd (omega arith)
  drop-well_formed zero (x ∷ p) cs h lt w = w
  drop-well_formed (suc l) (x ∷ p) cs h lt w = drop-well_formed l p cs h (omega arith) w

  split :
      (l : ℕ) (p : Bytes) (cs : Nodes H) (h : Option H) (k : Bytes)
      → 0 < l
      → l < length p
      → well_formed ci (node p static cs h k) ≡ true
      → (well_formed ci (node (take l p) static (cons (node (drop l p) static cs h []) nil) none k)
          ≡ true)
        × (slot ci (node (take l p) static (cons (node (drop l p) static cs h []) nil) none k)
            ≡ slot ci (node p static cs h k))
  unfolding well_formed absent
  split zero p cs h k pos lt v = absurd (omega arith)
  split (suc l) [] cs h k pos lt v = absurd (omega arith)
  split (suc l) (x ∷ p) cs h k pos lt v =
      (ground (arith, drop-well_formed l p cs h (omega arith) v), refl)

  -- A child that is split keeps its first byte, since the shared run is not empty.
  descend-well_formed :
      (go : Bytes → Node H → Node H) (a rest : Bytes) (n : Node H)
      → ((l : ℕ) → 0 < l → Keeps go (drop l a ++ rest))
      → shares a ci n ≡ true
      → well_formed ci n ≡ true
      → (well_formed ci (descend go a rest ci n) ≡ true)
        × (slot ci (descend go a rest ci n) ≡ slot ci n)
  unfolding shares descend
  descend-well_formed go a rest (node p param cs h k) keeps e w = cc
  descend-well_formed go a rest (node p catch_all cs h k) keeps e w = cc
  descend-well_formed go a rest (node p static cs h k) keeps e w =
      let l = common_prefix p a ci in
      let q = drop l a ++ rest in
      let keep = keeps l (ground arith) in
      elim (Bool-cases (l == length p)) [
        | inl all ↦ rw all (go-well_formed go q keep (node p static cs h k) w)
        | inr part ↦
            let ne : l ≢ length p = ground arith in
            let n' = node (take l p) static (cons (node (drop l p) static cs h []) nil) none k in
            let (w', same) =
              split l p cs h k (ground arith)
                (omega (arith, (length-take-common_prefix ci p a).0, length-take-add-drop l p, ne))
                w in
            let (w'', same') = go-well_formed go q keep n' w' in rw part (w'', same' ∙ same)
      ]

  insert_run-well_formed :
      (go : Bytes → Node H → Node H) (a rest : Bytes) (cs : Nodes H)
      → is_empty a ≡ false
      → ((l : ℕ) → 0 < l → Keeps go (drop l a ++ rest))
      → Keeps go rest
      → well_formed_below ci cs ≡ true
      → well_formed_below ci (insert_run go a rest handler ci cs) ≡ true
  unfolding insert_run
  insert_run-well_formed go [] rest cs e keeps keep w = cc
  insert_run-well_formed go (x ∷ a) rest cs e keeps keep w =
      let (w', same) = fresh rest keep in
      or_append-well_formed ci (shares (x ∷ a) ci) (descend go (x ∷ a) rest ci)
        (λ n v. descend-well_formed go (x ∷ a) rest n keeps v) cs _ w w'
        (λ c v e. rw same (other c v e))
    where
      fresh :
          (r : Bytes)
          → Keeps go r
          → let m =
              (if is_empty r
                then node (x ∷ a) static nil handler []
                else go r (node (x ∷ a) static nil none [])) in
            (well_formed ci m ≡ true) × (slot ci m ≡ norm ci x + 2)
      fresh [] _ = unfold well_formed in (refl, refl)
      fresh (y ∷ ys) k =
          go-well_formed go (y ∷ ys) k (node (x ∷ a) static nil none [])
            (unfold well_formed in refl)

      other :
          (c : Node H)
          → well_formed ci c ≡ true
          → shares (x ∷ a) ci c ≡ false
          → (slot ci c == norm ci x + 2) ≡ false
      other (node [] static ds h k) v e = unfold well_formed in cc
      other (node (y ∷ p) static ds h k) v e = unfold shares common_prefix in ground arith
      other (node p param ds h k) v e = ground arith
      other (node p catch_all ds h k) v e = ground arith

  insert_static-well_formed :
      (go : Bytes → Node H → Node H) (c : ℕ) (path : Bytes) (cs : Nodes H)
      → ((q : Bytes) → length q < suc (length path) → Keeps go q)
      → (c == b':') ≡ false
      → (c == b'*') ≡ false
      → well_formed_below ci cs ≡ true
      → well_formed_below ci (insert_static go (c ∷ path) handler ci cs) ≡ true
  unfolding insert_static
  insert_static-well_formed go c path cs keeps h k w =
      let cut = cut_static-Cut c path h k in
      let (a, rest) = cut_static (c ∷ path) in
      let (shorter, short) = Cut-lengths c path (a, rest) cut in
      insert_run-well_formed go a rest cs cut.nonempty
        (λ l pos. keeps (drop l a ++ rest) (shorter l pos)) (keeps rest short) w

  insert_step-well_formed :
      (go : Bytes → Node H → Node H) (c : ℕ) (path : Bytes) (cs : Nodes H)
      → ((q : Bytes) → length q < suc (length path) → Keeps go q)
      → well_formed_below ci cs ≡ true
      → well_formed_below ci (insert_step go handler ci c path cs) ≡ true
  unfolding insert_step
  insert_step-well_formed go c path cs keeps w = elim (Bool-cases (c == b':')) [
    | inl colon ↦ rw colon (
        insert_param-well_formed go path cs
          (keeps (from_slash path) (omega (arith, length-from_slash-le path))) w)
    | inr other ↦ elim (Bool-cases (c == b'*')) [
      | inl star ↦ rw (other, star) (insert_catch_all-well_formed path cs w)
      | inr literal ↦
          rw (other, literal) (insert_static-well_formed go c path cs keeps other literal w)
    ]
  ]

  pub insert_fuel-well_formed :
      (f : ℕ) (q : Bytes) → length q < f → Keeps (insert_fuel f handler ci) q
  unfolding insert_fuel
  insert_fuel-well_formed zero q short = absurd (omega arith)
  insert_fuel-well_formed (suc f) [] short = λ p ty cs h k w. (cs, handler, refl, w)
  insert_fuel-well_formed (suc f) (c ∷ path) short = λ p ty cs h k w. (
    _,
    h,
    refl,
    insert_step-well_formed (insert_fuel f handler ci) c path cs
        (λ q le. insert_fuel-well_formed f q (omega arith)) w,
  )
