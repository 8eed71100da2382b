-- ===== src/Tree/Termination.antt =====
-- The loop of `insert` ends before its fuel does.
use mathlib.Core.Option
use goichi.Prelude.{
  ℕ, zero, suc, ◌<◌, ◌≡◌, refl, ap, ◌∙◌, Bool, true, false, ◌==◌, if◌then◌else◌, ◌++◌, length,
  is_empty, drop, arith, Option, none, some, [], ◌∷◌, Bool-cases, inl, inr,
}
use goichi.Prelude.Text.{Bytes}
use goichi.Tree.{
  Node, Nodes, node, nil, cons, NodeType, static, param, catch_all, update_first, or_append,
  is_type, insert_param, insert_catch_all, shares, descend, insert_run, insert_static, insert_step,
  insert_fuel, common_prefix, cut_slash, cut_static,
}
use goichi.Tree
use goichi.Tree.Prefix.{Cut-lengths, cut_slash_lem, length-from_slash-le, cut_static-Cut}

module _ {H : Type 0} (ci : Bool) (handler : Option H) where
  abbrev Go : Type 0
  Go = Bytes → Node H → Node H

  -- Two continuations do the same with a path.
  abbrev Agree : Go → Go → Bytes → Type 0
  Agree go go' q = (n : Node H) → go q n ≡ go' q n

  update_first-Agree :
      (pick : Node H → Bool) (change change' : Node H → Node H) (cs : Nodes H)
      → ((n : Node H) → pick n ≡ true → change n ≡ change' n)
      → update_first pick change cs ≡ update_first pick change' cs
  unfolding update_first
  update_first-Agree pick change change' nil same = refl
  update_first-Agree pick change change' (cons c cs) same = elim (Bool-cases (pick c)) [
    | inl h ↦ rw h (ap (λ d. some (cons d cs)) (same c h))
    | inr h ↦ rw h (ap (Option.map (cons c)) (update_first-Agree pick change change' cs same))
  ]

  module _ (go go' : Go) where
    insert_param-Agree :
        (path : Bytes) (cs : Nodes H)
        → Agree go go' (cut_slash path).1
        → insert_param go path cs ≡ insert_param go' path cs
    unfolding insert_param
    insert_param-Agree path cs same =
        ap (λ o. or_append o cs (go (cut_slash path).1 (node [] param nil none (cut_slash path).0)))
          (update_first-Agree (is_type param) (go (cut_slash path).1) (go' (cut_slash path).1) cs
            (λ n e. same n))
        ∙ ap (or_append (update_first (is_type param) (go' (cut_slash path).1) cs) cs)
            (same (node [] param nil none (cut_slash path).0))

    descend-Agree :
        (a rest : Bytes) (n : Node H)
        → ((l : ℕ) → 0 < l → Agree go go' (drop l a ++ rest))
        → shares a ci n ≡ true
        → descend go a rest ci n ≡ descend go' a rest ci n
    unfolding shares descend
    descend-Agree a rest (node p ty cs h k) same e =
        same (common_prefix p a ci) (ground (arith, e)) _

    insert_run-Agree :
        (a rest : Bytes) (cs : Nodes H)
        → ((l : ℕ) → 0 < l → Agree go go' (drop l a ++ rest))
        → Agree go go' rest
        → insert_run go a rest handler ci cs ≡ insert_run go' a rest handler ci cs
    unfolding insert_run
    insert_run-Agree a rest cs same same_rest =
        ap
          (λ o. or_append o cs (
            if is_empty rest
            then node a static nil handler []
            else go rest (node a static nil none [])))
          (update_first-Agree (shares a ci) (descend go a rest ci) (descend go' a rest ci) cs
            (λ n. descend-Agree a rest n same))
        ∙ ap
            (λ m.
              or_append (update_first (shares a ci) (descend go' a rest ci) cs) cs
                (if is_empty rest then node a static nil handler [] else m))
            (same_rest (node a static nil none []))

    insert_static-Agree :
        (c : ℕ) (path : Bytes) (cs : Nodes H)
        → ((q : Bytes) → length q < suc (length path) → Agree go go' q)
        → (c == b':') ≡ false
        → (c == b'*') ≡ false
        → insert_static go (c ∷ path) handler ci cs ≡ insert_static go' (c ∷ path) handler ci cs
    unfolding insert_static
    insert_static-Agree c path cs same h k =
        let cut = cut_static-Cut c path h k in
        let (a, rest) = cut_static (c ∷ path) in
        let (shorter, short) = Cut-lengths c path (a, rest) cut in
        insert_run-Agree a rest cs (λ l pos. same (drop l a ++ rest) (shorter l pos))
          (same rest short)

    insert_step-Agree :
        (c : ℕ) (path : Bytes) (cs : Nodes H)
        → ((q : Bytes) → length q < suc (length path) → Agree go go' q)
        → insert_step go handler ci c path cs ≡ insert_step go' handler ci c path cs
    unfolding insert_step
    insert_step-Agree c path cs same = elim (Bool-cases (c == b':')) [
      | inl colon ↦
          let short : length (cut_slash path).1 < suc (length path) =
            omega (arith, ap length (cut_slash_lem path).1, length-from_slash-le path) in
          rw colon (insert_param-Agree path cs (same (cut_slash path).1 short))
      | inr other ↦ elim (Bool-cases (c == b'*')) [
        | inl star ↦ rw (other, star) refl
        | inr literal ↦ rw (other, literal) (insert_static-Agree c path cs same other literal)
      ]
    ]

  fuel_free :
      (f f' : ℕ) (q : Bytes) (n : Node H)
      → length q < f
      → length q < f'
      → insert_fuel f handler ci q n ≡ insert_fuel f' handler ci q n
  unfolding insert_fuel
  fuel_free zero f' q n short short' = absurd (omega arith)
  fuel_free (suc f) zero q n short short' = absurd (omega arith)
  fuel_free (suc f) (suc f') [] (node p ty cs h k) short short' = refl
  fuel_free (suc f) (suc f') (c ∷ path) (node p ty cs h k) short short' =
      ap (λ ds. node p ty ds h k)
        (insert_step-Agree (insert_fuel f handler ci) (insert_fuel f' handler ci) c path cs
          (λ q le m. fuel_free f f' q m (omega (arith, le, short)) (omega (arith, le, short'))))

  -- The loop of an insertion ends of itself: with any fuel above the length of the path the result is the
  -- same, on every tree.
  pub insert_fuel_enough :
      (f : ℕ) (path : Bytes) (n : Node H)
      → length path < f
      → insert_fuel f handler ci path n ≡ Tree.insert n path handler ci
  unfolding Tree.insert
  insert_fuel_enough f path n enough = fuel_free f (suc (length path)) path n enough (omega arith)
