-- ===== src/Tree/Shape/Siblings.antt =====
-- The children of a well-formed node after the loop over them.
use mathlib.Core.Option
use goichi.Prelude.{
  ℕ, ◌≡◌, refl, Bool, true, false, ◌==◌, arith, none, some, Option-cases, Bool-cases, inl, inr,
}
use goichi.Tree.{Node, Nodes, nil, cons, append, update_first, or_append}
use goichi.Tree.Spec.{slot, absent, well_formed, well_formed_below}

module _ {H : Type 0} (ci : Bool) where
  absent-append :
      (place : ℕ) (cs : Nodes H) (m : Node H)
      → absent ci place cs ≡ true
      → (slot ci m == place) ≡ false
      → absent ci place (append cs m) ≡ true
  unfolding absent
  absent-append place nil m w e = ground arith
  absent-append place (cons c cs) m w e = ground (arith, absent-append place cs m)

  well_formed_below-append :
      (cs : Nodes H) (m : Node H)
      → well_formed_below ci cs ≡ true
      → well_formed ci m ≡ true
      → absent ci (slot ci m) cs ≡ true
      → well_formed_below ci (append cs m) ≡ true
  unfolding well_formed absent
  well_formed_below-append nil m w e a = ground arith
  well_formed_below-append (cons c cs) m w e a =
      ground (arith, well_formed_below-append cs m, absent-append (slot ci c) cs m)

  module _ (pick : Node H → Bool) (change : Node H → Node H)
      (better : (c : Node H)
        → pick c ≡ true
        → well_formed ci c ≡ true
        → (well_formed ci (change c) ≡ true) × (slot ci (change c) ≡ slot ci c)) where
    absent-update_first :
        (place : ℕ) (cs ds : Nodes H)
        → update_first pick change cs ≡ some ds
        → well_formed_below ci cs ≡ true
        → absent ci place cs ≡ true
        → absent ci place ds ≡ true
    unfolding update_first absent well_formed
    absent-update_first place nil ds e w a = cc
    absent-update_first place (cons c cs) ds e w a = elim (Bool-cases (pick c)) [
      | inl h ↦
          let same : cons (change c) cs ≡ ds = ground arith in
          rw (← same) (ground (arith, better c h))
      | inr h ↦
          let (rest, found, same) = (Option.map-eq-some_iff _ _).0 (rw (h, update_first) at e) in
          rw (← same) (ground (arith, absent-update_first place cs rest found))
    ]

    well_formed_below-update_first :
        (cs ds : Nodes H)
        → update_first pick change cs ≡ some ds
        → well_formed_below ci cs ≡ true
        → well_formed_below ci ds ≡ true
    unfolding update_first well_formed
    well_formed_below-update_first nil ds e w = cc
    well_formed_below-update_first (cons c cs) ds e w = elim (Bool-cases (pick c)) [
      | inl h ↦
          let same : cons (change c) cs ≡ ds = ground arith in
          rw (← same) (ground (arith, better c h))
      | inr h ↦
          let (rest, found, same) = (Option.map-eq-some_iff _ _).0 (rw (h, update_first) at e) in
          rw (← same) (
            ground (
              arith,
              well_formed_below-update_first cs rest found,
              absent-update_first (slot ci c) cs rest found,
            ))
    ]

    -- The loop ends without a pick only where nobody competes with the fresh child.
    absent-none :
        (place : ℕ) (cs : Nodes H)
        → ((c : Node H) → well_formed ci c ≡ true → pick c ≡ false → (slot ci c == place) ≡ false)
        → update_first pick change cs ≡ none
        → well_formed_below ci cs ≡ true
        → absent ci place cs ≡ true
    unfolding update_first absent well_formed
    absent-none place nil other e w = refl
    absent-none place (cons c cs) other e w = ground (arith, other c, absent-none place cs other)

    pub or_append-well_formed :
        (cs : Nodes H) (m : Node H)
        → well_formed_below ci cs ≡ true
        → well_formed ci m ≡ true
        → ((c : Node H)
            → well_formed ci c ≡ true
            → pick c ≡ false
            → (slot ci c == slot ci m) ≡ false)
        → well_formed_below ci (or_append (update_first pick change cs) cs m) ≡ true
    or_append-well_formed cs m w fresh other = elim (Option-cases (update_first pick change cs)) [
      | inl e ↦ rw e (well_formed_below-append cs m w fresh (absent-none (slot ci m) cs other e w))
      | inr (ds, e) ↦ rw e (well_formed_below-update_first cs ds e w)
    ]
