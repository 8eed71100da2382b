-- ===== src/Tree/Insertion/Siblings.antt =====
-- What the children of a node offer after the loop over them.
use mathlib.Core.Option
use goichi.Prelude.{
  ◌≡◌, Bool, true, false, ◌||◌, arith, Option, some, Option-cases, Bool-cases, inl, inr,
}
use goichi.Prelude.Text.{Bytes}
use goichi.Tree.{Node, Nodes, nil, cons, append, update_first, or_append}
use goichi.Tree.Spec.{holds, offers, offers_below}
use goichi.Tree.Grows.{Grows, Grows-or, Grows-or_left, Grows-more}

module _ {H : Type 0} (test : H → Bool) (ci : Bool) (handler : Option H) where
  offers_below-append :
      (cs : Nodes H) (m : Node H) (s : Bytes)
      → offers_below test ci (append cs m) s ≡ (offers_below test ci cs s || offers test ci m s)
  unfolding offers
  offers_below-append nil m s = ground arith
  offers_below-append (cons c cs) m s = ground (arith, offers_below-append cs m s)

  module _ (pick : Node H → Bool) (change : Node H → Node H) (b : Bool) (s : Bytes)
      (better : (c : Node H)
        → pick c ≡ true
        → Grows (holds test handler) b (offers test ci c s) (offers test ci (change c) s)) where
    update_first-Grows :
        (cs ds : Nodes H)
        → update_first pick change cs ≡ some ds
        → Grows (holds test handler) b (offers_below test ci cs s) (offers_below test ci ds s)
    unfolding update_first offers
    update_first-Grows nil ds e = cc
    update_first-Grows (cons c cs) ds e = elim (Bool-cases (pick c)) [
      | inl h ↦
          let same : cons (change c) cs ≡ ds = ground arith in
          rw (← same) (Grows-or (holds test handler) (offers_below test ci cs s) (better c h))
      | inr h ↦
          let (rest, found, same) = (Option.map-eq-some_iff _ _).0 (rw (h, update_first) at e) in
          rw (← same) (
            Grows-or_left (holds test handler) (offers test ci c s)
              (update_first-Grows cs rest found))
    ]

    -- The children after the loop of a case of `insert`, whichever way it ends.
    pub or_append-Grows :
        (cs : Nodes H) (m : Node H)
        → Grows (holds test handler) b false (offers test ci m s)
        → Grows
            (holds test handler)
            b
            (offers_below test ci cs s)
            (offers_below test ci (or_append (update_first pick change cs) cs m) s)
    or_append-Grows cs m fresh = elim (Option-cases (update_first pick change cs)) [
      | inl e ↦ rw e (rw (offers_below-append cs m s) (Grows-more (holds test handler) _ fresh))
      | inr (ds, e) ↦ rw e (update_first-Grows cs ds e)
    ]
