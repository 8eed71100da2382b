-- ===== src/Tree/Matching.antt =====
-- `match` and what a tree offers for a path.
use goichi.Prelude.{
  ◌≡◌, refl, Bool, true, false, ◌&&◌, ◌||◌, List, [], ◌∷◌, ◌++◌, length, is_empty, drop, arith,
  Option, none, some, is_some,
}
use goichi.Prelude.Text.{Bytes}
use goichi.Tree.{
  Node, Nodes, node, nil, cons, NodeType, static, param, catch_all, Capture, bare_catch_all,
  try_children, match, match_children, cut_slash,
}
use goichi.Tree.Spec.{
  starts, until_slash, holds, offers, offers_below, well_formed, well_formed_below, children_of,
}
use goichi.Tree.Prefix.{cut_slash_lem, has_prefix-eq-starts}

module _ {H : Type 0} where
  abbrev pub passes : (H → Bool) → Option (H × List Capture) → Bool
  passes test none = false
  passes test (some (h, caps)) = test h

module _ {H : Type 0} (test : H → Bool) (ci : Bool) where
  bare_catch_all_sound :
      (cs : Nodes H) (caps : List Capture)
      → passes test (bare_catch_all cs caps) ≡ true
      → offers_below test ci cs [] ≡ true
  unfolding offers
  bare_catch_all_sound nil caps e = e
  bare_catch_all_sound (cons (node p static ds h k) cs) caps e =
      ground (arith, bare_catch_all_sound cs caps)
  bare_catch_all_sound (cons (node p param ds h k) cs) caps e =
      ground (arith, bare_catch_all_sound cs caps)
  bare_catch_all_sound (cons (node p catch_all ds none k) cs) caps e =
      ground (arith, bare_catch_all_sound cs caps)
  bare_catch_all_sound (cons (node p catch_all ds (some h) k) cs) caps e = ground arith

  bare_catch_all_complete :
      (cs : Nodes H) (caps : List Capture)
      → well_formed_below ci cs ≡ true
      → offers_below test ci cs [] ≡ true
      → is_some (bare_catch_all cs caps) ≡ true
  unfolding offers well_formed starts until_slash
  bare_catch_all_complete nil caps w e = e
  bare_catch_all_complete (cons (node [] static ds h k) cs) caps w e = cc
  bare_catch_all_complete (cons (node (x ∷ p) static ds h k) cs) caps w e =
      ground (arith, bare_catch_all_complete cs caps)
  bare_catch_all_complete (cons (node p param ds h k) cs) caps w e =
      ground (arith, bare_catch_all_complete cs caps)
  bare_catch_all_complete (cons (node p catch_all ds none k) cs) caps w e =
      ground (arith, bare_catch_all_complete cs caps)
  bare_catch_all_complete (cons (node p catch_all ds (some h) k) cs) caps w e = refl

  -- The three passes over the children.
  try_children_sound :
      (h : Option H) (cs : Nodes H) (s : Bytes) (caps : List Capture)
      (try : NodeType → Option (H × List Capture))
      → ((want : NodeType) → passes test (try want) ≡ true → offers_below test ci cs s ≡ true)
      → passes test (try_children h cs s caps try) ≡ true
      → ((is_empty s && holds test h) || offers_below test ci cs s) ≡ true
  try_children_sound none cs [] caps try each e = ground (arith, bare_catch_all_sound cs caps)
  try_children_sound (some h) cs [] caps try each e = ground arith
  try_children_sound h cs (x ∷ s) caps try each e =
      ground (arith, each static, each param, each catch_all)

  abbrev found : (NodeType → Option (H × List Capture)) → Bool
  found try = is_some (try static) || (is_some (try param) || is_some (try catch_all))

  try_children_complete :
      (h : Option H) (cs : Nodes H) (s : Bytes) (caps : List Capture)
      (try : NodeType → Option (H × List Capture))
      → well_formed_below ci cs ≡ true
      → (offers_below test ci cs s ≡ true → found try ≡ true)
      → ((is_empty s && holds test h) || offers_below test ci cs s) ≡ true
      → is_some (try_children h cs s caps try) ≡ true
  try_children_complete none cs [] caps try w each e = bare_catch_all_complete cs caps w e
  try_children_complete (some h) cs [] caps try w each e = refl
  try_children_complete h cs (x ∷ s) caps try w each e = ground (arith, each e)

  mutual
    unfolding match offers well_formed

    pub match_sound_walk :
        (n : Node H) (s : Bytes) (caps : List Capture)
        → passes test (match n s caps ci) ≡ true
        → offers test ci n s ≡ true
    match_sound_walk (node p static cs h k) s caps e =
        let rest = drop (length p) s in
        let below =
          try_children_sound h cs rest caps (λ want. match_children cs want rest caps ci)
            (λ want. match_children_sound cs want rest caps) in
        ground (arith, has_prefix-eq-starts s p ci, below)
    match_sound_walk (node p param cs h k) s caps e =
        let rest = (cut_slash s).1 in
        let caps' = caps ++ record { key = k; value = (cut_slash s).0 } ∷ [] in
        let below =
          try_children_sound h cs rest caps' (λ want. match_children cs want rest caps' ci)
            (λ want. match_children_sound cs want rest caps') in
        rw (← (cut_slash_lem s).0, ← (cut_slash_lem s).1) (ground (arith, below))
    match_sound_walk (node p catch_all cs h k) s caps e = ground arith

    pub match_children_sound :
        (cs : Nodes H) (want : NodeType) (s : Bytes) (caps : List Capture)
        → passes test (match_children cs want s caps ci) ≡ true
        → offers_below test ci cs s ≡ true
    match_children_sound nil want s caps e = e
    match_children_sound (cons c cs) want s caps e =
        ground (arith, match_sound_walk c s caps, match_children_sound cs want s caps)

  mutual
    unfolding match offers well_formed

    pub match_complete_walk :
        (n : Node H) (s : Bytes) (caps : List Capture)
        → well_formed_below ci (children_of n) ≡ true
        → offers test ci n s ≡ true
        → is_some (match n s caps ci) ≡ true
    match_complete_walk (node p static cs h k) s caps w e =
        let rest = drop (length p) s in
        let below =
          try_children_complete h cs rest caps (λ want. match_children cs want rest caps ci) w
            (match_children_complete cs rest caps w) in
        ground (arith, has_prefix-eq-starts s p ci, below)
    match_complete_walk (node p param cs h k) s caps w e =
        let rest = (cut_slash s).1 in
        let caps' = caps ++ record { key = k; value = (cut_slash s).0 } ∷ [] in
        let below =
          try_children_complete h cs rest caps' (λ want. match_children cs want rest caps' ci) w
            (match_children_complete cs rest caps' w) in
        let e' = rw (← (cut_slash_lem s).0, ← (cut_slash_lem s).1) at e in ground (arith, below, e')
    match_complete_walk (node p catch_all cs h k) s caps w e = ground arith

    pub match_children_complete :
        (cs : Nodes H) (s : Bytes) (caps : List Capture)
        → well_formed_below ci cs ≡ true
        → offers_below test ci cs s ≡ true
        → found (λ want. match_children cs want s caps ci) ≡ true
    match_children_complete nil s caps w e = cc
    match_children_complete (cons c cs) s caps w e =
        ground (arith, match_complete_walk c s caps, match_children_complete cs s caps)
