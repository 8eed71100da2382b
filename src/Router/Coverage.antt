-- ===== src/Router/Coverage.antt =====
-- The handler that a built router finds and the declared routes.
use goichi.Prelude.{
  ◌≡◌, refl, sym, ap, Bool, true, false, ◌&&◌, ◌||◌, none, some, List, [], ◌∷◌, is_some, any, all,
  arith, Bool-cases, Option-cases, inl, inr, drop,
}
use goichi.Prelude.Text.{Bytes, bytes_eq, bytes_eq_iff}
use goichi.Http.{Context, Outcome, FastHttp, lookup}
use goichi.Tree.{Node, node, nil}
use goichi.Tree.Spec.{holds, offers, well_formed_below}
use goichi.Tree.Laws.{IsRoot, eq_of_iff, found-eq-offers, search-offers}
use goichi.Router.{RouteEntry, Router}
use goichi.Router.Paths.{match_path}
use goichi.Router.Compile.{
  compile, fold_case, empty_root, tree_of, place, build_entry, build_entries, build,
}
use goichi.Router.Dispatch.{find_handler, find_method}
use goichi.Router.Table.{has_slash, serves, finds, place-Grows, place-IsRoot, tree_of-insert}

-- Declared paths start with '/', as addRoute makes them.
abbrev pub Declared : {C : Type 0} → List (RouteEntry C) → Type 0
Declared es = all (λ e. has_slash e.path) es ≡ true

-- Every compiled handler is a func, not nil.
abbrev pub Callable : {C : Type 0} → Router C → List (RouteEntry C) → Type 0
Callable r es = all (λ e. is_some (compile r e)) es ≡ true

Callable-holds :
    {C : Type 0} (r : Router C) (es : List (RouteEntry C))
    → Callable r es
    → all (λ e. holds (λ _. true) (compile r e)) es ≡ true
Callable-holds r [] c = refl
Callable-holds r (e ∷ es) c = ground (arith, Callable-holds r es)

module _ {C : Type 0} (test : (Context C → Outcome C) → Bool) (r : Router C)
    (method s : Bytes) where
  -- The entry is declared for the method, its path serves the request path, and its compiled handler
  -- passes the test.
  abbrev pub entry_serves : RouteEntry C → Bool
  entry_serves e =
      bytes_eq e.method method
      && (holds test (compile r e) && serves (fold_case r) (match_path r.strict_slash e.path) s)

  abbrev pub tree_finds : List (Bytes × Node (Context C → Outcome C)) → Bool
  tree_finds trees = finds test (fold_case r) s (tree_of method trees)

  abbrev IsRooted : List (Bytes × Node (Context C → Outcome C)) → Type 0
  IsRooted trees = (m : Bytes) → IsRoot (fold_case r) (tree_of m trees)

  build_entry-IsRooted :
      (e : RouteEntry C) (trees : List (Bytes × Node (Context C → Outcome C)))
      → IsRooted trees
      → IsRooted (build_entry r e trees)
  unfolding build_entry
  build_entry-IsRooted e trees w m = elim (Bool-cases (bytes_eq e.method m)) [
    | inl same ↦ rw (tree_of-insert e.method m _ trees, same) (place-IsRoot _ _ _ _ _ (w e.method))
    | inr other ↦ rw (tree_of-insert e.method m _ trees, other) (w m)
  ]

  build_entry-same :
      (e : RouteEntry C) (trees : List (Bytes × Node (Context C → Outcome C)))
      → bytes_eq e.method method ≡ true
      → tree_finds (build_entry r e trees)
        ≡ finds test
            (fold_case r)
            s
            (place r.strict_slash (fold_case r) e.path (compile r e) (tree_of method trees))
  unfolding build_entry
  build_entry-same e trees same =
      rw (tree_of-insert e.method method _ trees, same)
        (ap
          (λ m.
            finds test (fold_case r) s
              (place r.strict_slash (fold_case r) e.path (compile r e) (tree_of m trees)))
          ((bytes_eq_iff e.method method).0 same))

  build_entry-other :
      (e : RouteEntry C) (trees : List (Bytes × Node (Context C → Outcome C)))
      → bytes_eq e.method method ≡ false
      → tree_finds (build_entry r e trees) ≡ tree_finds trees
  unfolding build_entry
  build_entry-other e trees other = rw (tree_of-insert e.method method _ trees, other) refl

  build_entry_sound :
      (e : RouteEntry C) (trees : List (Bytes × Node (Context C → Outcome C)))
      → IsRooted trees
      → has_slash e.path ≡ true
      → tree_finds (build_entry r e trees) ≡ true
      → (tree_finds trees || entry_serves e) ≡ true
  build_entry_sound e trees w slash h = elim (Bool-cases (bytes_eq e.method method)) [
    | inl same ↦
        let g =
          place-Grows test r.strict_slash (fold_case r) e.path s (compile r e)
            (tree_of method trees) (w method) slash in
        rw same (g.sound (rw (build_entry-same e trees same) at h))
    | inr other ↦ rw other (ground (arith, build_entry-other e trees other))
  ]

  build_entry_complete :
      (e : RouteEntry C) (trees : List (Bytes × Node (Context C → Outcome C)))
      → IsRooted trees
      → has_slash e.path ≡ true
      → holds test (compile r e) ≡ true
      → (tree_finds trees || entry_serves e) ≡ true
      → tree_finds (build_entry r e trees) ≡ true
  build_entry_complete e trees w slash t h = elim (Bool-cases (bytes_eq e.method method)) [
    | inl same ↦
        let g =
          place-Grows test r.strict_slash (fold_case r) e.path s (compile r e)
            (tree_of method trees) (w method) slash in
        rw (build_entry-same e trees same) (g.complete t (rw (same, t) at h))
    | inr other ↦ rw (build_entry-other e trees other) (ground arith)
  ]

  build_entries_sound :
      (es : List (RouteEntry C)) (trees : List (Bytes × Node (Context C → Outcome C)))
      → IsRooted trees
      → Declared es
      → tree_finds (build_entries r es trees) ≡ true
      → (tree_finds trees || any entry_serves es) ≡ true
  unfolding build_entries
  build_entries_sound [] trees w d h = ground arith
  build_entries_sound (e ∷ es) trees w d h = ground (
    arith,
    build_entries_sound es (build_entry r e trees) (build_entry-IsRooted e trees w),
    build_entry_sound e trees w,
  )

  build_entries_complete :
      (es : List (RouteEntry C)) (trees : List (Bytes × Node (Context C → Outcome C)))
      → IsRooted trees
      → Declared es
      → all (λ e. holds test (compile r e)) es ≡ true
      → (tree_finds trees || any entry_serves es) ≡ true
      → tree_finds (build_entries r es trees) ≡ true
  unfolding build_entries
  build_entries_complete [] trees w d t h = ground arith
  build_entries_complete (e ∷ es) trees w d t h = ground (
    arith,
    build_entries_complete es (build_entry r e trees) (build_entry-IsRooted e trees w),
    build_entry_complete e trees w,
  )

  build_entries-IsRooted :
      (es : List (RouteEntry C)) (trees : List (Bytes × Node (Context C → Outcome C)))
      → IsRooted trees
      → IsRooted (build_entries r es trees)
  unfolding build_entries
  build_entries-IsRooted [] trees w = w
  build_entries-IsRooted (e ∷ es) trees w =
      build_entries-IsRooted es (build_entry r e trees) (build_entry-IsRooted e trees w)

  none-IsRooted : IsRooted []
  unfolding lookup well_formed_below
  none-IsRooted m = record { kids = nil; own = none; name = []; shape = refl; good = refl }

module _ {C : Type 0} (ci : Bool) (s : Bytes) where
  find_handler-finds :
      (n : Node (Context C → Outcome C))
      → IsRoot ci n
      → is_some (find_handler ci s n) ≡ finds (λ _. true) ci s n
  unfolding find_handler
  find_handler-finds (node p ty cs none k) r =
      ground (arith, found-eq-offers ci (node p ty cs none k) (drop 1 s) r)
  find_handler-finds (node p ty cs (some h) k) r =
      ground (arith, found-eq-offers ci (node p ty cs (some h) k) (drop 1 s) r)

  find_handler-test :
      (test : (Context C → Outcome C) → Bool) (n : Node (Context C → Outcome C))
      (f : Context C → Outcome C) (params : List (Bytes × Bytes))
      → find_handler ci s n ≡ some (f, params)
      → test f ≡ true
      → finds test ci s n ≡ true
  unfolding find_handler
  find_handler-test test (node p ty cs none k) f params e t =
      ground (arith, search-offers ci (node p ty cs none k) (drop 1 s) test f params)
  find_handler-test test (node p ty cs (some h) k) f params e t =
      ground (arith, search-offers ci (node p ty cs (some h) k) (drop 1 s) test f params)

  finds-empty_root : (test : (Context C → Outcome C) → Bool) → finds test ci s empty_root ≡ false
  unfolding offers
  finds-empty_root test = ground arith

module _ {C : Type 0} (F : FastHttp C) (r : Router C) (method s : Bytes) where
  -- The tree of a method that was never declared finds nothing, as a missing tree does.
  find_method-finds :
      is_some (find_method (build F r) method s)
      ≡ finds (λ _. true) (fold_case r) s (tree_of method (build_entries r r.entries []))
  unfolding build
  find_method-finds = elim (Option-cases (lookup method (build_entries r r.entries []))) [
    | inl e ↦ rw (e, find_method, tree_of) (sym (finds-empty_root (fold_case r) s (λ _. true)))
    | inr (n, e) ↦
        let root =
          rw (e, tree_of) at
            (build_entries-IsRooted (λ _. true) r method s r.entries []
              (none-IsRooted (λ _. true) r method s) method) in
        rw (e, find_method, tree_of) (find_handler-finds (fold_case r) s n root)
  ]

  -- Where every compiled handler is a func, a built router finds a handler for a method and a path
  -- exactly if some declared route has that method and a pattern that accepts the path, whatever the
  -- order of the declarations.
  pub find_method-build :
      Declared r.entries
      → Callable r r.entries
      → is_some (find_method (build F r) method s)
        ≡ any (entry_serves (λ _. true) r method s) r.entries
  unfolding lookup
  find_method-build d t =
      let rooted = none-IsRooted (λ _. true) r method s in
      let every = Callable-holds r r.entries t in
      let start = finds-empty_root (fold_case r) s (λ (_ : Context C → Outcome C). true) in
      rw find_method-finds (
        eq_of_iff _ _
          (λ h. rw start at (build_entries_sound (λ _. true) r method s r.entries [] rooted d h))
          (λ h.
            build_entries_complete (λ _. true) r method s r.entries [] rooted d every (rw start h)))

  -- The handler that a built router finds is one that was compiled from a declared route of the
  -- method whose pattern accepts the path: it passes every test that none of these handlers fails. Declared
  -- paths start with a slash.
  pub find_method-origin :
      (test : (Context C → Outcome C) → Bool) (f : Context C → Outcome C)
      (params : List (Bytes × Bytes))
      → Declared r.entries
      → find_method (build F r) method s ≡ some (f, params)
      → test f ≡ true
      → any (entry_serves test r method s) r.entries ≡ true
  unfolding build lookup
  find_method-origin test f params d h t =
      elim (Option-cases (lookup method (build_entries r r.entries []))) [
        | inl e ↦ cc (rw (e, find_method) at h)
        | inr (n, e) ↦
            let finds_n =
              find_handler-test (fold_case r) s test n f params (rw (e, find_method) at h) t in
            let found : tree_finds test r method s (build_entries r r.entries []) ≡ true =
              rw (e, tree_of) finds_n in
            rw (finds-empty_root (fold_case r) s test) at (
              build_entries_sound test r method s r.entries [] (none-IsRooted test r method s) d
                found)
      ]
