-- ===== src/Router/Methods.antt =====
-- Which methods a router allows for a path, and the answer it decides on: 404, 405, OPTIONS, HEAD by
-- GET, or the handler.
use goichi.Prelude.{
  ◌≡◌, refl, subst, ◌∙◌, Bool, true, false, not, ◌&&◌, ◌||◌, Option, none, some, List, [], ◌∷◌,
  if◌then◌else◌, is_some, any, arith, Bool-cases, Option-cases, inl, inr, is_empty,
}
use goichi.Prelude.Text.{Bytes, bytes_eq, bytes_eq_iff, bytes_eq_refl, codes}
use goichi.Http
use goichi.Http.{Context, Outcome, Handler, FastHttp, lookup}
use goichi.Http.Maps.{lookup-insert}
use goichi.Tree.{Node}
use goichi.Router.{RouteEntry, Router}
use goichi.Router.Compile.{fold_case, build_entry, build_entries, build}
use goichi.Router.Dispatch.{
  find_handler, find_method, methods_with, allowed_methods, sort, sort_insert, contains, Decision,
  handle, handle_head, answer_options, answer_not_allowed, answer_not_found, decide, decide_other,
}
use goichi.Router.Coverage.{entry_serves, Declared, Callable, find_method-build}

contains-sort_insert :
    (x m : Bytes) (xs : List Bytes)
    → contains (sort_insert x xs) m ≡ (bytes_eq x m || contains xs m)
unfolding sort_insert
contains-sort_insert x m [] = refl
contains-sort_insert x m (y ∷ ys) = ground (arith, contains-sort_insert x m ys)

contains-sort : (xs : List Bytes) (m : Bytes) → contains (sort xs) m ≡ contains xs m
unfolding sort
contains-sort [] m = refl
contains-sort (x ∷ xs) m = ground (arith, contains-sort_insert x m (sort xs), contains-sort xs m)

module _ {C : Type 0} where
  abbrev has_key : Bytes → List (Bytes × Node (Context C → Outcome C)) → Bool
  has_key k m = is_some (lookup k m)

  -- Each method has one tree.
  abbrev IsMap : List (Bytes × Node (Context C → Outcome C)) → Type 0
  IsMap [] = Unit
  IsMap ((k, v) ∷ m) = (has_key k m ≡ false) × IsMap m

  has_key-insert :
      (k j : Bytes) (v : Node (Context C → Outcome C))
      (m : List (Bytes × Node (Context C → Outcome C)))
      → has_key j (Http.insert k v m) ≡ (bytes_eq k j || has_key j m)
  has_key-insert k j v m = ground (arith, lookup-insert k j v m)

  insert-IsMap :
      (k : Bytes) (v : Node (Context C → Outcome C))
      (m : List (Bytes × Node (Context C → Outcome C)))
      → IsMap m
      → IsMap (Http.insert k v m)
  unfolding Http.insert lookup
  insert-IsMap k v [] w = (refl, tt)
  insert-IsMap k v ((j, u) ∷ m) (fresh, w) = elim (Bool-cases (bytes_eq j k)) [
    | inl same ↦ rw same (subst (λ x. has_key x m ≡ false) ((bytes_eq_iff j k).0 same) fresh, w)
    | inr other ↦ rw other (
      has_key-insert k j v m ∙ ground (arith, bytes_eq_iff j k, bytes_eq_iff k j),
      insert-IsMap k v m w,
    )
  ]

  build_entries-IsMap :
      (r : Router C) (es : List (RouteEntry C)) (m : List (Bytes × Node (Context C → Outcome C)))
      → IsMap m
      → IsMap (build_entries r es m)
  unfolding build_entries build_entry
  build_entries-IsMap r [] m w = w
  build_entries-IsMap r (e ∷ es) m w = build_entries-IsMap r es _ (insert-IsMap e.method _ m w)

  abbrev found_in : Bool → Bytes → Bytes → List (Bytes × Node (Context C → Outcome C)) → Bool
  found_in ci s method m = elim (lookup method m) [
    | none ↦ false
    | some root ↦ is_some (find_handler ci s root)
  ]

  contains-methods_with_none :
      (ci : Bool) (s method : Bytes) (m : List (Bytes × Node (Context C → Outcome C)))
      → has_key method m ≡ false
      → contains (methods_with ci s m) method ≡ false
  unfolding methods_with lookup
  contains-methods_with_none ci s method [] h = refl
  contains-methods_with_none ci s method ((k, n) ∷ m) h =
      ground (arith, contains-methods_with_none ci s method m)

  contains-methods_with :
      (ci : Bool) (s method : Bytes) (m : List (Bytes × Node (Context C → Outcome C)))
      → IsMap m
      → contains (methods_with ci s m) method ≡ found_in ci s method m
  unfolding methods_with lookup
  contains-methods_with ci s method [] w = refl
  contains-methods_with ci s method ((k, n) ∷ m) (fresh, w) =
      elim (Bool-cases (bytes_eq k method)) [
        | inl same ↦
            let gone =
              contains-methods_with_none ci s method m
                (subst (λ x. has_key x m ≡ false) ((bytes_eq_iff k method).0 same) fresh) in
            ground (arith, gone)
        | inr other ↦ ground (arith, contains-methods_with ci s method m w)
      ]

  found_in-find_method :
      (r : Router C) (s method : Bytes)
      → found_in (fold_case r) s method r.trees ≡ is_some (find_method r method s)
  found_in-find_method r s method = elim (Option-cases (lookup method r.trees)) [
    | inl e ↦ rw (e, found_in, find_method) refl
    | inr (n, e) ↦ rw (e, found_in, find_method) refl
  ]

-- The kinds of answers.
pub data Answer : Type 0 where
  by_handler by_get options not_allowed not_found : Answer

abbrev pub kind : {C : Type 0} → Decision C → Answer
kind (handle h params) = by_handler
kind (handle_head h params) = by_get
kind (answer_options allowed) = options
kind (answer_not_allowed allowed) = not_allowed
kind answer_not_found = not_found

module _ {C : Type 0} (F : FastHttp C) (r : Router C) (s : Bytes) where
  -- Some declared route serves the path under the method.
  abbrev pub served_by : Bytes → Bool
  served_by method = any (entry_serves (λ _. true) r method s) r.entries

  -- The methods that a built router allows for a path are those of the declared routes that serve
  -- it. Every compiled handler is a func, and declared paths start with a slash.
  pub contains-allowed_methods :
      Declared r.entries
      → Callable r r.entries
      → (method : Bytes) → contains (allowed_methods (build F r) s) method ≡ served_by method
  unfolding allowed_methods build
  contains-allowed_methods d c method =
      contains-sort (methods_with (fold_case r) s (build_entries r r.entries [])) method
      ∙ contains-methods_with (fold_case r) s method (build_entries r r.entries [])
          (build_entries-IsMap r r.entries [] tt)
      ∙ found_in-find_method (build F r) s method
      ∙ find_method-build F r method s d c

  -- Some declared route serves the path, under whatever method.
  abbrev pub served_at_all : Bool
  served_at_all = any (λ e. entry_serves (λ _. true) r e.method s e) r.entries

  any-entry_serves :
      (method : Bytes) (es : List (RouteEntry C))
      → any (entry_serves (λ _. true) r method s) es ≡ true
      → any (λ e. entry_serves (λ _. true) r e.method s e) es ≡ true
  any-entry_serves method [] h = h
  any-entry_serves method (e ∷ es) h =
      ground (arith, any-entry_serves method es, bytes_eq_refl e.method)

  some_method :
      (es : List (RouteEntry C))
      → any (λ e. entry_serves (λ _. true) r e.method s e) es ≡ true
      → (method : Bytes) × (any (entry_serves (λ _. true) r method s) es ≡ true)
  some_method [] h = cc h
  some_method (e ∷ es) h = elim (Bool-cases (entry_serves (λ _. true) r e.method s e)) [
    | inl does ↦ (e.method, ground (arith, does))
    | inr isnt ↦
        let (m, found) = some_method es (ground (arith, isnt)) in (m, ground (arith, found))
  ]

  is_empty_of :
      (allowed : List Bytes)
      → ((method : Bytes) → contains allowed method ≡ served_by method)
      → is_empty allowed ≡ not served_at_all
  is_empty_of [] same = elim (Bool-cases served_at_all) [
    | inl does ↦ let (m, found) = some_method r.entries does in ground (arith, same m, found)
    | inr isnt ↦ rw isnt refl
  ]
  is_empty_of (x ∷ xs) same =
      rw (any-entry_serves x r.entries (ground (arith, same x, bytes_eq_refl x))) refl

  -- The answer by the declared routes that serve the path.
  abbrev pub answer_to : Bytes → Answer
  answer_to method =
      if served_by method
      then by_handler
      else if not served_at_all
      then not_found
      else if bytes_eq method (codes "OPTIONS")
      then options
      else if bytes_eq method (codes "HEAD") && served_by (codes "GET")
      then by_get
      else not_allowed

  decide_other-kind :
      (method : Bytes) (allowed : List Bytes) (by_get_too : Bool)
      → contains allowed (codes "GET") ≡ by_get_too
      → is_some (find_method (build F r) (codes "GET") s) ≡ by_get_too
      → kind (decide_other (build F r) method s allowed) ≡ (
          if is_empty allowed
          then not_found
          else if bytes_eq method (codes "OPTIONS")
          then options
          else if bytes_eq method (codes "HEAD") && by_get_too
          then by_get
          else not_allowed)
  unfolding decide_other
  decide_other-kind method [] b e g = refl
  decide_other-kind method (x ∷ xs) b e g = ground arith

  decide-kind_of :
      (method : Bytes) (found : Option ((Context C → Outcome C) × List (Bytes × Bytes)))
      → find_method (build F r) method s ≡ found
      → is_some found ≡ served_by method
      → kind (decide_other (build F r) method s (allowed_methods (build F r) s)) ≡ (
          if is_empty (allowed_methods (build F r) s)
          then not_found
          else if bytes_eq method (codes "OPTIONS")
          then options
          else if bytes_eq method (codes "HEAD") && served_by (codes "GET")
          then by_get
          else not_allowed)
      → is_empty (allowed_methods (build F r) s) ≡ not served_at_all
      → kind (decide (build F r) method s) ≡ answer_to method
  decide-kind_of method none e own other empty =
      unfold decide in rw (e, kind) (ground (arith, other, empty, own))
  decide-kind_of method (some (h, params)) e own other empty =
      unfold decide in rw (e, kind) (ground (arith, own))

  -- What a built router does with a request follows from the declared routes that serve the path:
  -- the handler of the request's own method if one has it; 404 if none has any; else the answer to
  -- OPTIONS, the GET handler for a HEAD request, or 405. Every compiled handler is a func, and
  -- declared paths start with a slash.
  pub decide-kind :
      Declared r.entries
      → Callable r r.entries
      → (method : Bytes) → kind (decide (build F r) method s) ≡ answer_to method
  decide-kind d c method =
      let other =
        decide_other-kind method (allowed_methods (build F r) s) (served_by (codes "GET"))
          (contains-allowed_methods d c (codes "GET"))
          (find_method-build F r (codes "GET") s d c) in
      let empty = is_empty_of (allowed_methods (build F r) s) (contains-allowed_methods d c) in
      let own = find_method-build F r method s d c in
      decide-kind_of method (find_method (build F r) method s) refl own other empty
