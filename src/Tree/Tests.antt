-- ===== src/Tree/Tests.antt =====
-- Runs of node.go on small route tables.
use goichi.Prelude.{
  ℕ, ◌≡◌, refl, true, false, none, some, [], ◌∷◌, ◌==◌, ◌||◌, ◌&&◌, is_some, arith,
}
use goichi.Prelude.Text.{codes}
use goichi.Tree.Spec.{accepts, holds, offers, well_formed_below}
use goichi.Tree.Laws.{
  IsRoot, insert-IsRoot, search-insert, search-insert_literal, offers-insert_sound,
}
use goichi.Tree.{Node, Nodes, node, nil, static, insert, insert_fuel, search}
use goichi.Tree.Prefix.{is_literal}
use goichi.Tree.Termination.{insert_fuel_enough}

abbrev root : Node ℕ
root = node [] static nil none []

abbrev table : Node ℕ
table =
    insert
      (insert
        (insert (insert root (codes "users/:id") (some 1) true) (codes "users/new") (some 2) true)
        (codes "Users/:id/posts") (some 3) true)
      (codes "files/*rest") (some 4) true

table_runs :
    (search table (codes "users/new") true ≡ some (2, []))
    × (search table (codes "USERS/New2") true ≡ some (1, (codes "id", codes "New2") ∷ []))
    × (search table (codes "users/7/posts") true ≡ some (3, (codes "id", codes "7") ∷ []))
    × (search table (codes "files/") true ≡ some (4, (codes "rest", []) ∷ []))
    × (search table (codes "users/") true ≡ none)
unfolding insert search
table_runs = (refl, refl, refl, refl, refl)

root-IsRoot : IsRoot true root
unfolding well_formed_below
root-IsRoot = record { kids = nil; own = none; name = []; shape = refl; good = refl }

insert-IsRoot_example : IsRoot true (insert root (codes "users/:id") (some 1) true)
insert-IsRoot_example = insert-IsRoot true root (codes "users/:id") (some 1) root-IsRoot

table-IsRoot : IsRoot true table
table-IsRoot = insert-IsRoot true _ (codes "files/*rest") (some 4) (
    insert-IsRoot true _ (codes "Users/:id/posts") (some 3) (
      insert-IsRoot true _ (codes "users/new") (some 2)
        (insert-IsRoot true root (codes "users/:id") (some 1) root-IsRoot)))

search-insert_example :
    is_some (search (insert table (codes "users/next") (some 5) true) (codes "users/next") true) ≡ (
      is_some (search table (codes "users/next") true)
      || accepts false true (codes "users/next") (codes "users/next"))
search-insert_example =
    search-insert true table (codes "users/next") (codes "users/next") 5 table-IsRoot

-- The pattern splits the node of "users/new", beside the parameter that also matches.
search-insert_literal_example :
    search (insert table (codes "users/next") (some 5) true) (codes "Users/NEXT") true
    ≡ some (5, [])
unfolding is_literal accepts goichi.Tree.Spec.starts goichi.Tree.norm
search-insert_literal_example =
    search-insert_literal true table (codes "users/next") (codes "Users/NEXT") 5 table-IsRoot refl
      refl

abbrev base : Node ℕ
base = insert root (codes "users/new") (some 2) true

offers-insert_sound_example :
    (offers (λ h. h == 4) true base (codes "users/9")
      || (holds (λ h. h == 4) (some 4) && accepts false true (codes "users/:id") (codes "users/9")))
    ≡ true
unfolding insert offers goichi.Tree.Spec.starts goichi.Tree.Spec.until_slash
    goichi.Tree.Spec.from_slash
offers-insert_sound_example =
    offers-insert_sound true (λ h. h == 4) base (codes "users/:id") (codes "users/9") (some 4)
      (insert-IsRoot true root (codes "users/new") (some 2) root-IsRoot) refl

insert_fuel_enough_example :
    insert_fuel 40 (some 5) true (codes "users/:id/x") table
    ≡ insert table (codes "users/:id/x") (some 5) true
insert_fuel_enough_example =
    insert_fuel_enough true (some 5) 40 (codes "users/:id/x") table (omega arith)
