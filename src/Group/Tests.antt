-- ===== src/Group/Tests.antt =====
-- A group in a group, at which the theorem on nested groups holds.
use goichi.Prelude.{ℕ, ◌≡◌, refl, none, some, [], false}
use goichi.Prelude.Text.{codes}
use goichi.Http.{returned, Handler}
use goichi.Router.{new_router}
use goichi.Group.{Group, group, add}
use goichi.Group.Nesting.{add-group}
use goichi.Router.Paths.{ends_in_slash}

abbrev api : Group ℕ
api = record { prefix = codes "/api/"; middlewares = [] }

abbrev ok : Handler ℕ
ok = some (λ c. returned c none)

add-group_example :
    add (codes "GET") (codes "users") ok [] (group (codes "v1") [] api) (new_router false false)
    ≡ add (codes "GET") (codes "v1/users") ok [] api (new_router false false)
unfolding ends_in_slash
add-group_example =
    add-group (codes "GET") (codes "v1") (codes "users") ok [] [] api (new_router false false) refl
      refl
