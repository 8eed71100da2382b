-- ===== src/Group.antt =====
-- group.go: a group of routes with a common prefix and middleware. All groups of a router share it,
-- so it is passed to the operations that declare routes.
pub mod Nesting
mod Tests
use goichi.Prelude.{
  ℕ, Bool, true, false, not, ◌||◌, List, [], ◌∷◌, ◌++◌, ◌==◌, if◌then◌else◌, is_empty,
}
use goichi.Prelude.Text.{Bytes, codes, bytes_eq, trim_suffix_slash}
use goichi.Http.{Handler, Middleware}
use goichi.Router.Static.{static_route}
use goichi.Router.{Router, any_methods, add_route, add_each}

pub record Group (C : Type 0) : Type 0 where
  pub prefix : Bytes
  pub middlewares : List (Middleware C)

-- "/" + strings.TrimPrefix(path, "/")
unfoldable pub rooted_once : Bytes → Bytes
rooted_once [] = b'/' ∷ []
rooted_once (c ∷ path) = if c == b'/' then b'/' ∷ path else b'/' ∷ c ∷ path

module _ {C : Type 0} where
  abbrev pub merge : Group C → List (Middleware C) → List (Middleware C)
  merge g m = g.middlewares ++ m

  unfoldable pub group : Bytes → List (Middleware C) → Group C → Group C
  unfolding trim_suffix_slash rooted_once
  group prefix m g = record {
    prefix = trim_suffix_slash g.prefix ++ rooted_once prefix;
    middlewares = merge g m;
  }

  unfoldable pub full_path : Bytes → Group C → Bytes
  unfolding trim_suffix_slash rooted_once
  full_path path g =
      let prefix = trim_suffix_slash g.prefix in
      if is_empty path || bytes_eq path (codes "/")
      then (if is_empty prefix then codes "/" else prefix)
      else prefix ++ rooted_once path

  -- GET, POST, PUT, PATCH and DELETE, each with its own name as the method.
  unfoldable pub add :
      Bytes → Bytes → Handler C → List (Middleware C) → Group C → Router C → Router C × ℕ
  unfolding full_path add_route
  add method path h m g r = add_route method (full_path path g) h (merge g m) r

  unfoldable pub any_route :
      Bytes → Handler C → List (Middleware C) → Group C → Router C → Router C × List ℕ
  unfolding full_path add_each
  any_route path h m g r = add_each any_methods (full_path path g) h (merge g m) r

  -- The prefix of a group stands before that of the files as it is.
  unfoldable pub static_files :
      (Bytes → ℕ → C → C) → Bytes → Bytes → Group C → Router C → Router C × ℕ
  unfolding static_route
  static_files files prefix root g r = static_route files (g.prefix ++ prefix) root r
