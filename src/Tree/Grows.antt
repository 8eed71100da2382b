-- ===== src/Tree/Grows.antt =====
-- How a Boolean answer changes when one more way to say yes is added: `Grows t b old new` says that
-- the new answer is at most `old || (t && b)`, and, where `t` holds, at least `old || b`.
use goichi.Prelude.{◌≡◌, Bool, true, false, ◌&&◌, ◌||◌, arith}

pub record Grows (t b old new : Bool) : Type 0 where
  pub sound : new ≡ true → (old || (t && b)) ≡ true
  pub complete : t ≡ true → (old || b) ≡ true → new ≡ true

module _ (t : Bool) where
  pub Grows-and :
      (x : Bool) {b old new : Bool} → Grows t b old new → Grows t (x && b) (x && old) (x && new)
  Grows-and true g = g
  Grows-and false g = record { sound = λ e. ground arith; complete = λ e e'. ground arith }

  pub Grows-or : (y : Bool) {b old new : Bool} → Grows t b old new → Grows t b (old || y) (new || y)
  Grows-or y {b} {old} {new} g = record {
    sound = λ e. ground (arith, g.sound);
    complete = λ e e'. ground (arith, g.complete);
  }

  pub Grows-or_left :
      (y : Bool) {b old new : Bool} → Grows t b old new → Grows t b (y || old) (y || new)
  Grows-or_left y {b} {old} {new} g = record {
    sound = λ e. ground (arith, g.sound);
    complete = λ e e'. ground (arith, g.complete);
  }

  pub Grows-more : (old : Bool) {b new : Bool} → Grows t b false new → Grows t b old (old || new)
  Grows-more old {b} {new} g = record {
    sound = λ e. ground (arith, g.sound);
    complete = λ e e'. ground (arith, g.complete);
  }

  -- Where the test holds the new answer is settled.
  pub Grows-eq : {b old new : Bool} → Grows t b old new → t ≡ true → new ≡ (old || b)
  Grows-eq {b} {old} {new} g h = ground (arith, g.sound, g.complete h)
