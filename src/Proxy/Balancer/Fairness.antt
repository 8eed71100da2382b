-- ===== src/Proxy/Balancer/Fairness.antt =====
-- How round robin shares the picks among the targets.
use goichi.Prelude.{
  ℕ, zero, suc, ◌+◌, ◌-◌, ◌%◌, ◌^◌, ◌≤◌, ◌<◌, ◌≡◌, refl, sym, ap, subst, ◌∙◌, Option, none, some,
  List, [], ◌∷◌, ◌==◌, if◌then◌else◌, length, get_elem?, arith,
}
use native.Mathlib.Nat.{add-mod-mod, mod-eq_of_lt, mod_self}
use goichi.Prelude.Text.{Bytes}
use goichi.Proxy.Balancer.{
  Target, Balancer, round_robin, pool, pool_from, choose, pick, ticket, advance, wrap,
}
use goichi.Proxy.Balancer.Pool.{share, count}
use goichi.Proxy.Balancer.Choice.{count-pool}

abbrev is_pick : ℕ → Option ℕ → ℕ
is_pick i none = 0
is_pick i (some j) = if j == i then 1 else 0

-- `n` picks in a row: how many of them return target `i`.
abbrev pub times_picked : ℕ → ℕ → Balancer → Bytes → (ℕ → ℕ) → ℕ
times_picked i zero b key draw = 0
times_picked i (suc n) b key draw =
    let (b', t) = pick b key draw in is_pick i t + times_picked i n b' key draw

abbrev sum : (ℕ → ℕ) → ℕ → ℕ → ℕ
sum f c zero = 0
sum f c (suc n) = f c + sum f (suc c) n

sum-last : (f : ℕ → ℕ) (c n : ℕ) → sum f c (suc n) ≡ sum f c n + f (c + n)
sum-last f c zero = let same : f c ≡ f (c + 0) = ap f (omega arith) in omega (arith, same)
sum-last f c (suc n) =
    let same : suc c + n ≡ c + suc n = omega arith in
    let step : f (suc c + n) ≡ f (c + suc n) = ap f same in
    omega (arith, sum-last f (suc c) n, step)

-- A function of period `n` has the same sum over any `n` numbers in a row.
sum-period : (f : ℕ → ℕ) (n : ℕ) → ((c : ℕ) → f (c + n) ≡ f c) → (c : ℕ) → sum f c n ≡ sum f 0 n
sum-period f n periodic zero = refl
sum-period f n periodic (suc c) =
    omega (arith, sum-last f c n, periodic c, sum-period f n periodic c)

abbrev at_turn : ℕ → List ℕ → ℕ → ℕ
at_turn i xs c = is_pick i (get_elem? xs c)

sum-suc : (f : ℕ → ℕ) (c n : ℕ) → sum f (suc c) n ≡ sum (λ k. f (suc k)) c n
sum-suc f c zero = refl
sum-suc f c (suc n) = omega (arith, sum-suc f (suc c) n)

sum-at_turn : (i : ℕ) (xs : List ℕ) → sum (at_turn i xs) 0 (length xs) ≡ count i xs
sum-at_turn i [] = refl
sum-at_turn i (x ∷ xs) =
    ground (arith, sum-suc (at_turn i (x ∷ xs)) 0 (length xs), sum-at_turn i xs)

sum-ext : (f g : ℕ → ℕ) (c n : ℕ) → ((k : ℕ) → k < c + n → f k ≡ g k) → sum f c n ≡ sum g c n
sum-ext f g c zero h = refl
sum-ext f g c (suc n) h =
    omega (arith, h c (omega arith), sum-ext f g (suc c) n (λ k l. h k (omega arith)))

abbrev turn : ℕ → List ℕ → ℕ → ℕ
turn i xs c = at_turn i xs (c % length xs)

mod_period : (k m : ℕ) → (k + m) % m ≡ k % m
mod_period k m =
    sym (add-mod-mod k m m) ∙ ap (λ j. (k + j) % m) (mod_self m) ∙ ap (λ j. j % m) (omega arith)

sum-turn :
    (i : ℕ) (xs : List ℕ) (c : ℕ) → 1 ≤ length xs → sum (turn i xs) c (length xs) ≡ count i xs
sum-turn i xs c h =
    sum-period (turn i xs) (length xs) (λ k. ap (at_turn i xs) (mod_period k (length xs))) c
    ∙ sum-ext (turn i xs) (at_turn i xs) 0 (length xs)
        (λ k l. ap (at_turn i xs) (mod-eq_of_lt (omega (arith, l))))
    ∙ sum-at_turn i xs

ticket-advance : (b : Balancer) → suc b.counter < 2 ^ 64 → ticket (advance b) ≡ b.counter
ticket-advance b h = omega arith

abbrev in_turn : List Target → ℕ → Balancer
in_turn ts c = record { targets = ts; algo = round_robin; counter = c }

pick-in_turn :
    (ts : List Target) (c x : ℕ) (xs : List ℕ) (key : Bytes) (draw : ℕ → ℕ)
    → pool (in_turn ts c) ≡ x ∷ xs
    → suc c < 2 ^ 64
    → pick (in_turn ts c) key draw ≡ (in_turn ts (suc c), get_elem? (x ∷ xs) (c % length (x ∷ xs)))
unfolding pick choose
pick-in_turn ts c x xs key draw e h =
    let next : wrap (suc c) ≡ suc c = omega arith in
    let turn_of : wrap (suc c + (2 ^ 64 - 1)) ≡ c = omega arith in rw e (rw next (rw turn_of refl))

times_picked-sum :
    (i n c : ℕ) (ts : List Target) (x : ℕ) (xs : List ℕ) (key : Bytes) (draw : ℕ → ℕ)
    → pool_from 0 ts ≡ x ∷ xs
    → c + n < 2 ^ 64
    → times_picked i n (in_turn ts c) key draw ≡ sum (turn i (x ∷ xs)) c n
unfolding pool
times_picked-sum i zero c ts x xs key draw e h = refl
times_picked-sum i (suc n) c ts x xs key draw e h =
    rw (pick-in_turn ts c x xs key draw e (omega arith)) (
      ap (λ k. turn i (x ∷ xs) c + k)
        (times_picked-sum i n (suc c) ts x xs key draw e (omega arith)))

times_picked-in_turn :
    (i c : ℕ) (ts : List Target) (xs : List ℕ) (key : Bytes) (draw : ℕ → ℕ)
    → pool_from 0 ts ≡ xs
    → c + length xs < 2 ^ 64
    → times_picked i (length xs) (in_turn ts c) key draw ≡ count i xs
times_picked-in_turn i c ts [] key draw e h = refl
times_picked-in_turn i c ts (x ∷ xs) key draw e h =
    times_picked-sum i (length (x ∷ xs)) c ts x xs key draw e h
    ∙ sum-turn i (x ∷ xs) c (omega arith)

-- Under round robin, as many picks in a row as the pool is long return each healthy target as often
-- as its weight says and no other, wherever the counter stands, if it does not wrap around in them.
pub times_picked-share :
    (b : Balancer) (i : ℕ) (key : Bytes) (draw : ℕ → ℕ)
    → b.algo ≡ round_robin
    → b.counter + length (pool b) < 2 ^ 64
    → times_picked i (length (pool b)) b key draw ≡ share b.targets i
unfolding pool
times_picked-share b i key draw a h =
    subst
      (λ a'. times_picked i (length (pool b)) (record b { algo = a' }) key draw ≡ share b.targets i)
      (sym a) (times_picked-in_turn i b.counter b.targets (pool b) key draw refl h ∙ count-pool b i)
