-- ===== src/Proxy/Forward/Sends.antt =====
-- The targets that a forwarded request is sent to.
use goichi.Prelude.{
  ℕ, zero, suc, ◌≤◌, ◌≡◌, refl, ap, ◌∙◌, true, Option, none, some, List, [], ◌∷◌, length, all,
  arith, inl, inr, Bool-cases,
}
use goichi.Prelude.Text.{Bytes}
use goichi.Proxy.Balancer.{Target, Balancer, pick}
use goichi.Proxy.Balancer.Pool.{is_healthy}
use goichi.Proxy.Forward.{
  Config, Upstream, End, contains, after_pick, after_send, after_choice, rewrite_path, pick_untried,
  pick_target, send_to, attempt, attempts, forward,
}
use goichi.Proxy.Forward.Retries.{is_distinct, attempt-Loop}

-- The upstream with a record of the targets that requests were sent to, the last one first.
abbrev pub recording : {S : Type 0} → Upstream S → Upstream (S × List ℕ)
recording U = record {
  draw = λ s n. U.draw s.0 n;
  drawn = λ s. (U.drawn s.0, s.1);
  prepare = λ uri s. (U.prepare uri s.0, s.1);
  send = λ i s. (((U.send i s.0).0, i ∷ s.1), (U.send i s.0).1);
  deliver = λ s. (U.deliver s.0, s.1);
  reset = λ s. (U.reset s.0, s.1);
}

module _ {S : Type 0} (U : Upstream S) (key : Bytes) where
  abbrev V : Upstream (S × List ℕ)
  V = recording U

  pick_untried-sent :
      (n : ℕ) (tried : List ℕ) (b : Balancer) (s : S × List ℕ)
      → (pick_untried V key n tried b s).0.1.1 ≡ s.1
  unfolding pick_untried
  pick_untried-sent zero tried b s = refl
  pick_untried-sent (suc n) tried b s =
      let (b', t) = pick b key (V.draw s) in
      after b' (pick_untried V key n tried b' (V.drawn s)) t
        (pick_untried-sent n tried b' (V.drawn s))
    where
      after :
          (b' : Balancer) (again : (Balancer × (S × List ℕ)) × Option ℕ) (t : Option ℕ)
          → again.0.1.1 ≡ s.1
          → (after_pick V key tried (b', V.drawn s) again t).0.1.1 ≡ s.1
      after b' again none e = refl
      after b' again (some i) e = elim (Bool-cases (contains i tried)) [
        | inl seen ↦ rw seen e
        | inr new ↦ rw new refl
      ]

  abbrev Tells : (List ℕ → Option Bytes → Balancer → S × List ℕ → End (S × List ℕ)) → Type 0
  Tells next =
      (tried : List ℕ) (e : Option Bytes) (b : Balancer) (s : S × List ℕ)
      → s.1 ≡ tried
      → (next tried e b s).0.1.1 ≡ (next tried e b s).1.0

  after_choice-sent :
      (path query : Bytes) (next : List ℕ → Option Bytes → Balancer → S × List ℕ → End (S × List ℕ))
      (tried : List ℕ) (err : Option Bytes) (here : Balancer × (S × List ℕ)) (t : Option ℕ)
      → Tells next
      → here.1.1 ≡ tried
      → (after_choice V key path query next tried err here t).0.1.1
        ≡ (after_choice V key path query next tried err here t).1.0
  unfolding send_to
  after_choice-sent path query next tried err here none tells e = e
  after_choice-sent path query next tried err (b, s) (some i) tells e =
      let ((b', s'), err') = send_to V key path query i b s in
      by_error (next (i ∷ tried) err' b' (V.reset s')) b' (U.deliver s'.0) err'
        (tells (i ∷ tried) err' b' (V.reset s') (ap (λ is. i ∷ is) e))
    where
      by_error :
          (again : End (S × List ℕ)) (b' : Balancer) (s' : S) (o : Option Bytes)
          → again.0.1.1 ≡ again.1.0
          → (after_send V key again (i ∷ tried) (b', (s', i ∷ s.1)) o).0.1.1
            ≡ (after_send V key again (i ∷ tried) (b', (s', i ∷ s.1)) o).1.0
      by_error again b' s' none f = ap (λ is. i ∷ is) e
      by_error again b' s' (some err') f = f

  attempt-sent :
      (path query : Bytes) (n : ℕ) → Tells (λ tried e b s. attempt V key path query n tried e b s)
  unfolding attempt
  attempt-sent path query zero tried err b s e = e
  attempt-sent path query (suc n) tried err b s e =
      let (here, t) = pick_target V key tried b s in
      after_choice-sent path query (λ tried e b s. attempt V key path query n tried e b s) tried err
        here t (attempt-sent path query n) (pick_untried-sent _ tried b s ∙ e)

-- What holds of the targets that requests were sent to, and of the pool after them.
pub record IsSound (ts after : List Target) (most : ℕ) (sent : List ℕ) : Type 0 where
  pub same : after ≡ ts
  pub distinct : is_distinct sent ≡ true
  pub up : all (is_healthy ts) sent ≡ true
  pub bound : length sent ≤ most

module _ {S : Type 0} (U : Upstream S) (cfg : Config) where
  -- However a forwarded request ends, the targets that it was sent to are distinct and healthy, they are
  -- MaxRetries + 1 at most, and the pool is as before, each count of requests in flight included.
  pub forward-IsSound :
      (key path query : Bytes) (b : Balancer) (s : S)
      → let end = forward (recording U) cfg key path query b (s, []) in
        IsSound b.targets end.0.0.targets (attempts cfg.max_retries) end.0.1.1
  unfolding forward
  forward-IsSound key path query b s =
      let n = attempts cfg.max_retries in
      let path' = rewrite_path cfg path in
      let l =
        attempt-Loop (recording U) key path' query b.targets n [] none b (s, []) refl refl refl in
      let sent = attempt-sent U key path' query n [] none b (s, []) refl in
      record {
        same = l.same;
        distinct = ap is_distinct sent ∙ l.distinct;
        up = ap (all (is_healthy b.targets)) sent ∙ l.up;
        bound = omega (arith, l.bound, ap length sent);
      }
