-- ===== src/Proxy/Forward/Retries.antt =====
-- What the retries of a forwarded request do to the pool, and which targets they try.
use goichi.Prelude.{
  ℕ, zero, suc, ◌+◌, ◌≤◌, ◌≡◌, refl, ap, subst, ◌∙◌, Bool, true, false, not, ◌&&◌, Option, none,
  some, List, [], ◌∷◌, length, all, arith, inl, inr, Bool-cases,
}
use goichi.Prelude.Text.{Bytes}
use goichi.Proxy.Balancer.{
  Algorithm, random, round_robin, least_conn, ip_hash, Target, Balancer, pick, choose, pool,
}
use goichi.Proxy.Balancer.Pool.{is_healthy}
use goichi.Proxy.Balancer.Choice.{pick-is_healthy}
use goichi.Proxy.Forward.{
  Upstream, End, contains, after_pick, after_send, after_choice, modify_target, enter, leave,
  pick_untried, pick_target, send_to, attempt, delivered,
}

pub leave-enter : (i : ℕ) (ts : List Target) → modify_target leave i (modify_target enter i ts) ≡ ts
unfolding modify_target
leave-enter i [] = refl
leave-enter zero (t ∷ ts) = ap (λ k. record t { active = k } ∷ ts) (omega arith)
leave-enter (suc i) (t ∷ ts) = ap (λ us. t ∷ us) (leave-enter i ts)

choose-targets :
    (algo : Algorithm) (b : Balancer) (is : List ℕ) (key : Bytes) (draw : ℕ → ℕ)
    → (choose algo b is key draw).0.targets ≡ b.targets
unfolding choose
choose-targets algo b [] key draw = refl
choose-targets random b (x ∷ is) key draw = refl
choose-targets ip_hash b (x ∷ is) key draw = refl
choose-targets round_robin b (x ∷ is) key draw = refl
choose-targets least_conn b (x ∷ is) key draw = refl

pub pick-targets :
    (b : Balancer) (key : Bytes) (draw : ℕ → ℕ) → (pick b key draw).0.targets ≡ b.targets
unfolding pick
pick-targets b key draw = choose-targets b.algo b (pool b) key draw

abbrev pub is_distinct : List ℕ → Bool
is_distinct [] = true
is_distinct (x ∷ xs) = not (contains x xs) && is_distinct xs

module _ {S : Type 0} (U : Upstream S) (key : Bytes) where
  after_pick-targets :
      (ts : List Target) (tried : List ℕ) (here : Balancer × S) (again : (Balancer × S) × Option ℕ)
      (t : Option ℕ)
      → here.0.targets ≡ ts
      → again.0.0.targets ≡ ts
      → (after_pick U key tried here again t).0.0.targets ≡ ts
  after_pick-targets ts tried here again none h a = h
  after_pick-targets ts tried here again (some i) h a = elim (Bool-cases (contains i tried)) [
    | inl seen ↦ rw seen a
    | inr new ↦ rw new h
  ]

  pick_untried-targets :
      (n : ℕ) (tried : List ℕ) (b : Balancer) (s : S)
      → (pick_untried U key n tried b s).0.0.targets ≡ b.targets
  unfolding pick_untried
  pick_untried-targets zero tried b s = refl
  pick_untried-targets (suc n) tried b s =
      let (b', t) = pick b key (U.draw s) in
      after_pick-targets b.targets tried (b', U.drawn s) _ t (pick-targets b key (U.draw s))
        (pick_untried-targets n tried b' (U.drawn s) ∙ pick-targets b key (U.draw s))

  after_pick-new :
      (ts : List Target) (tried : List ℕ) (here : Balancer × S) (again : (Balancer × S) × Option ℕ)
      (t : Option ℕ) (i : ℕ)
      → ((j : ℕ) → t ≡ some j → is_healthy ts j ≡ true)
      → (again.1 ≡ some i → (contains i tried ≡ false) × (is_healthy ts i ≡ true))
      → (after_pick U key tried here again t).1 ≡ some i
      → (contains i tried ≡ false) × (is_healthy ts i ≡ true)
  after_pick-new ts tried here again none i up rest e = cc e
  after_pick-new ts tried here again (some j) i up rest e = elim (Bool-cases (contains j tried)) [
    | inl seen ↦ rest (rw seen at e)
    | inr new ↦ let same : some j ≡ some i = rw new at e in (ground (arith, same, new), up i same)
  ]

  -- What pick returns has not been tried and is healthy.
  pick_untried-new :
      (n : ℕ) (tried : List ℕ) (b : Balancer) (s : S) (i : ℕ)
      → (pick_untried U key n tried b s).1 ≡ some i
      → (contains i tried ≡ false) × (is_healthy b.targets i ≡ true)
  unfolding pick_untried
  pick_untried-new zero tried b s i e = cc e
  pick_untried-new (suc n) tried b s i e =
      let (b', t) = pick b key (U.draw s) in
      after_pick-new b.targets tried (b', U.drawn s) _ t i
        (λ j f. pick-is_healthy b key (U.draw s) j f)
        (λ f.
          subst (λ ts. (contains i tried ≡ false) × (is_healthy ts i ≡ true))
            (pick-targets b key (U.draw s)) (pick_untried-new n tried b' (U.drawn s) i f))
        e

  send_to-targets :
      (path query : Bytes) (i : ℕ) (b : Balancer) (s : S)
      → (send_to U key path query i b s).0.0.targets ≡ b.targets
  unfolding send_to
  send_to-targets path query i b s = leave-enter i b.targets

  -- What the loop of Do keeps.
  pub record Loop (ts : List Target) (most : ℕ) (end : End S) : Type 0 where
    pub same : end.0.0.targets ≡ ts
    pub distinct : is_distinct end.1.0 ≡ true
    pub up : all (is_healthy ts) end.1.0 ≡ true
    pub bound : length end.1.0 ≤ most

  after_send-Loop :
      (ts : List Target) (most : ℕ) (again : End S) (tried : List ℕ) (here : Balancer × S)
      (e : Option Bytes)
      → Loop ts most (here, (tried, delivered))
      → Loop ts most again
      → Loop ts most (after_send U key again tried here e)
  after_send-Loop ts most again tried here none l a = record {
    same = l.same;
    distinct = l.distinct;
    up = l.up;
    bound = l.bound;
  }
  after_send-Loop ts most again tried here (some err) l a = a

  abbrev Good : List Target → ℕ → (List ℕ → Option Bytes → Balancer → S → End S) → Type 0
  Good ts n next =
      (tried : List ℕ) (e : Option Bytes) (b : Balancer) (s : S)
      → b.targets ≡ ts
      → is_distinct tried ≡ true
      → all (is_healthy ts) tried ≡ true
      → Loop ts (n + length tried) (next tried e b s)

  after_choice-Loop :
      (path query : Bytes) (ts : List Target) (n : ℕ)
      (next : List ℕ → Option Bytes → Balancer → S → End S) (tried : List ℕ) (err : Option Bytes)
      (here : Balancer × S) (t : Option ℕ)
      → Good ts n next
      → here.0.targets ≡ ts
      → is_distinct tried ≡ true
      → all (is_healthy ts) tried ≡ true
      → ((i : ℕ) → t ≡ some i → (contains i tried ≡ false) × (is_healthy ts i ≡ true))
      → Loop ts (suc n + length tried) (after_choice U key path query next tried err here t)
  after_choice-Loop path query ts n next tried err here none g same d h new = record {
    same = same;
    distinct = d;
    up = h;
    bound = omega arith;
  }
  after_choice-Loop path query ts n next tried err (b, s) (some i) g same d h new =
      let ((b', s'), e) = send_to U key path query i b s in
      let (fresh, up) = new i refl in
      let kept = send_to-targets path query i b s ∙ same in
      let d' : is_distinct (i ∷ tried) ≡ true = ground (arith, fresh, d) in
      let h' : all (is_healthy ts) (i ∷ tried) ≡ true = ground (arith, up, h) in
      let l = g (i ∷ tried) e b' (U.reset s') kept d' h' in
      after_send-Loop ts (suc n + length tried) _ (i ∷ tried) (b', U.deliver s') e
        (record { same = kept; distinct = d'; up = h'; bound = omega arith })
        (record { same = l.same; distinct = l.distinct; up = l.up; bound = omega (arith, l.bound) })

  pub attempt-Loop :
      (path query : Bytes) (ts : List Target) (n : ℕ)
      → Good ts n (λ tried e b s. attempt U key path query n tried e b s)
  unfolding attempt
  attempt-Loop path query ts zero tried err b s same d h = record {
    same = same;
    distinct = d;
    up = h;
    bound = omega arith;
  }
  attempt-Loop path query ts (suc n) tried err b s same d h =
      let (here, t) = pick_target U key tried b s in
      after_choice-Loop path query ts n _ tried err here t (attempt-Loop path query ts n)
        (pick_untried-targets _ tried b s ∙ same) d h
        (λ i e.
          subst (λ us. (contains i tried ≡ false) × (is_healthy us i ≡ true)) same
            (pick_untried-new _ tried b s i e))
