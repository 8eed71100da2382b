-- ===== src/Protocol/Mqtt/Subscriptions.antt =====
-- The broker's subscriptions against a map from filters to handlers.
use goichi.Prelude.{
  ℕ, ◌≡◌, refl, sym, ap, subst, ◌∙◌, Bool, true, false, ◌&&◌, Option, none, some, List, [], ◌∷◌,
  ◌==◌, ==_iff, ==_refl, if◌then◌else◌, inl, inr, ◌⊎◌, Bool-cases, if_of_true, if_of_false,
}
use goichi.Prelude.Text.{Bytes, bytes_eq, bytes_eq_iff, bytes_eq_refl}
use goichi.Http.{lookup}
use goichi.Protocol.Mqtt.{MqttLibrary, MqttBroker, subscribe, unsubscribe}

-- The library: Subscribe of a filter that it takes sets the handler of the filter and id, Unsubscribe
-- clears it, and neither touches another.
pub record IsMqttLibrary {T H : Type 0} (L : MqttLibrary T H) (is_filter : Bytes → Bool)
    : Type 0 where
  pub sets :
      (topic t : Bytes) (id i : ℕ) (h : H) (s : T)
      → is_filter topic ≡ true
      → L.handler_of (L.subscribe topic id h s).0 t i
        ≡ (if bytes_eq topic t && id == i then some h else L.handler_of s t i)
  pub clears :
      (topic t : Bytes) (id i : ℕ) (s : T)
      → L.handler_of (L.unsubscribe topic id s).0 t i
        ≡ (if bytes_eq topic t && id == i then none else L.handler_of s t i)

-- A call of Subscribe with a handler, or of Unsubscribe.
pub data Call (H : Type 0) : Type 0 where
  subscribing : Bytes → H → Call H
  unsubscribing : Bytes → Call H

-- The promise: a filter has the handler of its last Subscribe, and none after an Unsubscribe.
abbrev pub spec : {H : Type 0} → List (Call H) → Bytes → Option H
spec [] t = none
spec (subscribing topic h ∷ earlier) t = if bytes_eq topic t then some h else spec earlier t
spec (unsubscribing topic ∷ earlier) t = if bytes_eq topic t then none else spec earlier t

-- Every Subscribe is of a filter that the library takes.
abbrev pub are_filters : {H : Type 0} → (Bytes → Bool) → List (Call H) → Bool
are_filters is_filter [] = true
are_filters is_filter (subscribing topic h ∷ earlier) =
    is_filter topic && are_filters is_filter earlier
are_filters is_filter (unsubscribing topic ∷ earlier) = are_filters is_filter earlier

module _ {T H : Type 0} (L : MqttLibrary T H) where
  abbrev pub call : Call H → MqttBroker T → MqttBroker T
  call (subscribing topic h) mb = (subscribe L topic (some h) mb).0
  call (unsubscribing topic) mb = (unsubscribe L topic mb).0

  -- The calls, the last one first.
  abbrev pub after : List (Call H) → MqttBroker T → MqttBroker T
  after [] mb = mb
  after (c ∷ earlier) mb = call c (after earlier mb)

  -- The handler under the id that the broker keeps for a filter.
  abbrev pub held : T → Bytes → Option ℕ → Option H
  held s t none = none
  held s t (some id) = L.handler_of s t id

  -- Ids and server do what the promise says: the handler under the kept id is the promised one, and the
  -- server holds no other for the filter.
  pub record Refines (subs : List (Bytes × ℕ)) (s : T) (promise : Bytes → Option H) : Type 0 where
    pub kept : (t : Bytes) → held s t (lookup t subs) ≡ promise t
    pub only : (t : Bytes) (i : ℕ) → (lookup t subs ≡ some i) ⊎ (L.handler_of s t i ≡ none)

  -- What a call does to one filter: the id kept for it and the handler under `id`, the only one it may
  -- have had.
  pub record Changed (topic : Bytes) (id : ℕ) (o : Option ℕ) (value : Option H)
      (subs subs' : List (Bytes × ℕ)) (s s' : T) : Type 0 where
    pub ids : (t : Bytes) → lookup t subs' ≡ (if bytes_eq topic t then o else lookup t subs)
    pub handlers :
        (t : Bytes) (i : ℕ)
        → L.handler_of s' t i ≡ (if bytes_eq topic t && id == i then value else L.handler_of s t i)
    pub agrees : (o ≡ some id) ⊎ ((o ≡ none) × (value ≡ none))
    pub others : (i : ℕ) → (id ≡ i) ⊎ (L.handler_of s topic i ≡ none)

  held_same :
      (s s' : T) (t : Bytes) (o : Option ℕ)
      → ((i : ℕ) → L.handler_of s' t i ≡ L.handler_of s t i)
      → held s' t o ≡ held s t o
  held_same s s' t none same = refl
  held_same s s' t (some i) same = same i

  module _ {topic : Bytes} {id : ℕ} {o : Option ℕ} {value : Option H}
      {subs subs' : List (Bytes × ℕ)} {s s' : T}
      (c : Changed topic id o value subs subs' s s') where
    held_new : held s' topic o ≡ value
    held_new = elim c.agrees [
      | inl e ↦
          ap (held s' topic) e ∙ c.handlers topic id ∙ rw (bytes_eq_refl topic, ==_refl id) refl
      | inr (e, none_there) ↦ ap (held s' topic) e ∙ sym none_there
    ]

    only_new : (i : ℕ) → (o ≡ some i) ⊎ (L.handler_of s' topic i ≡ none)
    only_new i = elim (Bool-cases (id == i)) [
      | inl same ↦ elim c.agrees [
        | inl e ↦ inl (e ∙ ap some ((==_iff id i).0 same))
        | inr (e, none_there) ↦ inr (c.handlers topic i ∙ rw (bytes_eq_refl topic, same) none_there)
      ]
      | inr other ↦ elim (c.others i) [
        | inl e ↦ cc (sym ((==_iff id i).1 e) ∙ other)
        | inr e ↦ inr (c.handlers topic i ∙ rw (bytes_eq_refl topic, other) e)
      ]
    ]

    unchanged :
        (t : Bytes) → bytes_eq topic t ≡ false → (i : ℕ) → L.handler_of s' t i ≡ L.handler_of s t i
    unchanged t other i = c.handlers t i ∙ rw other refl

    pub Changed-Refines :
        {promise : Bytes → Option H}
        → Refines subs s promise
        → Refines subs' s' (λ t. if bytes_eq topic t then value else promise t)
    Changed-Refines {promise} r = record {
      kept = λ t. elim (Bool-cases (bytes_eq topic t)) [
        | inl same ↦
            subst (λ u. held s' u (lookup u subs') ≡ value) ((bytes_eq_iff topic t).0 same)
              (ap (held s' topic) (c.ids topic ∙ rw (bytes_eq_refl topic) refl) ∙ held_new)
            ∙ sym (if_of_true _ _ same)
        | inr other ↦
            ap (held s' t) (c.ids t ∙ rw other refl)
            ∙ held_same s s' t (lookup t subs) (unchanged t other)
            ∙ r.kept t
            ∙ sym (if_of_false _ _ other)
      ];
      only = λ t i. elim (Bool-cases (bytes_eq topic t)) [
        | inl same ↦
            subst (λ u. (lookup u subs' ≡ some i) ⊎ (L.handler_of s' u i ≡ none))
              ((bytes_eq_iff topic t).0 same)
              (elim (only_new i) [
                | inl e ↦ inl (c.ids topic ∙ rw (bytes_eq_refl topic) e)
                | inr e ↦ inr e
              ])
        | inr other ↦ elim (r.only t i) [
          | inl e ↦ inl (c.ids t ∙ rw other e)
          | inr e ↦ inr (unchanged t other i ∙ e)
        ]
      ];
    }
