-- ===== src/Protocol/Mqtt/Refinement.antt =====
-- protocol/mqtt/broker.go: Subscribe and Unsubscribe against the map from filters to handlers.
use goichi.Prelude.{
  ℕ, suc, ◌≡◌, refl, sym, ap, subst, ◌∙◌, Bool, true, false, ◌&&◌, Option, none, some, List, [],
  ◌∷◌, ◌==◌, if◌then◌else◌, arith, inl, inr, ◌⊎◌, Bool-cases, if_of_true, if_of_false,
}
use goichi.Prelude.Text.{Bytes, bytes_eq, bytes_eq_iff}
use goichi.Http
use goichi.Http.{lookup, erase}
use goichi.Http.Maps.{lookup-insert, lookup-erase}
use goichi.Protocol.Settings.{MqttConfig}
use goichi.Protocol.Mqtt.{
  MqttLibrary, MqttBroker, new_mqtt_broker, subscribe_as, subscribe, unsubscribe_as, unsubscribe,
}
use goichi.Protocol.Mqtt.Subscriptions.{
  IsMqttLibrary, Call, subscribing, unsubscribing, spec, are_filters, call, after, Refines, Changed,
  Changed-Refines,
}

module _ {T H : Type 0} (L : MqttLibrary T H) (is_filter : Bytes → Bool)
    (law : IsMqttLibrary L is_filter) where
  abbrev Subs : Type 0
  Subs = List (Bytes × ℕ)

  unheld :
      {subs : Subs} {s : T} {promise : Bytes → Option H} (topic : Bytes)
      → Refines L subs s promise
      → lookup topic subs ≡ none
      → (i : ℕ) → L.handler_of s topic i ≡ none
  unheld topic r e i = elim (r.only topic i) [ inl e' ↦ cc (sym e ∙ e') | inr free ↦ free ]

  -- Where a filter has no id the server holds no handler for it, and where it has one no other.
  others_free :
      {subs : Subs} {s : T} {promise : Bytes → Option H} (topic : Bytes) (id : ℕ)
      → Refines L subs s promise
      → lookup topic subs ≡ none
      → (i : ℕ) → (id ≡ i) ⊎ (L.handler_of s topic i ≡ none)
  others_free topic id r e i = inr (unheld topic r e i)

  others_held :
      {subs : Subs} {s : T} {promise : Bytes → Option H} (topic : Bytes) (id : ℕ)
      → Refines L subs s promise
      → lookup topic subs ≡ some id
      → (i : ℕ) → (id ≡ i) ⊎ (L.handler_of s topic i ≡ none)
  others_held topic id r e i = elim (r.only topic i) [
    | inl e' ↦ inl (cc (sym e ∙ e'))
    | inr free ↦ inr free
  ]

  lookup_there :
      {o : Option ℕ} (topic t : Bytes) (subs : Subs)
      → lookup topic subs ≡ o
      → lookup t subs ≡ (if bytes_eq topic t then o else lookup t subs)
  lookup_there {o} topic t subs e = elim (Bool-cases (bytes_eq topic t)) [
    | inl same ↦
        subst (λ u. lookup u subs ≡ o) ((bytes_eq_iff topic t).0 same) e
        ∙ sym (if_of_true o (lookup t subs) same)
    | inr other ↦ sym (if_of_false _ _ other)
  ]

  if_twice :
      {A : Type 0} (b : Bool) (x y z : A)
      → (if b then x else if b then y else z) ≡ (if b then x else z)
  if_twice true x y z = refl
  if_twice false x y z = refl

  subscribe_new :
      {subs : Subs} {s : T} {promise : Bytes → Option H} (topic : Bytes) (id : ℕ) (h : H)
      → Refines L subs s promise
      → is_filter topic ≡ true
      → lookup topic subs ≡ none
      → Changed L topic id
          (some id)
          (some h)
          subs
          (Http.insert topic id subs)
          s
          (L.subscribe topic id h s).0
  subscribe_new {subs} {s} topic id h r ok e = record {
    ids = λ t. lookup-insert topic t id subs;
    handlers = λ t i. law.sets topic t id i h s ok;
    agrees = inl refl;
    others = others_free topic id r e;
  }

  subscribe_known :
      {subs : Subs} {s : T} {promise : Bytes → Option H} (topic : Bytes) (id : ℕ) (h : H)
      → Refines L subs s promise
      → is_filter topic ≡ true
      → lookup topic subs ≡ some id
      → Changed L topic id
          (some id)
          (some h)
          subs
          subs
          s
          (L.subscribe topic id h (L.unsubscribe topic id s).0).0
  subscribe_known {subs} {s} topic id h r ok e = record {
    ids = λ t. lookup_there topic t subs e;
    handlers = λ t i.
        law.sets topic t id i h (L.unsubscribe topic id s).0 ok
        ∙ ap (λ o. if bytes_eq topic t && id == i then some h else o) (law.clears topic t id i s)
        ∙ if_twice (bytes_eq topic t && id == i) (some h) none (L.handler_of s t i);
    agrees = inl refl;
    others = others_held topic id r e;
  }

  unsubscribe_known :
      {subs : Subs} {s : T} {promise : Bytes → Option H} (topic : Bytes) (id : ℕ)
      → Refines L subs s promise
      → lookup topic subs ≡ some id
      → Changed L topic id none none subs (erase topic subs) s (L.unsubscribe topic id s).0
  unsubscribe_known {subs} {s} topic id r e = record {
    ids = λ t. lookup-erase topic t subs;
    handlers = λ t i. law.clears topic t id i s;
    agrees = inr (refl, refl);
    others = others_held topic id r e;
  }

  -- Id 0 stands for any: the server holds nothing for the filter.
  unsubscribe_new :
      {subs : Subs} {s : T} {promise : Bytes → Option H} (topic : Bytes)
      → Refines L subs s promise
      → lookup topic subs ≡ none
      → Changed L topic 0 none none subs (erase topic subs) s s
  unsubscribe_new {subs} {s} topic r e = record {
    ids = λ t. lookup-erase topic t subs;
    handlers = λ t i. elim (Bool-cases (bytes_eq topic t && 0 == i)) [
      | inl same ↦
          subst (λ u. L.handler_of s u i ≡ none) ((bytes_eq_iff topic t).0 (ground (arith, same)))
            (unheld topic r e i)
          ∙ sym (if_of_true _ _ same)
      | inr other ↦ sym (if_of_false _ _ other)
    ];
    agrees = inr (refl, refl);
    others = others_free topic 0 r e;
  }

  abbrev Does : MqttBroker T → (Bytes → Option H) → Type 0
  Does mb promise = Refines L mb.subs mb.server promise

  subscribe_as-Does :
      (topic : Bytes) (h : H) (mb : MqttBroker T) (o : Option ℕ) {promise : Bytes → Option H}
      → is_filter topic ≡ true
      → Does mb promise
      → lookup topic mb.subs ≡ o
      → Does (subscribe_as L topic h mb o).0 (λ t. if bytes_eq topic t then some h else promise t)
  subscribe_as-Does topic h mb none ok r e =
      Changed-Refines L (subscribe_new topic (suc mb.sub_seq) h r ok e) r
  subscribe_as-Does topic h mb (some id) ok r e =
      Changed-Refines L (subscribe_known topic id h r ok e) r

  unsubscribe_as-Does :
      (topic : Bytes) (mb : MqttBroker T) (o : Option ℕ) {promise : Bytes → Option H}
      → Does mb promise
      → lookup topic mb.subs ≡ o
      → Does (unsubscribe_as L topic mb o).0 (λ t. if bytes_eq topic t then none else promise t)
  unsubscribe_as-Does topic mb none r e = Changed-Refines L (unsubscribe_new topic r e) r
  unsubscribe_as-Does topic mb (some id) r e = Changed-Refines L (unsubscribe_known topic id r e) r

  call-Does :
      (c : Call H) (earlier : List (Call H)) (mb : MqttBroker T)
      → are_filters is_filter (c ∷ earlier) ≡ true
      → Does mb (spec earlier)
      → Does (call L c mb) (spec (c ∷ earlier))
  unfolding subscribe unsubscribe
  call-Does (subscribing topic h) earlier mb ok r =
      subscribe_as-Does topic h mb (lookup topic mb.subs) (ground (arith, ok)) r refl
  call-Does (unsubscribing topic) earlier mb ok r =
      unsubscribe_as-Does topic mb (lookup topic mb.subs) r refl

  are_filters_rest :
      (c : Call H) (earlier : List (Call H))
      → are_filters is_filter (c ∷ earlier) ≡ true
      → are_filters is_filter earlier ≡ true
  are_filters_rest (subscribing topic h) earlier ok = ground (arith, ok)
  are_filters_rest (unsubscribing topic) earlier ok = ok

  -- On a new broker over a server without handlers, whatever calls of Subscribe and Unsubscribe come, as
  -- long as each Subscribe is of a filter that the library takes: the server has, under the id that the
  -- broker keeps for a filter, the handler of the last Subscribe since the last Unsubscribe, and no
  -- handler under any other id.
  pub after-Refines :
      (config : MqttConfig) (server : T) (calls : List (Call H))
      → ((t : Bytes) (i : ℕ) → L.handler_of server t i ≡ none)
      → are_filters is_filter calls ≡ true
      → Refines L
          (after L calls (new_mqtt_broker config server)).subs
          (after L calls (new_mqtt_broker config server)).server
          (spec calls)
  unfolding new_mqtt_broker lookup
  after-Refines config server [] free ok = record { kept = λ t. refl; only = λ t i. inr (free t i) }
  after-Refines config server (c ∷ earlier) free ok =
      call-Does c earlier (after L earlier (new_mqtt_broker config server)) ok
        (after-Refines config server earlier free (are_filters_rest c earlier ok))
