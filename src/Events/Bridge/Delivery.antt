-- ===== src/Events/Bridge/Delivery.antt =====
-- When the event handler of cmd/main.go acknowledges a message.
use dynamic_secret_operator.Prelude.{
  Text, Bool-cases, true, false, List, [], ◌∷◌, ◌≡◌, ◌⊎◌, inl, inr, refl, ap,
}
use dynamic_secret_operator.Api.{DynamicSecretPolicy}
use dynamic_secret_operator.Client.{Result, ok, err, Error, ◌>>=◌, ◌>>◌, return, lift, continue}
use dynamic_secret_operator.Events.Router.{EventPayload, parse_rotation_event_payload}
use dynamic_secret_operator.Events.Bridge.{
  Sent, accepted, at_capacity, canceled, Bridge, is_target, accept, send, enqueue_all, handle_event,
}

module _ (bridge : Bridge) where
  open bridge use {State, unmarshal_event, list_policies, send_event}

  -- The channel has accepted, in this order, an event for each of the policies that the event is
  -- about, and no other.
  pub data Enqueued (payload : EventPayload)
      : List DynamicSecretPolicy → State → State → Type 0 where
    all_sent : {s t : State} → s ≡ t → Enqueued payload [] s t
    sent :
        {p : DynamicSecretPolicy} {policies : List DynamicSecretPolicy} {s t : State}
        → is_target payload p ≡ true
        → (send_event p s).0 ≡ accepted
        → Enqueued payload policies (send_event p s).1 t
        → Enqueued payload (p ∷ policies) s t
    passed_over :
        {p : DynamicSecretPolicy} {policies : List DynamicSecretPolicy} {s t : State}
        → is_target payload p ≡ false
        → Enqueued payload policies s t
        → Enqueued payload (p ∷ policies) s t

  -- What stands before the acknowledgement of a message in the state `t`.
  pub record Delivered (body : Text) (s t : State) : Type 0 where
    pub payload : EventPayload
    pub parsed : parse_rotation_event_payload unmarshal_event body ≡ ok payload
    pub policies : List DynamicSecretPolicy
    pub listed : (list_policies payload.namespace s).0 ≡ ok policies
    pub enqueued : Enqueued payload policies (list_policies payload.namespace s).1 t

  -- A computation either succeeds in a state that `Reached` describes, or fails.
  abbrev Ends : (State → Type 0) → Result (Unit {0}) × State → Type 0
  Ends Reached r =
      ((t : State) × Reached t × (r ≡ (ok tt, t))) ⊎ ((e : Error) × (u : State) × (r ≡ (err e, u)))

  send-Ends :
      (p : DynamicSecretPolicy) (s : State)
      → Ends (λ t. ((send_event p s).0 ≡ accepted) × (t ≡ (send_event p s).1)) (send bridge p s)
  unfolding send
  send-Ends p s = by_answer (send_event p s)
    where
      by_answer : (r : Sent × State) → Ends (λ t. (r.0 ≡ accepted) × (t ≡ r.1)) (accept r.0, r.1)
      by_answer (accepted, t) = inl (t, (refl, refl), refl)
      by_answer (at_capacity, t) = inr (_, t, refl)
      by_answer (canceled, t) = inr (_, t, refl)

  then-Ends :
      (P R : State → Type 0) (m k : State → Result (Unit {0}) × State) (s : State)
      → Ends P (m s)
      → ((t : State) → P t → Ends R (k t))
      → Ends R ((m >> k) s)
  unfolding ◌>>◌
  then-Ends P R m k s (inl (t, p, e)) h = rw (e, continue) (h t p)
  then-Ends P R m k s (inr (x, u, e)) h = inr (x, u, rw (e, continue) refl)

  imp-Ends :
      (P R : State → Type 0) (r : Result (Unit {0}) × State)
      → ((t : State) → P t → R t)
      → Ends P r
      → Ends R r
  imp-Ends P R r f (inl (t, p, e)) = inl (t, f t p, e)
  imp-Ends P R r f (inr x) = inr x

  enqueue_all-Ends :
      (payload : EventPayload) (policies : List DynamicSecretPolicy) (s : State)
      → Ends (Enqueued payload policies s) (enqueue_all bridge payload policies s)
  unfolding enqueue_all return
  enqueue_all-Ends payload [] s = inl (s, all_sent refl, refl)
  enqueue_all-Ends payload (p ∷ policies) s = elim (Bool-cases (is_target payload p)) [
    | inl e ↦
        rw (enqueue_all, e)
          (then-Ends _ _ (send bridge p) (enqueue_all bridge payload policies) s (send-Ends p s)
            λ t (a, b). rw b (
              imp-Ends _ _ _ (λ u q. sent e a q)
                (enqueue_all-Ends payload policies (send_event p s).1)))
    | inr e ↦
        rw (enqueue_all, e)
          (imp-Ends _ _ _ (λ u q. passed_over e q) (enqueue_all-Ends payload policies s))
  ]

  -- The outcome of a computation in terms of the acknowledgement behind it.
  abbrev Settles :
      (State → Type 0) → ((State → Result (Unit {0}) × State) → Result (Unit {0}) × State) → Type 0
  Settles Reached run =
      ((t : State) × Reached t × ((ack : State → Result (Unit {0}) × State) → run ack ≡ ack t))
      ⊎ ((e : Error) × (u : State) × ((ack : State → Result (Unit {0}) × State)
            → run ack ≡ (err e, u)))

  then-Settles :
      (P : State → Type 0) (m : State → Result (Unit {0}) × State) (s : State)
      → Ends P (m s)
      → Settles P (λ ack. (m >> ack) s)
  unfolding ◌>>◌
  then-Settles P m s (inl (t, p, e)) = inl (t, p, λ ack. rw (e, continue) refl)
  then-Settles P m s (inr (x, u, e)) = inr (x, u, λ ack. rw (e, continue) refl)

  module _ (body : Text) (s : State) where
    abbrev after_list :
        EventPayload
        → (State → Result (Unit {0}) × State)
        → List DynamicSecretPolicy
        → State
        → Result (Unit {0}) × State
    after_list payload ack policies = enqueue_all bridge payload policies >> ack

    list-Settles :
        (payload : EventPayload)
        → parse_rotation_event_payload unmarshal_event body ≡ ok payload
        → (r : Result (List DynamicSecretPolicy) × State) → list_policies payload.namespace s ≡ r
        → Settles (Delivered body s) (λ ack. continue r (after_list payload ack))
    unfolding continue
    list-Settles payload parsed (err e, u) h = inr (e, u, λ ack. refl)
    list-Settles payload parsed (ok policies, v) h =
        elim (then-Settles _ (enqueue_all bridge payload policies) v
          (enqueue_all-Ends payload policies v)) [
            | inl (t, q, run) ↦ inl (
              t,
              record {
                payload = payload;
                parsed = parsed;
                policies = policies;
                listed = ap (λ r. r.0) h;
                enqueued = rw h q;
              },
              run,
            )
            | inr x ↦ inr x
          ]

    parse-Settles :
        (r : Result EventPayload)
        → parse_rotation_event_payload unmarshal_event body ≡ r
        → Settles (Delivered body s) (λ ack.
          continue (r, s) (λ payload. list_policies payload.namespace >>= after_list payload ack))
    unfolding continue ◌>>=◌
    parse-Settles (err e) h = inr (e, s, λ ack. refl)
    parse-Settles (ok payload) h = list-Settles payload h _ refl

  -- Every message ends in one of two ways. Either the event was parsed, the policies were listed,
  -- the channel accepted an event for each policy that it is about, and then the outcome is the
  -- acknowledgement's; or an error came before, and the outcome is that error for every
  -- acknowledgement: the message is not acknowledged.
  pub handle_event_settles :
      (body : Text) (s : State)
      → ((t : State) × Delivered body s t
          × ((ack : State → Result (Unit {0}) × State) → handle_event bridge body ack s ≡ ack t))
        ⊎ ((e : Error) × (u : State) × ((ack : State → Result (Unit {0}) × State)
              → handle_event bridge body ack s ≡ (err e, u)))
  unfolding handle_event ◌>>=◌ lift
  handle_event_settles body s = parse-Settles body s _ refl
