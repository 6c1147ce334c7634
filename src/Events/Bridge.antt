-- ===== src/Events/Bridge.antt =====
-- The event handler of cmd/main.go: it forwards a rotation event to the reconciler's channel and
-- then acknowledges it.
pub mod Delivery
use dynamic_secret_operator.Prelude.{
  Text, codes, text_eq, is_empty, Bool, true, false, ◌||◌, Option, List, [], ◌∷◌,
}
use dynamic_secret_operator.Api.{DynamicSecretPolicy, get_vault_object_name}
use dynamic_secret_operator.Client.{Result, ok, err, Error, failed, ◌>>=◌, ◌>>◌, return, fail, lift}
use dynamic_secret_operator.Events.Router.{EventData, EventPayload, parse_rotation_event_payload}

-- What the `select` that sends to the channel ends with: the event is accepted, the channel is
-- full for two seconds, or the context is canceled.
pub data Sent : Type 0 where
  accepted at_capacity canceled : Sent

-- What the handler calls: `json.Unmarshal`, the listing of the policies of one namespace or, for the
-- empty text, of all, and the channel.
pub record Bridge : Type 1 where
  pub State : Type 0
  pub unmarshal_event : Text → Option EventData
  pub list_policies : Text → State → Result (List DynamicSecretPolicy) × State
  pub send_event : DynamicSecretPolicy → State → Sent × State

-- Whether an event is about a policy; one that names no object is about every policy.
unfoldable pub is_target : EventPayload → DynamicSecretPolicy → Bool
is_target payload p =
    is_empty payload.object_name
    || (text_eq (get_vault_object_name p.spec) payload.object_name
        || text_eq p.name payload.policy_name)

abbrev pub accept : Sent → Result (Unit {0})
accept accepted = ok tt
accept at_capacity = err (failed (codes "controller event channel at capacity"))
accept canceled = err (failed (codes "context canceled"))

module _ (bridge : Bridge) where
  open bridge use {State, unmarshal_event, list_policies, send_event}

  unfoldable pub send : DynamicSecretPolicy → State → Result (Unit {0}) × State
  send p s = (accept (send_event p s).0, (send_event p s).1)

  -- The loop over the policies.
  unfoldable pub enqueue_all :
      EventPayload → List DynamicSecretPolicy → State → Result (Unit {0}) × State
  unfolding send
  enqueue_all payload [] = return tt
  enqueue_all payload (p ∷ policies) =
      let rest = enqueue_all payload policies in
      elim (is_target payload p) [ true ↦ do send p; rest | false ↦ rest ]

  -- The handler, for a message's body and its `AckFunc`.
  unfoldable pub handle_event :
      Text → (State → Result (Unit {0}) × State) → State → Result (Unit {0}) × State
  unfolding enqueue_all
  handle_event body ack = do
    payload ← lift (parse_rotation_event_payload unmarshal_event body)
    policies ← list_policies payload.namespace
    enqueue_all payload policies
    ack
