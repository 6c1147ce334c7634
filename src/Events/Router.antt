-- ===== src/Events/Router.antt =====
-- internal/events/router.go: what a rotation event names.
pub mod Subject
use dynamic_secret_operator.Prelude.{
  Text, codes, text_eq, is_empty, split, Bool, Option, none, some, List, [], ◌∷◌, if◌then◌else◌,
}
use dynamic_secret_operator.Client.{Result, ok, err, failed}

-- The fields that `json.Unmarshal` fills and the code reads; a missing one is empty.
pub record EventData : Type 0 where
  pub subject : Text
  pub object_name : Text
  pub policy_name : Text
  pub namespace : Text

pub record EventPayload : Type 0 where
  pub object_name : Text
  pub policy_name : Text
  pub namespace : Text

-- The loop over the subject's parts: what follows the first "secrets" that is not the last part.
unfoldable pub after_secrets : List Text → Text
after_secrets [] = []
after_secrets (p ∷ []) = []
after_secrets (p ∷ (q ∷ ps)) =
    let rest = after_secrets (q ∷ ps) in if text_eq p (codes "secrets") then q else rest

-- An empty subject has no such part, so the test for it falls away.
unfoldable pub target_object_name : EventData → Text
unfolding after_secrets
target_object_name event =
    if is_empty event.object_name
    then after_secrets (split b'/' event.subject)
    else event.object_name

module _ (unmarshal_event : Text → Option EventData) where
  unfoldable pub parse_rotation_event_payload : Text → Result EventPayload
  unfolding target_object_name
  parse_rotation_event_payload body = elim (unmarshal_event body) [
    | none ↦ err (failed (codes "failed to unmarshal rotation event payload"))
    | some event ↦ ok (record {
      object_name = target_object_name event;
      policy_name = event.policy_name;
      namespace = event.namespace;
    })
  ]

  unfoldable pub parse_rotation_event : Text → Result (Text × Text)
  unfolding parse_rotation_event_payload
  parse_rotation_event body = elim (parse_rotation_event_payload body) [
    | ok payload ↦ ok (payload.object_name, payload.policy_name)
    | err e ↦ err e
  ]
