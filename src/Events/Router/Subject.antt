-- ===== src/Events/Router/Subject.antt =====
-- What internal/events/router.go reads from the subject of an event.
use dynamic_secret_operator.Prelude.{
  Text, codes, text_eq_refl, text_eq_of_ne, split, join, split-join, IsPart, All, Option, some,
  List, [], ◌∷◌, ◌++◌, ◌≡◌, ◌≢◌,
}
use dynamic_secret_operator.Client.{ok}
use dynamic_secret_operator.Events.Router.{
  EventData, after_secrets, target_object_name, parse_rotation_event_payload,
}

after_secrets-append :
    (before : List Text) (name : Text) (after : List Text)
    → All (λ p. p ≢ codes "secrets") before
    → after_secrets (before ++ (codes "secrets" ∷ (name ∷ after))) ≡ name
unfolding after_secrets
after_secrets-append [] name after h = rw (text_eq_refl (codes "secrets"))
after_secrets-append (p ∷ []) name after (n, h) =
    rw (text_eq_of_ne p (codes "secrets") n, text_eq_refl (codes "secrets"))
after_secrets-append (p ∷ (q ∷ before)) name after (n, h) =
    rw (text_eq_of_ne p (codes "secrets") n) (after_secrets-append (q ∷ before) name after h)

split-join-before :
    (before : List Text) (p : Text) (after : List Text)
    → All (IsPart b'/') (before ++ (p ∷ after))
    → split b'/' (join b'/' (before ++ (p ∷ after))) ≡ before ++ (p ∷ after)
split-join-before [] p after h = split-join b'/' p after h
split-join-before (q ∷ before) p after h = split-join b'/' q (before ++ (p ∷ after)) h

-- An event that names no object but whose subject is a path, of parts without a slash, names the
-- part behind the path's first part "secrets", whatever stands before and behind.
pub parse-join :
    (unmarshal_event : Text → Option EventData) (body : Text) (event : EventData)
    (before : List Text) (name : Text) (after : List Text)
    → unmarshal_event body ≡ some event
    → event.object_name ≡ []
    → event.subject ≡ join b'/' (before ++ (codes "secrets" ∷ (name ∷ after)))
    → All (IsPart b'/') (before ++ (codes "secrets" ∷ (name ∷ after)))
    → All (λ p. p ≢ codes "secrets") before
    → parse_rotation_event_payload unmarshal_event body
      ≡ ok (record {
        object_name = name;
        policy_name = event.policy_name;
        namespace = event.namespace;
      })
unfolding target_object_name parse_rotation_event_payload
parse-join unmarshal_event body event before name after read empty subject parts first = rw (
  parse_rotation_event_payload,
  read,
  empty,
  subject,
  split-join-before before (codes "secrets") (name ∷ after) parts,
  after_secrets-append before name after first,
)
