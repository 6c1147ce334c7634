-- ===== src/Scenario/Events.antt =====
-- The theorems on rotation events, at a queue with one message and a cluster with one policy.
use dynamic_secret_operator.Prelude.{
  ℕ, suc, Text, codes, text_eq, text_eq_iff, leb, true, false, Option, none, some, [], ◌∷◌, ◌⊎◌,
  ◌≡◌, ◌≢◌, refl, any, All, IsPart, join,
}
use dynamic_secret_operator.Api.{deployment}
use dynamic_secret_operator.Client.{Result, ok, err, Error, failed, ◌>>◌, return}
use dynamic_secret_operator.Probes.Sql.{contains_any}
use dynamic_secret_operator.Probes.Sql.Address.{contains_any-IsPart}
use dynamic_secret_operator.Events.Router.{EventData, parse_rotation_event_payload}
use dynamic_secret_operator.Events.Router.Subject.{parse-join}
use dynamic_secret_operator.Events.Bridge.{Bridge, accepted, handle_event}
use dynamic_secret_operator.Events.Bridge.Delivery.{Delivered, handle_event_settles}
use dynamic_secret_operator.Events.Listener.{
  Message, messages, Queue, Handler, ack, nack, deliver, deliver_all, receive_round, start,
}
use dynamic_secret_operator.Events.Listener.Settling.{deliver_settles, nack_twice}
use dynamic_secret_operator.Events.Listener.Shutdown.{after_rounds, start_ends}
use dynamic_secret_operator.Scenario.{fresh, legacy_spec, policy_of}

-- An event whose subject is "v/secrets/db".
abbrev event : EventData
event = record {
  subject = join b'/' (codes "v" ∷ codes "secrets" ∷ codes "db" ∷ []);
  object_name = [];
  policy_name = [];
  namespace = [];
}

abbrev read_event : Text → Option EventData
read_event body = some event

no_slash : (s : Text) → contains_any s (codes "/") ≡ false → IsPart b'/' s
unfolding any
no_slash s h = contains_any-IsPart (codes "/") b'/' s refl h

parts_have_no_slash : All (IsPart b'/') (codes "v" ∷ codes "secrets" ∷ codes "db" ∷ [])
unfolding contains_any any
parts_have_no_slash =
    (no_slash (codes "v") refl, (no_slash (codes "secrets") refl, (no_slash (codes "db") refl, tt)))

v_is_not_secrets : codes "v" ≢ codes "secrets"
unfolding text_eq
v_is_not_secrets e = cc ((text_eq_iff (codes "v") (codes "secrets")).1 e)

parse-join_example :
    parse_rotation_event_payload read_event (codes "{}")
    ≡ ok (record { object_name = codes "db"; policy_name = []; namespace = [] })
parse-join_example =
    parse-join read_event (codes "{}") event (codes "v" ∷ []) (codes "db") [] refl refl refl
      parts_have_no_slash (v_is_not_secrets, tt)

-- The state counts what was done.
abbrev bridge : Bridge
bridge = record {
  State = ℕ;
  unmarshal_event = read_event;
  list_policies = λ n s. (ok (policy_of (legacy_spec deployment []) fresh ∷ []), s);
  send_event = λ p s. (accepted, suc s);
}

abbrev accepting : ℕ → Result (Unit {0}) × ℕ
accepting s = (ok tt, s)

handle_event_settles_example :
    ((t : ℕ) × Delivered bridge (codes "{}") 0 t
      × ((ack : ℕ → Result (Unit {0}) × ℕ) → handle_event bridge (codes "{}") ack 0 ≡ ack t))
    ⊎ ((e : Error) × (u : ℕ) × ((ack : ℕ → Result (Unit {0}) × ℕ)
          → handle_event bridge (codes "{}") ack 0 ≡ (err e, u)))
handle_event_settles_example = handle_event_settles bridge (codes "{}") 0

abbrev message : Message
message = record { body = codes "{}"; rest = [] }

-- The context is done in the second round; a message cannot be completed.
abbrev queue : Queue ℕ
queue = record {
  context_done = λ s. (leb 1 s, s);
  done_in_backoff = λ s. (true, s);
  receive_messages = λ n s. (messages (message ∷ []), suc s);
  complete_message = λ m s. (err (failed []), s);
  abandon_message = λ m s. (ok tt, s);
  count_message = λ o s. suc s;
}

deliver_settles_example :
    ((t : ℕ) × Delivered bridge (codes "{}") 0 t
      × ((queue.complete_message message t).0 ≡ ok tt)
      × ((deliver queue (some (handle_event bridge)) message 0).1
          ≡ queue.count_message ack (queue.complete_message message t).1))
    ⊎ ((v : ℕ) × ((deliver queue (some (handle_event bridge)) message 0).1
          ≡ (queue.abandon_message message (queue.count_message nack v)).1))
deliver_settles_example = deliver_settles bridge queue message 0

-- A handler that only acknowledges.
abbrev acknowledge : Handler ℕ
acknowledge body a s = a s

nack_twice_example : (deliver queue (some acknowledge) message 0).1 ≡ 2
nack_twice_example = nack_twice queue acknowledge message 0 0 (failed []) (λ a. refl) refl

done_after_one : (queue.context_done (after_rounds queue none 0 1 0)).0 ≡ true
unfolding after_rounds receive_round deliver_all deliver ◌>>◌ return
done_after_one = refl

start_ends_example : (t : ℕ) × (start queue 2 none 0 0 ≡ some t)
start_ends_example = start_ends queue none 0 1 0 done_after_one
