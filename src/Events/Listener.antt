-- ===== src/Events/Listener.antt =====
-- The receive loop of internal/azure/servicebus.go.
pub mod Settling
pub mod Shutdown
use dynamic_secret_operator.Prelude.{
  ℕ, zero, suc, Text, Bool, true, false, Option, none, some, List, [], ◌∷◌, ltb, if◌then◌else◌,
}
use dynamic_secret_operator.Client.{
  Result, ok, err, ◌>>=◌, ◌>>◌, return, lift, attempt, ignore, effect,
}

-- Of a received message, what the listener passes on; `rest` stands for all that settles it.
pub record Message : Type 0 where
  pub body : Text
  pub rest : Text

-- What `ReceiveMessages` answers: messages, an error of a canceled context, or another error.
pub data Received : Type 0 where
  messages : List Message → Received
  receive_canceled receive_failed : Received

-- The label of the counter `ServiceBusMessagesTotal`.
pub data Settlement : Type 0 where
  ack nack : Settlement

-- The context, the interface `Receiver` and the counter.
pub record Queue (S : Type 0) : Type 0 where
  -- The first `select` of a round: whether the context is done.
  pub context_done : S → Bool × S
  -- The `select` behind an error: whether the context is done before two seconds have passed.
  pub done_in_backoff : S → Bool × S
  pub receive_messages : ℕ → S → Received × S
  pub complete_message : Message → S → Result (Unit {0}) × S
  pub abandon_message : Message → S → Result (Unit {0}) × S
  pub count_message : Settlement → S → S

-- `events.EventHandler`, with its `AckFunc`.
abbrev pub Handler : Type 0 → Type 0
Handler S = Text → (S → Result (Unit {0}) × S) → S → Result (Unit {0}) × S

-- At most ten messages at a time where no positive number is set.
unfoldable pub max_messages : ℕ → ℕ
max_messages n = if ltb 0 n then n else 10

abbrev pub settlement : Result (Unit {0}) → Settlement
settlement (ok u) = ack
settlement (err e) = nack

module _ {S : Type 0} (queue : Queue S) where
  open queue use {
    context_done, done_in_backoff, receive_messages, complete_message, abandon_message,
    count_message,
  }

  unfoldable pub ack_func : Message → S → Result (Unit {0}) × S
  ack_func m = do
    result ← attempt (complete_message m)
    effect (count_message (settlement result))
    lift result

  -- The lock of a message whose handler has failed is released.
  abbrev pub release : Message → Result (Unit {0}) → S → Result (Unit {0}) × S
  release m (ok u) = return tt
  release m (err e) = do effect (count_message nack); ignore (abandon_message m)

  -- One message; a nil handler is `none`.
  unfoldable pub deliver : Option (Handler S) → Message → S → Result (Unit {0}) × S
  unfolding ack_func
  deliver handler m = elim handler [
    | none ↦ return tt
    | some handle ↦ do result ← attempt (handle m.body (ack_func m)); release m result
  ]

  unfoldable pub deliver_all : Option (Handler S) → List Message → S → Result (Unit {0}) × S
  unfolding deliver
  deliver_all handler [] = return tt
  deliver_all handler (m ∷ ms) = do deliver handler m; deliver_all handler ms

  abbrev after_receive : Option (Handler S) → Received × S → Bool × S
  after_receive handler (messages ms, s) = (false, (deliver_all handler ms s).1)
  after_receive handler (receive_canceled, s) = (true, s)
  after_receive handler (receive_failed, s) = done_in_backoff s

  abbrev after_check : Option (Handler S) → ℕ → Bool × S → Bool × S
  after_check handler limit (true, s) = (true, s)
  after_check handler limit (false, s) =
      after_receive handler (receive_messages (max_messages limit) s)

  -- One round of the loop, and whether it returns.
  unfoldable pub receive_round : Option (Handler S) → ℕ → S → Bool × S
  unfolding deliver_all max_messages
  receive_round handler limit s = after_check handler limit (context_done s)

  -- `Start`, for a number of rounds; `none` if it still runs.
  unfoldable pub start : ℕ → Option (Handler S) → ℕ → S → Option S
  unfolding receive_round
  start zero handler limit s = none
  start (suc rounds) handler limit s =
      let after = receive_round handler limit s in
      elim after.0 [ true ↦ some after.1 | false ↦ start rounds handler limit after.1 ]
