-- ===== src/Events/Listener/Settling.antt =====
-- How the listener of internal/azure/servicebus.go settles a message whose handler is the one of
-- cmd/main.go.
use dynamic_secret_operator.Prelude.{some, ◌≡◌, ◌⊎◌, inl, inr, refl, ap, ◌∙◌}
use dynamic_secret_operator.Client.{
  Result, ok, err, Error, ◌>>=◌, ◌>>◌, return, lift, attempt, ignore, effect, continue,
}
use dynamic_secret_operator.Events.Bridge.{Bridge, handle_event}
use dynamic_secret_operator.Events.Bridge.Delivery.{Delivered, handle_event_settles}
use dynamic_secret_operator.Events.Listener.{
  Message, Queue, Handler, ack, nack, settlement, ack_func, release, deliver,
}

module _ {S : Type 0} (queue : Queue S) where
  open queue use {complete_message, abandon_message, count_message}

  ack_func_lem :
      (m : Message) (s : S)
      → ack_func queue m s ≡ (
        (complete_message m s).0,
        count_message (settlement (complete_message m s).0) (complete_message m s).1,
      )
  unfolding ack_func ◌>>=◌ ◌>>◌ attempt effect lift continue
  ack_func_lem m s = refl

  deliver_lem :
      (handle : Handler S) (m : Message) (s : S) (r : Result (Unit {0}) × S)
      → handle m.body (ack_func queue m) s ≡ r
      → deliver queue (some handle) m s ≡ release queue m r.0 r.1
  unfolding deliver ◌>>=◌ attempt continue
  deliver_lem handle m s r e = ap (λ (q : Result (Unit {0}) × S). release queue m q.0 q.1) e

  -- Where the handler leaves the outcome to the acknowledgement and the completion of the message
  -- fails, the message is abandoned, and the counter of messages that were not acknowledged is
  -- incremented twice for it.
  pub nack_twice :
      (handle : Handler S) (m : Message) (s t : S) (e : Error)
      → ((a : S → Result (Unit {0}) × S) → handle m.body a s ≡ a t)
      → (complete_message m t).0 ≡ err e
      → (deliver queue (some handle) m s).1
        ≡ (abandon_message m (count_message nack (count_message nack (complete_message m t).1))).1
  unfolding ◌>>◌ effect ignore continue
  nack_twice handle m s t e left fails =
      let run = deliver_lem handle m s _ (left (ack_func queue m) ∙ ack_func_lem m t) in
      rw (run, fails)

-- What the listener does with a message under the handler of cmd/main.go, over a queue in the
-- bridge's state. Either the message was delivered, completed, counted once as acknowledged and
-- nothing else was done to it, or the last thing done to it is that its lock was released after it
-- had been counted as not acknowledged.
pub deliver_settles :
    (bridge : Bridge) (queue : Queue bridge.State) (m : Message) (s : bridge.State)
    → ((t : bridge.State) × Delivered bridge m.body s t
        × ((queue.complete_message m t).0 ≡ ok tt)
        × ((deliver queue (some (handle_event bridge)) m s).1
            ≡ queue.count_message ack (queue.complete_message m t).1))
      ⊎ ((v : bridge.State) × ((deliver queue (some (handle_event bridge)) m s).1
            ≡ (queue.abandon_message m (queue.count_message nack v)).1))
unfolding ◌>>◌ effect ignore continue return
deliver_settles bridge queue m s = elim (handle_event_settles bridge m.body s) [
  | inl (t, delivered, run) ↦
      by_completion t delivered
        (deliver_lem queue (handle_event bridge) m s _
          (run (ack_func queue m) ∙ ack_func_lem queue m t))
        (queue.complete_message m t).0 refl
  | inr (e, u, run) ↦
      inr
        (u, ap (λ r. r.1) (deliver_lem queue (handle_event bridge) m s _ (run (ack_func queue m))))
]
  where
    by_completion :
        (t : bridge.State)
        → Delivered bridge m.body s t
        → deliver queue (some (handle_event bridge)) m s
          ≡ release queue m (queue.complete_message m t).0 (
              queue.count_message
                (settlement (queue.complete_message m t).0)
                (queue.complete_message m t).1)
        → (c : Result (Unit {0})) → (queue.complete_message m t).0 ≡ c
        → ((t : bridge.State) × Delivered bridge m.body s t
            × ((queue.complete_message m t).0 ≡ ok tt)
            × ((deliver queue (some (handle_event bridge)) m s).1
                ≡ queue.count_message ack (queue.complete_message m t).1))
          ⊎ ((v : bridge.State) × ((deliver queue (some (handle_event bridge)) m s).1
                ≡ (queue.abandon_message m (queue.count_message nack v)).1))
    by_completion t delivered run (ok u) e = inl (t, delivered, e, rw (run, e) refl)
    by_completion t delivered run (err x) e =
        inr (queue.count_message nack (queue.complete_message m t).1, rw (run, e) refl)
