-- ===== src/Events/Listener/Shutdown.antt =====
-- When the receive loop of internal/azure/servicebus.go ends.
use dynamic_secret_operator.Prelude.{
  ℕ, zero, suc, Bool, true, false, Option, none, some, ◌≡◌, refl, ap,
}
use dynamic_secret_operator.Events.Listener.{Queue, Handler, receive_round, after_check, start}

module _ {S : Type 0} (queue : Queue S) (handler : Option (Handler S)) (limit : ℕ) where
  open queue use {context_done}

  -- The state after a number of rounds, each from where the last has left off.
  unfoldable pub after_rounds : ℕ → S → S
  after_rounds zero s = s
  after_rounds (suc rounds) s = after_rounds rounds (receive_round queue handler limit s).1

  -- A round that finds the context done is the last, and nothing else is called in it.
  done_round :
      (s : S)
      → (context_done s).0 ≡ true
      → receive_round queue handler limit s ≡ (true, (context_done s).1)
  unfolding receive_round
  done_round s e = by_check (context_done s) e
    where
      by_check : (c : Bool × S) → c.0 ≡ true → after_check queue handler limit c ≡ (true, c.1)
      by_check (true, t) e = refl
      by_check (false, t) e = cc

  -- Once the context is done, the loop ends: if the check at the start of a round finds the context
  -- done after some number of rounds, then one more round is enough, whatever the handler, the
  -- messages and the errors of the rounds before.
  pub start_ends :
      (rounds : ℕ) (s : S)
      → (context_done (after_rounds rounds s)).0 ≡ true
      → (t : S) × (start queue (suc rounds) handler limit s ≡ some t)
  unfolding after_rounds start
  start_ends zero s e = (
    (context_done s).1,
    ap (λ (r : Bool × S). elim r.0 [ true ↦ some r.1 | false ↦ none ]) (done_round s e),
  )
  start_ends (suc rounds) s e =
      by_round (receive_round queue handler limit s) (start_ends rounds _ e)
    where
      by_round :
          (r : Bool × S)
          → ((t : S) × (start queue (suc rounds) handler limit r.1 ≡ some t))
          → (t : S) × ((elim r.0 [
            | true ↦ some r.1
            | false ↦ start queue (suc rounds) handler limit r.1
          ])
              ≡ some t)
      by_round (true, t) i = (t, refl)
      by_round (false, t) i = i
