-- ===== src/Controller/Rotation/Progress/Rounds.antt =====
-- A rotation through the rounds of `Reconcile`
-- (internal/controller/dynamicsecretpolicy_controller.go) in a cluster that answers.
use dynamic_secret_operator.Prelude.{Text, [], false, Option, some, ◌≡◌, refl, ap, ◌∙◌}
use dynamic_secret_operator.Api.{
  DynamicSecretPolicy, ConditionType, revision_prepared, canary_provisioning, validating,
}
use dynamic_secret_operator.Workload.Adapter.{Adapter, new_adapter, build_canary, fetch}
use dynamic_secret_operator.Canary.Deployment.{Deployment}
use dynamic_secret_operator.Canary.Endpoint.{Net}
use dynamic_secret_operator.Client.{
  Client, Conditions, Key, Result, ok, Workload, Object, Metric, deployment_object, done, requeue,
  ◌>>=◌, ◌>>◌, continue, return, lift, attempt, ignore, creating,
}
use dynamic_secret_operator.Source.Provider.{Registry}
use dynamic_secret_operator.Controller.Machine.{determine_state, is_tripped, needs_materialization}
use dynamic_secret_operator.Controller.Validation.{desired_secret_name, reconcile_validation_probes}
use dynamic_secret_operator.Controller.Status.{
  set_status, status_provisioned, status_validating, status_completed,
}
use dynamic_secret_operator.Controller.Provision.{
  or_deployment, provision_network, provision_canary, provision_with, target_key, provision,
  begin_validation,
}
use dynamic_secret_operator.Controller.Settle.{
  promote_target_workload, complete_promotion, settle_validation, validate,
}
use dynamic_secret_operator.Controller.Rotation.{
  dispatch, decide, evaluate, reconcile_found, reconcile,
}

module _ (conds : Conditions) (net : Net) (client : Client) (registry : Registry) (key : Key) where
  open client use {
    State, get_policy, patch_status, create, set_controller_reference, count_metric,
    on_secret_materialized,
  }

  -- The policy that the API server holds: a read finds it, a patch replaces it, and the metrics and
  -- the callback leave it.
  pub record Holds (policy_of : State → DynamicSecretPolicy) : Type 0 where
    pub reads : (s : State) → get_policy key s ≡ (ok (policy_of s), s)
    pub patches :
        (new base : DynamicSecretPolicy) (s : State)
        → (t : State) × (patch_status new base s ≡ (ok tt, t)) × (policy_of t ≡ new)
    pub counts : (m : Metric) (n : Text) (s : State) → policy_of (count_metric m n s) ≡ policy_of s
    pub calls_back :
        (n r : Text) (s : State) → policy_of (on_secret_materialized n r s).1 ≡ policy_of s

  module _ (policy_of : State → DynamicSecretPolicy) (holds : Holds policy_of) where
    -- A computation that always succeeds, with one answer, and leaves the policy.
    abbrev pub Runs {ℓ} : {A : Type ℓ} → (State → Result A × State) → A → Type ℓ
    Runs m a = (s : State) → (t : State) × (m s ≡ (ok a, t)) × (policy_of t ≡ policy_of s)

    -- A round that turns one policy into another.
    abbrev pub Turns : DynamicSecretPolicy → DynamicSecretPolicy → Type 0
    Turns p q =
        (s : State) → policy_of s ≡ p → policy_of (reconcile conds net client registry key s).1 ≡ q

    pub reconcile_lem :
        (s : State)
        → reconcile conds net client registry key s
          ≡ evaluate conds net client registry (policy_of s) s
    unfolding reconcile reconcile_found ◌>>=◌ attempt continue
    reconcile_lem s = rw (holds.reads s) refl

    -- Behind a patch that ends a round.
    patched-requeue :
        (new base : DynamicSecretPolicy) (s : State)
        → policy_of ((patch_status new base >> return requeue) s).1 ≡ new
    unfolding ◌>>◌ continue return
    patched-requeue new base s = let (t, e, i) = holds.patches new base s in rw e i

    pub decide_closed :
        (state : Option ConditionType) (base p : DynamicSecretPolicy) (revision : Text) (s : State)
        → is_tripped conds p ≡ false
        → decide conds net client state base p revision s
          ≡ dispatch conds net client state base p revision s
    unfolding decide
    decide_closed state base p revision s closed = rw (decide, closed) refl

    evaluate_in_state :
        (p : DynamicSecretPolicy) (t : ConditionType) (s : State)
        → determine_state conds p.status ≡ some t
        → is_tripped conds p ≡ false
        → evaluate conds net client registry p s ≡ dispatch conds net client (some t) p p [] s
    unfolding evaluate needs_materialization decide
    evaluate_in_state p t s state closed =
        rw (evaluate, needs_materialization, state, closed)
          (ap (λ d. decide conds net client d p p [] s) state
            ∙ decide_closed (some t) p p [] s closed)

    in_state-Turns :
        (p q : DynamicSecretPolicy) (t : ConditionType)
        → determine_state conds p.status ≡ some t
        → is_tripped conds p ≡ false
        → ((s : State)
            → policy_of s ≡ p
            → policy_of (dispatch conds net client (some t) p p [] s).1 ≡ q)
        → Turns p q
    in_state-Turns p q t state closed h s e =
        ap (λ r. policy_of r.1)
          (reconcile_lem s
            ∙ ap (λ x. evaluate conds net client registry x s) e
            ∙ evaluate_in_state p t s state closed)
        ∙ h s e

    pub begin-Turns :
        (p : DynamicSecretPolicy)
        → determine_state conds p.status ≡ some canary_provisioning
        → is_tripped conds p ≡ false
        → Turns p (set_status p (status_validating conds p.status))
    unfolding dispatch begin_validation
    begin-Turns p state closed =
        in_state-Turns p _ canary_provisioning state closed
          λ s e. patched-requeue (set_status p (status_validating conds p.status)) p s

    -- What the provisioning of a canary calls.
    pub record Provisions (p : DynamicSecretPolicy) : Type 0 where
      pub adapter : Adapter
      pub target : Workload
      pub canary : Deployment
      pub adapts : new_adapter (or_deployment p.spec.workload_selector.kind) ≡ ok adapter
      pub fetches : Runs (fetch client adapter (target_key p)) target
      pub builds : build_canary adapter target p (desired_secret_name p) ≡ some canary
      pub owned : Object
      pub owns : set_controller_reference p (deployment_object canary) ≡ ok owned
      pub creates : Runs (creating (create owned)) tt
      pub networks : Runs (provision_network conds net client p) tt

    pub provision-Turns :
        (p : DynamicSecretPolicy)
        → Provisions p
        → determine_state conds p.status ≡ some revision_prepared
        → is_tripped conds p ≡ false
        → Turns p (set_status p (status_provisioned conds p.status))
    unfolding dispatch provision provision_with provision_canary lift ◌>>=◌ ◌>>◌ continue
    provision-Turns p h state closed = in_state-Turns p _ revision_prepared state closed λ s e.
        let (a, fetched, _) = h.fetches s in
        let (b, created, _) = h.creates a in
        let (c, networked, _) = h.networks b in
        rw
          (
            h.adapts, fetched, continue, provision_with, h.builds, provision_canary, h.owns,
            created, networked,
          )
          (patched-requeue (set_status p (status_provisioned conds p.status)) p c)

    -- What the promotion calls behind probes that pass.
    pub record Promotes (p : DynamicSecretPolicy) : Type 0 where
      pub passes : Runs (reconcile_validation_probes net client p) done
      pub promotes : Runs (promote_target_workload conds net client p) tt

    pub promote-Turns :
        (p : DynamicSecretPolicy)
        → Promotes p
        → determine_state conds p.status ≡ some validating
        → is_tripped conds p ≡ false
        → Turns p (set_status p (status_completed conds validating p.status))
    unfolding dispatch validate settle_validation complete_promotion attempt ignore ◌>>=◌ ◌>>◌
        continue
    promote-Turns p h state closed = in_state-Turns p _ validating state closed λ s e.
        let (a, passed, _) = h.passes s in
        let (b, promoted, _) = h.promotes a in
        rw (passed, promoted)
          (patched-requeue (set_status p (status_completed conds validating p.status)) p _)
