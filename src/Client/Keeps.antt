-- ===== src/Client/Keeps.antt =====
-- What a computation leaves true of the world: the rules for the monad of Client.antt.
use dynamic_secret_operator.Prelude.{
  Text, Bool, true, false, Option, none, some, List, [], ◌∷◌, if◌then◌else◌, ◌≡◌, refl,
}
use dynamic_secret_operator.Api.{WorkloadKind, ValidationProbe}
use dynamic_secret_operator.Api.Pods.{Labels}
use dynamic_secret_operator.Client.{
  Key, Application, Object, ObjectKind, SecretData, Metric, Client, Result, Error, ok, err,
  continue, ◌>>=◌, ◌>>◌, return, fail, lift, attempt, ignore, creating, deleting, effect, read,
}

-- Every run keeps `Q`, whatever it answers.
pub record Keeps {ℓ} {S : Type 0} {A : Type ℓ} (Q : S → Type 0) (m : S → Result A × S)
    : Type 0 where
  pub after : (s : S) → Q s → Q (m s).1

module _ {S : Type 0} {Q : S → Type 0} where
  continue-Keeps {ℓ κ} :
      {A : Type ℓ} {B : Type κ} (r : Result A × S) (f : A → S → Result B × S)
      → Q r.1
      → ((a : A) → Keeps Q (f a))
      → Q (continue r f).1
  unfolding continue
  continue-Keeps (ok a, s) f q k = (k a).after s q
  continue-Keeps (err e, s) f q k = q

  pub bind-Keeps {ℓ κ} :
      {A : Type ℓ} {B : Type κ} {m : S → Result A × S} {f : A → S → Result B × S}
      → Keeps Q m
      → ((a : A) → Keeps Q (f a))
      → Keeps Q (m >>= f)
  unfolding ◌>>=◌
  bind-Keeps {m} {f} km kf = record { after = λ s q. continue-Keeps (m s) f (km.after s q) kf }

  pub then-Keeps {ℓ} :
      {B : Type ℓ} {m : S → Result (Unit {0}) × S} {k : S → Result B × S}
      → Keeps Q m
      → Keeps Q k
      → Keeps Q (m >> k)
  unfolding ◌>>◌
  then-Keeps {m} {k} km kk = record {
    after = λ s q. continue-Keeps (m s) (λ _. k) (km.after s q) (λ _. kk);
  }

  pub return-Keeps {ℓ} : {A : Type ℓ} (a : A) → Keeps Q (return a)
  unfolding return
  return-Keeps a = record { after = λ s q. q }

  pub fail-Keeps {ℓ} : {A : Type ℓ} (e : Error) → Keeps {A = A} Q (fail e)
  unfolding fail
  fail-Keeps e = record { after = λ s q. q }

  pub lift-Keeps {ℓ} : {A : Type ℓ} (r : Result A) → Keeps Q (lift r)
  unfolding lift
  lift-Keeps r = record { after = λ s q. q }

  pub attempt-Keeps {ℓ} : {A : Type ℓ} {m : S → Result A × S} → Keeps Q m → Keeps Q (attempt m)
  unfolding attempt
  attempt-Keeps k = record { after = k.after }

  pub ignore-Keeps {ℓ} : {A : Type ℓ} {m : S → Result A × S} → Keeps Q m → Keeps Q (ignore m)
  unfolding ignore
  ignore-Keeps k = record { after = k.after }

  pub creating-Keeps : {m : S → Result (Unit {0}) × S} → Keeps Q m → Keeps Q (creating m)
  unfolding creating
  creating-Keeps k = record { after = k.after }

  pub deleting-Keeps : {m : S → Result (Unit {0}) × S} → Keeps Q m → Keeps Q (deleting m)
  unfolding deleting
  deleting-Keeps k = record { after = k.after }

  pub effect-Keeps : (f : S → S) → ((s : S) → Q s → Q (f s)) → Keeps Q (effect f)
  unfolding effect
  effect-Keeps f k = record { after = k }

  pub read-Keeps {ℓ} : {A : Type ℓ} (f : S → A × S) → ((s : S) → Q s → Q (f s).1) → Keeps Q (read f)
  unfolding read
  read-Keeps f k = record { after = k }

  -- A branch may use that it was taken.
  pub branch-Keeps {ℓ} :
      {A : Type ℓ} {m n : S → Result A × S} (b : Bool)
      → (b ≡ true → Keeps Q m)
      → (b ≡ false → Keeps Q n)
      → Keeps {A = A} Q (elim b [ true ↦ m | false ↦ n ])
  branch-Keeps true km kn = km refl
  branch-Keeps false km kn = kn refl

  pub if-Keeps {ℓ} :
      {A : Type ℓ} {m n : S → Result A × S} (b : Bool)
      → (b ≡ true → Keeps Q m)
      → (b ≡ false → Keeps Q n)
      → Keeps {A = A} Q (if b then m else n)
  if-Keeps true km kn = km refl
  if-Keeps false km kn = kn refl

  pub option-Keeps {ℓ κ} :
      {A : Type ℓ} {B : Type κ} {m : S → Result A × S} {f : B → S → Result A × S} (o : Option B)
      → Keeps Q m
      → ((b : B) → Keeps Q (f b))
      → Keeps {A = A} Q (elim o [ none ↦ m | some b ↦ f b ])
  option-Keeps none km kf = km
  option-Keeps (some b) km kf = kf b

  pub list-Keeps {ℓ κ} :
      {A : Type ℓ} {B : Type κ} {m : S → Result A × S} {f : B → List B → S → Result A × S}
      (l : List B)
      → Keeps Q m
      → ((b : B) (bs : List B) → Keeps Q (f b bs))
      → Keeps {A = A} Q (elim l [ [] ↦ m | b ∷ bs ↦ f b bs ])
  list-Keeps [] km kf = km
  list-Keeps (b ∷ bs) km kf = kf b bs

pub ruleset keeps_rules = (
  bind-Keeps, then-Keeps, return-Keeps, fail-Keeps, lift-Keeps, attempt-Keeps, ignore-Keeps,
  creating-Keeps, deleting-Keeps, effect-Keeps, read-Keeps,
)

-- What the calls of a client keep of the world, but for the two that patch a policy's status and
-- the target workload.
pub record CallsKeep (client : Client) (Q : client.State → Type 0) : Type 0 where
  pub get_policy_keeps : (k : Key) → Keeps Q (client.get_policy k)
  pub get_workload_keeps : (k : WorkloadKind) (n : Key) → Keeps Q (client.get_workload k n)
  pub get_rollout_keeps : (k : Key) → Keeps Q (client.get_rollout k)
  pub get_secret_keeps : (k : Key) → Keeps Q (client.get_secret k)
  pub get_job_keeps : (k : Key) → Keeps Q (client.get_job k)
  pub list_secrets_keeps : (n : Text) (l : Labels) → Keeps Q (client.list_secrets n l)
  pub list_jobs_keeps : (n : Text) (l : Labels) → Keeps Q (client.list_jobs n l)
  pub fetch_vault_keeps : (u n v : Text) → Keeps Q (client.fetch_vault_secret u n v)
  pub read_secret_keeps : (k : Key) → Keeps Q (client.read_secret k)
  pub get_deployment_keeps : (k : Key) → Keeps Q (client.get_deployment_created k)
  pub list_pods_keeps : (n : Text) (l : Labels) → Keeps Q (client.list_canary_pods n l)
  -- What is retried keeps what one try keeps.
  pub get_application_keeps : (k : Key) → Keeps Q (client.get_application k)
  pub list_applications_keeps : (s : client.State) → Q s → Q (client.list_applications s).1
  pub update_application_keeps : (a : Application) → Keeps Q (client.update_application a)
  pub retry_keeps :
      (m : client.State → Result (Unit {0}) × client.State)
      → Keeps Q m
      → Keeps Q (client.retry_on_conflict m)
  pub create_keeps : (o : Object) → Keeps Q (client.create o)
  pub delete_keeps : (k : ObjectKind) (n : Key) → Keeps Q (client.delete k n)
  pub run_probe_keeps : (p : ValidationProbe) (d : SecretData) → Keeps Q (client.run_probe p d)
  pub count_keeps : (m : Metric) (n : Text) (s : client.State) → Q s → Q (client.count_metric m n s)
  pub now_keeps : (s : client.State) → Q s → Q (client.now s).1
  pub callback_keeps : (n r : Text) → Keeps Q (client.on_secret_materialized n r)
