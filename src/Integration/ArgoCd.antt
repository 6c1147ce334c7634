-- ===== src/Integration/ArgoCd.antt =====
-- internal/integration/argocd.go: the Argo CD Application of a workload is told to ignore what the
-- operator changes.
pub mod Laws
use dynamic_secret_operator.Prelude.{
  ℕ, Text, codes, text_eq, is_empty, cut_first, Bool, true, false, not, ◌&&◌, ◌||◌, Option, none,
  some, List, [], ◌∷◌, ◌++◌, any, if◌then◌else◌,
}
use dynamic_secret_operator.Api.{
  WorkloadKind, deployment, stateful_set, daemon_set, rollout, unset_kind, other_kind,
}
use dynamic_secret_operator.Api.Pods.{value_of, Labels}
use dynamic_secret_operator.Client.{
  Client, Key, Result, ok, err, Error, not_found, Workload, Application, ResourceIgnoreDifferences,
  ◌>>=◌, ◌>>◌, return, fail, attempt, lift,
}

abbrev pub annotation_tracking_id : Text
annotation_tracking_id = codes "argocd.argoproj.io/tracking-id"

abbrev pub label_tracking_instance : Text
label_tracking_instance = codes "argocd.argoproj.io/instance"

abbrev pub label_instance : Text
label_instance = codes "app.kubernetes.io/instance"

abbrev pub json_pointer_revision_annotation : Text
json_pointer_revision_annotation =
    codes "/spec/template/metadata/annotations/dso.quantumsys.dev~1revision"

-- `strings.Split(s, ":")[0]`.
abbrev before_colon : Text → Text
before_colon s = elim (cut_first b':' s) [ none ↦ s | some (before, after) ↦ before ]

-- The first text that is not empty.
abbrev first_of_texts : Text → Text → Text
first_of_texts [] t = t
first_of_texts (c ∷ s) t = c ∷ s

-- An empty tracking id has an empty first part, so the test for it falls away.
unfoldable pub discover_argo_cd_app_name : Workload → Text
unfolding value_of
discover_argo_cd_app_name w =
    first_of_texts (before_colon (value_of annotation_tracking_id w.annotations)) (
      first_of_texts (value_of label_tracking_instance w.labels) (value_of label_instance w.labels))

-- The two JQ expressions of `requiredJQ`.
abbrev pub required_volumes_jq : Text → Text
required_volumes_jq name =
    codes ".spec.template.spec.volumes[] | select(.secret.secretName | startswith("
    ++ (b'"' ∷ (name ++ codes "-"))
    ++ (b'"' ∷ codes "))")

abbrev pub required_env_jq : Text → Text
required_env_jq name =
    codes
      ".spec.template.spec.containers[].env[]? | select(.valueFrom.secretKeyRef.name | startswith("
    ++ (b'"' ∷ (name ++ codes "-"))
    ++ (b'"' ∷ codes "))")

unfoldable pub listed : Text → List Text → Bool
listed t ts = any (λ u. text_eq u t) ts

-- One round of a loop that appends what is missing, and whether it did.
unfoldable pub append_missing : Text → List Text → List Text × Bool
append_missing t ts = if listed t ts then (ts, false) else (ts ++ t ∷ [], true)

unfoldable pub is_for : Text → Text → ResourceIgnoreDifferences → Bool
is_for group kind item =
    (text_eq item.group group || (is_empty item.group && text_eq group (codes "apps")))
    && text_eq item.kind kind

-- The body of the loop for the item that is found. The expressions are two different texts, so
-- the second test against the list that the first may have extended is a test against `existing`.
unfoldable pub extend_item : Text → ResourceIgnoreDifferences → ResourceIgnoreDifferences × Bool
extend_item name item =
    let (pointers, p) = append_missing json_pointer_revision_annotation item.json_pointers in
    let (volumes, v) = append_missing (required_volumes_jq name) item.jq_path_expressions in
    let (all, e) = append_missing (required_env_jq name) volumes in
    (record item { json_pointers = pointers; jq_path_expressions = all }, p || (v || e))

abbrev new_item : Text → Text → Text → ResourceIgnoreDifferences
new_item name group kind = record {
  group = group;
  kind = kind;
  json_pointers = json_pointer_revision_annotation ∷ [];
  jq_path_expressions = required_volumes_jq name ∷ required_env_jq name ∷ [];
  rest = [];
}

unfoldable pub ensure_items :
    Text → Text → Text → List ResourceIgnoreDifferences → List ResourceIgnoreDifferences × Bool
ensure_items name group kind [] = (new_item name group kind ∷ [], true)
ensure_items name group kind (item ∷ items) =
    let rest = ensure_items name group kind items in
    if is_for group kind item
    then ((extend_item name item).0 ∷ items, (extend_item name item).1)
    else (item ∷ rest.0, rest.1)

-- The application as changed, and whether it was.
unfoldable pub ensure_ignore_differences : Application → Text → Text → Application × Bool
ensure_ignore_differences app group kind =
    let (items, modified) = ensure_items app.name group kind app.ignore_differences in
    (record app { ignore_differences = items }, modified)

unfoldable pub kind_text : WorkloadKind → Text
kind_text deployment = codes "Deployment"
kind_text stateful_set = codes "StatefulSet"
kind_text daemon_set = codes "DaemonSet"
kind_text rollout = codes "Rollout"
kind_text unset_kind = []
kind_text (other_kind t) = t

abbrev target_group : WorkloadKind → Text
target_group rollout = codes "argoproj.io"
target_group kind = codes "apps"

abbrev find_named : Text → List Application → Option Application
find_named name [] = none
find_named name (a ∷ apps) = if text_eq a.name name then some a else find_named name apps

abbrev first_listed : Text → Result (List Application) → Result Application
first_listed name (err e) = err not_found
first_listed name (ok apps) = elim (find_named name apps) [ none ↦ err not_found | some a ↦ ok a ]

-- The first answer if it is one, or the next call's.
abbrev pub or_else :
    {S : Type 0} → Result Application → (S → Result Application × S) → S → Result Application × S
or_else (ok a) next = return a
or_else (err e) next = next

abbrev pub unless_missing : Result (Unit {0}) → Result (Unit {0})
unless_missing (ok u) = ok tt
unless_missing (err not_found) = ok tt
unless_missing (err e) = err e

module _ (client : Client) where
  open client use {
    State, get_application, list_applications, update_application, retry_on_conflict,
    auto_patch_enabled,
  }

  -- The first call that succeeds of the workload's namespace, "argocd", and the list of all.
  unfoldable pub fetch_argo_cd_application : Text → Text → State → Result Application × State
  fetch_argo_cd_application name namespace = do
    first ← attempt (get_application (record { name = name; namespace = namespace }))
    or_else first (do
      second ← attempt (get_application (record { name = name; namespace = codes "argocd" }))
      or_else second (do apps ← attempt list_applications; lift (first_listed name apps)))

  abbrev pub update_if : Application × Bool → State → Result (Unit {0}) × State
  update_if (app, modified) = if modified then update_application app else return tt

  -- The function that is retried.
  unfoldable pub update_once : Text → Text → WorkloadKind → State → Result (Unit {0}) × State
  unfolding fetch_argo_cd_application
  update_once name namespace kind = do
    app ← fetch_argo_cd_application name namespace
    update_if (ensure_ignore_differences app (target_group kind) (kind_text kind))

  unfoldable pub reconcile_argo_cd_ignore_differences :
      Workload → WorkloadKind → State → Result (Unit {0}) × State
  unfolding update_once discover_argo_cd_app_name
  reconcile_argo_cd_ignore_differences w kind =
      let name = discover_argo_cd_app_name w in
      elim (not auto_patch_enabled || is_empty name) [
        | true ↦ return tt
        | false ↦ do
          result ← attempt (retry_on_conflict (update_once name w.namespace kind))
          lift (unless_missing result)
      ]
