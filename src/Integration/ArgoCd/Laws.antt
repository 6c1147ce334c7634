-- ===== src/Integration/ArgoCd/Laws.antt =====
-- What `ensureIgnoreDifferences` of internal/integration/argocd.go establishes.
use dynamic_secret_operator.Prelude.{
  Text, text_eq, text_eq_refl, Bool, Bool-cases, true, false, ◌||◌, List, [], ◌∷◌, ◌++◌, any,
  any-append_last, inl, inr, ◌≡◌, ◌∙◌, refl, arith,
}
use dynamic_secret_operator.Client.{Application, ResourceIgnoreDifferences}
use dynamic_secret_operator.Integration.ArgoCd.{
  json_pointer_revision_annotation, required_volumes_jq, required_env_jq, listed, append_missing,
  is_for, extend_item, ensure_items, ensure_ignore_differences,
}

listed-append : (t u : Text) (ts : List Text) → listed t ts ≡ true → listed t (ts ++ u ∷ []) ≡ true
unfolding listed any
listed-append t u [] h = cc
listed-append t u (x ∷ ts) h = ground (arith, listed-append t u ts)

listed-append_self : (t : Text) (ts : List Text) → listed t (ts ++ t ∷ []) ≡ true
unfolding listed
listed-append_self t ts = any-append_last (λ u. text_eq u t) ts t (text_eq_refl t)

-- Afterwards the text is listed, and what was listed still is.
append_missing_lem :
    (t u : Text) (ts : List Text)
    → (listed t (append_missing t ts).0 ≡ true)
      × (listed u ts ≡ true → listed u (append_missing t ts).0 ≡ true)
unfolding append_missing
append_missing_lem t u ts = ground (arith, listed-append_self t ts, listed-append u t ts)

append_missing-listed :
    (t : Text) (ts : List Text) → listed t ts ≡ true → append_missing t ts ≡ (ts, false)
unfolding append_missing
append_missing-listed t ts h = ground arith

-- An item with all that the operator needs.
pub record IsComplete (name : Text) (item : ResourceIgnoreDifferences) : Type 0 where
  pub pointer : listed json_pointer_revision_annotation item.json_pointers ≡ true
  pub volumes : listed (required_volumes_jq name) item.jq_path_expressions ≡ true
  pub variables : listed (required_env_jq name) item.jq_path_expressions ≡ true

extend_item-IsComplete :
    (name : Text) (item : ResourceIgnoreDifferences) → IsComplete name (extend_item name item).0
unfolding extend_item
extend_item-IsComplete name item =
    let volumes = (append_missing (required_volumes_jq name) item.jq_path_expressions).0 in
    record {
      pointer = (append_missing_lem json_pointer_revision_annotation [] item.json_pointers).0;
      volumes =
          (append_missing_lem (required_env_jq name) (required_volumes_jq name) volumes).1
            (append_missing_lem (required_volumes_jq name) [] item.jq_path_expressions).0;
      variables = (append_missing_lem (required_env_jq name) [] volumes).0;
    }

extend_item_complete :
    (name : Text) (item : ResourceIgnoreDifferences)
    → IsComplete name item
    → extend_item name item ≡ (item, false)
unfolding extend_item
extend_item_complete name item c = rw (
  append_missing-listed _ _ c.pointer,
  append_missing-listed _ _ c.volumes,
  append_missing-listed _ _ c.variables,
)

is_for-extend_item :
    (name group kind : Text) (item : ResourceIgnoreDifferences)
    → is_for group kind (extend_item name item).0 ≡ is_for group kind item
unfolding is_for extend_item
is_for-extend_item name group kind item = refl

-- Whether some item is for the group and kind; the first such item is complete.
pub data FirstIsComplete (name group kind : Text) : List ResourceIgnoreDifferences → Type 0 where
  here :
      {item : ResourceIgnoreDifferences} {items : List ResourceIgnoreDifferences}
      → is_for group kind item ≡ true
      → IsComplete name item
      → FirstIsComplete name group kind (item ∷ items)
  later :
      {item : ResourceIgnoreDifferences} {items : List ResourceIgnoreDifferences}
      → is_for group kind item ≡ false
      → FirstIsComplete name group kind items
      → FirstIsComplete name group kind (item ∷ items)

ensure_items_complete :
    (name group kind : Text) {items : List ResourceIgnoreDifferences}
    → FirstIsComplete name group kind items
    → ensure_items name group kind items ≡ (items, false)
unfolding ensure_items
ensure_items_complete name group kind (here {item} {items} f c) =
    rw (f, extend_item_complete name item c)
ensure_items_complete name group kind (later {item} {items} f c) =
    rw (f, ensure_items_complete name group kind c)

-- The expressions are long texts, so the test is compared as a whole.
or_true : (a b : Bool) → b ≡ true → (a || b) ≡ true
or_true true b h = refl
or_true false b h = h

module _ (name group kind : Text) where
  new_item_lem : FirstIsComplete name group kind (ensure_items name group kind []).0
  unfolding ensure_items is_for listed any
  new_item_lem =
      let found : (t : Text) (ts : List Text) → any (λ u. text_eq u t) (t ∷ ts) ≡ true =
        λ t ts. rw (text_eq_refl t) in
      here (rw (text_eq_refl group, text_eq_refl kind)) (record {
        pointer = found json_pointer_revision_annotation [];
        volumes = found (required_volumes_jq name) (required_env_jq name ∷ []);
        variables =
            or_true (text_eq (required_volumes_jq name) (required_env_jq name)) _
              (found (required_env_jq name) []);
      })

  ensure_items-FirstIsComplete :
      (items : List ResourceIgnoreDifferences)
      → FirstIsComplete name group kind (ensure_items name group kind items).0
  unfolding ensure_items
  ensure_items-FirstIsComplete [] = new_item_lem
  ensure_items-FirstIsComplete (item ∷ items) = elim (Bool-cases (is_for group kind item)) [
    | inl f ↦
        rw f (here (is_for-extend_item name group kind item ∙ f) (extend_item-IsComplete name item))
    | inr f ↦ rw f (later f (ensure_items-FirstIsComplete items))
  ]

-- After one update, the Application's first entry for the workload's group and kind lists the
-- revision annotation's pointer and both JQ expressions; a second update changes nothing and
-- reports so.
pub ensure_ignore_differences_idem :
    (app : Application) (group kind : Text)
    → let updated = (ensure_ignore_differences app group kind).0 in
      FirstIsComplete app.name group kind updated.ignore_differences
      × (ensure_ignore_differences updated group kind ≡ (updated, false))
unfolding ensure_ignore_differences
ensure_ignore_differences_idem app group kind =
    let first = ensure_items-FirstIsComplete app.name group kind app.ignore_differences in
    (first, rw (ensure_items_complete app.name group kind first))
