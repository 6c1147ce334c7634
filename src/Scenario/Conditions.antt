-- ===== src/Scenario/Conditions.antt =====
-- The condition helpers of apimachinery on a list.
use dynamic_secret_operator.Prelude.{
  Option, none, some, List, [], ◌∷◌, if◌then◌else◌, ◌≡◌, refl, arith,
}
use dynamic_secret_operator.Api.{Condition, ConditionType}
use dynamic_secret_operator.Client.{Conditions, type_eq, type_eq_iff, is_true_status}

unfoldable pub set : Condition → List Condition → List Condition
set c [] = c ∷ []
set c (d ∷ cs) = let rest = set c cs in if type_eq d.type c.type then c ∷ cs else d ∷ rest

unfoldable pub remove : ConditionType → List Condition → List Condition
remove t [] = []
remove t (d ∷ cs) = let rest = remove t cs in if type_eq d.type t then rest else d ∷ rest

unfoldable pub find : ConditionType → List Condition → Option Condition
find t [] = none
find t (d ∷ cs) = let rest = find t cs in if type_eq d.type t then some d else rest

pub find-set_lem :
    (t : ConditionType) (c : Condition) (cs : List Condition)
    → find t (set c cs) ≡ (if type_eq c.type t then some c else find t cs)
unfolding find set
find-set_lem t c [] = refl
find-set_lem t c (d ∷ cs) = ground (
  arith,
  find-set_lem t c cs,
  type_eq_iff d.type c.type,
  type_eq_iff d.type t,
  type_eq_iff c.type t,
)

pub find-remove_lem :
    (t u : ConditionType) (cs : List Condition)
    → find t (remove u cs) ≡ (if type_eq u t then none else find t cs)
unfolding find remove
find-remove_lem t u [] = ground arith
find-remove_lem t u (d ∷ cs) =
    ground
      (arith, find-remove_lem t u cs, type_eq_iff d.type u, type_eq_iff d.type t, type_eq_iff u t)

abbrev pub listed : Conditions
listed = record {
  set_condition = set;
  remove_condition = remove;
  find_condition = find;
  is_condition_true = λ t cs. is_true_status (find t cs);
  find-set = find-set_lem;
  find-remove = find-remove_lem;
  is_condition_true_lem = λ t cs. refl;
}
