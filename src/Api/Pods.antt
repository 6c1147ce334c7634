-- ===== src/Api/Pods.antt =====
-- Of the Kubernetes pod types, the fields that the operator reads or writes; a field `rest` stands
-- for all the others, which it copies.
use dynamic_secret_operator.Prelude.{ℕ, Text, text_eq, Option, List, [], ◌∷◌, if◌then◌else◌}

pub record SecretVolumeSource : Type 0 where
  pub secret_name : Text
  pub rest : Text

pub record Volume : Type 0 where
  pub name : Text
  pub secret : Option SecretVolumeSource
  pub rest : Text

pub record SecretKeySelector : Type 0 where
  pub name : Text
  pub key : Text
  pub rest : Text

pub record EnvVarSource : Type 0 where
  pub secret_key_ref : Option SecretKeySelector
  pub rest : Text

pub record EnvVar : Type 0 where
  pub name : Text
  pub value : Text
  pub value_from : Option EnvVarSource

pub record SecretEnvSource : Type 0 where
  pub name : Text
  pub rest : Text

pub record EnvFromSource : Type 0 where
  pub secret_ref : Option SecretEnvSource
  pub rest : Text

pub record Container : Type 0 where
  pub name : Text
  pub env : List EnvVar
  pub env_from : List EnvFromSource
  pub rest : Text

-- A string map, `map[string]string`, as its entries; a nil map is the empty list.
abbrev pub Labels : Type 0
Labels = List (Text × Text)

-- `m[key]` of a string map, empty for a missing key.
unfoldable pub value_of : Text → Labels → Text
value_of key [] = []
value_of key ((k, v) ∷ m) = if text_eq k key then v else value_of key m

pub record PodTemplateSpec : Type 0 where
  pub labels : Labels
  pub annotations : Labels
  pub volumes : List Volume
  pub containers : List Container
  pub init_containers : List Container
  pub rest : Text

-- `batchv1.JobTemplateSpec`.
pub record JobTemplate : Type 0 where
  pub template : PodTemplateSpec
  pub backoff_limit : Option ℕ
  pub rest : Text
