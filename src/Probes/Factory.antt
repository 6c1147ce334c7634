-- ===== src/Probes/Factory.antt =====
-- `NewProbeExecutor` of internal/probes/factory.go, and the probe runner that
-- internal/controller/dynamicsecretpolicy_controller.go falls back to.
use dynamic_secret_operator.Prelude.{codes, Option, none, some}
use dynamic_secret_operator.Api.{
  ValidationProbe, ProbeType, tls, postgresql, mysql, http, job, other_probe,
}
use dynamic_secret_operator.Canary.Endpoint.{Net}
use dynamic_secret_operator.Client.{SecretData, Result, ok, err, failed}
use dynamic_secret_operator.Probes.Sql.{Database}
use dynamic_secret_operator.Probes.Postgres.{postgres_execute}
use dynamic_secret_operator.Probes.MySql.{mysql_execute}
use dynamic_secret_operator.Probes.Tls.{TlsNetwork, tls_execute}
use dynamic_secret_operator.Probes.Http.{HttpNetwork, http_execute}

-- The implementations of `ProbeExecutor`.
pub data ProbeExecutor : Type 0 where
  http_probe tls_probe postgres_probe mysql_probe : ProbeExecutor

-- `none` is the nil executor of a Job probe.
unfoldable pub new_probe_executor : ProbeType → Result (Option ProbeExecutor)
new_probe_executor http = ok (some http_probe)
new_probe_executor tls = ok (some tls_probe)
new_probe_executor postgresql = ok (some postgres_probe)
new_probe_executor mysql = ok (some mysql_probe)
new_probe_executor job = ok none
new_probe_executor (other_probe t) = err (failed (codes "unsupported probe type"))

-- What the executors call.
pub record Services (S : Type 0) : Type 1 where
  pub Connection : Type 0
  pub net : Net
  pub database : Database S Connection
  pub tls_network : TlsNetwork S
  pub http_network : HttpNetwork S

module _ {S : Type 0} (services : Services S) where
  open services use {net, database, tls_network, http_network}

  -- `executor.Execute`.
  unfoldable pub execute : ProbeExecutor → ValidationProbe → SecretData → S → Result (Unit {0}) × S
  unfolding http_execute tls_execute postgres_execute mysql_execute
  execute http_probe config entries = http_execute http_network config entries
  execute tls_probe config entries = tls_execute tls_network config entries
  execute postgres_probe config entries = postgres_execute database net config entries
  execute mysql_probe config entries = mysql_execute database net config entries

  -- The runner without `r.ProbeRunner`.
  unfoldable pub default_runner : ValidationProbe → SecretData → S → Result (Unit {0}) × S
  unfolding new_probe_executor execute
  default_runner probe entries s = elim (new_probe_executor probe.type) [
    | err e ↦ (err e, s)
    | ok none ↦ (err (failed (codes "executor is nil for probe type")), s)
    | ok (some executor) ↦ execute executor probe entries s
  ]
