-- ===== src/Canary/Endpoint/Laws.antt =====
-- The ports that `extractTargetCIDRAndPort` (internal/canary/networkpolicy.go) finds.
use dynamic_secret_operator.Prelude.{ℕ, Text, List, [], ◌∷◌, ◌≢◌, arith}
use dynamic_secret_operator.Api.{ProbeType, tls, postgresql, mysql, http}
use dynamic_secret_operator.Canary.Endpoint.{
  Net, default_ports, strip_scheme, or_default, extract_target_cidr_and_port,
}

-- The probe types of the resource's schema that connect to an endpoint.
pub data IsNetworkProbe : ProbeType → Type 0 where
  tls_probe : IsNetworkProbe tls
  postgresql_probe : IsNetworkProbe postgresql
  mysql_probe : IsNetworkProbe mysql
  http_probe : IsNetworkProbe http

default_ports-ne-nil : {t : ProbeType} → IsNetworkProbe t → default_ports t ≢ []
unfolding default_ports
default_ports-ne-nil tls_probe = cc
default_ports-ne-nil postgresql_probe = cc
default_ports-ne-nil mysql_probe = cc
default_ports-ne-nil http_probe = cc

or_default-ne-nil : (ports defaults : List ℕ) → defaults ≢ [] → or_default ports defaults ≢ []
or_default-ne-nil [] defaults h = h
or_default-ne-nil (n ∷ ports) defaults h = cc

module _ (net : Net) where
  strip_scheme-ne-nil :
      (e : Text) (t : ProbeType) → default_ports t ≢ [] → (strip_scheme net e t).1 ≢ []
  unfolding strip_scheme
  strip_scheme-ne-nil e t h = ground arith

  -- Every network probe has a port, whatever its endpoint: its egress rule is never open to all ports.
  pub ports-ne-nil :
      (e : Text) {t : ProbeType} → IsNetworkProbe t → (extract_target_cidr_and_port net e t).1 ≢ []
  unfolding extract_target_cidr_and_port
  ports-ne-nil e {t} p =
      let h = default_ports-ne-nil p in
      ground (arith, strip_scheme-ne-nil e t h, or_default-ne-nil _ (strip_scheme net e t).1)
