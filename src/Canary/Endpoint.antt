-- ===== src/Canary/Endpoint.antt =====
-- `extractTargetCIDRAndPort` of internal/canary/networkpolicy.go: the addresses and ports to which
-- a probe of the canary may connect. What it calls of Go's `net`, `net/url` and `strconv` is the
-- record `Net`.
pub mod Laws
use dynamic_secret_operator.Prelude.{
  ℕ, Text, codes, text_eq, is_empty, contains, cut_last, cut_first, Bool, true, false, not, ◌&&◌,
  ◌||◌, Option, none, some, List, [], ◌∷◌, ◌++◌, map, ltb, is_some, if◌then◌else◌,
}
use dynamic_secret_operator.Api.{ProbeType, tls, postgresql, mysql, http, job, other_probe}

-- The parts of a parsed URL that are read.
pub record Url : Type 0 where
  pub scheme : Text
  pub host : Text
  pub hostname : Text
  pub port : Text

-- A parsed IP address, printed, and whether it has a four-byte form.
pub record Ip : Type 0 where
  pub text : Text
  pub is_v4 : Bool

-- `none` is an error (of `ParseIP`, a nil address).
pub record Net : Type 0 where
  pub parse_url : Text → Option Url
  -- The canonical text of the network of a CIDR.
  pub parse_cidr : Text → Option Text
  pub parse_ip : Text → Option Ip
  pub split_host_port : Text → Option (Text × Text)
  -- `strconv.Atoi`; a negative number stands as 0.
  pub atoi : Text → Option ℕ
  pub join_host_port : Text → Text → Text
  -- The text of a URL with another `Host`.
  pub replace_host : Text → Text → Text
  -- `strings.ToLower`.
  pub to_lower : Text → Text
  -- `strconv.Quote`, which the verb `%q` prints.
  pub quote : Text → Text
  -- `DefaultResolver.LookupIPAddr` within three seconds.
  pub lookup_ip : Text → Option (List Ip)

-- The map `defaultPorts`.
unfoldable pub default_ports : ProbeType → List ℕ
default_ports postgresql = 5432 ∷ []
default_ports mysql = 3306 ∷ []
default_ports http = 80 ∷ 443 ∷ []
default_ports tls = 443 ∷ []
default_ports job = []
default_ports (other_probe t) = []

-- `%s/32` or `%s/128`.
abbrev pub host_cidr : Ip → Text
host_cidr ip = ip.text ++ (if ip.is_v4 then codes "/32" else codes "/128")

-- `len(ports) == 0` falls back to the default ports.
abbrev pub or_default : List ℕ → List ℕ → List ℕ
or_default [] defaults = defaults
or_default (n ∷ ports) defaults = n ∷ ports

module _ (net : Net) where
  open net use {parse_url, parse_cidr, parse_ip, split_host_port, atoi, lookup_ip}

  -- A port number that is positive.
  unfoldable pub positive_port : Text → List ℕ
  positive_port t = elim (atoi t) [ none ↦ [] | some n ↦ if ltb 0 n then n ∷ [] else [] ]

  -- The endpoint without its URL scheme, and the default ports, which the scheme may narrow.
  unfoldable pub strip_scheme : Text → ProbeType → Text × List ℕ
  strip_scheme endpoint type =
      if not (contains endpoint (codes "://"))
      then (endpoint, default_ports type)
      else elim (parse_url endpoint) [
        | none ↦ (endpoint, default_ports type)
        | some u ↦ (
          u.host,
          if text_eq u.scheme (codes "https") && is_empty u.port
              then 443 ∷ []
              else if text_eq u.scheme (codes "http") && is_empty u.port
              then 80 ∷ []
              else default_ports type,
        )
      ]

  -- A CIDR with a port behind its last colon, "10.240.1.0/24:3306": the colon stands behind the
  -- first slash exactly if the text before the colon has a slash.
  unfoldable pub cidr_with_port : Text → Option (Text × List ℕ)
  cidr_with_port raw = elim (cut_last b':' raw) [
    | none ↦ none
    | some (before, after) ↦
        if contains before (codes "/")
        then elim (positive_port after) [ [] ↦ none | n ∷ ports ↦ some (before, n ∷ ports) ]
        else none
  ]

  -- A database path behind the first slash is dropped, unless the text is a CIDR.
  unfoldable pub without_path : Text → Text
  without_path raw = elim (cut_first b'/' raw) [
    | none ↦ raw
    | some (before, after) ↦ if is_some (parse_cidr raw) then raw else before
  ]

  unfoldable pub host_and_port : Text → Text × List ℕ
  unfolding without_path positive_port
  host_and_port raw = elim (cidr_with_port raw) [
    | some (host, ports) ↦ (host, ports)
    | none ↦ elim (split_host_port (without_path raw)) [
      | none ↦ (without_path raw, [])
      | some (host, port) ↦ (host, positive_port port)
    ]
  ]

  unfoldable pub host_cidrs : Text → List Text
  host_cidrs host = elim (parse_cidr host) [
    | some network ↦ network ∷ []
    | none ↦ elim (parse_ip host) [
      | some ip ↦ host_cidr ip ∷ []
      | none ↦ elim (lookup_ip host) [ none ↦ [] | some addrs ↦ map host_cidr addrs ]
    ]
  ]

  unfoldable pub extract_target_cidr_and_port : Text → ProbeType → List Text × List ℕ
  extract_target_cidr_and_port endpoint type =
      if is_empty endpoint
      then ([], default_ports type)
      else let (raw, defaults) = strip_scheme endpoint type in
        let (host, ports) = host_and_port raw in (host_cidrs host, or_default ports defaults)
