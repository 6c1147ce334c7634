-- ===== src/Probes/Http.antt =====
-- internal/probes/http.go.
pub mod Status
use dynamic_secret_operator.Prelude.{
  ℕ, Text, codes, is_empty, Bool, true, false, not, ◌||◌, Option, none, some, ltb, leb,
  if◌then◌else◌,
}
use dynamic_secret_operator.Api.{ValidationProbe}
use dynamic_secret_operator.Client.{SecretData, Result, ok, err, failed}
use dynamic_secret_operator.Probes.Tls.{has_pinned_secret}

-- What a GET gives: the status of the response, or an error.
pub data Response : Type 0 where
  status : ℕ → Response
  request_failed : Response

-- The HTTP client that is used: the one that was injected, or the probe's own, with
-- `InsecureSkipVerify` and the client's timeout in seconds.
pub data HttpClient : Type 0 where
  injected : HttpClient
  own_client : Bool → ℕ → HttpClient

pub record HttpNetwork (S : Type 0) : Type 0 where
  pub has_client : Bool
  -- Whether `http.NewRequestWithContext` of an address succeeds.
  pub is_valid_request : Text → Bool
  -- `Do`, of a client, a deadline in seconds and an address.
  pub get : HttpClient → ℕ → Text → S → Response × S
  pub close_body : S → S

unfoldable pub http_timeout : ValidationProbe → ℕ
http_timeout config = if ltb 0 config.query_timeout then config.query_timeout else 15

module _ {S : Type 0} (network : HttpNetwork S) where
  open network use {has_client, is_valid_request, get, close_body}

  unfoldable pub http_client : ValidationProbe → SecretData → HttpClient
  unfolding has_pinned_secret http_timeout
  http_client config entries =
      if has_client then injected else own_client (has_pinned_secret entries) (http_timeout config)

  abbrev pub after_get : Response × S → Result (Unit {0}) × S
  after_get (request_failed, s) = (err (failed (codes "http probe request failed")), s)
  after_get (status code, s) = (
    if ltb code 200 || leb 400 code
        then err (failed (codes "http probe received unsuccessful status code"))
        else ok tt,
    close_body s,
  )

  unfoldable pub http_execute : ValidationProbe → SecretData → S → Result (Unit {0}) × S
  unfolding http_client http_timeout
  http_execute config entries s =
      if is_empty config.endpoint
      then (err (failed (codes "http probe endpoint must not be empty")), s)
      else if not (is_valid_request config.endpoint)
      then (err (failed (codes "failed to construct http probe request")), s)
      else after_get (get (http_client config entries) (http_timeout config) config.endpoint s)
