-- ===== src/Probes/Http/Status.antt =====
-- When the probe of internal/probes/http.go passes.
use dynamic_secret_operator.Prelude.{
  ℕ, ltb, leb, ◌≤◌, ◌<◌, codes, is_empty, is_empty_iff, sym, true, false, not, ◌||◌, [],
  if◌then◌else◌, ◌≡◌, ◌≢◌, ◌↔◌, refl, ap, arith,
}
use dynamic_secret_operator.Api.{ValidationProbe}
use dynamic_secret_operator.Client.Results.{if_ok}
use dynamic_secret_operator.Client.{SecretData, Result, Error, ok, err, failed}
use dynamic_secret_operator.Probes.Tls.{has_pinned_secret}
use dynamic_secret_operator.Probes.Http.{
  Response, status, request_failed, HttpNetwork, http_timeout, http_client, after_get, http_execute,
}

module _ {S : Type 0} (network : HttpNetwork S) where
  open network use {is_valid_request, get, close_body}

  -- The response's status is of the classes 2xx and 3xx, and its body is then closed.
  abbrev pub Succeeds : Response × S → S → Type 0
  Succeeds r t =
      (code : ℕ) × (u : S) × (r ≡ (status code, u))
      × (200 ≤ code)
      × (code < 400)
      × (t ≡ close_body u)

  status_ok :
      (code : ℕ) (x : Error) (done : Result (Unit {0}))
      → done ≡ ok tt
      → ((if ltb code 200 || leb 400 code then err x else done) ≡ ok tt)
        ↔ ((200 ≤ code) × (code < 400))
  status_ok code x done e = ground arith

  after_get-Succeeds : (r : Response × S) (t : S) → after_get network r ≡ (ok tt, t) → Succeeds r t
  after_get-Succeeds (request_failed, u) t e = cc
  after_get-Succeeds (status code, u) t e =
      let (lower, upper) = (status_ok code _ (ok tt) refl).0 (ap (λ r. r.0) e) in
      (code, u, refl, lower, upper, sym (ap (λ r. r.1) e))

  Succeeds-after_get : (r : Response × S) (t : S) → Succeeds r t → after_get network r ≡ (ok tt, t)
  Succeeds-after_get r t (code, u, e, lower, upper, i) =
      rw (e, i) (ap (λ q. (q, close_body u)) ((status_ok code _ (ok tt) refl).1 (lower, upper)))

  -- An HTTP probe passes, with the state `t` left, exactly if its endpoint is not empty and makes a
  -- request, and the answer to a GET by the probe's client, with the probe's timeout or else 15
  -- seconds, has a status from 200 to 399, its body then being closed.
  pub http_execute_iff :
      (config : ValidationProbe) (entries : SecretData) (s t : S)
      → (http_execute network config entries s ≡ (ok tt, t)) ↔ (
          (config.endpoint ≢ [])
          × (is_valid_request config.endpoint ≡ true)
          × Succeeds
              (get (http_client network config entries) (http_timeout config) config.endpoint s)
              t)
  unfolding http_execute
  http_execute_iff config entries s t = (
    λ e.
        let (i, j) =
          if_ok (is_empty config.endpoint) (failed (codes "http probe endpoint must not be empty"))
            s t _ e in
        let (k, l) =
          if_ok (not (is_valid_request config.endpoint))
            (failed (codes "failed to construct http probe request")) s t _ j in
        (ground (arith, is_empty_iff config.endpoint), ground arith, after_get-Succeeds _ t l),
    λ (n, v, h).
        let filled : is_empty config.endpoint ≡ false =
          ground (arith, is_empty_iff config.endpoint) in
        rw (http_execute, filled, v) (Succeeds-after_get _ t h),
  )

  -- A value to pin in the secret is not compared with anything: of two secrets that both have one,
  -- the probe makes the same request, without verification of the server's certificate, and ends the
  -- same.
  pub http_execute_unpinned :
      (config : ValidationProbe) (a b : SecretData) (s : S)
      → has_pinned_secret a ≡ true
      → has_pinned_secret b ≡ true
      → http_execute network config a s ≡ http_execute network config b s
  unfolding http_execute http_client
  http_execute_unpinned config a b s h i = rw (http_execute, http_client, h, i) refl
