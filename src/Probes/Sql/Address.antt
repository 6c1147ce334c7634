-- ===== src/Probes/Sql/Address.antt =====
-- What the tests of an endpoint leave of hosts and ports.
use dynamic_secret_operator.Prelude.{
  ℕ, ◌≤◌, ◌<◌, ◌==◌, Text, is_empty, Bool, Bool-cases, true, false, not, ◌&&◌, ◌||◌, any, IsPart,
  Option, none, some, [], ◌∷◌, ◌≡◌, ◌≢◌, inl, inr, refl, arith,
}
use dynamic_secret_operator.Canary.Endpoint.{Net}
use dynamic_secret_operator.Probes.Sql.{
  contains_any, unsafe_chars, is_safe_host, is_safe_port, is_port_number,
}

pub contains_any-IsPart :
    (chars : Text) (c : ℕ) (s : Text)
    → any (λ d. c == d) chars ≡ true
    → contains_any s chars ≡ false
    → IsPart c s
unfolding contains_any any
contains_any-IsPart chars c [] h e = tt
contains_any-IsPart chars c (d ∷ s) h e = elim (Bool-cases (any (λ x. d == x) chars)) [
  | inl i ↦ cc (i, e)
  | inr i ↦ ((λ j. differ j i), contains_any-IsPart chars c s h (ground (arith, e, i)))
]
  where
    differ : d ≡ c → any (λ x. d == x) chars ≡ false → ⊥
    differ j i = cc

-- A host and a port to which a probe may connect.
pub record IsSafe (net : Net) (host port : Text) : Type 0 where
  pub nonempty : host ≢ []
  pub safe_host : contains_any host unsafe_chars ≡ false
  pub safe_port : contains_any port unsafe_chars ≡ false
  pub number : ℕ
  pub reads : net.atoi port ≡ some number
  pub positive : 0 < number
  pub bounded : number ≤ 65535

port_number :
    (o : Option ℕ) → is_port_number o ≡ true → (n : ℕ) × (o ≡ some n) × (0 < n) × (n ≤ 65535)
unfolding is_port_number
port_number none e = cc
port_number (some n) e = (n, refl, ground arith, ground arith)

host_nonempty : (h : Text) → is_safe_host h ≡ true → h ≢ []
unfolding is_safe_host
host_nonempty [] e i = cc
host_nonempty (c ∷ h) e i = cc

pub and_parts : (a b : Bool) → (a && b) ≡ true → (a ≡ true) × (b ≡ true)
and_parts a b e = ground arith

neither : (a b : Bool) → not (a || b) ≡ true → (a ≡ false) × (b ≡ false)
neither a b e = ground arith

not_but : (a b : Bool) → (not a && b) ≡ true → (a ≡ false) × (b ≡ true)
not_but a b e = ground arith

pub host_port-IsSafe :
    (net : Net) (host port : Text)
    → is_safe_host host ≡ true
    → is_safe_port net port ≡ true
    → IsSafe net host port
unfolding is_safe_host is_safe_port
host_port-IsSafe net host port h p =
    let (_, chars) = neither (is_empty host) (contains_any host unsafe_chars) h in
    let (clean, numeral) = not_but (contains_any port unsafe_chars) _ p in
    let (n, reads, positive, bounded) = port_number (net.atoi port) numeral in
    record {
      nonempty = host_nonempty host h;
      safe_host = chars;
      safe_port = clean;
      number = n;
      reads = reads;
      positive = positive;
      bounded = bounded;
    }
