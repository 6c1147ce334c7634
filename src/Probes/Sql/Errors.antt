-- ===== src/Probes/Sql/Errors.antt =====
-- The errors of the database probes.
use dynamic_secret_operator.Prelude.{
  Text, codes, contains, [], ◌∷◌, ◌++◌, false, ◌≡◌, ◌⊎◌, inl, inr, subst,
}
use dynamic_secret_operator.Client.{Result, Error, ok, err, failed}
use dynamic_secret_operator.Controller.Endpoint.{trim_space}
use dynamic_secret_operator.Probes.Sanitize.{sanitize_db_error}
use dynamic_secret_operator.Probes.Sanitize.Redacts.{IsHidden}
use dynamic_secret_operator.Probes.Sanitize.Hides.{sanitize_db_error-hides}

error_of :
    {S : Type 0} (r : Result (Unit {0}) × S) (x y : Error) (u : S)
    → r ≡ (err y, u)
    → r.0 ≡ err x
    → y ≡ x
error_of r x y u e i = cc

ok_no_error :
    {S : Type 0} (r : Result (Unit {0}) × S) (x : Error) (t : S) → r ≡ (ok tt, t) → r.0 ≡ err x → ⊥
ok_no_error r x t e i = cc

module _ (no_endpoint unsafe_endpoint password : Text) where
  -- A text for an empty endpoint, a text for one that is refused, and messages that were sanitized with the password among the sensitive texts.
  pub data IsErrorOf : Error → Type 0 where
    endpoint_missing : IsErrorOf (failed no_endpoint)
    endpoint_unsafe : IsErrorOf (failed unsafe_endpoint)
    sanitized_message :
        (message dsn : Text)
        → IsErrorOf (failed (sanitize_db_error message (password ∷ (dsn ∷ []))))

  -- An error whose text is one of these two, or else a fixed text and behind it one that does not
  -- contain the password, without the white space around it.
  pub data Withholds : Error → Type 0 where
    says_missing : Withholds (failed no_endpoint)
    says_unsafe : Withholds (failed unsafe_endpoint)
    says_rest :
        {t : Text} (rest : Text)
        → t ≡ codes "database authentication failed: " ++ rest
        → contains rest (trim_space password) ≡ false
        → Withholds (failed t)

  IsErrorOf-Withholds : {x : Error} → IsHidden (trim_space password) → IsErrorOf x → Withholds x
  IsErrorOf-Withholds h endpoint_missing = says_missing
  IsErrorOf-Withholds h endpoint_unsafe = says_unsafe
  IsErrorOf-Withholds h (sanitized_message message dsn) =
      let (rest, e, i) = sanitize_db_error-hides message [] (dsn ∷ []) password h in
      says_rest rest e i

  -- How a probe ends.
  abbrev pub Ends : {S : Type 0} → (S → Type 0) → Result (Unit {0}) × S → Type 0
  Ends {S = S} Reached r =
      ((t : S) × Reached t × (r ≡ (ok tt, t)))
      ⊎ ((x : Error) × (u : S) × IsErrorOf x × (r ≡ (err x, u)))

  -- The error of a probe that ends so withholds a hidden password.
  pub Ends-Withholds :
      {S : Type 0} (Reached : S → Type 0) (r : Result (Unit {0}) × S) (x : Error)
      → IsHidden (trim_space password)
      → Ends Reached r
      → r.0 ≡ err x
      → Withholds x
  Ends-Withholds Reached r x h (inl (t, a, i)) e = absurd (ok_no_error r x t i e)
  Ends-Withholds Reached r x h (inr (y, u, y_error, i)) e =
      subst Withholds (error_of r x y u i e) (IsErrorOf-Withholds h y_error)
