-- ===== src/Client/Results.antt =====
-- What a result tells of the branch that it comes from.
use dynamic_secret_operator.Prelude.{Bool, true, false, if◌then◌else◌, ◌≡◌, refl}
use dynamic_secret_operator.Client.{Result, Error, ok, err}

-- Where the first branch is an error, a success is of the second.
pub if_ok :
    {S : Type 0} (b : Bool) (x : Error) (s t : S) (r : Result (Unit {0}) × S)
    → (if b then (err x, s) else r) ≡ (ok tt, t)
    → (b ≡ false) × (r ≡ (ok tt, t))
if_ok true x s t r e = cc
if_ok false x s t r e = (refl, e)
