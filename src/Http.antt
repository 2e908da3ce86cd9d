-- ===== src/Http.antt =====
-- The exceptions of @nestjs/common that the services throw, and what a handler that may throw one
-- gives back.
use reolink_station.Prelude.{◌≡◌, ◌⊎◌, inl, inr, refl}

pub data HttpException : Type 0 where
  bad_request unauthorized forbidden not_found conflict service_unavailable : HttpException
  -- any other error, which Nest answers with 500
  internal_error : HttpException

pub data Result {ℓ} (T : Type ℓ) : Type ℓ where
  err : HttpException → Result T
  ok : T → Result T

-- `await`: an exception leaves the rest undone.
infixl 5 ◌>>=◌
abbrev pub ◌>>=◌ {ℓ κ} : {T : Type ℓ} {U : Type κ} → Result T → (T → Result U) → Result U
err thrown >>= rest = err thrown
ok value >>= rest = rest value

pub Result-cases {ℓ} :
    {T : Type ℓ} (r : Result T) → ((e : HttpException) × (r ≡ err e)) ⊎ ((a : T) × (r ≡ ok a))
Result-cases (err e) = inl (e, refl)
Result-cases (ok a) = inr (a, refl)
