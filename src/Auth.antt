-- ===== src/Auth.antt =====
-- src/auth: auth.service.ts, auth.controller.ts, jwt.strategy.ts and roles.guard.ts.
pub mod Login
use reolink_station.Prelude.{
  ℕ, ◌+◌, ◌≤◌, String, Bool, true, false, ◌&&◌, Option, none, some, List, [], ◌∷◌, ◌≡◌, same_text,
  if◌then◌else◌,
}
use reolink_station.Entities.{UserEntity, UserRole, user, admin}
use reolink_station.Database.{Database, Tables}
use reolink_station.Http.{Result, ok, err, unauthorized, internal_error}
use reolink_station.Sharing.{find_by_email}

-- The payload of a token.
pub record Payload : Type 0 where
  pub sub : String
  pub role : UserRole

-- The packages argon2 and @nestjs/jwt. A token can be verified until its lifetime is over.
pub record Security : Type 0 where
  -- with the salt that it draws
  pub hash : String → String → String
  -- `none` where it rejects, as it does for a text that is no hash
  pub verify : String → String → Option Bool
  pub verify-hash :
      (salt password other : String) → (b : Bool) × (verify (hash salt password) other ≡ some b)
  pub lifetime : ℕ
  pub sign : ℕ → Payload → String
  pub read : ℕ → String → Option Payload
  pub read-sign :
      (signed now : ℕ) (p : Payload) → now ≤ signed + lifetime → read now (sign signed p) ≡ some p

-- `{ id, email, role }`
pub record Me : Type 0 where
  pub id : String
  pub email : String
  pub role : UserRole

abbrev pub me_of : UserEntity → Me
me_of u = record { id = u.id; email = u.email; role = u.role }

-- What `login` gives: its answer, the cookie, and the pairs of a hash and a password that argon2
-- was asked to verify.
pub record LoginAnswer : Type 0 where
  pub answer : Result Me
  pub cookie : Option String
  pub verified : List (String × String)

-- `user?.passwordHash ?? this.dummyHash`
unfoldable pub hash_of : String → Option UserEntity → String
hash_of dummy_hash none = dummy_hash
hash_of dummy_hash (some u) = u.password_hash

abbrev pub is_some : Option UserEntity → Bool
is_some none = false
is_some (some u) = true

-- `!!user && ok`, if the verification did not reject
unfoldable pub is_valid : Option UserEntity → Option Bool → Option Bool
is_valid o none = none
is_valid o (some right) = some (is_some o && right)

module _ (sec : Security) (db : Database) where
  -- `onModuleInit`
  abbrev pub dummy_hash : String → String
  dummy_hash salt = sec.hash salt "timing-equalizer-not-a-real-password"

  unfoldable pub sign_token : ℕ → UserEntity → String
  sign_token now u = sec.sign now (record { sub = u.id; role = u.role })

  -- with the verifications that it makes; `none` where one rejects
  unfoldable pub validate_credentials :
      String → Option UserEntity → String → Option Bool × List (String × String)
  unfolding hash_of is_valid
  validate_credentials dummy o password =
      (is_valid o (sec.verify (hash_of dummy o) password), (hash_of dummy o, password) ∷ [])

  unfoldable pub answer_login :
      ℕ → Option UserEntity → Option Bool × List (String × String) → LoginAnswer
  unfolding sign_token
  answer_login now o (none, verified) = record {
    answer = err internal_error;
    cookie = none;
    verified = verified;
  }
  answer_login now none (some valid, verified) = record {
    answer = err unauthorized;
    cookie = none;
    verified = verified;
  }
  answer_login now (some u) (some valid, verified) =
      if valid
      then (record { answer = ok (me_of u); cookie = some (sign_token now u); verified = verified })
      else record { answer = err unauthorized; cookie = none; verified = verified }

  unfoldable pub login : String → ℕ → String → String → Tables → LoginAnswer
  unfolding validate_credentials answer_login
  login dummy now email password t =
      let found = find_by_email db email t in
      answer_login now found (validate_credentials dummy found password)

  -- the guard that reads the cookie of a request, and `validate`
  unfoldable pub authenticate : ℕ → Option String → Result Payload
  authenticate now none = err unauthorized
  authenticate now (some token) = elim (sec.read now token) [
    | none ↦ err unauthorized
    | some p ↦ ok p
  ]

  unfoldable pub me : Payload → Tables → Result Me
  me p t = elim (db.users.find_one (λ u. db.uuid.same u.id p.sub) t.users) [
    | none ↦ err unauthorized
    | some u ↦ ok (me_of u)
  ]

abbrev same_role : UserRole → UserRole → Bool
same_role user user = true
same_role user admin = false
same_role admin user = false
same_role admin admin = true

unfoldable pub includes : List UserRole → UserRole → Bool
includes [] r = false
includes (x ∷ roles) r = let rest = includes roles r in if same_role x r then true else rest

-- `RolesGuard.canActivate`, of the roles that the handler asks for and the user's
unfoldable pub roles_guard : List UserRole → Option Payload → Bool
unfolding includes
roles_guard [] p = true
roles_guard (x ∷ roles) none = false
roles_guard (x ∷ roles) (some p) = includes (x ∷ roles) p.role
