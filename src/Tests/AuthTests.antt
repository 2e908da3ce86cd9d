-- ===== src/Tests/AuthTests.antt =====
-- `login` on an example. The hash of a password is the password, and a token is its user's id.
use Prim.Native.Char.{code}
use reolink_station.Prelude.{
  String, [], ◌∷◌, true, false, Option, some, none, length, ◌≡◌, refl, In, inl, inr, sym, ◌∙◌,
  same_text, arith, ◌==◌, if◌then◌else◌,
}
use reolink_station.Entities.{UserEntity, UserRole, user, admin}
use reolink_station.Database.{Tables}
use reolink_station.Http.{ok, err, unauthorized}
use reolink_station.Sharing.{find_by_email}
use reolink_station.Auth.{
  Security, LoginAnswer, Payload, me_of, dummy_hash, login, authenticate, me, roles_guard, includes,
}
use reolink_station.Auth.Login.{login_uniform, login-me}
use reolink_station.Tests.ListTables.{list_repository, first_of_table}
use reolink_station.Tests.SharingTests.{database}

-- a token is the first letter of the role and the user's id
abbrev token_of : UserRole → String → String
token_of user id = String.◌∷◌ "u" id
token_of admin id = String.◌∷◌ "a" id

abbrev token_read : String → Option Payload
token_read String.[] = none
token_read (String.◌∷◌ c id) =
    some (record { sub = id; role = if code c == b'a' then admin else user })

token_read-token_of :
    (r : UserRole) (id : String) → token_read (token_of r id) ≡ some (record { sub = id; role = r })
token_read-token_of user id = refl
token_read-token_of admin id = refl

abbrev security : Security
security = record {
  hash = λ salt password. password;
  verify = λ hash password. some (same_text hash password);
  verify-hash = λ salt password other. (same_text password other, refl);
  lifetime = 7;
  sign = λ now p. token_of p.role p.sub;
  read = λ now token. token_read token;
  read-sign = λ signed now p h. token_read-token_of p.role p.sub;
}

abbrev ann : UserEntity
ann = record { id = "u-ann"; email = "ann@x"; password_hash = "pw"; role = admin }

abbrev tables : Tables
tables = record { users = ann ∷ []; profiles = []; shares = [] }

ann_found : find_by_email database "ann@x" tables ≡ some ann
unfolding find_by_email database list_repository first_of_table
ann_found = refl

one_user :
    (x y : UserEntity)
    → In x tables.users
    → In y tables.users
    → database.uuid.same x.id y.id ≡ true
    → x ≡ y
one_user x y (inl e) (inl f) h = e ∙ sym f
one_user x y (inl e) (inr m) h = elim m [ ]
one_user x y (inr m) n h = elim m [ ]

abbrev given : LoginAnswer
given = login security database "dummy" 3 "ann@x" "pw" tables

-- what `onModuleInit` makes
abbrev made : String
made = dummy_hash security database "salt"

login_uniform_example :
    (length (login security database made 3 "bob@x" "pw" tables).verified ≡ 1)
    × (((u : UserEntity)
          → find_by_email database "bob@x" tables ≡ some u
          → some (same_text u.password_hash "pw") ≡ some false)
        → ((login security database made 3 "bob@x" "pw" tables).answer ≡ err unauthorized)
          × ((login security database made 3 "bob@x" "pw" tables).cookie ≡ none))
login_uniform_example = login_uniform security database "salt" 3 "bob@x" "pw" tables

right_password : some (same_text "pw" "pw") ≡ some true
right_password = refl

login-me_example :
    (p : Payload) × (authenticate security database 9 given.cookie ≡ ok p)
    × (p.role ≡ admin)
    × (me security database p tables ≡ given.answer)
    × (given.answer ≡ ok (me_of ann))
login-me_example =
    login-me security database "dummy" 3 9 "ann@x" "pw" tables ann one_user ann_found right_password
      (omega arith)

roles_tests :
    (roles_guard (admin ∷ []) (some (record { sub = "x"; role = user })) ≡ false)
    × (roles_guard [] none ≡ true)
    × (roles_guard (user ∷ admin ∷ []) (some (record { sub = "x"; role = admin })) ≡ true)
unfolding roles_guard includes
roles_tests = (refl, refl, refl)
