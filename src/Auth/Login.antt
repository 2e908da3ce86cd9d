-- ===== src/Auth/Login.antt =====
-- `login`, and the session that it begins.
use reolink_station.Prelude.{
  ℕ, ◌+◌, ◌≤◌, String, Bool, List, true, false, Option, none, some, [], ◌∷◌, length, ◌≡◌, refl, sym,
  ap, ◌∙◌, In,
}
use reolink_station.Tables.Lookup.{find_one_unique}
use reolink_station.Entities.{UserEntity}
use reolink_station.Database.{Database, Tables}
use reolink_station.Http.{ok, err, unauthorized}
use reolink_station.Sharing.{find_by_email}
use reolink_station.Auth.{
  Security, Payload, me_of, LoginAnswer, hash_of, validate_credentials, answer_login, login,
  sign_token, authenticate, me, dummy_hash, is_valid,
}

module _ (sec : Security) (db : Database) where
  -- an address of no user: the hash that is verified is the one that `onModuleInit` made
  login-unknown :
      (salt : String) (now : ℕ) (password : String)
      → answer_login sec db now none
          (validate_credentials sec db (dummy_hash sec db salt) none password)
        ≡ record {
          answer = err unauthorized;
          cookie = none;
          verified = (dummy_hash sec db salt, password) ∷ [];
        }
  unfolding answer_login validate_credentials is_valid hash_of
  login-unknown salt now password =
      let (b, e) = sec.verify-hash salt "timing-equalizer-not-a-real-password" password in rw e refl

  login-verified :
      (now : ℕ) (o : Option UserEntity) (r : Option Bool) (checks : List (String × String))
      → (answer_login sec db now o (r, checks)).verified ≡ checks
  unfolding answer_login
  login-verified now none none checks = refl
  login-verified now (some u) none checks = refl
  login-verified now none (some b) checks = refl
  login-verified now (some u) (some true) checks = refl
  login-verified now (some u) (some false) checks = refl

  login-wrong :
      (dummy : String) (now : ℕ) (password : String) (u : UserEntity)
      → sec.verify u.password_hash password ≡ some false
      → answer_login sec db now (some u) (validate_credentials sec db dummy (some u) password)
        ≡ record {
          answer = err unauthorized;
          cookie = none;
          verified = (u.password_hash, password) ∷ [];
        }
  unfolding answer_login validate_credentials is_valid hash_of
  login-wrong dummy now password u e = rw e refl

  -- the answer for the user that was found, if there was one
  abbrev given : String → ℕ → String → Option UserEntity → LoginAnswer
  given salt now password o =
      answer_login sec db now o (validate_credentials sec db (dummy_hash sec db salt) o password)

  given-uniform :
      (salt : String) (now : ℕ) (password : String) (o : Option UserEntity)
      → (length (given salt now password o).verified ≡ 1)
        × (((u : UserEntity) → o ≡ some u → sec.verify u.password_hash password ≡ some false)
            → ((given salt now password o).answer ≡ err unauthorized)
              × ((given salt now password o).cookie ≡ none))
  unfolding validate_credentials
  given-uniform salt now password none =
      let done = login-unknown salt now password in
      (
        ap length (login-verified now none _ _),
        λ h. (ap (λ (a : LoginAnswer). a.answer) done, ap (λ (a : LoginAnswer). a.cookie) done),
      )
  given-uniform salt now password (some u) = (
    ap length (login-verified now (some u) _ _),
    λ h.
        let done = login-wrong (dummy_hash sec db salt) now password u (h u refl) in
        (ap (λ (a : LoginAnswer). a.answer) done, ap (λ (a : LoginAnswer). a.cookie) done),
  )

  -- Whoever asks, `login` has argon2 verify one password, and where the address is of no user or
  -- argon2 finds that the password is not that of the user it gives one and the same answer, without
  -- a cookie.
  pub login_uniform :
      (salt : String) (now : ℕ) (email password : String) (t : Tables)
      → (length (login sec db (dummy_hash sec db salt) now email password t).verified ≡ 1)
        × (((u : UserEntity)
              → find_by_email db email t ≡ some u
              → sec.verify u.password_hash password ≡ some false)
            → ((login sec db (dummy_hash sec db salt) now email password t).answer
                ≡ err unauthorized)
              × ((login sec db (dummy_hash sec db salt) now email password t).cookie ≡ none))
  unfolding login
  login_uniform salt now email password t =
      given-uniform salt now password (find_by_email db email t)

  login-right :
      (dummy : String) (now : ℕ) (email password : String) (t : Tables) (u : UserEntity)
      → find_by_email db email t ≡ some u
      → sec.verify u.password_hash password ≡ some true
      → login sec db dummy now email password t ≡ record {
        answer = ok (me_of u);
        cookie = some (sign_token sec db now u);
        verified = (u.password_hash, password) ∷ [];
      }
  unfolding login answer_login validate_credentials is_valid hash_of
  login-right dummy now email password t u found right =
      ap (λ o. answer_login sec db now o (validate_credentials sec db dummy o password)) found
      ∙ rw right refl

  read-signed :
      (signed now : ℕ) (u : UserEntity)
      → now ≤ signed + sec.lifetime
      → authenticate sec db now (some (sign_token sec db signed u))
        ≡ ok (record { sub = u.id; role = u.role })
  unfolding sign_token authenticate
  read-signed signed now u alive =
      rw (sec.read-sign signed now (record { sub = u.id; role = u.role }) alive, authenticate) refl

  me-found :
      (t : Tables) (u : UserEntity) (p : Payload)
      → In u t.users
      → p.sub ≡ u.id
      → ((x y : UserEntity) → In x t.users → In y t.users → db.uuid.same x.id y.id ≡ true → x ≡ y)
      → me sec db p t ≡ ok (me_of u)
  unfolding me
  me-found t u p m same unique =
      let found =
        find_one_unique db.users (λ x. db.uuid.same x.id p.sub) t.users u m
          (rw same (db.uuid.same_self u.id)) (λ x mx h. unique x u mx m (rw same at h)) in
      rw (found, me) refl

  -- A user of the database who gives the right password is answered with their profile, and for as
  -- long as the token lives a request with the cookie is theirs and reads the same profile, where no
  -- two users have one id.
  pub login-me :
      (dummy : String) (signed now : ℕ) (email password : String) (t : Tables) (u : UserEntity)
      → ((x y : UserEntity) → In x t.users → In y t.users → db.uuid.same x.id y.id ≡ true → x ≡ y)
      → find_by_email db email t ≡ some u
      → sec.verify u.password_hash password ≡ some true
      → now ≤ signed + sec.lifetime
      → (p : Payload) × (authenticate sec db now (login sec db dummy signed email password t).cookie
          ≡ ok p)
        × (p.role ≡ u.role)
        × (me sec db p t ≡ (login sec db dummy signed email password t).answer)
        × ((login sec db dummy signed email password t).answer ≡ ok (me_of u))
  unfolding find_by_email
  login-me dummy signed now email password t u unique found right alive =
      let done = login-right dummy signed email password t u found right in
      let p : Payload = record { sub = u.id; role = u.role } in
      let m = (db.users.find_one_hit _ _ _ found).0 in
      (
        p,
        ap (λ (a : LoginAnswer). authenticate sec db now a.cookie) done
            ∙ read-signed signed now u alive,
        refl,
        me-found t u p m refl unique ∙ sym (ap (λ (a : LoginAnswer). a.answer) done),
        ap (λ (a : LoginAnswer). a.answer) done,
      )
