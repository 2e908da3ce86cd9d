-- ===== src/Web/Api/Session.antt =====
-- What becomes of a page when the token is rejected.
use reolink_station.Prelude.{
  String, Bool, true, false, ◌&&◌, Option, none, some, List, [], ◌∷◌, ◌≡◌, ◌⊎◌, inl, inr, refl,
  same_text, ap, if◌then◌else◌, Bool-cases,
}
use reolink_station.Web.Api.{
  FetchResponse, Outcome, api_error, Effect, fetched, assigned, req, next, redirect, req, is_public,
  middleware,
}

-- The page that is shown when a page is asked for, with one redirect at most.
unfoldable pub shown : Bool → String → String
unfolding middleware
shown has_token pathname = elim (middleware has_token pathname) [ next ↦ pathname | redirect p ↦ p ]

-- The browser with its cookie, and what an effect does to it. `logged_out` says whether the answer to
-- the logout deletes the cookie.
pub record Browser : Type 0 where
  pub has_token : Bool
  pub page : String

abbrev apply : Bool → Effect → Browser → Browser
apply logged_out (fetched method path body) b =
    if logged_out && same_text path "/auth/logout" then record b { has_token = false } else b
apply logged_out (assigned path) b = record b { page = shown b.has_token path }

unfoldable pub apply_all : Bool → List Effect → Browser → Browser
unfolding shown
apply_all logged_out [] b = b
apply_all logged_out (e ∷ es) b = apply_all logged_out es (apply logged_out e b)

-- Every page is shown, or redirects to one that is.
pub middleware-settled :
    (has_token : Bool) (pathname : String)
    → (middleware has_token pathname ≡ next)
      ⊎ ((p : String) × (middleware has_token pathname ≡ redirect p)
          × (middleware has_token p ≡ next))
unfolding middleware
middleware-settled true pathname = elim (Bool-cases (same_text pathname "/login")) [
  | inl h ↦ inr ("/", rw h refl, refl)
  | inr h ↦ inl (rw h refl)
]
middleware-settled false pathname = elim (Bool-cases (is_public pathname)) [
  | inl h ↦ inl (rw h refl)
  | inr h ↦ inr ("/login", rw h refl, refl)
]

module _ {T : Type 0} (parse : String → Option T) (method path : String) (body : Option String)
    (res : FetchResponse) where
  abbrev outcome : Bool → Outcome T × List Effect
  outcome in_window = req parse in_window method path body (some res)

  module _ (denied : res.status ≡ 401) (other : same_text path "/auth/login" ≡ false) where
    abbrev expelled : List Effect
    expelled =
        fetched method path body ∷ fetched "POST" "/auth/logout" none ∷ assigned "/login" ∷ []

    sent : outcome true ≡ (api_error (record { status = res.status; message = res.body }), expelled)
    unfolding req
    sent = rw (denied, other) refl

    -- A request other than the login that is answered with 401 ends with that error; where the logout
    -- deletes the cookie the page of the login is shown without it, and where the logout fails the
    -- start page is asked for again with the rejected cookie.
    pub req-expelled :
        (b : Browser)
        → ((outcome true).0 ≡ api_error (record { status = 401; message = res.body }))
          × (apply_all true (outcome true).1 b ≡ record { has_token = false; page = "/login" })
          × (apply_all false (outcome true).1 (record b { has_token = true })
              ≡ record { has_token = true; page = "/" })
    unfolding apply_all
    req-expelled b =
        rw sent (ap (λ n. api_error (record { status = n; message = res.body })) denied, refl, refl)
