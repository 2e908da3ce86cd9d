-- ===== src/Web/Api.antt =====
-- web/src/lib/api.ts and web/src/middleware.ts: the requests of the client, and the redirects between
-- its pages. `fetch`, `JSON.parse` and the browser's window are parameters.
pub mod Session
use text.Mathlib.Text.{starts_with}
use reolink_station.Prelude.{
  ℕ, String, Bool, true, false, not, ◌&&◌, ◌||◌, ◌==◌, ltb, leb, Option, none, some, List, [], ◌∷◌,
  ◌++◌, same_text, join_text, if◌then◌else◌,
}
use reolink_station.Prelude.Split.{is_empty}

-- What `fetch` resolves to. `body` is what `res.text()` gives, `none` where it rejects.
pub record FetchResponse : Type 0 where
  pub status : ℕ
  pub body : Option String

-- `ApiError`; without a message it is `HTTP ${status}`
pub record ApiError : Type 0 where
  pub status : ℕ
  pub message : Option String

-- How a request ends: with the parsed body, if there is one, with an `ApiError`, or with any other.
pub data Outcome (T : Type 0) : Type 0 where
  resolved : Option T → Outcome T
  api_error : ApiError → Outcome T
  other_error : Outcome T

-- What a request does in the browser.
pub data Effect : Type 0 where
  fetched : String → String → Option String → Effect
  assigned : String → Effect

-- `res.ok`
abbrev pub is_ok : ℕ → Bool
is_ok status = leb 200 status && ltb status 300

module _ {T : Type 0} (parse : String → Option T) where
  unfoldable pub of_text : Option String → Outcome T
  of_text none = other_error
  of_text (some text) =
      if is_empty text
      then resolved none
      else elim (parse text) [ none ↦ other_error | some v ↦ resolved (some v) ]

  -- `none` is a `fetch` that rejects; the body is JSON already.
  unfoldable pub req :
      Bool → String → String → Option String → Option FetchResponse → Outcome T × List Effect
  unfolding of_text
  req in_window method path body none = (other_error, fetched method path body ∷ [])
  req in_window method path body (some res) =
      if not (is_ok res.status)
      then (
        api_error (record { status = res.status; message = res.body }),
        fetched method path body
            ∷ (if res.status == 401 && not (same_text path "/auth/login") && in_window
                then fetched "POST" "/auth/logout" none ∷ assigned "/login" ∷ []
                else []),
      )
      else (of_text res.body, fetched method path body ∷ [])

pub data Navigation : Type 0 where
  next : Navigation
  redirect : String → Navigation

-- `isPublic`; `PUBLIC` has the one element "/login"
abbrev pub is_public : String → Bool
is_public pathname = same_text pathname "/login" || starts_with pathname "/login/"

unfoldable pub middleware : Bool → String → Navigation
middleware has_token pathname =
    if not has_token && not (is_public pathname)
    then redirect "/login"
    else (if has_token && same_text pathname "/login" then redirect "/" else next)
