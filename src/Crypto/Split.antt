-- ===== src/Crypto/Split.antt =====
-- `payload.split(':')` and the test `B64URL` of src/crypto/crypto.service.ts.
use Prim.Native.Char.{Char, code}
use text.Mathlib.TextLemmas.{nil-append, cons-append}
use reolink_station.Prelude.Split.{split_at, is_free, split_at-append, split_at-is_free}
use reolink_station.Prelude.{
  ◌++◌, String, Bool, true, false, ◌&&◌, ◌||◌, List, [], ◌∷◌, ◌≡◌, refl, ap, ◌∙◌, ◌==◌, leb, arith,
  join_text, both_true,
}

unfoldable pub is_base64url : Char → Bool
is_base64url c =
    leb b'A' (code c) && leb (code c) b'Z'
    || leb b'a' (code c) && leb (code c) b'z'
    || leb b'0' (code c) && leb (code c) b'9'
    || code c == b'_'
    || code c == b'-'

-- Every character is one of base64url; `B64URL` also wants one.
unfoldable pub all_base64url : String → Bool
unfolding is_base64url
all_base64url String.[] = true
all_base64url (String.◌∷◌ c s) = is_base64url c && all_base64url s

unfoldable pub split : String → List String
unfolding split_at
split = split_at b':'

not_colon : (c : Char) → is_base64url c ≡ true → (code c == b':') ≡ false
unfolding is_base64url
not_colon c h = ground arith

-- Base64url has no colons.
base64url_is_free : (a : String) → all_base64url a ≡ true → is_free b':' a ≡ true
unfolding all_base64url is_free
base64url_is_free String.[] h = refl
base64url_is_free (String.◌∷◌ c a) h =
    let parts = both_true _ _ h in rw (not_colon c parts.0, base64url_is_free a parts.1) refl

pub split-alone : (a : String) → all_base64url a ≡ true → split a ≡ a ∷ []
unfolding split
split-alone a h = split_at-is_free b':' a (base64url_is_free a h)

-- A piece of base64url ends at the colon behind it.
pub split-join_text :
    (a t : String) → all_base64url a ≡ true → split (join_text a (join_text ":" t)) ≡ a ∷ split t
unfolding split
split-join_text a t h =
    ap (λ u. split (join_text a u)) (cons-append _ String.[] t)
    ∙ ap (λ u. split (join_text a (String.◌∷◌ ":" u))) (nil-append t)
    ∙ split_at-append ":" a t
    ∙ ap (λ l. l ++ split t) (split_at-is_free b':' a (base64url_is_free a h))
