-- ===== src/Tests/ZeroCrypto.antt =====
-- A stand-in for node:crypto over buffers of zeros, each given by its length, which meets the laws
-- that the model assumes. Its cipher leaves the text as it is.
use Prim.Native.Char.{Char}
use Prim.Native.Nat.{◌/◌}
use Prim.Native.String.{count}
use Prim.Native.String.count as count_laws
use reolink_station.Prelude.{
  ℕ, zero, suc, ◌+◌, ◌*◌, String, true, some, none, Option, ◌≡◌, refl, ap, ◌∙◌, arith, ◌==◌,
  if◌then◌else◌, if_true, Bool-cases, inl, inr,
}
use reolink_station.Crypto.{NodeCrypto}
use reolink_station.Crypto.Split.{all_base64url, is_base64url}

abbrev pub letter_a : Char
letter_a = "A"

unfoldable pub letters : ℕ → String
letters zero = String.[]
letters (suc n) = String.◌∷◌ letter_a (letters n)

pub count-letters : (n : ℕ) → count (letters n) ≡ n
unfolding letters
count-letters zero = λ i. count_laws.nil i
count-letters (suc n) = (λ i. count_laws.cons letter_a (letters n) i) ∙ ap suc (count-letters n)

pub letters-alphabet : (n : ℕ) → all_base64url (letters n) ≡ true
unfolding letters all_base64url is_base64url
letters-alphabet zero = refl
letters-alphabet (suc n) = letters-alphabet n

unfoldable pub plain_cipher : String → String
plain_cipher t = if all_base64url t then t else ""

pub plain_cipher-alphabet : (t : String) → all_base64url (plain_cipher t) ≡ true
unfolding plain_cipher all_base64url
plain_cipher-alphabet t = elim (Bool-cases (all_base64url t)) [ inl e ↦ rw e e | inr e ↦ rw e refl ]

abbrev pub open_tagged : ℕ → String → Option String
open_tagged tag ct = if tag == 16 then some ct else none

unfoldable pub zero_crypto : NodeCrypto ℕ
unfolding letters plain_cipher
zero_crypto = record {
  from_utf8 = count;
  size = λ n. n;
  to_base64url = λ n. letters ((n * 4 + 2) / 3);
  from_base64url = λ s. count s * 3 / 4;
  is_well_formed = all_base64url;
  cipher_text = λ k iv t. plain_cipher t;
  auth_tag = λ k iv t. 16;
  decipher = λ k iv tag ct. open_tagged tag ct;
  from_to_base64url = λ n. let e = count-letters ((n * 4 + 2) / 3) in omega arith;
  base64url_alphabet = λ n. letters-alphabet ((n * 4 + 2) / 3);
  base64url_12 = λ n h. let e = count-letters ((n * 4 + 2) / 3) in omega arith;
  base64url_16 = λ n h. let e = count-letters ((n * 4 + 2) / 3) in omega arith;
  cipher_alphabet = λ k iv t. plain_cipher-alphabet t;
  auth_tag_size = λ k iv t. refl;
  deciphers = λ k iv t h. ap some (if_true _ _ _ h);
}
