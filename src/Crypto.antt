-- ===== src/Crypto.antt =====
-- src/crypto/crypto.service.ts: `CryptoService`. A payload is the initialisation vector, the tag and
-- the ciphertext in base64url, with colons between them.
pub mod Split
pub mod RoundTrip
use Prim.Native.Char.{code}
use Prim.Native.String
use Prim.Native.String.{count}
use reolink_station.Prelude.{
  ℕ, String, Bool, true, false, not, ◌&&◌, Option, none, some, List, [], ◌∷◌, ◌≡◌, ◌==◌, join_text,
  if◌then◌else◌,
}
use reolink_station.Prelude.Split.{is_empty}
use reolink_station.Crypto.Split.{split, all_base64url}

-- What the service uses of node:crypto and of `Buffer`, whose values are `Bytes`.
pub record NodeCrypto (Bytes : Type 0) : Type 0 where
  -- `Buffer.from(text)`
  pub from_utf8 : String → Bytes
  -- `buffer.length`
  pub size : Bytes → ℕ
  -- `buffer.toString('base64url')` and `Buffer.from(text, 'base64url')`
  pub to_base64url : Bytes → String
  pub from_base64url : String → Bytes
  -- `text.isWellFormed()`: the text survives UTF-8
  pub is_well_formed : String → Bool
  -- the outputs of `update` and `final` of a cipher, joined: of the key, the vector and the text
  pub cipher_text : Bytes → Bytes → String → String
  pub auth_tag : Bytes → Bytes → String → Bytes
  -- the same of a decipher, of the key, the vector, the tag and the ciphertext; `none` where one of
  -- its calls throws
  pub decipher : Bytes → Bytes → Bytes → String → Option String
  pub from_to_base64url : (b : Bytes) → from_base64url (to_base64url b) ≡ b
  pub base64url_alphabet : (b : Bytes) → all_base64url (to_base64url b) ≡ true
  pub base64url_12 : (b : Bytes) → size b ≡ 12 → count (to_base64url b) ≡ 16
  pub base64url_16 : (b : Bytes) → size b ≡ 16 → count (to_base64url b) ≡ 22
  pub cipher_alphabet : (k iv : Bytes) (t : String) → all_base64url (cipher_text k iv t) ≡ true
  pub auth_tag_size : (k iv : Bytes) (t : String) → size (auth_tag k iv t) ≡ 16
  pub deciphers :
      (k iv : Bytes) (t : String)
      → is_well_formed t ≡ true
      → decipher k iv (auth_tag k iv t) (cipher_text k iv t) ≡ some t

module _ {Bytes : Type 0} (node : NodeCrypto Bytes) where
  -- the constructor: the key, or `none` where it throws
  unfoldable pub key_of : String → Option Bytes
  key_of secret =
      if node.size (node.from_utf8 secret) == 32 then some (node.from_utf8 secret) else none

  -- `iv` is what `crypto.randomBytes(12)` returns
  unfoldable pub encrypt : Bytes → Bytes → String → String
  encrypt key iv text = join_text (node.to_base64url iv) (
      join_text ":" (
        join_text (node.to_base64url (node.auth_tag key iv text))
          (join_text ":" (node.cipher_text key iv text))))

  unfoldable pub decrypt_parts : Bytes → List String → Option String
  decrypt_parts key [] = none
  decrypt_parts key (iv ∷ []) = none
  decrypt_parts key (iv ∷ tag ∷ []) = none
  decrypt_parts key (iv ∷ tag ∷ ct ∷ more) =
      if is_empty iv
      then none
      else if is_empty tag
      then none
      else node.decipher key (node.from_base64url iv) (node.from_base64url tag) ct

  -- `none` where it throws
  unfoldable pub decrypt : Bytes → String → Option String
  unfolding decrypt_parts split
  decrypt key payload = decrypt_parts key (split payload)

  -- `try { this.decrypt(value); return true } catch { return false }`
  unfoldable pub decrypts : Bytes → String → Bool
  unfolding decrypt
  decrypts key value = elim (decrypt key value) [ some text ↦ true | none ↦ false ]

  unfoldable pub encrypted_parts : Bytes → String → List String → Bool
  unfolding decrypts
  encrypted_parts key value [] = false
  encrypted_parts key value (iv ∷ []) = false
  encrypted_parts key value (iv ∷ tag ∷ []) = false
  encrypted_parts key value (iv ∷ tag ∷ ct ∷ []) =
      count iv == 16
      && count tag == 22
      && all_base64url iv
      && all_base64url tag
      && all_base64url ct
      && decrypts key value
  encrypted_parts key value (iv ∷ tag ∷ ct ∷ p ∷ more) = false

  unfoldable pub is_encrypted : Bytes → String → Bool
  unfolding encrypted_parts split
  is_encrypted key value = encrypted_parts key value (split value)
