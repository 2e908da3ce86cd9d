-- ===== src/Crypto/RoundTrip.antt =====
-- `decrypt` and `isEncrypted` on what `encrypt` returns.
use Prim.Native.String.{count}
use Prim.Native.String.count as count_laws
use reolink_station.Prelude.{
  String, true, false, some, [], ◌∷◌, ◌≡◌, refl, ap, ◌∙◌, arith, join_text, if_false, ◌<◌,
}
use reolink_station.Crypto.{
  NodeCrypto, encrypt, decrypt, decrypt_parts, decrypts, encrypted_parts, is_encrypted,
}
use reolink_station.Prelude.Split.{is_empty}
use reolink_station.Crypto.Split.{split, split-join_text, split-alone}

is_empty-count : (s : String) → 0 < count s → is_empty s ≡ false
unfolding is_empty
is_empty-count String.[] h =
    absurd (let e : count String.[] ≡ 0 = λ i. count_laws.nil i in omega arith)
is_empty-count (String.◌∷◌ c s) h = refl

module _ {Bytes : Type 0} (node : NodeCrypto Bytes) (key iv : Bytes) (text : String) where
  split-encrypt :
      split (encrypt node key iv text)
      ≡ node.to_base64url iv
        ∷ node.to_base64url (node.auth_tag key iv text)
        ∷ node.cipher_text key iv text
        ∷ []
  unfolding encrypt
  split-encrypt =
      let tag = node.to_base64url (node.auth_tag key iv text) in
      let ct = node.cipher_text key iv text in
      let head = node.to_base64url iv in
      split-join_text head (join_text tag (join_text ":" ct)) (node.base64url_alphabet iv)
      ∙ ap (λ l. head ∷ l) (split-join_text tag ct (node.base64url_alphabet _))
      ∙ ap (λ l. head ∷ tag ∷ l) (split-alone ct (node.cipher_alphabet key iv text))

  -- `decrypt` gives back the text that `encrypt` was given, with the same key and a vector of 12
  -- bytes, for a well-formed text.
  pub decrypt-encrypt :
      node.size iv ≡ 12
      → node.is_well_formed text ≡ true
      → decrypt node key (encrypt node key iv text) ≡ some text
  unfolding decrypt decrypt_parts
  decrypt-encrypt twelve well =
      let tag = node.auth_tag key iv text in
      let iv_there =
        is_empty-count (node.to_base64url iv)
          (let e = node.base64url_12 iv twelve in omega arith) in
      let tag_there =
        is_empty-count (node.to_base64url tag)
          (let e = node.base64url_16 tag (node.auth_tag_size key iv text) in omega arith) in
      ap (decrypt_parts node key) split-encrypt
      ∙ if_false _ _ _ iv_there
      ∙ if_false _ _ _ tag_there
      ∙ ap
          (λ v.
            node.decipher key v (node.from_base64url (node.to_base64url tag))
              (node.cipher_text key iv text))
          (node.from_to_base64url iv)
      ∙ ap (λ v. node.decipher key iv v (node.cipher_text key iv text)) (node.from_to_base64url tag)
      ∙ node.deciphers key iv text well

  decrypts-encrypt :
      node.size iv ≡ 12
      → node.is_well_formed text ≡ true
      → decrypts node key (encrypt node key iv text) ≡ true
  unfolding decrypts
  decrypts-encrypt twelve well = rw (decrypt-encrypt twelve well, decrypts) refl

  -- What `encrypt` returns is recognised as encrypted, for a vector of 12 bytes and a well-formed
  -- text.
  pub is_encrypted-encrypt :
      node.size iv ≡ 12
      → node.is_well_formed text ≡ true
      → is_encrypted node key (encrypt node key iv text) ≡ true
  unfolding is_encrypted encrypted_parts decrypts
  is_encrypted-encrypt twelve well =
      let tag = node.auth_tag key iv text in
      rw
        (
          split-encrypt,
          node.base64url_12 iv twelve,
          node.base64url_16 tag (node.auth_tag_size key iv text),
          node.base64url_alphabet iv,
          node.base64url_alphabet tag,
          node.cipher_alphabet key iv text,
          decrypts-encrypt twelve well,
        )
        refl
