-- ===== src/CameraProfiles/Secrets.antt =====
-- `encSecrets` and `decSecrets` on one secret.
use reolink_station.Prelude.{
  List, [], ◌∷◌, String, true, false, ◌||◌, Option, none, some, ◌≡◌, ◌≢◌, refl, ap, ◌∙◌, inl, inr,
  Bool-cases, Option-cases, if_true, if_false, arith,
}
use reolink_station.Crypto.{NodeCrypto, decrypt, decrypts, is_encrypted, encrypted_parts}
use reolink_station.Prelude.Split.{is_empty}
use reolink_station.Crypto.Split.{split}
use reolink_station.Crypto.RoundTrip.{decrypt-encrypt, is_encrypted-encrypt}
use reolink_station.CameraProfiles.{
  Field, absent, present, enc_secret, dec_secret, strip_blank, spread,
}

module _ {Bytes : Type 0} (node : NodeCrypto Bytes) (key : Bytes) where
  -- What may lie in the database: nothing, the empty text, or what the service encrypted.
  abbrev pub AtRest : Option String → Type 0
  AtRest none = Unit {0}
  AtRest (some v) = (is_empty v || is_encrypted node key v) ≡ true

  -- A secret that the service can encrypt.
  abbrev pub Writable : Option String → Type 0
  Writable none = Unit {0}
  Writable (some v) = node.is_well_formed v ≡ true

  -- A secret that does not look like one that the service encrypted.
  abbrev pub Plain : Option String → Type 0
  Plain none = Unit {0}
  Plain (some v) = (node.is_well_formed v ≡ true) × (is_encrypted node key v ≡ false)

  abbrev pub WritableField : Field String → Type 0
  WritableField absent = Unit {0}
  WritableField (present o) = Writable o

  abbrev pub PlainField : Field String → Type 0
  PlainField absent = Unit {0}
  PlainField (present o) = Plain o

  pub enc_secret-AtRest :
      (iv : Bytes) (o : Option String)
      → node.size iv ≡ 12
      → Writable o
      → AtRest (enc_secret node key iv o)
  unfolding enc_secret
  enc_secret-AtRest iv none twelve w = tt
  enc_secret-AtRest iv (some v) twelve w =
      elim (Bool-cases (is_empty v || is_encrypted node key v)) [
        | inl e ↦ rw e e
        | inr e ↦ rw e (let yes = is_encrypted-encrypt node key iv v twelve w in ground arith)
      ]

  -- A secret that may lie in the database is stored as it is: nothing is encrypted twice.
  pub enc_secret_same : (iv : Bytes) (o : Option String) → AtRest o → enc_secret node key iv o ≡ o
  unfolding enc_secret
  enc_secret_same iv none a = refl
  enc_secret_same iv (some v) a = if_true _ _ _ a

  pub spread-AtRest :
      (iv : Bytes) (o : Option String) (f : Field String)
      → node.size iv ≡ 12
      → AtRest o
      → WritableField f
      → AtRest (enc_secret node key iv (spread o (strip_blank f)))
  unfolding spread strip_blank
  spread-AtRest iv o absent twelve a w = rw (enc_secret_same iv o a) a
  spread-AtRest iv o (present none) twelve a w = enc_secret-AtRest iv none twelve w
  spread-AtRest iv o (present (some v)) twelve a w = elim (Bool-cases (is_empty v)) [
    | inl e ↦ rw e (rw (enc_secret_same iv o a) a)
    | inr e ↦ rw e (enc_secret-AtRest iv (some v) twelve w)
  ]

  -- `decrypt` does not throw where `isEncrypted` holds.
  is_encrypted-decrypt : (v : String) → is_encrypted node key v ≡ true → decrypt node key v ≢ none
  unfolding is_encrypted encrypted_parts decrypts
  is_encrypted-decrypt v h none_there = parts (split v) h
    where
      no : decrypts node key v ≡ false
      no = rw (none_there, decrypts) refl

      parts : (l : List String) → encrypted_parts node key v l ≡ true → ⊥
      parts [] e = cc
      parts (a ∷ []) e = cc
      parts (a ∷ b ∷ []) e = cc
      parts (a ∷ b ∷ c ∷ []) e = ground (arith, no)
      parts (a ∷ b ∷ c ∷ d ∷ l) e = cc

  pub dec_secret_total : (o : Option String) → dec_secret node key o ≢ none
  unfolding dec_secret
  dec_secret_total none h = cc
  dec_secret_total (some v) h = elim (Bool-cases (is_encrypted node key v)) [
    | inl e ↦ elim (Option-cases (decrypt node key v)) [
      | inl missing ↦ is_encrypted-decrypt v e missing
      | inr (t, there) ↦ cc (rw (e, there) at h)
    ]
    | inr e ↦ cc (rw e at h)
  ]

  is_empty-is_encrypted : (v : String) → is_empty v ≡ true → is_encrypted node key v ≡ false
  unfolding is_encrypted encrypted_parts split is_empty
  is_empty-is_encrypted String.[] h = refl
  is_empty-is_encrypted (String.◌∷◌ c s) h = cc

  pub dec_secret-Plain : (o : Option String) → Plain o → dec_secret node key o ≡ some o
  unfolding dec_secret
  dec_secret-Plain none p = refl
  dec_secret-Plain (some v) p = if_false _ _ _ p.1

  pub dec_secret-enc_secret :
      (iv : Bytes) (o : Option String)
      → node.size iv ≡ 12
      → Plain o
      → dec_secret node key (enc_secret node key iv o) ≡ some o
  unfolding enc_secret dec_secret
  dec_secret-enc_secret iv none twelve p = refl
  dec_secret-enc_secret iv (some v) twelve p = elim (Bool-cases (is_empty v)) [
    | inl e ↦ rw e (if_false _ _ _ p.1)
    | inr e ↦
        rw
          (
            e,
            p.1,
            is_encrypted-encrypt node key iv v twelve p.0,
            decrypt-encrypt node key iv v twelve p.0,
          )
          refl
  ]

  -- An update reads back as the update of what could be read.
  pub dec_secret-spread :
      (iv : Bytes) (o v : Option String) (f : Field String)
      → node.size iv ≡ 12
      → AtRest o
      → PlainField f
      → dec_secret node key o ≡ some v
      → dec_secret node key (enc_secret node key iv (spread o (strip_blank f)))
        ≡ some (spread v (strip_blank f))
  unfolding spread strip_blank
  dec_secret-spread iv o v absent twelve a p e =
      ap (dec_secret node key) (enc_secret_same iv o a) ∙ e
  dec_secret-spread iv o v (present none) twelve a p e = dec_secret-enc_secret iv none twelve p
  dec_secret-spread iv o v (present (some u)) twelve a p e = elim (Bool-cases (is_empty u)) [
    | inl blank ↦ rw blank (ap (dec_secret node key) (enc_secret_same iv o a) ∙ e)
    | inr full ↦ rw full (dec_secret-enc_secret iv (some u) twelve p)
  ]
