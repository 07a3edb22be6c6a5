-- ===== src/Autoendpoint/Accepted.antt =====
-- The headers that a notification may have (autoendpoint/src/extractors/notification_headers.rs).
use autopush_rs.Prelude.{
  ℕ, ◌*◌, ◌≤◌, ◌≡◌, ◌⊎◌, inl, inr, ◌∙◌, refl, ap, subst, arith, Bool, true, false, Option, none,
  some, Text, codes, text_eq, text_eq→eq, length, Bool-cases,
}
use autopush_rs.Services.{Result, ok, err}
use autopush_rs.Autoendpoint.{ApiError, Autoendpoint, EndpointHeaders}
use autopush_rs.Autoendpoint.Headers.{Sections, parse_crypto_key, get_by_key}
use autopush_rs.Autoendpoint.Subscription.{Request}
use autopush_rs.Autoendpoint.Encryption.{
  ℤ, pos, negsuc, max_ttl, and_then_ok, EncryptionHeaders, ttl_of, encryption_headers, sections_of,
  assert_base64, assert_base64_item_exists, assert_missing, assert_not_exists, no_encryption_key,
  check_dh, validate_encryption_04_rules, validate_encryption_06_rules, validate_encoding,
  validate_encryption, is_valid_topic, validate, from_request, from_parts,
}

and_then_ok-eq :
    {A B : Type 0} (r : Result ApiError A) (f : A → Result ApiError B) {b : B}
    → and_then_ok r f ≡ ok b
    → (x : A) × (r ≡ ok x) × (f x ≡ ok b)
and_then_ok-eq (ok x) f h = (x, refl, h)
and_then_ok-eq (err e) f h = absurd (ground (arith, h))

module _ (a : Autoendpoint) where
  -- The header has an item of the key, in base64.
  abbrev pub HasItem : Option Text → Text → Type 0
  HasItem header key =
      (t : Text) × (sections : Sections) × (value : Text) × (header ≡ some t)
      × (parse_crypto_key t ≡ some sections)
      × (get_by_key key sections ≡ some value)
      × (a.is_valid_base64_url value ≡ true)

  -- The header is missing, or it has no item of the key.
  abbrev pub LacksItem : Option Text → Text → Type 0
  LacksItem header key =
      (header ≡ none)
      ⊎ ((t : Text) × (sections : Sections) × (header ≡ some t)
          × (parse_crypto_key t ≡ some sections)
          × (get_by_key key sections ≡ none))

  abbrev pub IsAesgcm : EndpointHeaders → Type 0
  IsAesgcm h =
      (h.encoding ≡ some (codes "aesgcm"))
      × HasItem h.encryption (codes "salt")
      × (h.encryption_key ≡ none)
      × ((h.crypto_key ≡ none) ⊎ HasItem h.crypto_key (codes "dh"))

  abbrev pub IsAes128gcm : EndpointHeaders → Type 0
  IsAes128gcm h =
      (h.encoding ≡ some (codes "aes128gcm"))
      × LacksItem h.encryption (codes "salt")
      × LacksItem h.crypto_key (codes "dh")

  abbrev pub IsPlain : EndpointHeaders → Type 0
  IsPlain h =
      (h.encoding ≡ none)
      × (h.encryption ≡ none)
      × (h.encryption_key ≡ none)
      × (h.crypto_key ≡ none)

  -- With a body, one of the two encodings; without, no header of an encryption.
  abbrev pub IsEncrypted : Bool → EndpointHeaders → Type 0
  IsEncrypted true h = IsAesgcm h ⊎ IsAes128gcm h
  IsEncrypted false h = IsPlain h

  abbrev pub IsTopic : Option Text → Type 0
  IsTopic none = Unit
  IsTopic (some topic) = (length topic ≤ 32) × (a.is_valid_base64_url topic ≡ true)

  sections_of-eq :
      (name : Text) (o : Option Sections) {s : Sections} → sections_of a name o ≡ ok s → o ≡ some s
  sections_of-eq name none h = absurd (ground (arith, h))
  sections_of-eq name (some s) h = ground (arith, h)

  assert_base64-eq :
      (name key : Text) (o : Option Text)
      → assert_base64 a name key o ≡ ok tt
      → (value : Text) × (o ≡ some value) × (a.is_valid_base64_url value ≡ true)
  assert_base64-eq name key none h = absurd (ground (arith, h))
  assert_base64-eq name key (some value) h = (value, refl, ground (arith, h))

  assert_missing-eq :
      (name key : Text) (o : Option Text) → assert_missing a name key o ≡ ok tt → o ≡ none
  assert_missing-eq name key none h = refl
  assert_missing-eq name key (some value) h = absurd (ground (arith, h))

  assert_base64_item_exists-HasItem :
      (name : Text) (header : Option Text) (key : Text)
      → assert_base64_item_exists a name header key ≡ ok tt
      → HasItem header key
  unfolding assert_base64_item_exists
  assert_base64_item_exists-HasItem name none key h = absurd (ground (arith, h))
  assert_base64_item_exists-HasItem name (some t) key h =
      let (sections, e, k) = and_then_ok-eq (sections_of a name (parse_crypto_key t)) _ h in
      let (value, found, valid) = assert_base64-eq name key (get_by_key key sections) k in
      (t, sections, value, refl, sections_of-eq name _ e, found, valid)

  assert_not_exists-LacksItem :
      (name : Text) (header : Option Text) (key : Text)
      → assert_not_exists a name header key ≡ ok tt
      → LacksItem header key
  unfolding assert_not_exists
  assert_not_exists-LacksItem name none key h = inl refl
  assert_not_exists-LacksItem name (some t) key h =
      let (sections, e, k) = and_then_ok-eq (sections_of a name (parse_crypto_key t)) _ h in
      inr (
        t,
        sections,
        refl,
        sections_of-eq name _ e,
        assert_missing-eq name key (get_by_key key sections) k,
      )

  no_encryption_key-eq : (o : Option Text) → no_encryption_key a o ≡ ok tt → o ≡ none
  no_encryption_key-eq none h = refl
  no_encryption_key-eq (some key) h = absurd (ground (arith, h))

  check_dh-HasItem :
      (header : Option Text)
      → check_dh a header ≡ ok tt
      → (header ≡ none) ⊎ HasItem header (codes "dh")
  unfolding check_dh
  check_dh-HasItem none h = inl refl
  check_dh-HasItem (some t) h =
      inr (assert_base64_item_exists-HasItem (codes "Crypto-Key") (some t) (codes "dh") h)

  rules_04 :
      (h : EncryptionHeaders)
      → validate_encryption_04_rules a h ≡ ok tt
      → HasItem h.encryption (codes "salt")
        × (h.encryption_key ≡ none)
        × ((h.crypto_key ≡ none) ⊎ HasItem h.crypto_key (codes "dh"))
  unfolding validate_encryption_04_rules
  rules_04 h k =
      let (_, salt, k1) =
        and_then_ok-eq
          (assert_base64_item_exists a (codes "Encryption") h.encryption (codes "salt")) _ k in
      let (_, no_key, dh) = and_then_ok-eq (no_encryption_key a h.encryption_key) _ k1 in
      (
        assert_base64_item_exists-HasItem (codes "Encryption") h.encryption (codes "salt") salt,
        no_encryption_key-eq h.encryption_key no_key,
        check_dh-HasItem h.crypto_key dh,
      )

  rules_06 :
      (h : EncryptionHeaders)
      → validate_encryption_06_rules a h ≡ ok tt
      → LacksItem h.encryption (codes "salt") × LacksItem h.crypto_key (codes "dh")
  unfolding validate_encryption_06_rules
  rules_06 h k =
      let (_, salt, dh) =
        and_then_ok-eq
          (assert_not_exists a (codes "aes128gcm Encryption") h.encryption (codes "salt")) _ k in
      (
        assert_not_exists-LacksItem (codes "aes128gcm Encryption") h.encryption (codes "salt") salt,
        assert_not_exists-LacksItem (codes "aes128gcm Crypto-Key") h.crypto_key (codes "dh") dh,
      )

  validate_encoding-IsEncrypted :
      (ttl : ℕ) (topic : Option Text) (h : EncryptionHeaders) (encoding : Option Text)
      → h.encoding ≡ encoding
      → validate_encoding a h encoding ≡ ok tt
      → IsEncrypted true (from_parts ttl topic h)
  unfolding validate_encoding
  validate_encoding-IsEncrypted ttl topic h none e k = absurd (ground (arith, k))
  validate_encoding-IsEncrypted ttl topic h (some t) e k =
      elim (Bool-cases (text_eq t (codes "aesgcm"))) [
        | inl x ↦
            let (salt, no_key, dh) = rules_04 h (ground (arith, x, k)) in
            inl (e ∙ ap some (text_eq→eq t _ x), salt, no_key, dh)
        | inr x ↦
            let y : text_eq t (codes "aes128gcm") ≡ true = ground (arith, x, k) in
            let (salt, dh) = rules_06 h (ground (arith, x, y, k)) in
            inr (e ∙ ap some (text_eq→eq t _ y), salt, dh)
      ]

  validate_encryption-IsEncrypted :
      (req : Request) (has_data : Bool) (ttl : ℕ) (topic : Option Text)
      → validate_encryption a has_data (encryption_headers a req has_data) ≡ ok tt
      → IsEncrypted has_data (from_parts ttl topic (encryption_headers a req has_data))
  unfolding validate_encryption encryption_headers
  validate_encryption-IsEncrypted req true ttl topic k =
      validate_encoding-IsEncrypted ttl topic (encryption_headers a req true) _ refl k
  validate_encryption-IsEncrypted req false ttl topic k = (refl, refl, refl, refl)

  is_valid_topic-IsTopic : (topic : Option Text) → is_valid_topic a topic ≡ true → IsTopic topic
  is_valid_topic-IsTopic none h = tt
  is_valid_topic-IsTopic (some topic) h = (ground (arith, h), ground (arith, h))

  ttl_of-most : (header : Option Text) {n : ℕ} → ttl_of header ≡ ok (pos n) → n ≤ max_ttl
  unfolding ttl_of
  ttl_of-most none h = absurd (ground (arith, h))
  ttl_of-most (some header) h = ground (arith, h)

  validate-ok :
      (ttl : ℤ) (topic : Option Text) (e : EncryptionHeaders) {h : EndpointHeaders}
      → validate a ttl topic e ≡ ok h
      → (n : ℕ) × (ttl ≡ pos n) × IsTopic topic × (from_parts n topic e ≡ h)
  unfolding validate
  validate-ok (negsuc n) topic e k = absurd (ground (arith, k))
  validate-ok (pos n) topic e k =
      let valid : is_valid_topic a topic ≡ true = ground (arith, k) in
      (n, refl, is_valid_topic-IsTopic topic valid, ground (arith, k, valid))

  -- The headers that a notification is taken with: a TTL of at most 60 days; a topic, if any, of at most
  -- 32 characters that the base64 pattern matches; and, with a body, the encoding aesgcm with a salt,
  -- no Encryption-Key and a key in the Crypto-Key header if that is there, or the encoding aes128gcm
  -- with neither salt nor key in the headers; without a body, no header of an encryption.
  pub from_request-IsEncrypted :
      (req : Request) (has_data : Bool) {h : EndpointHeaders}
      → from_request a req has_data ≡ ok h
      → (h.ttl ≤ 60 * 60 * 24 * 60) × IsTopic h.topic × IsEncrypted has_data h
  unfolding from_request
  from_request-IsEncrypted req has_data {h = h} k =
      let topic = req.header (codes "topic") in
      let (ttl, et, k1) = and_then_ok-eq (ttl_of (req.header (codes "ttl"))) _ k in
      let (_, ee, k2) =
        and_then_ok-eq (validate_encryption a has_data (encryption_headers a req has_data)) _ k1 in
      let (n, e, valid, same) = validate-ok ttl topic (encryption_headers a req has_data) k2 in
      subst (λ h. (h.ttl ≤ 60 * 60 * 24 * 60) × IsTopic h.topic × IsEncrypted has_data h) same
        (
          ttl_of-most (req.header (codes "ttl")) (et ∙ ap ok e),
          valid,
          validate_encryption-IsEncrypted req has_data n topic ee,
        )
