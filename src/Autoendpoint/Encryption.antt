-- ===== src/Autoendpoint/Encryption.antt =====
-- autoendpoint/src/extractors/notification_headers.rs: the headers that a notification is taken with.
use autopush_rs.Prelude.{
  ℕ, zero, suc, ◌^◌, ◌*◌, ◌==◌, ltb, leb, not, Bool, true, false, Option, none, some, [], ◌∷◌, ◌++◌,
  Text, codes, text_eq, parse_u64, parse_unsigned, length, retain, if◌then◌else◌,
}
use autopush_rs.Services.{Result, ok, err}
use autopush_rs.Autoendpoint.{
  ApiError, invalid_encryption, no_ttl, validation, Autoendpoint, EndpointHeaders,
}
use autopush_rs.Autoendpoint.Headers.{Sections, parse_crypto_key, get_by_key}
use autopush_rs.Autoendpoint.Subscription.{Request}

pub data ℤ : Type 0 where
  pos negsuc : ℕ → ℤ

abbrev pub positive : Option ℕ → Option ℤ
positive none = none
positive (some n) = if ltb n (2 ^ 63) then some (pos n) else none

abbrev pub negated : ℕ → ℤ
negated zero = pos 0
negated (suc n) = negsuc n

abbrev pub negative : Option ℕ → Option ℤ
negative none = none
negative (some n) = if leb n (2 ^ 63) then some (negated n) else none

-- `parse::<i64>`.
unfoldable pub parse_i64 : Text → Option ℤ
unfolding parse_u64 parse_unsigned
parse_i64 [] = none
parse_i64 (c ∷ cs) =
    if c == b'-' then negative (parse_unsigned cs) else positive (parse_u64 (c ∷ cs))

abbrev pub max_ttl : ℕ
max_ttl = 60 * 60 * 24 * 60

-- `min(ttl, MAX_TTL)`.
abbrev pub at_most : ℤ → ℤ
at_most (negsuc n) = negsuc n
at_most (pos n) = pos (if leb n max_ttl then n else max_ttl)

abbrev pub and_then_ok :
    {A B : Type 0} → Result ApiError A → (A → Result ApiError B) → Result ApiError B
and_then_ok (ok a) f = f a
and_then_ok (err e) f = err e

-- The fields of `NotificationHeaders` that depend on the body.
pub record EncryptionHeaders : Type 0 where
  pub encoding : Option Text
  pub encryption : Option Text
  pub encryption_key : Option Text
  pub crypto_key : Option Text

-- The TTL of the request, if it is a number.
unfoldable pub ttl_of : Option Text → Result ApiError ℤ
unfolding parse_i64
ttl_of none = err no_ttl
ttl_of (some header) = elim (parse_i64 header) [ none ↦ err no_ttl | some ttl ↦ ok (at_most ttl) ]

abbrev pub from_parts : ℕ → Option Text → EncryptionHeaders → EndpointHeaders
from_parts ttl topic e = record {
  ttl = ttl;
  topic = topic;
  encoding = e.encoding;
  encryption = e.encryption;
  encryption_key = e.encryption_key;
  crypto_key = e.crypto_key;
}

module _ (a : Autoendpoint) where
  -- Without double-quotes and padding.
  abbrev pub strip_header : Option Text → Option Text
  strip_header none = none
  strip_header (some header) = some (a.strip_padding (retain (λ c. not (c == 34)) header))

  -- A notification without a body passes no other headers along.
  unfoldable pub encryption_headers : Request → Bool → EncryptionHeaders
  encryption_headers req true = record {
    encoding = req.header (codes "content-encoding");
    encryption = strip_header (req.header (codes "encryption"));
    encryption_key = req.header (codes "encryption-key");
    crypto_key = strip_header (req.header (codes "crypto-key"));
  }
  encryption_headers req false = record {
    encoding = none;
    encryption = none;
    encryption_key = none;
    crypto_key = none;
  }

  abbrev pub assert_base64 : Text → Text → Option Text → Result ApiError (Unit {0})
  assert_base64 header_name key none = err (
      invalid_encryption
        (codes "Missing " ++ key ++ codes " value in " ++ header_name ++ codes " header"))
  assert_base64 header_name key (some value) =
      if not (a.is_valid_base64_url value)
      then err (
          invalid_encryption
            (codes "Invalid " ++ key ++ codes " value in " ++ header_name ++ codes " header"))
      else ok tt

  abbrev pub sections_of : Text → Option Sections → Result ApiError Sections
  sections_of header_name none =
      err (invalid_encryption (codes "Invalid " ++ header_name ++ codes " header"))
  sections_of header_name (some sections) = ok sections

  unfoldable pub assert_base64_item_exists : Text → Option Text → Text → Result ApiError (Unit {0})
  unfolding parse_crypto_key get_by_key
  assert_base64_item_exists header_name none key =
      err (invalid_encryption (codes "Missing " ++ header_name ++ codes " header"))
  assert_base64_item_exists header_name (some header) key =
      and_then_ok (sections_of header_name (parse_crypto_key header))
        (λ sections. assert_base64 header_name key (get_by_key key sections))

  abbrev pub assert_missing : Text → Text → Option Text → Result ApiError (Unit {0})
  assert_missing header_name key none = ok tt
  assert_missing header_name key (some value) = err (
      invalid_encryption
        (codes "Do not include '" ++ key ++ codes "' header in " ++ header_name ++ codes " header"))

  unfoldable pub assert_not_exists : Text → Option Text → Text → Result ApiError (Unit {0})
  unfolding parse_crypto_key get_by_key
  assert_not_exists header_name none key = ok tt
  assert_not_exists header_name (some header) key =
      and_then_ok (sections_of header_name (parse_crypto_key header))
        (λ sections. assert_missing header_name key (get_by_key key sections))

  abbrev pub no_encryption_key : Option Text → Result ApiError (Unit {0})
  no_encryption_key none = ok tt
  no_encryption_key (some key) = err (
      invalid_encryption (codes "Encryption-Key header is not valid for webpush draft 02 or later"))

  unfoldable pub check_dh : Option Text → Result ApiError (Unit {0})
  unfolding assert_base64_item_exists
  check_dh none = ok tt
  check_dh (some header) = assert_base64_item_exists (codes "Crypto-Key") (some header) (codes "dh")

  unfoldable pub validate_encryption_04_rules : EncryptionHeaders → Result ApiError (Unit {0})
  unfolding assert_base64_item_exists check_dh
  validate_encryption_04_rules h =
      and_then_ok (assert_base64_item_exists (codes "Encryption") h.encryption (codes "salt"))
        (λ _. and_then_ok (no_encryption_key h.encryption_key) (λ _. check_dh h.crypto_key))

  unfoldable pub validate_encryption_06_rules : EncryptionHeaders → Result ApiError (Unit {0})
  unfolding assert_not_exists
  validate_encryption_06_rules h =
      and_then_ok (assert_not_exists (codes "aes128gcm Encryption") h.encryption (codes "salt"))
        (λ _. assert_not_exists (codes "aes128gcm Crypto-Key") h.crypto_key (codes "dh"))

  -- By the content encoding.
  unfoldable pub validate_encoding : EncryptionHeaders → Option Text → Result ApiError (Unit {0})
  unfolding validate_encryption_04_rules validate_encryption_06_rules text_eq
  validate_encoding h none = err (invalid_encryption (codes "Missing Content-Encoding header"))
  validate_encoding h (some encoding) =
      if text_eq encoding (codes "aesgcm")
      then validate_encryption_04_rules h
      else if text_eq encoding (codes "aes128gcm")
      then validate_encryption_06_rules h
      else err (invalid_encryption (codes "Unknown Content-Encoding header"))

  unfoldable pub validate_encryption : Bool → EncryptionHeaders → Result ApiError (Unit {0})
  unfolding validate_encoding
  validate_encryption false h = ok tt
  validate_encryption true h = validate_encoding h h.encoding

  -- The rules that the crate validator checks.
  abbrev pub is_valid_topic : Option Text → Bool
  is_valid_topic none = true
  is_valid_topic (some topic) = if leb (length topic) 32 then a.is_valid_base64_url topic else false

  unfoldable pub validate : ℤ → Option Text → EncryptionHeaders → Result ApiError EndpointHeaders
  validate (negsuc n) topic h = err validation
  validate (pos n) topic h =
      if is_valid_topic topic then ok (from_parts n topic h) else err validation

  unfoldable pub from_request : Request → Bool → Result ApiError EndpointHeaders
  unfolding ttl_of encryption_headers validate_encryption validate
  from_request req has_data =
      let headers = encryption_headers req has_data in
      and_then_ok (ttl_of (req.header (codes "ttl"))) (λ ttl.
        and_then_ok (validate_encryption has_data headers)
          (λ _. validate ttl (req.header (codes "topic")) headers))
