-- ===== src/Autoendpoint/Subscription.antt =====
-- autoendpoint/src/extractors/token_info.rs and subscription.rs: who may send to an endpoint. A header
-- of the request is there if its value is text.
use autopush_rs.Prelude.{
  ℕ, zero, suc, ◌-◌, ◌*◌, ◌%◌, ◌==◌, ltb, ◌||◌, not, Option, none, some, [], ◌∷◌, ◌++◌, Text, codes,
  text_eq, nat_eq, contains, length, take, drop, add64, if◌then◌else◌,
}
use autopush_rs.Services.{User, Result, ok, err}
use autopush_rs.Endpoint.{trim_end}
use autopush_rs.Autoendpoint.{
  ApiError, VapidError, invalid_token, invalid_api_version, token_hash_validation, jwt, vapid_error,
  invalid_encryption, no_subscription, database, missing_key, invalid_key, invalid_vapid,
  invalid_audience, key_mismatch, future_expiration_token, VapidClaims, JwtError, json_data,
  json_other, other, Autoendpoint, Handler, ◌>>=◌, pure, db_as,
}
use autopush_rs.Autoendpoint.Headers.{
  Sections, parse_crypto_key, get_by_key, VapidHeader, VapidVersionData, version1, version2,
  parse_vapid_header,
}
use autopush_rs.Autoendpoint.Users.{validate_user}

pub data ApiVersion : Type 0 where
  v1 v2 : ApiVersion

pub record TokenInfo : Type 0 where
  pub api_version : ApiVersion
  pub token : Text
  pub crypto_key_header : Option Text
  pub auth_header : Option Text

pub record Request : Type 0 where
  pub api_version : Option Text
  pub token : Text
  pub header : Text → Option Text

pub record VapidHeaderWithKey : Type 0 where
  pub vapid : VapidHeader
  pub public_key : Text

pub record Subscription : Type 0 where
  pub user : User
  pub channel_id : ℕ
  pub vapid : Option VapidHeaderWithKey

unfoldable pub api_version_of : Text → Result ApiError ApiVersion
unfolding text_eq
api_version_of s =
    if text_eq s (codes "v1")
    then ok v1
    else if text_eq s (codes "v2")
    then ok v2
    else err invalid_api_version

abbrev pub unwrap_or : Text → Option Text → Text
unwrap_or default none = default
unwrap_or default (some t) = t

abbrev pub with_version : Request → Result ApiError ApiVersion → Result ApiError TokenInfo
with_version req (err e) = err e
with_version req (ok version) = ok (record {
  api_version = version;
  token = req.token;
  crypto_key_header = req.header (codes "crypto-key");
  auth_header = req.header (codes "authorization");
})

unfoldable pub token_info : Request → Result ApiError TokenInfo
unfolding api_version_of
token_info req = with_version req (api_version_of (unwrap_or (codes "v1") req.api_version))

abbrev pub pad : ℕ → Text
pad zero = []
pad (suc n) = b'=' ∷ pad n

unfoldable pub repad_base64 : Text → Text
repad_base64 token =
    let trailing_chars = length token % 4 in
    if not (trailing_chars == 0) then token ++ pad (4 - trailing_chars) else token

abbrev pub as_vapid : {A : Type 0} → Result VapidError A → Result ApiError (Option A)
as_vapid (ok a) = ok (some a)
as_vapid (err e) = err (vapid_error e)

unfoldable pub parse_vapid : TokenInfo → Result ApiError (Option VapidHeader)
unfolding parse_vapid_header
parse_vapid info = elim info.auth_header [
  | none ↦ ok none
  | some header ↦ as_vapid (parse_vapid_header header)
]

-- The key of the first version stands in the Crypto-Key header.
abbrev pub key_of_header : VapidHeader → Option Sections → Result ApiError VapidHeaderWithKey
key_of_header vapid none = err (invalid_encryption (codes "Invalid Crypto-Key header"))
key_of_header vapid (some sections) = elim (get_by_key (codes "p256ecdsa") sections) [
  | none ↦ err (invalid_encryption (codes "Missing p256ecdsa in Crypto-Key header"))
  | some public_key ↦ ok (record { vapid = vapid; public_key = public_key })
]

abbrev pub key_of_version :
    VapidHeader → Option Text → VapidVersionData → Result ApiError VapidHeaderWithKey
key_of_version vapid header (version2 public_key) =
    ok (record { vapid = vapid; public_key = public_key })
key_of_version vapid none version1 = err (invalid_encryption (codes "Missing Crypto-Key header"))
key_of_version vapid (some header) version1 = key_of_header vapid (parse_crypto_key header)

unfoldable pub extract_public_key : VapidHeader → TokenInfo → Result ApiError VapidHeaderWithKey
unfolding parse_crypto_key get_by_key
extract_public_key vapid info = key_of_version vapid info.crypto_key_header vapid.version_data

abbrev pub some_key :
    Result ApiError VapidHeaderWithKey → Result ApiError (Option VapidHeaderWithKey)
some_key (ok v) = ok (some v)
some_key (err e) = err e

-- `parse_vapid(..)?.map(..).transpose()?`.
unfoldable pub vapid_with_key :
    TokenInfo → Result ApiError (Option VapidHeader) → Result ApiError (Option VapidHeaderWithKey)
unfolding extract_public_key
vapid_with_key info (err e) = err e
vapid_with_key info (ok none) = ok none
vapid_with_key info (ok (some vapid)) = some_key (extract_public_key vapid info)

unfoldable pub version_1_validation : Text → Result ApiError (Unit {0})
version_1_validation token = if not (length token == 32) then err invalid_token else ok tt

module _ (a : Autoendpoint) where
  abbrev pub as_key : Option Text → Result ApiError Text
  as_key none = err (vapid_error invalid_key)
  as_key (some key) = ok key

  -- The standard alphabet of base64, if a character of it is there that the other one lacks.
  unfoldable pub decode_public_key : Text → Result ApiError Text
  unfolding trim_end contains
  decode_public_key public_key =
      if contains public_key b'/' || contains public_key b'+'
      then as_key (a.decode_base64_std (trim_end public_key))
      else as_key (a.decode_base64_url (trim_end public_key))

  abbrev pub same_hash : Text → Option Text → Result ApiError (Unit {0})
  same_hash token_key none = err token_hash_validation
  same_hash token_key (some key_hash) =
      if not (text_eq key_hash token_key) then err (vapid_error key_mismatch) else ok tt

  abbrev pub same_key : Text → Result ApiError Text → Result ApiError (Unit {0})
  same_key token_key (err e) = err e
  same_key token_key (ok key) = same_hash token_key (a.sha256 key)

  abbrev pub check_key : Text → Option VapidHeaderWithKey → Result ApiError (Unit {0})
  check_key token none = err (vapid_error missing_key)
  check_key token (some v) = same_key (drop 32 token) (decode_public_key v.public_key)

  unfoldable pub version_2_validation :
      Text → Option VapidHeaderWithKey → Result ApiError (Unit {0})
  unfolding decode_public_key
  version_2_validation token vapid =
      if not (length token == 64) then err invalid_token else check_key token vapid

  unfoldable pub version_validation :
      ApiVersion → Text → Option VapidHeaderWithKey → Result ApiError (Unit {0})
  unfolding version_1_validation version_2_validation
  version_validation v1 token vapid = version_1_validation token
  version_validation v2 token vapid = version_2_validation token vapid

  abbrev pub check_audience : Option Text → Result ApiError (Unit {0})
  check_audience none = err (vapid_error invalid_audience)
  check_audience (some aud) =
      if not (text_eq a.endpoint_url aud) then err (vapid_error invalid_audience) else ok tt

  unfoldable pub check_claims : ℕ → Result JwtError VapidClaims → Result ApiError (Unit {0})
  check_claims now (err json_data) = err (
      vapid_error (
        invalid_vapid (
          codes
            "A value in the vapid claims is either missing or incorrectly specified (e.g. \"exp\":\"12345\" or \"sub\":null). Please correct and retry.")))
  check_claims now (err (json_other e)) = err (vapid_error (invalid_vapid e))
  check_claims now (err other) = err jwt
  check_claims now (ok claims) =
      if ltb (add64 now (60 * 60 * 24)) claims.exp
      then err (vapid_error future_expiration_token)
      else check_audience (a.parse_url claims.aud)

  abbrev pub check_token : Text → ℕ → Result ApiError Text → Result ApiError (Unit {0})
  check_token token now (err e) = err e
  check_token token now (ok key) = check_claims now (a.decode_jwt token key)

  unfoldable pub validate_vapid_jwt : VapidHeaderWithKey → ℕ → Result ApiError (Unit {0})
  unfolding decode_public_key check_claims
  validate_vapid_jwt v now = check_token v.vapid.token now (decode_public_key v.public_key)

  abbrev pub lift : {A : Type 0} → Result ApiError A → Handler a.World A
  lift r w = (r, w)

  abbrev pub decrypted : Option Text → Result ApiError Text
  decrypted none = err invalid_token
  decrypted (some token) = ok token

  abbrev pub existing : Option User → Result ApiError User
  existing none = err no_subscription
  existing (some user) = ok user

  unfoldable pub validate_vapid : Option VapidHeaderWithKey → Handler a.World (Unit {0})
  unfolding validate_vapid_jwt
  validate_vapid none w = (ok tt, w)
  validate_vapid (some v) w = (validate_vapid_jwt v (a.sec_since_epoch w), w)

  -- The user and the channel of the token.
  unfoldable pub subscribed : Text → Option VapidHeaderWithKey → Handler a.World Subscription
  unfolding validate_user validate_vapid
  subscribed token vapid =
      let channel_id = a.from_slice (take 16 (drop 16 token)) in
      do
        found ← λ w. db_as database (a.db.get_user (a.from_slice (take 16 token)) w)
        user ← lift (existing found)
        router_type ← validate_user a user channel_id
        _ ← validate_vapid vapid
        pure (record { user = user; channel_id = channel_id; vapid = vapid })

  unfoldable pub subscription : Request → Handler a.World Subscription
  unfolding token_info repad_base64 parse_vapid vapid_with_key version_validation subscribed
  subscription req = do
    info ← lift (token_info req)
    token ← lift (decrypted (a.decrypt (repad_base64 info.token)))
    vapid ← lift (vapid_with_key info (parse_vapid info))
    _ ← lift (version_validation info.api_version token vapid)
    subscribed token vapid
