-- ===== src/Endpoint.antt =====
-- autopush-common/src/endpoint.rs, and `b64_decode_url` of autopush-common/src/util/mod.rs.
use mathlib.Core.List.{reverse}
use autopush_rs.Prelude.{ℕ, Option, none, some, [], ◌∷◌, ◌++◌, Text, codes, ◌==◌, if◌then◌else◌}
use autopush_rs.Protocol.{ApcError, parse_url_error, payload_error, general_error}
use autopush_rs.Services.{Services, Result, ok, err}

-- `trim_start_matches('=')`, and the same at the end and at both ends.
unfoldable pub trim_start : Text → Text
trim_start [] = []
trim_start (c ∷ cs) = let rest = trim_start cs in if c == b'=' then rest else c ∷ cs

unfoldable pub trim_end : Text → Text
unfolding trim_start
trim_end t = reverse (trim_start (reverse t))

unfoldable pub trim_matches : Text → Text
unfolding trim_end
trim_matches t = trim_end (trim_start t)

module _ (s : Services) where
  unfoldable pub b64_decode_url : Text → Option Text
  unfolding trim_end
  b64_decode_url input = s.decode_base64 (trim_end input)

  -- The digest of the key that goes into a v2 endpoint.
  unfoldable pub key_digest : Text → Result ApcError Text
  unfolding b64_decode_url
  key_digest k = elim (b64_decode_url k) [
    | none ↦ err (payload_error (codes "Error decoding VAPID key"))
    | some raw_key ↦ elim (s.sha256 raw_key) [
      | none ↦ err (payload_error (codes "Error creating message digest for key"))
      | some digest ↦ ok digest
    ]
  ]

  -- `root.join(&format!("{version}/{encrypted}"))`.
  unfoldable pub final_url : Text → Text → Text × s.World → Result ApcError Text × s.World
  unfolding trim_matches
  final_url root version (encrypted, w) =
      elim (s.join_url root (version ++ trim_matches encrypted)) [
        | none ↦ (err (general_error (codes "Encrypted endpoint data is not URL-safe")), w)
        | some url ↦ (ok url, w)
      ]

  unfoldable pub encrypt_endpoint :
      Text → Text → Option Text → s.World → Result ApcError Text × s.World
  unfolding key_digest final_url
  encrypt_endpoint root base none w = final_url root (codes "v1/") (s.encrypt base w)
  encrypt_endpoint root base (some k) w = elim (key_digest k) [
    | err e ↦ (err e, w)
    | ok digest ↦ final_url root (codes "v2/") (s.encrypt (base ++ digest) w)
  ]

  unfoldable pub make_endpoint : ℕ → ℕ → Option Text → s.World → Result ApcError Text × s.World
  unfolding encrypt_endpoint
  make_endpoint uaid chid key w = elim (s.parse_url s.endpoint_url) [
    | none ↦ (err (parse_url_error s.endpoint_url), w)
    | some url ↦ elim (s.join_url url (codes "wpush/")) [
      | none ↦ (err (parse_url_error s.endpoint_url), w)
      | some root ↦ encrypt_endpoint root (s.as_bytes uaid ++ s.as_bytes chid) key w
    ]
  ]
