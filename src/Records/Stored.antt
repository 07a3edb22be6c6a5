-- ===== src/Records/Stored.antt =====
-- A notification is read back from its record.
use autopush_rs.Prelude.{
  List, [], ◌∷◌, codes, contains, text_eq→eq, Bool-cases, inl, inr, subst, ap, false, get-insert,
  if◌then◌else◌, ℕ, ◌≡◌, refl, ◌∙◌, Option, none, some, Text, arith, get, insert, text_key, or_else,
  text_eq,
}
use autopush_rs.Notification.{Notification}
use autopush_rs.Services.{ok}
use autopush_rs.Records.{
  insert_opt, KeyCrates, NotificationHeaders, RangeKey, into_map, from_map, into_notif, from_notif,
  with_version, parse_chidmessageid, headers_of, headers_map, NotificationRecord,
}
use autopush_rs.Records.Keys.{
  AreKeyCrates, IsKeyed, key_of, with_key, parse_chidmessageid-chidmessageid,
}

-- The record of headers is read back from its map.
pub from_map-into_map : (h : NotificationHeaders) → from_map (into_map h) ≡ h
unfolding from_map into_map get insert text_eq
from_map-into_map h = ground arith

-- The headers that are stored, each by its name.
abbrev pub stored_names : List Text
stored_names =
    codes "encoding" ∷ codes "encryption_key" ∷ codes "encryption" ∷ codes "crypto_key" ∷ []

-- Headers are there if they were, with the old value under each of the four names, and nothing else.
abbrev pub AreHeaders : Option (List (Text × Text)) → Option (List (Text × Text)) → Type 0
AreHeaders none none = Unit
AreHeaders (some m) (some m') =
    (name : Text) → get name m' ≡ (if contains stored_names name then get name m else none)
AreHeaders _ _ = ⊥

get-insert_opt :
    (key name : Text) (o : Option Text) (m : List (Text × Text))
    → text_eq key name ≡ false
    → get name (insert_opt key o m) ≡ get name m
get-insert_opt key name none m h = refl
get-insert_opt key name (some v) m h = ground (arith, get-insert key name v m, h)

-- A header that the record has no field for.
get-into_map_other :
    (h : NotificationHeaders) (name : Text)
    → text_eq (codes "encoding") name ≡ false
    → text_eq (codes "encryption_key") name ≡ false
    → text_eq (codes "encryption") name ≡ false
    → text_eq (codes "crypto_key") name ≡ false
    → get name (into_map h) ≡ none
unfolding into_map get
get-into_map_other h name a b c d =
    get-insert_opt (codes "encoding") name h.encoding _ a
    ∙ get-insert_opt (codes "encryption_key") name h.encryption_key _ b
    ∙ get-insert_opt (codes "encryption") name h.encryption _ c
    ∙ get-insert_opt (codes "crypto_key") name h.crypto_key [] d

module _ (m : List (Text × Text)) where
  abbrev IsHeader : Text → Type 0
  IsHeader name =
      get name (into_map (from_map m)) ≡ (if contains stored_names name then get name m else none)

  read_back : from_map (into_map (from_map m)) ≡ from_map m
  read_back = from_map-into_map (from_map m)

  at_encoding : IsHeader (codes "encoding")
  unfolding from_map contains text_eq
  at_encoding = ap (λ (h : NotificationHeaders). h.encoding) read_back

  at_encryption_key : IsHeader (codes "encryption_key")
  unfolding from_map contains text_eq
  at_encryption_key = ap (λ (h : NotificationHeaders). h.encryption_key) read_back

  at_encryption : IsHeader (codes "encryption")
  unfolding from_map contains text_eq
  at_encryption = ap (λ (h : NotificationHeaders). h.encryption) read_back

  at_crypto_key : IsHeader (codes "crypto_key")
  unfolding from_map contains text_eq
  at_crypto_key = ap (λ (h : NotificationHeaders). h.crypto_key) read_back

  get-into_map : (name : Text) → IsHeader name
  unfolding contains
  get-into_map name = elim (Bool-cases (text_eq (codes "encoding") name)) [
    | inl e ↦ subst IsHeader (text_eq→eq _ name e) at_encoding
    | inr a ↦ elim (Bool-cases (text_eq (codes "encryption_key") name)) [
      | inl e ↦ subst IsHeader (text_eq→eq _ name e) at_encryption_key
      | inr b ↦ elim (Bool-cases (text_eq (codes "encryption") name)) [
        | inl e ↦ subst IsHeader (text_eq→eq _ name e) at_encryption
        | inr c ↦ elim (Bool-cases (text_eq (codes "crypto_key") name)) [
          | inl e ↦ subst IsHeader (text_eq→eq _ name e) at_crypto_key
          | inr d ↦ get-into_map_other (from_map m) name a b c d ∙ rw (a, b, c, d) refl
        ]
      ]
    ]
  ]

-- What the code makes of the fields that a record changes.
abbrev as_read : KeyCrates → Notification → Notification
as_read k n = record n {
  sortkey_timestamp = (key_of n).sortkey_timestamp;
  headers = headers_map k (headers_of k n.headers);
}

stored-AreHeaders :
    (k : KeyCrates) (o : Option (List (Text × Text)))
    → AreHeaders o (headers_map k (headers_of k o))
stored-AreHeaders k none = tt
stored-AreHeaders k (some m) = get-into_map m

module _ (k : KeyCrates) (w : AreKeyCrates k) where
  read_version :
      (ms_since_epoch sec_since_epoch uaid : ℕ) (n : Notification) (topic : Option Text)
      (sortkey : Option ℕ)
      → let m = with_key n topic sortkey in
        with_version k
          (from_notif k ms_since_epoch sec_since_epoch uaid m)
          (key_of m)
          (or_else (key_of m).legacy_version (some m.version))
        ≡ ok (as_read k m)
  unfolding from_notif
  read_version ms_since_epoch sec_since_epoch uaid n (some topic) sortkey = refl
  read_version ms_since_epoch sec_since_epoch uaid n none (some sortkey) = refl
  read_version ms_since_epoch sec_since_epoch uaid n none none = refl

  into_notif_parsed :
      (r : NotificationRecord) (key : RangeKey)
      → parse_chidmessageid k r.chidmessageid ≡ ok key
      → into_notif k r ≡ with_version k r key (or_else key.legacy_version r.updateid)
  unfolding into_notif
  into_notif_parsed r key h = rw (h, into_notif) refl

  -- A notification whose stored key shows all of it is read back from its record, at whatever times
  -- it was made. Two fields may differ: the sort key is gone beside a topic, and of the headers, if
  -- there are any, those named encoding, encryption_key, encryption and crypto_key have their old
  -- values and no others are left.
  pub into_notif-from_notif :
      (ms_since_epoch sec_since_epoch uaid : ℕ) (n : Notification)
      → IsKeyed n
      → (headers : Option (List (Text × Text))) × AreHeaders n.headers headers
        × (into_notif k (from_notif k ms_since_epoch sec_since_epoch uaid n)
            ≡ ok (record n { sortkey_timestamp = (key_of n).sortkey_timestamp; headers = headers }))
  unfolding from_notif
  into_notif-from_notif ms_since_epoch sec_since_epoch uaid n h = (
    headers_map k (headers_of k n.headers),
    stored-AreHeaders k n.headers,
    into_notif_parsed (from_notif k ms_since_epoch sec_since_epoch uaid n) (key_of n)
          (parse_chidmessageid-chidmessageid k w ms_since_epoch n h)
        ∙ read_version ms_since_epoch sec_since_epoch uaid n n.topic n.sortkey_timestamp,
  )
