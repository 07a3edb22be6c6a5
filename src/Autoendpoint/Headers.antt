-- ===== src/Autoendpoint/Headers.antt =====
-- autoendpoint/src/headers: items of a key and a value (util.rs), the Crypto-Key header (crypto_key.rs)
-- and the VAPID header (vapid.rs). A header of actix has printable ASCII characters and tabs only.
use mathlib.Core.List.{reverse}
use autopush_rs.Prelude.{
  ℕ, ◌+◌, ◌==◌, ◌&&◌, ◌||◌, leb, not, Bool, Option, none, some, List, [], ◌∷◌, Text, codes, text_eq,
  text_key, nat_eq, get, insert, contains, split, split_once, retain, if◌then◌else◌,
}
use autopush_rs.Services.{Result, ok, err}
use autopush_rs.Autoendpoint.{VapidError, missing_token, missing_key, unknown_scheme}

abbrev pub split_key_value : Text → Option (Text × Text)
split_key_value item = split_once b'=' item

unfoldable pub trim_start : (ℕ → Bool) → Text → Text
trim_start p [] = []
trim_start p (c ∷ cs) = let rest = trim_start p cs in if p c then rest else c ∷ cs

unfoldable pub trim_matches : (ℕ → Bool) → Text → Text
unfolding trim_start
trim_matches p t = reverse (trim_start p (reverse (trim_start p t)))

-- `str::trim`, and the quotes around a value.
abbrev pub is_white : ℕ → Bool
is_white c = (leb 9 c && leb c 13) || (c == 32)

abbrev pub is_quote : ℕ → Bool
is_quote c = (c == 32) || (c == 34)

-- `to_lowercase`, on ASCII: no other letter turns into one of the names that the code compares with.
unfoldable pub to_lowercase : Text → Text
to_lowercase [] = []
to_lowercase (c ∷ cs) = (if leb b'A' c && leb c b'Z' then c + 32 else c) ∷ to_lowercase cs

-- The sections of `CryptoKeyHeader`.
abbrev pub Sections : Type 0
Sections = List (List (Text × Text))

unfoldable pub parse_section : List Text → List (Text × Text) → Option (List (Text × Text))
unfolding trim_matches split_once
parse_section [] section = some section
parse_section (item ∷ items) section = elim (split_key_value item) [
  | none ↦ none
  | some (key, value) ↦
      parse_section items (insert (trim_matches is_white key) (trim_matches is_quote value) section)
]

unfoldable pub parse_sections : List Text → Option Sections
unfolding parse_section split
parse_sections [] = some []
parse_sections (s ∷ ss) =
    let sections = parse_sections ss in
    elim (parse_section (split b';' s) []) [
      | none ↦ none
      | some section ↦ elim sections [ none ↦ none | some rest ↦ some (section ∷ rest) ]
    ]

-- `CryptoKeyHeader::parse`.
unfoldable pub parse_crypto_key : Text → Option Sections
unfolding parse_sections split
parse_crypto_key header = parse_sections (split b',' header)

unfoldable pub get_by_key : Text → Sections → Option Text
get_by_key key [] = none
get_by_key key (section ∷ sections) =
    let rest = get_by_key key sections in
    elim (get key section) [ none ↦ rest | some value ↦ some value ]

pub data VapidVersionData : Type 0 where
  version1 : VapidVersionData
  version2 : Text → VapidVersionData

pub record VapidHeader : Type 0 where
  pub scheme : Text
  pub token : Text
  pub version_data : VapidVersionData

abbrev pub allowed_schemes : List Text
allowed_schemes = codes "bearer" ∷ codes "webpush" ∷ codes "vapid" ∷ []

-- `filter_map(split_key_value).collect()`: of two items with one key the last one stays.
abbrev pub with_item : Option (Text × Text) → List (Text × Text) → List (Text × Text)
with_item none pairs = pairs
with_item (some (key, value)) pairs = insert key value pairs

unfoldable pub collect : List Text → List (Text × Text) → List (Text × Text)
unfolding split_once
collect [] pairs = pairs
collect (item ∷ items) pairs = collect items (with_item (split_key_value item) pairs)

abbrev pub key_and_token : Text → Option Text → Option Text → Result VapidError VapidHeader
key_and_token scheme none token = err missing_key
key_and_token scheme (some public_key) none = err missing_token
key_and_token scheme (some public_key) (some token) =
    ok (record { scheme = scheme; token = token; version_data = version2 public_key })

abbrev pub vapid_of_items : Text → List (Text × Text) → Result VapidError VapidHeader
vapid_of_items scheme items = key_and_token scheme (get (codes "k") items) (get (codes "t") items)

-- The rest of the header, by its scheme.
unfoldable pub parse_data : Text → Text → Result VapidError VapidHeader
unfolding collect split
parse_data scheme pairs =
    if not (contains allowed_schemes scheme)
    then err unknown_scheme
    else if text_eq scheme (codes "vapid")
    then vapid_of_items scheme (collect (split b',' pairs) [])
    else ok (record { scheme = scheme; token = pairs; version_data = version1 })

-- `VapidHeader::parse`.
unfoldable pub parse_vapid_header : Text → Result VapidError VapidHeader
unfolding parse_data to_lowercase split_once
parse_vapid_header header = elim (split_once b' ' header) [
  | none ↦ err missing_token
  | some (scheme, pairs) ↦ parse_data (to_lowercase scheme) (retain (λ c. not (c == b' ')) pairs)
]
