-- ===== src/Bigtable/Bytes.antt =====
-- `to_be_bytes` and `from_be_bytes` of a `u64`, and the readers of cell values in
-- bigtable_client/mod.rs.
use autopush_rs.Prelude.{
  ℕ, zero, suc, ◌+◌, ◌*◌, ◌/◌, ◌%◌, ◌^◌, ◌<◌, ◌≡◌, ◌∙◌, refl, arith, [], ◌∷◌, ◌++◌, Text, none,
  some, length, length-append, from_utf8, ◌==◌, if◌then◌else◌,
}
use autopush_rs.Protocol.{DbError, deserialize_u64, deserialize_string}
use autopush_rs.Services.{Result, ok, err}

-- The last bytes of a number, most significant first.
unfoldable pub be_bytes : ℕ → ℕ → Text
be_bytes zero n = []
be_bytes (suc width) n = be_bytes width (n / 256) ++ n % 256 ∷ []

unfoldable pub to_be_bytes : ℕ → Text
unfolding be_bytes
to_be_bytes n = be_bytes 8 n

unfoldable pub from_be_bytes : ℕ → Text → ℕ
from_be_bytes acc [] = acc
from_be_bytes acc (b ∷ bs) = from_be_bytes (256 * acc + b) bs

unfoldable pub to_u64 : Text → Text → Result DbError ℕ
unfolding from_be_bytes
to_u64 bytes name =
    if length bytes == 8 then ok (from_be_bytes 0 bytes) else err (deserialize_u64 name)

unfoldable pub to_string : Text → Text → Result DbError Text
unfolding from_utf8
to_string bytes name = elim (from_utf8 bytes) [
  | none ↦ err (deserialize_string name)
  | some text ↦ ok text
]

from_be_bytes-append :
    (acc : ℕ) (bs : Text) (c : ℕ)
    → from_be_bytes acc (bs ++ c ∷ []) ≡ 256 * from_be_bytes acc bs + c
unfolding from_be_bytes
from_be_bytes-append acc [] c = refl
from_be_bytes-append acc (b ∷ bs) c = from_be_bytes-append (256 * acc + b) bs c

be_bytes-length : (width n : ℕ) → length (be_bytes width n) ≡ width
unfolding be_bytes
be_bytes-length zero n = refl
be_bytes-length (suc width) n = omega (
  arith,
  length-append (be_bytes width (n / 256)) (n % 256 ∷ []),
  be_bytes-length width (n / 256),
)

from_be_bytes-be_bytes : (width n : ℕ) → n < 256 ^ width → from_be_bytes 0 (be_bytes width n) ≡ n
unfolding be_bytes from_be_bytes
from_be_bytes-be_bytes zero n h = omega arith
from_be_bytes-be_bytes (suc width) n h =
    from_be_bytes-append 0 (be_bytes width (n / 256)) (n % 256)
    ∙ omega (arith, from_be_bytes-be_bytes width (n / 256) (omega arith))

-- A `u64` is read back from its eight bytes.
pub to_u64-to_be_bytes : (n : ℕ) (name : Text) → n < 2 ^ 64 → to_u64 (to_be_bytes n) name ≡ ok n
unfolding to_u64 to_be_bytes
to_u64-to_be_bytes n name h =
    ground (arith, be_bytes-length 8 n, from_be_bytes-be_bytes 8 n (omega (arith, h)))

-- UTF-8 text is read back from its bytes.
pub to_string-utf8 : (t name : Text) → from_utf8 t ≡ some t → to_string t name ≡ ok t
unfolding to_string
to_string-utf8 t name h = rw (h, to_string) refl
