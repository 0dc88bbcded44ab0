-- ===== src/Protocol/Canon.antt =====
-- crates/wsnet-protocol/src/canon.rs: canonical metadata, its writer and its getters. A `String` is the
-- list of its UTF-8 bytes, a `BTreeMap<String, _>` its entries in the order of their keys.
pub mod Parser
pub mod Values
pub mod Strings
pub mod Numbers
pub mod Steps
pub mod Nesting
pub mod Entries
pub mod Loops
pub mod RoundTrip
pub mod Ensures
pub mod Accepted
pub mod Unique
mod Tests
use my_websocket_net.Prelude.{
  ℕ, zero, suc, ◌+◌, ◌-◌, ◌*◌, ◌/◌, ◌%◌, ◌^◌, ◌≡◌, ◌<◌, ◌≤◌, max, Bool, true, false, ◌&&◌, Option,
  none, some, List, [], ◌∷◌, ◌++◌, arith, ltb, leb, ◌==◌, if◌then◌else◌, length,
}
use my_websocket_net.Prelude.Text.{Text, text, same_text, text_ltb}
use my_websocket_net.Prelude.Utf8.{is_utf8}
use my_websocket_net.Prelude.Decimal.{to_decimal, parse_unsigned}
use my_websocket_net.Prelude.Result.{Result, ok, err, ◌>>=◌}
use my_websocket_net.Limits.{max_metadata, u64_max}
use my_websocket_net.Bytes.{ok_or}

abbrev pub max_canon_depth : ℕ
max_canon_depth = 16

-- An integer: `negsuc n` is -(n + 1).
pub data ℤ : Type 0 where
  pos : ℕ → ℤ
  negsuc : ℕ → ℤ

-- `out_of_fuel` is no error of the code: a loop of the model stopped too early.
pub data CanonError : Type 0 where
  too_large : ℕ → ℕ → CanonError
  unexpected_end trailing_data : ℕ → CanonError
  unexpected_byte : ℕ → ℕ → CanonError
  duplicate_key : Text → CanonError
  float_not_allowed : ℕ → CanonError
  integer_too_large : Text → CanonError
  invalid_number : ℕ → CanonError
  too_deep invalid_utf8 : CanonError
  invalid_escape invalid_unicode_escape : ℕ → CanonError
  not_decimal missing wrong_type : Text → CanonError
  out_of_fuel : CanonError

mutual
  pub data Canonical : Type 0 where
    null : Canonical
    bool : Bool → Canonical
    int : ℤ → Canonical
    str : Text → Canonical
    array : Items → Canonical
    object : Fields → Canonical

  pub data Items : Type 0 where
    nil : Items
    cons : Canonical → Items → Items

  pub data Fields : Type 0 where
    end : Fields
    field : Text → Canonical → Fields → Fields

-- `BTreeMap::get`.
unfoldable pub find : Text → Fields → Option Canonical
find key end = none
find key (field k v fs) = if same_text k key then some v else find key fs

-- `BTreeMap::insert`, the map alone.
unfoldable pub put : Text → Canonical → Fields → Fields
put key value end = field key value end
put key value (field k v fs) =
    if text_ltb key k
    then field key value (field k v fs)
    else if same_text k key
    then field key value fs
    else field k v (put key value fs)

-- Whether `BTreeMap::insert` returns an old value.
unfoldable pub holds_key : Text → Fields → Bool
holds_key key end = false
holds_key key (field k v fs) = if same_text k key then true else holds_key key fs

-- `Canonical::object`, entry by entry.
unfoldable pub collect : List (Text × Canonical) → Fields → Fields
collect [] fs = fs
collect ((k, v) ∷ entries) fs = collect entries (put k v fs)

unfoldable pub try_collect : List (Text × Canonical) → Fields → Result Fields CanonError
try_collect [] fs = ok fs
try_collect ((k, v) ∷ entries) fs =
    let rest = try_collect entries (put k v fs) in
    if holds_key k fs then err (duplicate_key k) else rest

abbrev pub object_of : List (Text × Canonical) → Canonical
object_of entries = object (collect entries end)

unfoldable pub try_object : List (Text × Canonical) → Result Canonical CanonError
try_object entries = try_collect entries end >>= λ fs. ok (object fs)

unfoldable pub u64_decimal : ℕ → Canonical
u64_decimal v = str (to_decimal v)

-- `field`
unfoldable pub get_field : Canonical → Text → Result Canonical CanonError
unfolding find
get_field (object fs) key = ok_or (find key fs) (missing key)
get_field _ key = err (missing key)

str_of : Text → Canonical → Result Text CanonError
str_of key (str s) = ok s
str_of key _ = err (wrong_type key)

unfoldable pub get_str : Canonical → Text → Result Text CanonError
unfolding str_of get_field
get_str v key = get_field v key >>= str_of key

unfoldable pub get_u64 : Canonical → Text → Result ℕ CanonError
unfolding get_str
get_u64 v key = do raw ← get_str v key; ok_or (parse_unsigned u64_max raw) (not_decimal key)

int_of : Text → Canonical → Result ℤ CanonError
int_of key (int n) = ok n
int_of key _ = err (wrong_type key)

unfoldable pub get_i64 : Canonical → Text → Result ℤ CanonError
unfolding int_of get_field
get_i64 v key = get_field v key >>= int_of key

bool_of : Text → Canonical → Result Bool CanonError
bool_of key (bool b) = ok b
bool_of key _ = err (wrong_type key)

unfoldable pub get_bool : Canonical → Text → Result Bool CanonError
unfolding bool_of get_field
get_bool v key = get_field v key >>= bool_of key

array_of : Text → Canonical → Result Items CanonError
array_of key (array items) = ok items
array_of key _ = err (wrong_type key)

unfoldable pub get_array : Canonical → Text → Result Items CanonError
unfolding array_of get_field
get_array v key = get_field v key >>= array_of key

unfoldable mutual
  pub depth : Canonical → ℕ
  depth (array items) = 1 + depth_items items
  depth (object fs) = 1 + depth_fields fs
  depth null = 1
  depth (bool b) = 1
  depth (int n) = 1
  depth (str s) = 1

  pub depth_items : Items → ℕ
  depth_items nil = 0
  depth_items (cons v items) = max (depth v) (depth_items items)

  pub depth_fields : Fields → ℕ
  depth_fields end = 0
  depth_fields (field k v fs) = max (depth v) (depth_fields fs)

-- `i64::to_string`
unfoldable pub print_int : ℤ → Text
print_int (pos n) = to_decimal n
print_int (negsuc n) = b'-' ∷ to_decimal (suc n)

unfoldable pub hex_digit : ℕ → ℕ
hex_digit n = if ltb n 10 then b'0' + n else 87 + n

-- A character, or a byte of one that is not ASCII, which is written as it stands.
unfoldable pub write_char : ℕ → Text
write_char c =
    if c == b'"'
    then b'\\' ∷ b'"' ∷ []
    else if c == b'\\'
    then b'\\' ∷ b'\\' ∷ []
    else if c == 0x08
    then b'\\' ∷ b'b' ∷ []
    else if c == 0x0c
    then b'\\' ∷ b'f' ∷ []
    else if c == 0x0a
    then b'\\' ∷ b'n' ∷ []
    else if c == 0x0d
    then b'\\' ∷ b'r' ∷ []
    else if c == 0x09
    then b'\\' ∷ b't' ∷ []
    else if ltb c 0x20
    then b'\\' ∷ b'u' ∷ b'0' ∷ b'0' ∷ hex_digit (c / 16) ∷ hex_digit (c % 16) ∷ []
    else c ∷ []

unfoldable pub write_chars : Text → Text
write_chars [] = []
write_chars (c ∷ cs) = write_char c ++ write_chars cs

unfoldable pub write_json_string : Text → Text
write_json_string s = b'"' ∷ (write_chars s ++ b'"' ∷ [])

-- What stands before an item or an entry.
abbrev pub comma : Bool → Text
comma first = if first then [] else b',' ∷ []

unfoldable mutual
  -- What `write` appends.
  pub write : Canonical → Text
  write null = text "null"
  write (bool true) = text "true"
  write (bool false) = text "false"
  write (int n) = print_int n
  write (str s) = write_json_string s
  write (array items) = b'[' ∷ (write_items true items ++ b']' ∷ [])
  write (object fs) = b'{' ∷ (write_fields true fs ++ b'}' ∷ [])

  pub write_items : Bool → Items → Text
  write_items first nil = []
  write_items first (cons v items) = comma first ++ (write v ++ write_items false items)

  pub write_fields : Bool → Fields → Text
  write_fields first end = []
  write_fields first (field k v fs) =
      comma first ++ (write_json_string k ++ (b':' ∷ (write v ++ write_fields false fs)))

abbrev pub to_bytes : Canonical → Text
to_bytes v = write v

unfoldable pub to_bounded_bytes : Canonical → Result Text CanonError
to_bounded_bytes v =
    if ltb max_metadata (length (to_bytes v))
    then err (too_large (length (to_bytes v)) max_metadata)
    else ok (to_bytes v)

-- The values that the Rust type holds: an i64, UTF-8 texts, and keys that ascend.
abbrev pub IsI64 : ℤ → Type 0
IsI64 (pos n) = n < 2 ^ 63
IsI64 (negsuc n) = n < 2 ^ 63

-- The keys come after `key`.
abbrev pub Above : Text → Fields → Type 0
Above key end = Unit {0}
Above key (field k v fs) = (text_ltb key k ≡ true) × Above k fs

abbrev pub Ascending : Fields → Type 0
Ascending end = Unit {0}
Ascending (field k v fs) = Above k fs

unfoldable mutual
  pub IsValue : Canonical → Type 0
  IsValue null = Unit {0}
  IsValue (bool b) = Unit {0}
  IsValue (int n) = IsI64 n
  IsValue (str s) = is_utf8 s ≡ true
  IsValue (array items) = AreValues items
  IsValue (object fs) = Ascending fs × AreFields fs

  pub AreValues : Items → Type 0
  AreValues nil = Unit {0}
  AreValues (cons v items) = IsValue v × AreValues items

  pub AreFields : Fields → Type 0
  AreFields end = Unit {0}
  AreFields (field k v fs) = (is_utf8 k ≡ true) × IsValue v × AreFields fs
