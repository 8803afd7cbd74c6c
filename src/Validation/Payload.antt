-- ===== src/Validation/Payload.antt =====
-- The payload checks of domain/consensus/processes/transactionvalidator/transaction_in_isolation.go.
use eiyaro.Common.{
  ℕ, suc, ◌+◌, ◌*◌, ◌%◌, Bool, true, false, List, [], ◌∷◌, ◌&&◌, ◌||◌, not, ltb, leb, ◌==◌,
  if◌then◌else◌, length, Option, none, some,
}

-- A string is its bytes.
abbrev pub Bytes : Type 0
Bytes = List ℕ

-- What the decoder of encoding/json gives: an object, an array, a string, or another value.
mutual
  pub data Json : Type 0 where
    object : Fields → Json
    array : Items → Json
    text : Bytes → Json
    scalar : Json

  pub data Fields : Type 0 where
    no_fields : Fields
    field : Bytes → Json → Fields → Fields

  pub data Items : Type 0 where
    no_items : Items
    item : Json → Items → Items

-- The libraries: JSON, base64, hexadecimal and image decoding, lower case, and the entropy of a
-- string, which is computed with floating-point numbers, against a threshold in tenths.
pub record Libraries : Type 0 where
  pub decode_object : Bytes → Option Fields
  pub decode_base64 : Bytes → Option Bytes
  pub decode_base64_url : Bytes → Option Bytes
  pub decode_hex : Bytes → Option Bytes
  pub decodes_as_image : Bytes → Bool
  pub to_lower : Bytes → Bytes
  pub entropy_above : Bytes → ℕ → Bool

unfoldable pub has_prefix : Bytes → Bytes → Bool
has_prefix bytes [] = true
has_prefix [] (b ∷ prefix) = false
has_prefix (c ∷ bytes) (b ∷ prefix) = c == b && has_prefix bytes prefix

unfoldable pub has_any_prefix : Bytes → List Bytes → Bool
has_any_prefix bytes [] = false
has_any_prefix bytes (sig ∷ signatures) = has_prefix bytes sig || has_any_prefix bytes signatures

abbrev pub file_signatures : List Bytes
file_signatures =
    (0xff ∷ 0xd8 ∷ 0xff ∷ [])
    ∷ (0x89 ∷ 0x50 ∷ 0x4e ∷ 0x47 ∷ [])
    ∷ (0x47 ∷ 0x49 ∷ 0x46 ∷ 0x38 ∷ [])
    ∷ (0x42 ∷ 0x4d ∷ [])
    ∷ (0x50 ∷ 0x4b ∷ 0x03 ∷ 0x04 ∷ [])
    ∷ (0x50 ∷ 0x4b ∷ 0x05 ∷ 0x06 ∷ [])
    ∷ (0x50 ∷ 0x4b ∷ 0x07 ∷ 0x08 ∷ [])
    ∷ (0x52 ∷ 0x61 ∷ 0x72 ∷ 0x21 ∷ [])
    ∷ (0x7f ∷ 0x45 ∷ 0x4c ∷ 0x46 ∷ [])
    ∷ (0x4d ∷ 0x5a ∷ [])
    ∷ (0xca ∷ 0xfe ∷ 0xba ∷ 0xbe ∷ [])
    ∷ (0xfe ∷ 0xed ∷ 0xfa ∷ 0xce ∷ [])
    ∷ (0xfe ∷ 0xed ∷ 0xfa ∷ 0xcf ∷ [])
    ∷ (0xcf ∷ 0xfa ∷ 0xed ∷ 0xfe ∷ [])
    ∷ (0x25 ∷ 0x50 ∷ 0x44 ∷ 0x46 ∷ [])
    ∷ (0xd0 ∷ 0xcf ∷ 0x11 ∷ 0xe0 ∷ [])
    ∷ (0x4f ∷ 0x67 ∷ 0x67 ∷ 0x53 ∷ [])
    ∷ (0x49 ∷ 0x44 ∷ 0x33 ∷ [])
    ∷ (0xff ∷ 0xfb ∷ [])
    ∷ (0x66 ∷ 0x74 ∷ 0x79 ∷ 0x70 ∷ [])
    ∷ (0x00 ∷ 0x00 ∷ 0x01 ∷ 0x00 ∷ [])
    ∷ (0x52 ∷ 0x49 ∷ 0x46 ∷ 0x46 ∷ [])
    ∷ []

unfoldable pub contains_suspicious_binary_signatures : Bytes → Bool
contains_suspicious_binary_signatures bytes =
    if ltb (length bytes) 4 then false else has_any_prefix bytes file_signatures

abbrev pub image_signatures : List Bytes
image_signatures =
    (0xff ∷ 0xd8 ∷ 0xff ∷ [])
    ∷ (0x89 ∷ 0x50 ∷ 0x4e ∷ 0x47 ∷ [])
    ∷ (0x47 ∷ 0x49 ∷ 0x46 ∷ 0x38 ∷ [])
    ∷ (0x42 ∷ 0x4d ∷ [])
    ∷ []

-- `strings.Contains`.
unfoldable pub contains_bytes : Bytes → Bytes → Bool
contains_bytes [] part = has_prefix [] part
contains_bytes (b ∷ bytes) part = has_prefix (b ∷ bytes) part || contains_bytes bytes part

unfoldable pub contains_any : Bytes → List Bytes → Bool
contains_any bytes [] = false
contains_any bytes (part ∷ parts) = contains_bytes bytes part || contains_any bytes parts

unfoldable pub is_hex_digit : ℕ → Bool
is_hex_digit r = (leb 48 r && leb r 57) || (leb 97 r && leb r 102) || (leb 65 r && leb r 70)

unfoldable pub all_hex : Bytes → Bool
all_hex [] = true
all_hex (r ∷ s) = is_hex_digit r && all_hex s

-- A byte above 127 is in no hexadecimal digit, as in the runes that the code ranges over.
unfoldable pub is_likely_hex_string : Bytes → Bool
is_likely_hex_string s = not (ltb (length s) 8) && length s % 2 == 0 && all_hex s

unfoldable pub is_base64_char : ℕ → Bool
is_base64_char r =
    (leb 65 r && leb r 90)
    || (leb 97 r && leb r 122)
    || (leb 48 r && leb r 57)
    || r == 43
    || r == 47
    || r == 61

unfoldable pub count_base64 : Bytes → ℕ
count_base64 [] = 0
count_base64 (r ∷ s) = let rest = count_base64 s in if is_base64_char r then suc rest else rest

-- More than 0.95 of the characters, which the code computes with floating-point numbers: exact for
-- strings as short as a payload.
unfoldable pub is_likely_base64 : Bytes → Bool
is_likely_base64 s =
    not (ltb (length s) 4) && length s % 4 == 0 && ltb (95 * length s) (100 * count_base64 s)

-- The suspicious parts of a key, from "image" to "hex", in ASCII.
abbrev pub suspicious_keys : List Bytes
suspicious_keys =
    (105 ∷ 109 ∷ 97 ∷ 103 ∷ 101 ∷ [])
    ∷ (105 ∷ 109 ∷ 103 ∷ [])
    ∷ (112 ∷ 104 ∷ 111 ∷ 116 ∷ 111 ∷ [])
    ∷ (112 ∷ 105 ∷ 99 ∷ 116 ∷ 117 ∷ 114 ∷ 101 ∷ [])
    ∷ (102 ∷ 105 ∷ 108 ∷ 101 ∷ [])
    ∷ (97 ∷ 116 ∷ 116 ∷ 97 ∷ 99 ∷ 104 ∷ 109 ∷ 101 ∷ 110 ∷ 116 ∷ [])
    ∷ (98 ∷ 105 ∷ 110 ∷ 97 ∷ 114 ∷ 121 ∷ [])
    ∷ (100 ∷ 97 ∷ 116 ∷ 97 ∷ [])
    ∷ (99 ∷ 111 ∷ 110 ∷ 116 ∷ 101 ∷ 110 ∷ 116 ∷ [])
    ∷ (112 ∷ 97 ∷ 121 ∷ 108 ∷ 111 ∷ 97 ∷ 100 ∷ [])
    ∷ (98 ∷ 117 ∷ 102 ∷ 102 ∷ 101 ∷ 114 ∷ [])
    ∷ (98 ∷ 108 ∷ 111 ∷ 98 ∷ [])
    ∷ (101 ∷ 120 ∷ 101 ∷ 99 ∷ 117 ∷ 116 ∷ 97 ∷ 98 ∷ 108 ∷ 101 ∷ [])
    ∷ (101 ∷ 120 ∷ 101 ∷ [])
    ∷ (122 ∷ 105 ∷ 112 ∷ [])
    ∷ (97 ∷ 114 ∷ 99 ∷ 104 ∷ 105 ∷ 118 ∷ 101 ∷ [])
    ∷ (99 ∷ 111 ∷ 109 ∷ 112 ∷ 114 ∷ 101 ∷ 115 ∷ 115 ∷ 101 ∷ 100 ∷ [])
    ∷ (101 ∷ 110 ∷ 99 ∷ 111 ∷ 100 ∷ 101 ∷ 100 ∷ [])
    ∷ (98 ∷ 97 ∷ 115 ∷ 101 ∷ 54 ∷ 52 ∷ [])
    ∷ (104 ∷ 101 ∷ 120 ∷ [])
    ∷ []

abbrev pub suspicious_length : ℕ
suspicious_length = 64

abbrev pub max_depth : ℕ
max_depth = 10

abbrev pub max_keys : ℕ
max_keys = 100

abbrev pub max_array_size : ℕ
max_array_size = 100

unfoldable pub count_items : Items → ℕ
count_items no_items = 0
count_items (item v vs) = suc (count_items vs)

-- The threshold of the entropy, in tenths, which the score moves.
abbrev pub entropy_threshold : ℕ → ℕ
entropy_threshold daa_score = if leb (110996218 + 12960000) daa_score then 45 else 20

module _ (lib : Libraries) where
  unfoldable pub is_suspicious_key : Bytes → Bool
  is_suspicious_key key = contains_any (lib.to_lower key) suspicious_keys

  unfoldable pub is_likely_image : Bytes → Bool
  is_likely_image bytes =
      if ltb (length bytes) 10
      then false
      else has_any_prefix bytes image_signatures || lib.decodes_as_image bytes

  unfoldable pub is_file : Bytes → Bool
  is_file decoded = contains_suspicious_binary_signatures decoded || is_likely_image decoded

  -- Whether a decoding that succeeded, of a least length, is a file.
  unfoldable pub decoded_file : ℕ → Option Bytes → Bool
  decoded_file least none = false
  decoded_file least (some decoded) = leb least (length decoded) && is_file decoded

  unfoldable pub has_high_entropy : Bytes → ℕ → Bool
  has_high_entropy s daa_score =
      if ltb (length s) 16 then false else lib.entropy_above s (entropy_threshold daa_score)

  -- True where the code returns an error.
  unfoldable pub is_encoded_binary_string : Bytes → ℕ → Bool
  is_encoded_binary_string s daa_score =
      if length s == 0
      then false
      else (ltb suspicious_length (length s) && has_high_entropy s daa_score)
        || (is_likely_base64 s
            && (decoded_file (suc suspicious_length) (lib.decode_base64 s)
                || decoded_file (suc suspicious_length) (lib.decode_base64_url s)))
        || (is_likely_hex_string s
            && ltb suspicious_length (length s)
            && decoded_file 0 (lib.decode_hex (lib.to_lower s)))

  -- True where the code returns an error, which is the same error whatever the order in which it
  -- ranges over an object. The tests of a level come before those of its parts.
  unfoldable mutual
    pub has_encoded_file_content : ℕ → ℕ → Json → Bool
    has_encoded_file_content daa_score depth (object fields) =
        ltb max_depth depth || has_encoded_fields daa_score depth 0 fields
    has_encoded_file_content daa_score depth (array items) =
        ltb max_depth depth
        || ltb max_array_size (count_items items)
        || has_encoded_items daa_score depth items
    has_encoded_file_content daa_score depth (text s) =
        ltb max_depth depth || is_encoded_binary_string s daa_score
    has_encoded_file_content daa_score depth scalar = ltb max_depth depth

    pub has_encoded_fields : ℕ → ℕ → ℕ → Fields → Bool
    has_encoded_fields daa_score depth key_count no_fields = false
    has_encoded_fields daa_score depth key_count (field key val fields) =
        ltb max_keys (key_count + 1)
        || is_suspicious_key key
        || has_encoded_file_content daa_score (depth + 1) val
        || has_encoded_fields daa_score depth (key_count + 1) fields

    pub has_encoded_items : ℕ → ℕ → Items → Bool
    has_encoded_items daa_score depth no_items = false
    has_encoded_items daa_score depth (item val items) =
        has_encoded_file_content daa_score (depth + 1) val
        || has_encoded_items daa_score depth items

  unfoldable pub is_valid_json_object : Bytes → ℕ → Bool
  is_valid_json_object bytes daa_score =
      if length bytes == 0
      then false
      else if contains_suspicious_binary_signatures bytes
      then false
      else elim (lib.decode_object bytes) [
        | none ↦ false
        | some obj ↦ not (has_encoded_file_content daa_score 0 (object obj))
      ]
