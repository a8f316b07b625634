-- ===== src/Provider/Wire.antt =====
-- crates/permissionsync-provider-generic-rest/src/wire.rs: the metadata and the envelope of a
-- successful response. The media type library and the parser of `serde_json` are parameters.
use permissionsync.Prelude.{
  ℕ, Bool, true, false, not, ◌&&◌, ◌||◌, List, [], ◌∷◌, Option, none, some, ltb, leb, ◌==◌,
  if◌then◌else◌, all, Result, ok, err, ok_or, guard, ◌>>=◌, ◌>>◌, map_ok, map_err, Text, text,
}
use permissionsync.Prelude.Bytes.{split, trim_start, trim_end, eq_ignore_ascii_case}
use permissionsync.Prelude.Json.{Value}
use permissionsync.Prelude.Shapes.{and_then, struct_slots, slot, as_number}
use permissionsync.Prelude.Decimal.{parse_u64}
use permissionsync.Domain.Values.{DesiredStateEnvelope, payload_try_from}

pub data ProviderFailure : Type 0 where
  runtime_unavailable cancelled deadline_exceeded invalid_authorization request_construction :
      ProviderFailure
  request_serialization transport unexpected_status response_metadata response_body :
      ProviderFailure
  response_too_large response_envelope : ProviderFailure

-- A parsed media type, with the values of its `charset` parameters.
pub record Mime : Type 0 where
  pub type_ : Text
  pub subtype : Text
  pub charsets : List Text

abbrev pub is_utf8 : Text → Bool
is_utf8 charset =
    eq_ignore_ascii_case charset (text "utf-8") || eq_ignore_ascii_case charset (text "utf8")

-- At most one charset, which names UTF-8.
abbrev pub charsets_fit : List Text → Bool
charsets_fit [] = true
charsets_fit (charset ∷ []) = is_utf8 charset
charsets_fit (charset ∷ next ∷ charsets) = false

unfoldable pub fits_json : Mime → Bool
unfolding eq_ignore_ascii_case
fits_json media_type =
    eq_ignore_ascii_case media_type.type_ (text "application")
    && (eq_ignore_ascii_case media_type.subtype (text "json") && charsets_fit media_type.charsets)

unfoldable pub validate_success_content_type :
    (Text → Option Mime) → List Text → Result ProviderFailure (Unit {0})
unfolding fits_json
validate_success_content_type parse_mime [] = err response_metadata
validate_success_content_type parse_mime (content_type ∷ []) = elim (parse_mime content_type) [
  | none ↦ err response_metadata
  | some media_type ↦ guard (fits_json media_type) response_metadata
]
validate_success_content_type parse_mime (content_type ∷ next ∷ rest) = err response_metadata

-- `str::trim` of a header value, which has no other white space than this.
abbrev pub is_white : ℕ → Bool
is_white b = leb 9 b && leb b 13 || b == 32

abbrev pub trim : Text → Text
trim t = trim_end is_white (trim_start is_white t)

abbrev pub is_empty : Text → Bool
is_empty [] = true
is_empty (b ∷ t) = false

-- The loop over the codings of one value; the flag is `found_coding`.
unfoldable pub codings_fit : Bool → List Text → Bool
unfolding trim_start trim_end eq_ignore_ascii_case
codings_fit found_coding [] = found_coding
codings_fit found_coding (coding ∷ codings) =
    let rest = codings_fit true codings in
    if is_empty (trim coding) || not (eq_ignore_ascii_case (trim coding) (text "identity"))
    then false
    else rest

unfoldable pub validate_success_content_encoding : List Text → Result ProviderFailure (Unit {0})
unfolding codings_fit split
validate_success_content_encoding values =
    guard (all (λ value. codings_fit false (split 44 value)) values) response_metadata

-- A header map by the values of the three names that are read.
pub record HeaderMap : Type 0 where
  pub content_type : List Text
  pub content_encoding : List Text
  pub content_length : List Text

-- `HeaderValue::to_str` of every value.
unfoldable pub header_values : (Text → Option Text) → List Text → Result ProviderFailure (List Text)
header_values to_str [] = ok []
header_values to_str (value ∷ values) = do
  shown ← ok_or response_metadata (to_str value)
  rest ← header_values to_str values
  ok (shown ∷ rest)

unfoldable pub parse_content_length : Text → Result ProviderFailure ℕ
parse_content_length content_length =
    if is_empty content_length || not (all (λ b. leb 48 b && leb b 57) content_length)
    then err response_metadata
    else ok_or response_metadata (parse_u64 content_length)

unfoldable pub declared : List Text → Result ProviderFailure (Option ℕ)
unfolding parse_content_length
declared [] = ok none
declared (content_length ∷ []) = map_ok some (parse_content_length content_length)
declared (content_length ∷ next ∷ rest) = err response_metadata

abbrev pub exceeds : ℕ → Option ℕ → Bool
exceeds limit none = false
exceeds limit (some n) = ltb limit n

unfoldable pub validate_success_headers :
    (Text → Option Mime) → (Text → Option Text) → HeaderMap → ℕ → Result ProviderFailure (Option ℕ)
unfolding header_values validate_success_content_type validate_success_content_encoding declared
validate_success_headers parse_mime to_str headers limit = do
  content_types ← header_values to_str headers.content_type
  validate_success_content_type parse_mime content_types
  content_encodings ← header_values to_str headers.content_encoding
  validate_success_content_encoding content_encodings
  content_lengths ← header_values to_str headers.content_length
  declared_length ← declared content_lengths
  guard (not (exceeds limit declared_length)) response_too_large
  ok declared_length

-- The envelope of a document whose members are kept as their raw texts; `read_u64` is the number of
-- such a text and `is_json` the validation of the payload.
unfoldable pub parse_success_envelope :
    (Text → Option (Value Text))
    → (Text → Option ℕ)
    → (Text → Bool)
    → Text
    → Result ProviderFailure DesiredStateEnvelope
unfolding payload_try_from
parse_success_envelope raw_document read_u64 is_json body = do
  value ← ok_or response_envelope (raw_document body)
  slots ← ok_or response_envelope (struct_slots true (text "version" ∷ text "payload" ∷ []) value)
  version ← ok_or response_envelope (and_then read_u64 (and_then as_number (slot 0 slots)))
  json ← ok_or response_envelope (and_then as_number (slot 1 slots))
  payload ← map_err (λ e. response_envelope) (payload_try_from is_json json)
  ok (record { version = record { value = version }; payload = payload })
