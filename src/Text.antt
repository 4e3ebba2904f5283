-- ===== src/Text.antt =====
-- src/internal.hpp: the validators of names, digests, payloads and errors, and `MakeError`.
pub mod Identifier
use xgc2_adapter_runtime_cli.Base.{
  ℕ, zero, suc, Bool, true, false, not, ◌&&◌, ◌||◌, Bytes, text, same, length, is_empty, all,
  Option, none, some, List, [], ◌∷◌, String, value_or, ltb, leb, ◌==◌, if◌then◌else◌,
}
use xgc2_adapter_runtime_cli.Message.{Environment}
use xgc2_adapter_runtime_cli.Message.Errors.{
  ErrorClass, PayloadEncoding, SchemaReference, Payload, AdapterError, default_schema,
}
use xgc2_adapter_runtime_cli.Message.Work.{OperationPhase, ScopeReference}

is_ascii_whitespace : ℕ → Bool
is_ascii_whitespace c = c == 32 || c == 9 || c == 11 || c == 12 || c == 13 || c == 10

-- value.back(), of a nonempty text with this front.
back : ℕ → Bytes → ℕ
back c [] = c
back c (d ∷ cs) = back d cs

is_line_or_nul : ℕ → Bool
is_line_or_nul c = c == 0 || c == 13 || c == 10

unfoldable pub is_canonical_text : Bytes → Bool
unfolding is_ascii_whitespace back is_line_or_nul all
is_canonical_text [] = false
is_canonical_text (c ∷ cs) =
    if is_ascii_whitespace c || is_ascii_whitespace (back c cs)
    then false
    else all (λ d. not (is_line_or_nul d)) (c ∷ cs)

unfoldable pub is_lower_alpha : ℕ → Bool
is_lower_alpha c = leb b'a' c && leb c b'z'

unfoldable pub is_alphanumeric : ℕ → Bool
is_alphanumeric c = (leb b'a' c && leb c b'z') || (leb b'0' c && leb c b'9')

unfoldable pub is_separator : ℕ → Bool
is_separator c = c == b'.' || c == b'_' || c == b'-'

-- The loop of `IsCanonicalIdentifier`, with its flag `separator`.
unfoldable pub identifier_loop : Bool → Bytes → Bool
unfolding is_alphanumeric is_separator
identifier_loop separator [] = not separator
identifier_loop separator (c ∷ cs) =
    let plain = identifier_loop false cs in
    let joined = identifier_loop true cs in
    if is_alphanumeric c then plain else if is_separator c && not separator then joined else false

unfoldable pub is_canonical_identifier : Bytes → Bool
unfolding identifier_loop is_lower_alpha
is_canonical_identifier [] = false
is_canonical_identifier (c ∷ cs) =
    if ltb c b'a' || ltb b'z' c then false else identifier_loop false (c ∷ cs)

unfoldable pub is_hex : ℕ → Bool
is_hex c = (leb b'0' c && leb c b'9') || (leb b'a' c && leb c b'f')

-- Whether `value` begins with `prefix`, and then `rest` holds of what follows.
unfoldable pub after_prefix : (Bytes → Bool) → Bytes → Bytes → Bool
after_prefix rest [] value = rest value
after_prefix rest (p ∷ ps) [] = false
after_prefix rest (p ∷ ps) (c ∷ cs) = (c == p) && after_prefix rest ps cs

unfoldable pub is_canonical_sha256 : Bytes → Bool
unfolding is_hex all after_prefix text
is_canonical_sha256 value = (length value == 71) && after_prefix (all is_hex) (text "sha256:") value

unfoldable pub is_valid_payload_encoding : PayloadEncoding → Bool
is_valid_payload_encoding PayloadEncoding.protobuf = true
is_valid_payload_encoding PayloadEncoding.json = true
is_valid_payload_encoding PayloadEncoding.bytes = true
is_valid_payload_encoding _ = false

abbrev is_json : PayloadEncoding → Bool
is_json PayloadEncoding.json = true
is_json _ = false

-- payload.schema(): the default instance where none is set.
abbrev pub schema_of : Option SchemaReference → SchemaReference
schema_of s = value_or s default_schema

unfoldable pub schema_matches : SchemaReference → SchemaReference → Bool
schema_matches expected actual =
    (expected.message_id == actual.message_id)
    && same expected.type_name actual.type_name
    && (expected.schema_version == actual.schema_version)
    && (expected.schema_fingerprint == actual.schema_fingerprint)

unfoldable pub make_error : ErrorClass → Bytes → Bytes → AdapterError
make_error class code message = record {
  class = class;
  code = code;
  message = message;
  retry_after_ms = 0;
  details = none;
}

unfoldable pub is_terminal : OperationPhase → Bool
is_terminal OperationPhase.succeeded = true
is_terminal OperationPhase.rejected = true
is_terminal OperationPhase.failed = true
is_terminal OperationPhase.expired = true
is_terminal OperationPhase.cancelled = true
is_terminal OperationPhase.uncertain = true
is_terminal _ = false

unfoldable pub error_matches_operation_phase : OperationPhase → ErrorClass → Bool
error_matches_operation_phase OperationPhase.rejected ErrorClass.rejected = true
error_matches_operation_phase OperationPhase.failed ErrorClass.permanent = true
error_matches_operation_phase OperationPhase.failed ErrorClass.transient = true
error_matches_operation_phase OperationPhase.failed ErrorClass.resource_exhausted = true
error_matches_operation_phase OperationPhase.expired ErrorClass.deadline = true
error_matches_operation_phase OperationPhase.cancelled ErrorClass.cancelled = true
error_matches_operation_phase OperationPhase.uncertain ErrorClass.uncertain = true
error_matches_operation_phase _ _ = false

-- dispatch.cpp and spec.cpp each have this test of a scope, under two names.
unfoldable pub is_valid_subject : ScopeReference → Bool
unfolding all
is_valid_subject subject =
    is_canonical_identifier subject.kind
    && is_canonical_sha256 subject.key
    && not (is_empty subject.attributes)
    && all (λ a. is_canonical_identifier a.0 && is_canonical_text a.1) subject.attributes

module _ ⦃w : Environment⦄ where
  unfoldable pub is_valid_payload : Payload → Bool
  is_valid_payload payload = elim payload.schema [
    | none ↦ false
    | some schema ↦
        not (schema.message_id == 0)
        && is_canonical_text schema.type_name
        && not (schema.schema_version == 0)
        && not (schema.schema_fingerprint == 0)
        && is_valid_payload_encoding payload.encoding
        && (if is_json payload.encoding then w.json_ok payload.value else true)
  ]

  unfoldable pub is_typed_error : AdapterError → Bool
  is_typed_error error =
      leb (w.class_number ErrorClass.permanent) (w.class_number error.class)
      && leb (w.class_number error.class) (w.class_number ErrorClass.resource_exhausted)
      && is_canonical_identifier error.code
      && is_canonical_text error.message
      && elim error.details [ none ↦ true | some details ↦ is_valid_payload details ]
