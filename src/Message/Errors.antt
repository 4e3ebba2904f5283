-- ===== src/Message/Errors.antt =====
-- Typed errors and payloads.
use xgc2_adapter_runtime_cli.Base.{ℕ, Bytes, Option, none, []}

pub data ErrorClass : Type 0 where
  unspecified permanent transient rejected deadline cancelled uncertain : ErrorClass
  resource_exhausted : ErrorClass
  unrecognized : ℕ → ErrorClass

pub data PayloadEncoding : Type 0 where
  unspecified protobuf json bytes : PayloadEncoding
  unrecognized : ℕ → PayloadEncoding

pub record SchemaReference : Type 0 where
  pub message_id : ℕ
  pub type_name : Bytes
  pub schema_version : ℕ
  pub schema_fingerprint : ℕ

-- What an accessor returns where the schema is not set.
abbrev pub default_schema : SchemaReference
default_schema = record {
  message_id = 0;
  type_name = [];
  schema_version = 0;
  schema_fingerprint = 0;
}

pub record Payload : Type 0 where
  pub schema : Option SchemaReference
  pub encoding : PayloadEncoding
  pub value : Bytes

abbrev pub default_payload : Payload
default_payload = record { schema = none; encoding = PayloadEncoding.unspecified; value = [] }

pub record AdapterError : Type 0 where
  pub class : ErrorClass
  pub code : Bytes
  pub message : Bytes
  pub retry_after_ms : ℕ
  pub details : Option Payload

abbrev pub default_error : AdapterError
default_error = record {
  class = ErrorClass.unspecified;
  code = [];
  message = [];
  retry_after_ms = 0;
  details = none;
}
