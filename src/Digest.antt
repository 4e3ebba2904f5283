-- ===== src/Digest.antt =====
-- src/digest.cpp: SHA-256 over chunks, and the textual digest of a terminal message.
mod Sha256
pub mod Streaming
pub mod Format
unfoldable pub use Sha256.*
use mathlib.Core.Option
use xgc2_adapter_runtime_cli.Base.{
  ℕ, ◌+◌, ◌*◌, ◌/◌, ◌%◌, ◌-◌, Bytes, text, Option, none, some, List, [], ◌∷◌, ◌++◌, ltb,
  if◌then◌else◌,
}
use xgc2_adapter_runtime_cli.Message.{Environment}
use xgc2_adapter_runtime_cli.Message.Work.{Terminal}

hex_digit : ℕ → ℕ
hex_digit n = if ltb n 10 then b'0' + n else b'a' + n - 10

-- std::hex with std::setw(2) and std::setfill('0'), byte by byte.
pub to_hex : Bytes → Bytes
unfolding hex_digit
to_hex [] = []
to_hex (b ∷ bs) = hex_digit (b / 16) ∷ hex_digit (b % 16) ∷ to_hex bs

unfoldable pub digest_text : Bytes → Bytes → Bytes
unfolding to_hex text update finish empty_hash
digest_text type_name encoded =
    text "sha256:"
    ++ to_hex (finish (update (update (update empty_hash type_name) (0 ∷ [])) encoded))

module _ ⦃w : Environment⦄ where
  -- `none` is a failed encoding.
  unfoldable pub terminal_digest : Terminal → Option Bytes
  unfolding digest_text
  terminal_digest message = Option.map (digest_text (w.full_name message)) (w.serialize message)
