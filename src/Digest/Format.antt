-- ===== src/Digest/Format.antt =====
-- The textual digest: its form, and the bytes that it is the hash of.
use mathlib.Core.Option
use mathlib.Core.Option.{some-injective}
use xgc2_adapter_runtime_cli.Base.{
  ℕ, suc, ◌*◌, ◌/◌, ◌%◌, ◌<◌, ◌≡◌, refl, ap, ◌∙◌, true, Bytes, text, length, length-append, All,
  all, Bool, Option, none, some, [], ◌∷◌, ◌++◌, arith, subst, append_assoc, ltb, if_both,
}
use xgc2_adapter_runtime_cli.Message.{Environment}
use xgc2_adapter_runtime_cli.Message.Work.{Terminal}
use xgc2_adapter_runtime_cli.Text.{is_hex, after_prefix, is_canonical_sha256}
use xgc2_adapter_runtime_cli.Digest.Sha256.{
  Sha256, sha256, Words8, words8, big_endian, words_bytes, empty_hash, buffered, update, finish,
}
use xgc2_adapter_runtime_cli.Digest.Streaming.{update-update}
use xgc2_adapter_runtime_cli.Digest.{hex_digit, to_hex, digest_text, terminal_digest}

hex_digit-is_hex : (n : ℕ) → n < 16 → is_hex (hex_digit n) ≡ true
unfolding is_hex hex_digit
hex_digit-is_hex n h = ground arith

to_hex-is_hex : (bs : Bytes) → All (λ b. b < 256) bs → all is_hex (to_hex bs) ≡ true
unfolding all to_hex
to_hex-is_hex [] h = refl
to_hex-is_hex (b ∷ bs) h =
    rw (hex_digit-is_hex (b / 16) (omega arith), hex_digit-is_hex (b % 16) (omega arith))
      (to_hex-is_hex bs h.1)

length-to_hex : (bs : Bytes) → length (to_hex bs) ≡ 2 * length bs
unfolding to_hex
length-to_hex [] = refl
length-to_hex (b ∷ bs) = omega (arith, length-to_hex bs)

after_prefix_self : (rest : Bytes → Bool) (p r : Bytes) → after_prefix rest p (p ++ r) ≡ rest r
unfolding after_prefix
after_prefix_self rest [] r = refl
after_prefix_self rest (c ∷ p) r = ground (arith, after_prefix_self rest p r)

IsByteList : Bytes → Type 0
IsByteList bs = (length bs ≡ 32) × All (λ b. b < 256) bs

words_bytes-IsByteList : (v : Words8) → IsByteList (words_bytes v)
unfolding IsByteList words_bytes big_endian
words_bytes-IsByteList (words8 a b c d e f g h) = omega arith

finish-IsByteList : (s : Sha256) → IsByteList (finish s)
unfolding finish
finish-IsByteList (sha256 state block total) =
    if_both IsByteList (ltb 56 (suc (length block))) (words_bytes-IsByteList _)
      (words_bytes-IsByteList _)

digest_text-is_canonical_sha256 :
    (name encoded : Bytes) → is_canonical_sha256 (digest_text name encoded) ≡ true
unfolding digest_text is_canonical_sha256 IsByteList
digest_text-is_canonical_sha256 name encoded =
    rw (after_prefix_self (all is_hex) (text "sha256:") (to_hex hash)) (
      rw (to_hex-is_hex hash bytes.1)
        (ground (arith, length-append (text "sha256:") (to_hex hash), length-to_hex hash, bytes.0)))
  where
    hash : Bytes
    hash = finish (update (update (update empty_hash name) (0 ∷ [])) encoded)

    bytes : IsByteList hash
    bytes = finish-IsByteList (update (update (update empty_hash name) (0 ∷ [])) encoded)

encoded_digest :
    (name : Bytes) (o : Option Bytes) {digest : Bytes}
    → Option.map (digest_text name) o ≡ some digest
    → is_canonical_sha256 digest ≡ true
encoded_digest name none e = cc
encoded_digest name (some encoded) e =
    subst (λ d. is_canonical_sha256 d ≡ true) (some-injective _ _ e)
      (digest_text-is_canonical_sha256 name encoded)

-- The digest of any message that can be encoded passes the client's own test of digests.
pub terminal_digest-is_canonical_sha256 :
    ⦃w : Environment⦄ (message : Terminal) {digest : Bytes}
    → terminal_digest message ≡ some digest
    → is_canonical_sha256 digest ≡ true
unfolding terminal_digest
terminal_digest-is_canonical_sha256 ⦃w⦄ message e =
    encoded_digest (w.full_name message) (w.serialize message) e

-- The three calls of `Update` hash the message name, one NUL byte and the encoding in a row.
pub digest_text_lem :
    (name encoded : Bytes)
    → digest_text name encoded
      ≡ text "sha256:" ++ to_hex (finish (update empty_hash (name ++ 0 ∷ encoded)))
unfolding digest_text
digest_text_lem name encoded =
    ap (λ s. text "sha256:" ++ to_hex (finish s))
      (ap (λ s. update s encoded) first.0
        ∙ (update-update empty_hash (name ++ 0 ∷ []) encoded start).0
        ∙ ap (update empty_hash) (append_assoc name (0 ∷ []) encoded))
  where
    start : buffered empty_hash < 64
    start = unfold buffered empty_hash in omega arith

    first :
        (update (update empty_hash name) (0 ∷ []) ≡ update empty_hash (name ++ 0 ∷ []))
        × (buffered (update empty_hash (name ++ 0 ∷ [])) < 64)
    first = update-update empty_hash name (0 ∷ []) start
