-- ===== src/Digest/Sha256.antt =====
-- The class `Sha256`. A word is a number below 2 ^ 32; `block` holds the first `buffered_bytes_`
-- bytes of `block_`, the others being written before they are read.
use Prim.Native.Nat.{bit_and, bit_or, bit_xor}
use xgc2_adapter_runtime_cli.Base.{
  ℕ, zero, suc, ◌+◌, ◌-◌, ◌*◌, ◌/◌, ◌%◌, ◌^◌, min, Bytes, length, get_or, take, drop, replicate,
  List, [], ◌∷◌, ◌++◌, ltb, ◌==◌, if◌then◌else◌, u32_mod, u64_mod, add64,
}

abbrev round_constants : List ℕ
round_constants =
    0x428a2f98 ∷ 0x71374491 ∷ 0xb5c0fbcf ∷ 0xe9b5dba5 ∷ 0x3956c25b ∷ 0x59f111f1 ∷ 0x923f82a4
    ∷ 0xab1c5ed5 ∷ 0xd807aa98 ∷ 0x12835b01 ∷ 0x243185be ∷ 0x550c7dc3 ∷ 0x72be5d74 ∷ 0x80deb1fe
    ∷ 0x9bdc06a7 ∷ 0xc19bf174 ∷ 0xe49b69c1 ∷ 0xefbe4786 ∷ 0x0fc19dc6 ∷ 0x240ca1cc ∷ 0x2de92c6f
    ∷ 0x4a7484aa ∷ 0x5cb0a9dc ∷ 0x76f988da ∷ 0x983e5152 ∷ 0xa831c66d ∷ 0xb00327c8 ∷ 0xbf597fc7
    ∷ 0xc6e00bf3 ∷ 0xd5a79147 ∷ 0x06ca6351 ∷ 0x14292967 ∷ 0x27b70a85 ∷ 0x2e1b2138 ∷ 0x4d2c6dfc
    ∷ 0x53380d13 ∷ 0x650a7354 ∷ 0x766a0abb ∷ 0x81c2c92e ∷ 0x92722c85 ∷ 0xa2bfe8a1 ∷ 0xa81a664b
    ∷ 0xc24b8b70 ∷ 0xc76c51a3 ∷ 0xd192e819 ∷ 0xd6990624 ∷ 0xf40e3585 ∷ 0x106aa070 ∷ 0x19a4c116
    ∷ 0x1e376c08 ∷ 0x2748774c ∷ 0x34b0bcb5 ∷ 0x391c0cb3 ∷ 0x4ed8aa4a ∷ 0x5b9cca4f ∷ 0x682e6ff3
    ∷ 0x748f82ee ∷ 0x78a5636f ∷ 0x84c87814 ∷ 0x8cc70208 ∷ 0x90befffa ∷ 0xa4506ceb ∷ 0xbef9a3f7
    ∷ 0xc67178f2 ∷ []

add32 : ℕ → ℕ → ℕ
add32 a b = (a + b) % u32_mod

not32 : ℕ → ℕ
not32 a = u32_mod - 1 - a

rotate_right : ℕ → ℕ → ℕ
rotate_right value shift = bit_or (value / 2 ^ shift) (value * 2 ^ (32 - shift) % u32_mod)

xor3 : ℕ → ℕ → ℕ → ℕ
xor3 a b c = bit_xor (bit_xor a b) c

-- Eight words, `state_[0]` to `state_[7]` or the variables `a` to `h` of a round.
pub data Words8 : Type 0 where
  words8 : ℕ → ℕ → ℕ → ℕ → ℕ → ℕ → ℕ → ℕ → Words8

-- Four bytes from index * 4 on, most significant first: words[index] for the first 16.
load_words : ℕ → Bytes → List ℕ
load_words zero block = []
load_words (suc n) block =
    (get_or block 0 0 * 2 ^ 24
      + get_or block 1 0 * 2 ^ 16
      + get_or block 2 0 * 2 ^ 8
      + get_or block 3 0)
    ∷ load_words n (drop 4 block)

-- The next `n` words of the schedule; `words` holds `index` of them.
extend_words : ℕ → ℕ → List ℕ → List ℕ
unfolding add32 rotate_right xor3
extend_words zero index words = words
extend_words (suc n) index words =
    let x = get_or words (index - 15) 0 in
    let y = get_or words (index - 2) 0 in
    let s0 = xor3 (rotate_right x 7) (rotate_right x 18) (x / 2 ^ 3) in
    let s1 = xor3 (rotate_right y 17) (rotate_right y 19) (y / 2 ^ 10) in
    let next =
      add32 (add32 (add32 (get_or words (index - 16) 0) s0) (get_or words (index - 7) 0)) s1 in
    extend_words n (suc index) (words ++ next ∷ [])

compress_step : ℕ → ℕ → Words8 → Words8
unfolding add32 not32 rotate_right xor3
compress_step constant word (words8 a b c d e f g h) =
    let upper_sigma1 = xor3 (rotate_right e 6) (rotate_right e 11) (rotate_right e 25) in
    let choice = bit_xor (bit_and e f) (bit_and (not32 e) g) in
    let temporary1 = add32 (add32 (add32 (add32 h upper_sigma1) choice) constant) word in
    let upper_sigma0 = xor3 (rotate_right a 2) (rotate_right a 13) (rotate_right a 22) in
    let majority = xor3 (bit_and a b) (bit_and a c) (bit_and b c) in
    let temporary2 = add32 upper_sigma0 majority in
    words8 (add32 temporary1 temporary2) a b c (add32 d temporary1) e f g

compress : List ℕ → List ℕ → Words8 → Words8
unfolding compress_step
compress [] words v = v
compress (k ∷ ks) [] v = v
compress (k ∷ ks) (word ∷ words) v = compress ks words (compress_step k word v)

add_words : Words8 → Words8 → Words8
unfolding add32
add_words (words8 a b c d e f g h) (words8 a' b' c' d' e' f' g' h') =
    words8 (add32 a a') (add32 b b') (add32 c c') (add32 d d') (add32 e e') (add32 f f')
      (add32 g g') (add32 h h')

unfoldable pub transform : Words8 → Bytes → Words8
unfolding load_words extend_words compress add_words
transform state block =
    add_words state (compress round_constants (extend_words 48 16 (load_words 16 block)) state)

-- The state, the buffered bytes and the count of bytes so far.
pub data Sha256 : Type 0 where
  sha256 : Words8 → Bytes → ℕ → Sha256

unfoldable pub empty_hash : Sha256
empty_hash =
    sha256
      (words8 0x6a09e667 0xbb67ae85 0x3c6ef372 0xa54ff53a 0x510e527f 0x9b05688c 0x1f83d9ab
        0x5be0cd19)
      [] 0

-- A full buffer is transformed and emptied.
unfoldable pub flush : Sha256 → Sha256
flush (sha256 state block total) =
    if length block == 64 then sha256 (transform state block) [] total else sha256 state block total

unfoldable pub buffered : Sha256 → ℕ
buffered (sha256 state block total) = length block

-- memcpy of some bytes behind the buffered ones.
unfoldable pub copy_in : Bytes → Sha256 → Sha256
copy_in bytes (sha256 state block total) = sha256 state (block ++ bytes) total

unfoldable pub count_bytes : ℕ → Sha256 → Sha256
count_bytes n (sha256 state block total) = sha256 state block (add64 total n)

-- The loop of `Update`; each round takes a byte at least, so the length is fuel enough.
unfoldable pub update_loop : ℕ → Sha256 → Bytes → Sha256
update_loop zero s bytes = s
update_loop (suc fuel) s [] = s
update_loop (suc fuel) s (x ∷ xs) =
    let copy = min (length (x ∷ xs)) (64 - buffered s) in
    update_loop fuel (flush (copy_in (take copy (x ∷ xs)) s)) (drop copy (x ∷ xs))

unfoldable pub update : Sha256 → Bytes → Sha256
update s bytes = update_loop (length bytes) (count_bytes (length bytes) s) bytes

-- The bytes of a word or of a length, most significant first.
unfoldable pub big_endian : ℕ → ℕ → Bytes
big_endian zero value = []
big_endian (suc n) value = (value / 2 ^ (n * 8) % 256) ∷ big_endian n value

unfoldable pub fill : ℕ → Bytes → Bytes
fill size block = block ++ replicate (size - length block) 0

unfoldable pub words_bytes : Words8 → Bytes
unfolding big_endian
words_bytes (words8 a b c d e f g h) =
    big_endian 4 a
    ++ big_endian 4 b
    ++ big_endian 4 c
    ++ big_endian 4 d
    ++ big_endian 4 e
    ++ big_endian 4 f
    ++ big_endian 4 g
    ++ big_endian 4 h

-- The last block: zeros up to byte 56, then the length in bits.
unfoldable pub last_block : ℕ → Bytes → Bytes
unfolding big_endian fill
last_block total block = fill 56 block ++ big_endian 8 (total * 8 % u64_mod)

unfoldable pub finish : Sha256 → Bytes
finish (sha256 state block total) =
    if ltb 56 (suc (length block))
    then words_bytes
        (transform (transform state (fill 64 (block ++ 0x80 ∷ []))) (last_block total []))
    else words_bytes (transform state (last_block total (block ++ 0x80 ∷ [])))
