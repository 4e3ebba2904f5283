-- ===== src/Digest/Streaming.antt =====
-- `Update` over chunks: how the input is cut makes no difference, and the buffer never fills up.
use Prim.Native.Nat.{min}
use mathlib.Core.Path.{ap₂}
use xgc2_adapter_runtime_cli.Base.{
  ℕ, zero, suc, ◌+◌, ◌-◌, ◌≤◌, ◌<◌, ◌≡◌, refl, sym, ap, ◌∙◌, Bytes, length, length-append,
  length-take, length-drop, take-append-drop, take, drop, replicate, [], ◌∷◌, ◌++◌, append_assoc,
  arith, add64,
}
use xgc2_adapter_runtime_cli.Digest.Sha256.{
  Sha256, words8, sha256, transform, flush, buffered, copy_in, count_bytes, update_loop, update,
}

-- The compression of the padded text "abc".
transform_abc :
    transform
      (words8 0x6a09e667 0xbb67ae85 0x3c6ef372 0xa54ff53a 0x510e527f 0x9b05688c 0x1f83d9ab
        0x5be0cd19)
      (0x61 ∷ 0x62 ∷ 0x63 ∷ 0x80 ∷ replicate 59 0 ++ 0x18 ∷ [])
    ≡ words8 0xba7816bf 0x8f01cfea 0x414140de 0x5dae2223 0xb00361a3 0x96177a9c 0xb410ff61 0xf20015ad
unfolding transform
transform_abc = refl

-- The reference: one byte at a time.
unfoldable pub absorb : Sha256 → Bytes → Sha256
absorb s [] = s
absorb s (x ∷ xs) = absorb (flush (copy_in (x ∷ []) s)) xs

absorb-append : (s : Sha256) (xs ys : Bytes) → absorb s (xs ++ ys) ≡ absorb (absorb s xs) ys
unfolding absorb
absorb-append s [] ys = refl
absorb-append s (x ∷ xs) ys = absorb-append (flush (copy_in (x ∷ []) s)) xs ys

pub buffered-flush-lt : (s : Sha256) → buffered s ≤ 64 → buffered (flush s) < 64
unfolding buffered flush
buffered-flush-lt (sha256 state block total) h = ground arith

flush_short : (s : Sha256) → buffered s < 64 → flush s ≡ s
unfolding buffered flush
flush_short (sha256 state block total) h = ground arith

buffered-copy_in : (s : Sha256) (xs : Bytes) → buffered (copy_in xs s) ≡ buffered s + length xs
unfolding buffered copy_in
buffered-copy_in (sha256 state block total) xs = length-append block xs

copy_in-copy_in : (s : Sha256) (xs ys : Bytes) → copy_in ys (copy_in xs s) ≡ copy_in (xs ++ ys) s
unfolding copy_in
copy_in-copy_in (sha256 state block total) xs ys = rw (append_assoc block xs ys)

-- A copy that fits into the buffer is as good as its bytes one by one.
absorb_chunk :
    (s : Sha256) (x : ℕ) (xs : Bytes)
    → buffered s + length (x ∷ xs) ≤ 64
    → absorb s (x ∷ xs) ≡ flush (copy_in (x ∷ xs) s)
unfolding absorb
absorb_chunk s x [] h = refl
absorb_chunk s x (y ∷ ys) h =
    rw (flush_short (copy_in (x ∷ []) s) (omega (arith, buffered-copy_in s (x ∷ [])))) (
      absorb_chunk (copy_in (x ∷ []) s) y ys (omega (arith, buffered-copy_in s (x ∷ [])))
      ∙ ap flush (copy_in-copy_in s (x ∷ []) (y ∷ ys)))

absorb_copy :
    (s : Sha256) (xs : Bytes)
    → 0 < length xs
    → buffered s + length xs ≤ 64
    → absorb s xs ≡ flush (copy_in xs s)
absorb_copy s [] p h = absurd (omega arith)
absorb_copy s (x ∷ xs) p h = absorb_chunk s x xs h

update_loop-eq-absorb :
    (fuel : ℕ) (s : Sha256) (xs : Bytes)
    → length xs ≤ fuel
    → buffered s < 64
    → update_loop fuel s xs ≡ absorb s xs
unfolding update_loop absorb
update_loop-eq-absorb zero s [] h b = refl
update_loop-eq-absorb zero s (x ∷ xs) h b = absurd (omega arith)
update_loop-eq-absorb (suc fuel) s [] h b = refl
update_loop-eq-absorb (suc fuel) s (x ∷ xs) h b =
    update_loop-eq-absorb fuel (flush (copy_in front s)) rest (omega (arith, long, cut))
      (buffered-flush-lt (copy_in front s) (omega (arith, buffered-copy_in s front, long)))
    ∙ ap (λ t. absorb t rest)
        (sym (absorb_copy s front (omega (arith, long)) (omega (arith, long))))
    ∙ sym (absorb-append s front rest)
    ∙ ap (absorb s) (take-append-drop copy (x ∷ xs))
  where
    copy : ℕ
    copy = min (length (x ∷ xs)) (64 - buffered s)

    front : Bytes
    front = take copy (x ∷ xs)

    rest : Bytes
    rest = drop copy (x ∷ xs)

    long : length front ≡ copy
    long = omega (arith, length-take copy (x ∷ xs))

    cut : length rest ≡ length (x ∷ xs) - copy
    cut = length-drop copy (x ∷ xs)

push_count :
    (n x : ℕ) (s : Sha256)
    → flush (copy_in (x ∷ []) (count_bytes n s)) ≡ count_bytes n (flush (copy_in (x ∷ []) s))
unfolding flush copy_in count_bytes
push_count n x (sha256 state block total) = ground arith

absorb-count_bytes :
    (n : ℕ) (s : Sha256) (xs : Bytes) → absorb (count_bytes n s) xs ≡ count_bytes n (absorb s xs)
unfolding absorb
absorb-count_bytes n s [] = refl
absorb-count_bytes n s (x ∷ xs) =
    ap (λ t. absorb t xs) (push_count n x s) ∙ absorb-count_bytes n (flush (copy_in (x ∷ []) s)) xs

count_bytes_twice : (n m : ℕ) (s : Sha256) → count_bytes m (count_bytes n s) ≡ count_bytes (n + m) s
unfolding count_bytes add64
count_bytes_twice n m (sha256 state block total) = ap (sha256 state block) (omega arith)

buffered-absorb-lt : (s : Sha256) (xs : Bytes) → buffered s < 64 → buffered (absorb s xs) < 64
unfolding absorb
buffered-absorb-lt s [] b = b
buffered-absorb-lt s (x ∷ xs) b =
    buffered-absorb-lt (flush (copy_in (x ∷ []) s)) xs
      (buffered-flush-lt (copy_in (x ∷ []) s) (omega (arith, buffered-copy_in s (x ∷ []))))

buffered-count_bytes : (n : ℕ) (s : Sha256) → buffered (count_bytes n s) ≡ buffered s
unfolding buffered count_bytes
buffered-count_bytes n (sha256 state block total) = refl

-- `Update` takes in its bytes one by one and adds their number to the total.
pub update-eq-absorb :
    (s : Sha256) (xs : Bytes)
    → buffered s < 64
    → update s xs ≡ count_bytes (length xs) (absorb s xs)
unfolding update
update-eq-absorb s xs b =
    update_loop-eq-absorb (length xs) (count_bytes (length xs) s) xs (omega arith)
      (omega (arith, buffered-count_bytes (length xs) s))
    ∙ absorb-count_bytes (length xs) s xs

pub buffered-update-lt : (s : Sha256) (xs : Bytes) → buffered s < 64 → buffered (update s xs) < 64
buffered-update-lt s xs b =
    rw (update-eq-absorb s xs b, buffered-count_bytes (length xs) (absorb s xs))
      (buffered-absorb-lt s xs b)

-- From a state whose buffer is not full, two calls of `Update` are one call on both inputs in a
-- row, and the buffer is not full afterwards.
pub update-update :
    (s : Sha256) (xs ys : Bytes)
    → buffered s < 64
    → (update (update s xs) ys ≡ update s (xs ++ ys)) × (buffered (update s (xs ++ ys)) < 64)
update-update s xs ys b = (merged, buffered-update-lt s (xs ++ ys) b)
  where
    merged : update (update s xs) ys ≡ update s (xs ++ ys)
    merged =
        update-eq-absorb (update s xs) ys (buffered-update-lt s xs b)
        ∙ ap (λ t. count_bytes (length ys) (absorb t ys)) (update-eq-absorb s xs b)
        ∙ ap (count_bytes (length ys)) (absorb-count_bytes (length xs) (absorb s xs) ys)
        ∙ count_bytes_twice (length xs) (length ys) (absorb (absorb s xs) ys)
        ∙ ap₂ count_bytes (sym (length-append xs ys)) (sym (absorb-append s xs ys))
        ∙ sym (update-eq-absorb s (xs ++ ys) b)
