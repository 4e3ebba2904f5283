-- ===== src/Contract/Key.antt =====
-- A contract's key tells contracts apart: for ids without a line break, no two contracts have the same.
use xgc2_adapter_runtime_cli.Base.{
  ℕ, zero, suc, ◌+◌, ◌-◌, ◌*◌, ◌/◌, ◌%◌, ◌≤◌, ◌≡◌, refl, sym, ap, ◌∙◌, Bool, true, false, not,
  Bytes, text, all, [], ◌∷◌, ◌++◌, append_assoc, ltb, ◌==◌, if_cases, arith,
}
use xgc2_adapter_runtime_cli.Contract.{digits, to_string, contract_key}

-- No line break.
unfoldable pub is_one_line : Bytes → Bool
is_one_line cs = all (λ c. not (c == 10)) cs

-- The number that decimal digits stand for.
value_from : ℕ → Bytes → ℕ
value_from n [] = n
value_from n (c ∷ cs) = value_from (n * 10 + (c - 48)) cs

value_from-snoc :
    (n c : ℕ) (cs : Bytes) → value_from n (cs ++ c ∷ []) ≡ value_from n cs * 10 + (c - 48)
unfolding value_from
value_from-snoc n c [] = refl
value_from-snoc n c (d ∷ cs) = value_from-snoc (n * 10 + (d - 48)) c cs

digits_lem : (fuel n : ℕ) → n ≤ fuel → value_from 0 (digits fuel n) ≡ n
unfolding digits value_from
digits_lem zero n h = omega arith
digits_lem (suc fuel) n h =
    if_cases (λ cs. value_from 0 cs ≡ n) (ltb n 10) (λ small. ground arith)
      (λ large.
        value_from-snoc 0 (48 + n % 10) (digits fuel (n / 10))
        ∙ ap (λ k. k * 10 + (48 + n % 10 - 48)) (digits_lem fuel (n / 10) (ground arith))
        ∙ omega arith)

to_string_lem : (n : ℕ) → value_from 0 (to_string n) ≡ n
unfolding to_string
to_string_lem n = digits_lem n n (omega arith)

is_one_line-snoc :
    (c : ℕ) (cs : Bytes)
    → is_one_line cs ≡ true
    → (c == 10) ≡ false
    → is_one_line (cs ++ c ∷ []) ≡ true
unfolding is_one_line all
is_one_line-snoc c [] h k = ground arith
is_one_line-snoc c (d ∷ cs) h k = ground (arith, is_one_line-snoc c cs)

digits-is_one_line : (fuel n : ℕ) → is_one_line (digits fuel n) ≡ true
unfolding digits is_one_line all
digits-is_one_line zero n = ground arith
digits-is_one_line (suc fuel) n =
    if_cases (λ cs. is_one_line cs ≡ true) (ltb n 10) (λ small. ground arith)
      (λ large.
        is_one_line-snoc (48 + n % 10) (digits fuel (n / 10)) (digits-is_one_line fuel (n / 10))
          (ground arith))

-- The first line break ends the same line of both.
split_line :
    (xs ys us vs : Bytes)
    → is_one_line xs ≡ true
    → is_one_line ys ≡ true
    → xs ++ 10 ∷ us ≡ ys ++ 10 ∷ vs
    → (xs ≡ ys) × (us ≡ vs)
unfolding is_one_line all
split_line [] [] p q h k e = ground (arith, e)
split_line [] (y ∷ ys) p q h k e = ground (arith, e)
split_line (x ∷ xs) [] p q h k e = ground (arith, e)
split_line (x ∷ xs) (y ∷ ys) p q h k e = ground (arith, e, split_line xs ys p q)

key_shape :
    (id : Bytes) (version : ℕ) (digest : Bytes)
    → contract_key id version digest ≡ id ++ 10 ∷ (to_string version ++ 10 ∷ digest)
unfolding contract_key text
key_shape id version digest =
    append_assoc _ (10 ∷ []) digest
    ∙ append_assoc _ (to_string version) (10 ∷ digest)
    ∙ append_assoc id (10 ∷ []) (to_string version ++ 10 ∷ digest)

-- For capability ids without a line break, contracts with the same key have the same id, the same version
-- and the same digest.
pub contract_key_lem :
    (id other_id : Bytes) (version other_version : ℕ) (digest other_digest : Bytes)
    → is_one_line id ≡ true
    → is_one_line other_id ≡ true
    → contract_key id version digest ≡ contract_key other_id other_version other_digest
    → (id ≡ other_id) × (version ≡ other_version) × (digest ≡ other_digest)
unfolding to_string
contract_key_lem id other_id version other_version digest other_digest h k e =
    let (ids, rest) =
      split_line id other_id _ _ h k
        (sym (key_shape id version digest) ∙ e ∙ key_shape other_id other_version other_digest) in
    let (versions, digests) =
      split_line (to_string version) (to_string other_version) digest other_digest
        (digits-is_one_line version version) (digits-is_one_line other_version other_version)
        rest in
    (
      ids,
      sym (to_string_lem version) ∙ ap (value_from 0) versions ∙ to_string_lem other_version,
      digests,
    )
