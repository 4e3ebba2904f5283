-- ===== src/Text/Identifier.antt =====
-- Canonical identifiers against their grammar: words of letters and digits joined by single
-- separators, beginning with a letter.
use xgc2_adapter_runtime_cli.Base.{
  ℕ, subst, sym, Bool, true, false, Bytes, [], ◌∷◌, ◌≡◌, refl, ◌↔◌, arith, Bool-cases, inl, inr,
}
use xgc2_adapter_runtime_cli.Text.{
  is_lower_alpha, is_alphanumeric, is_separator, identifier_loop, is_canonical_identifier,
}

-- A nonempty text that begins and ends in a letter or digit, with no two separators side by side.
pub data Words : Bytes → Type 0 where
  end : {c : ℕ} → is_alphanumeric c ≡ true → Words (c ∷ [])
  letter : {c d : ℕ} {cs : Bytes} → is_alphanumeric c ≡ true → Words (d ∷ cs) → Words (c ∷ d ∷ cs)
  join :
      {c s d : ℕ} {cs : Bytes}
      → is_alphanumeric c ≡ true
      → is_separator s ≡ true
      → Words (d ∷ cs)
      → Words (c ∷ s ∷ d ∷ cs)

separator_alone : (s : ℕ) → is_separator s ≡ true → is_alphanumeric s ≡ false
unfolding is_separator is_alphanumeric
separator_alone s h = ground arith

letter_alphanumeric : (c : ℕ) → is_lower_alpha c ≡ true → is_alphanumeric c ≡ true
unfolding is_lower_alpha is_alphanumeric
letter_alphanumeric c h = ground arith

Words-parse :
    (c : ℕ) (cs : Bytes)
    → is_alphanumeric c ≡ true
    → identifier_loop false cs ≡ true
    → Words (c ∷ cs)
unfolding identifier_loop
Words-parse c [] h k = end h
Words-parse c (d ∷ []) h k = elim (Bool-cases (is_alphanumeric d)) [
  | inl e ↦ letter h (end e)
  | inr e ↦ ground arith
]
Words-parse c (d ∷ x ∷ xs) h k = elim (Bool-cases (is_alphanumeric d)) [
  | inl e ↦ letter h (Words-parse d (x ∷ xs) e (ground arith))
  | inr e ↦ elim (Bool-cases (is_alphanumeric x)) [
    | inl g ↦ join h (ground arith) (Words-parse x xs g (ground arith))
    | inr g ↦ ground arith
  ]
]

Words-accept : {v : Bytes} (b : Bool) → Words v → identifier_loop b v ≡ true
unfolding identifier_loop
Words-accept b (end h) = rw h refl
Words-accept b (letter h ws) = rw h (Words-accept false ws)
Words-accept b (join {s = s} h g ws) = rw (h, separator_alone s g, g) (Words-accept true ws)

begin_parse :
    (c : ℕ) (cs : Bytes)
    → is_canonical_identifier (c ∷ cs) ≡ true
    → (is_lower_alpha c ≡ true) × (identifier_loop false cs ≡ true)
unfolding is_canonical_identifier identifier_loop is_lower_alpha is_alphanumeric
begin_parse c cs h = ground arith

begin_accept :
    (c : ℕ) (cs : Bytes)
    → is_lower_alpha c ≡ true
    → identifier_loop false (c ∷ cs) ≡ true
    → is_canonical_identifier (c ∷ cs) ≡ true
unfolding is_canonical_identifier is_lower_alpha
begin_accept c cs low h = ground arith

-- A text is a canonical identifier exactly if it begins with a lower-case letter and is words of lower-case
-- letters and digits that single separators join.
pub is_canonical_identifier_lem :
    (v : Bytes)
    → (is_canonical_identifier v ≡ true)
      ↔ ((c : ℕ) × (cs : Bytes) × (v ≡ c ∷ cs) × (is_lower_alpha c ≡ true) × Words (c ∷ cs))
unfolding is_canonical_identifier
is_canonical_identifier_lem [] = ((λ h. ground arith), λ (c, cs, e, low, ws). ground arith)
is_canonical_identifier_lem (c ∷ cs) = (
  (λ h.
      let (low, loop) = begin_parse c cs h in
      (c, cs, refl, low, Words-parse c cs (letter_alphanumeric c low) loop)),
  λ (d, ds, e, low, ws).
      subst (λ v. is_canonical_identifier v ≡ true) (sym e)
        (begin_accept d ds low (Words-accept false ws)),
)
