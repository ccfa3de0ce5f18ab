-- ===== src/Core/Envelope/Hex.antt =====
-- The text of a fingerprint in crates/iron-core/src/envelope.rs: printing and parsing.
use iron_consensus.Prelude.{
  ℕ, zero, suc, ◌+◌, ◌*◌, ◌/◌, ◌%◌, ◌<◌, ◌≡◌, refl, sym, subst, ◌∙◌, ◌↔◌, List, [], ◌∷◌, arith, All,
  length, Result, ok, err, ◌⊎◌, inl, inr, Bool-cases, ◌==◌, ==_iff, true,
}
use iron_consensus.Core.Envelope.Types.{EnvelopeError}
use iron_consensus.Core.Envelope.{
  decode_lower_hex, decode_pairs, parse_fingerprint, lower_hex, show_fingerprint,
}

hex_round : (n : ℕ) → n < 16 → decode_lower_hex (lower_hex n) ≡ ok n
unfolding decode_lower_hex lower_hex
hex_round n h = ground arith

hex_sound : (c n : ℕ) → decode_lower_hex c ≡ ok n → (n < 16) × (lower_hex n ≡ c)
unfolding decode_lower_hex lower_hex
hex_sound c n h = ground arith

Result-cases :
    {A : Type 0} (r : Result EnvelopeError A)
    → ((a : A) × (r ≡ ok a)) ⊎ ((e : EnvelopeError) × (r ≡ err e))
Result-cases (ok a) = inl (a, refl)
Result-cases (err e) = inr (e, refl)

pairs_round :
    (bytes : List ℕ) → All (λ b. b < 256) bytes → decode_pairs (show_fingerprint bytes) ≡ ok bytes
unfolding decode_pairs show_fingerprint
pairs_round [] h = refl
pairs_round (b ∷ bs) h =
    let low : b % 16 < 16 = omega arith in
    let high : b / 16 < 16 = omega arith in
    let value : b / 16 * 16 + b % 16 ≡ b = omega arith in
    simp (hex_round (b / 16) high, hex_round (b % 16) low, pairs_round bs h.1, value) refl

length-show : (bytes : List ℕ) → length (show_fingerprint bytes) ≡ length bytes * 2
unfolding show_fingerprint
length-show [] = refl
length-show (b ∷ bs) = omega (arith, length-show bs)

pairs_sound :
    (n : ℕ) (input bytes : List ℕ)
    → length input ≡ n * 2
    → decode_pairs input ≡ ok bytes
    → (show_fingerprint bytes ≡ input) × All (λ b. b < 256) bytes × (length bytes ≡ n)
unfolding decode_pairs show_fingerprint
pairs_sound zero [] bytes e h = ground arith
pairs_sound (suc n) [] bytes e h = absurd (omega arith)
pairs_sound n (a ∷ []) bytes e h = absurd (omega arith)
pairs_sound zero (a ∷ (b ∷ input)) bytes e h = absurd (omega arith)
pairs_sound (suc n) (a ∷ (b ∷ input)) bytes e h = elim (Result-cases (decode_lower_hex a)) [
  | inr (f, bad) ↦ absurd (grind (arith, h, bad))
  | inl (high, p) ↦ elim (Result-cases (decode_lower_hex b)) [
    | inr (f, bad) ↦ absurd (grind (arith, h, p, bad))
    | inl (low, q) ↦ elim (Result-cases (decode_pairs input)) [
      | inr (f, bad) ↦ absurd (grind (arith, h, p, q, bad))
      | inl (rest, r) ↦
          let (shown, small, count) = pairs_sound n input rest (omega arith) r in
          let (high_small, high_text) = hex_sound a high p in
          let (low_small, low_text) = hex_sound b low q in
          let same : ((high * 16 + low) ∷ rest) ≡ bytes = grind (arith, h, p, q, r) in
          let high_back : (high * 16 + low) / 16 ≡ high = omega arith in
          let low_back : (high * 16 + low) % 16 ≡ low = omega arith in
          subst
            (λ bs.
              (show_fingerprint bs ≡ a ∷ (b ∷ input)) × All (λ c. c < 256) bs × (length bs ≡ suc n))
            same
            (
              simp (high_back, low_back, high_text, low_text, shown) refl,
              (omega arith, small),
              omega (arith, count),
            )
    ]
  ]
]

-- What a `SemanticFingerprint` holds.
pub record IsFingerprint (bytes : List ℕ) : Type 0 where
  pub sized : length bytes ≡ 32
  pub small : All (λ b. b < 256) bytes

parse_long :
    (input : List ℕ) → (length input == 64) ≡ true → parse_fingerprint input ≡ decode_pairs input
unfolding parse_fingerprint decode_pairs
parse_long input h = rw (parse_fingerprint, h) refl

parse_sound :
    (input bytes : List ℕ)
    → parse_fingerprint input ≡ ok bytes
    → IsFingerprint bytes × (show_fingerprint bytes ≡ input)
unfolding parse_fingerprint
parse_sound input bytes h = elim (Bool-cases (length input == 64)) [
  | inr wrong ↦ absurd (grind (arith, h, wrong))
  | inl right ↦
      let (shown, small, count) =
        pairs_sound 32 input bytes ((==_iff (length input) 64).0 right)
          (sym (parse_long input right) ∙ h) in
      (record { sized = count; small = small }, shown)
]

parse_show :
    (bytes : List ℕ) → IsFingerprint bytes → parse_fingerprint (show_fingerprint bytes) ≡ ok bytes
parse_show bytes h =
    let long : length (show_fingerprint bytes) ≡ 64 = omega (arith, length-show bytes, h.sized) in
    parse_long (show_fingerprint bytes) ((==_iff (length (show_fingerprint bytes)) 64).1 long)
    ∙ pairs_round bytes h.small

-- A text parses as a fingerprint exactly if it is what the fingerprint prints as, and the fingerprint
-- has 32 bytes, each below 256: parsing and printing are inverse to each other.
pub parse_fingerprint_iff :
    (input bytes : List ℕ)
    → (parse_fingerprint input ≡ ok bytes)
      ↔ (IsFingerprint bytes × (show_fingerprint bytes ≡ input))
parse_fingerprint_iff input bytes = (
  parse_sound input bytes,
  λ h. subst (λ t. parse_fingerprint t ≡ ok bytes) h.1 (parse_show bytes h.0),
)
