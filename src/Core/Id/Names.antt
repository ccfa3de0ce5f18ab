-- ===== src/Core/Id/Names.antt =====
-- What the text validator of `validated_name!` in crates/iron-core/src/id.rs accepts.
use iron_consensus.Prelude.{
  ℕ, ◌≤◌, ◌≡◌, refl, ◌↔◌, true, List, [], ◌∷◌, ok, length, All, arith, ◌⊎◌,
}
use iron_consensus.Core.Id.{all_by, is_name_byte, parse_name, parse_node_id}
use iron_consensus.Core.Id.{validate_node_id}
use iron_consensus.Core.Id.Text.{IsLowerAlphanumeric, lower_iff}

-- The grammar of names.
pub record IsName (bytes : List ℕ) : Type 0 where
  pub nonempty : 1 ≤ length bytes
  pub bounded : length bytes ≤ 64
  pub alphabet : All (λ b. IsLowerAlphanumeric b ⊎ ((b ≡ b'-') ⊎ ((b ≡ b'_') ⊎ (b ≡ b'.')))) bytes

name_byte_iff :
    (b : ℕ)
    → (is_name_byte b ≡ true) ↔ (IsLowerAlphanumeric b ⊎ ((b ≡ b'-') ⊎ ((b ≡ b'_') ⊎ (b ≡ b'.'))))
unfolding is_name_byte
name_byte_iff b = ground (arith, lower_iff b)

name_alphabet_iff :
    (bytes : List ℕ)
    → (all_by is_name_byte bytes ≡ true)
      ↔ All (λ b. IsLowerAlphanumeric b ⊎ ((b ≡ b'-') ⊎ ((b ≡ b'_') ⊎ (b ≡ b'.')))) bytes
unfolding all_by
name_alphabet_iff [] = (λ h. tt, λ h. refl)
name_alphabet_iff (b ∷ bs) = ground (arith, name_byte_iff b, name_alphabet_iff bs)

-- A name parses exactly if it is of the grammar, and as itself.
pub parse_name_iff :
    (bytes name : List ℕ) → (parse_name bytes ≡ ok name) ↔ ((bytes ≡ name) × IsName bytes)
unfolding parse_name
parse_name_iff bytes name = (
  λ h. (ground arith, ground (arith, name_alphabet_iff bytes)),
  λ (same, h). ground (arith, h.nonempty, h.bounded, h.alphabet, name_alphabet_iff bytes),
)

-- What `NodeId::parse` returns is the text itself.
pub parse_node_id-same : (bytes node : List ℕ) → parse_node_id bytes ≡ ok node → bytes ≡ node
unfolding parse_node_id validate_node_id
parse_node_id-same bytes node h = ground arith
