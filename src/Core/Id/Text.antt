-- ===== src/Core/Id/Text.antt =====
-- What the text validators of crates/iron-core/src/id.rs accept.
use iron_consensus.Prelude.{
  ℕ, ◌-◌, ◌≤◌, ◌≡◌, refl, ◌↔◌, Bool, true, List, [], ◌∷◌, ok, length, All, arith, ◌⊎◌,
}
use iron_consensus.Core.Id.{
  all_by, is_node_byte, is_lower_alphanumeric, byte_at, validate_node_id, parse_node_id,
}

all_by_iff {ℓ} :
    {A : Type ℓ} (p : A → Bool) (xs : List A) → (all_by p xs ≡ true) ↔ All (λ x. p x ≡ true) xs
unfolding all_by
all_by_iff p [] = (λ h. tt, λ h. refl)
all_by_iff p (x ∷ xs) = ground (arith, all_by_iff p xs)

-- A lowercase letter or a digit of ASCII.
abbrev pub IsLowerAlphanumeric : ℕ → Type 0
IsLowerAlphanumeric b = ((b'a' ≤ b) × (b ≤ b'z')) ⊎ ((b'0' ≤ b) × (b ≤ b'9'))

pub lower_iff : (b : ℕ) → (is_lower_alphanumeric b ≡ true) ↔ IsLowerAlphanumeric b
unfolding is_lower_alphanumeric
lower_iff b = ground arith

-- The grammar of node identifiers, as their doc comment puts it.
pub record IsNodeId (bytes : List ℕ) : Type 0 where
  pub nonempty : 1 ≤ length bytes
  pub bounded : length bytes ≤ 64
  pub alphabet : All (λ b. IsLowerAlphanumeric b ⊎ (b ≡ b'-')) bytes
  pub begins : IsLowerAlphanumeric (byte_at bytes 0)
  pub ends : IsLowerAlphanumeric (byte_at bytes (length bytes - 1))

alphabet_iff :
    (bytes : List ℕ)
    → (all_by is_node_byte bytes ≡ true) ↔ All (λ b. IsLowerAlphanumeric b ⊎ (b ≡ b'-')) bytes
unfolding all_by is_node_byte
alphabet_iff [] = (λ h. tt, λ h. refl)
alphabet_iff (b ∷ bs) = ground (arith, alphabet_iff bs)

parse_node_id_sound : (bytes : List ℕ) → parse_node_id bytes ≡ ok bytes → IsNodeId bytes
unfolding parse_node_id validate_node_id
parse_node_id_sound bytes h = ground (
  arith,
  alphabet_iff bytes,
  lower_iff (byte_at bytes 0),
  lower_iff (byte_at bytes (length bytes - 1)),
)

parse_node_id_complete : (bytes : List ℕ) → IsNodeId bytes → parse_node_id bytes ≡ ok bytes
unfolding parse_node_id validate_node_id
parse_node_id_complete bytes h = ground (
  arith,
  alphabet_iff bytes,
  lower_iff (byte_at bytes 0),
  lower_iff (byte_at bytes (length bytes - 1)),
)

-- `NodeId::parse` succeeds, with the text itself, exactly on the texts of 1 to 64 bytes that use
-- only lowercase letters, digits and `-`, and begin and end with a letter or digit.
pub parse_node_id_iff : (bytes : List ℕ) → (parse_node_id bytes ≡ ok bytes) ↔ IsNodeId bytes
parse_node_id_iff bytes = (parse_node_id_sound bytes, parse_node_id_complete bytes)
