-- ===== src/Core/Id.antt =====
-- crates/iron-core/src/id.rs: validated identities. A text is its list of UTF-8 bytes.
pub mod Text
pub mod Names
use iron_consensus.Prelude.{
  ℕ, ◌+◌, ◌-◌, ◌≤◌, ◌<◌, ◌≡◌, Bool, true, false, ◌&&◌, ◌||◌, not, List, [], ◌∷◌, Option, none, some,
  Result, ok, err, ltb, leb, ◌==◌, if◌then◌else◌, length, checked_add, u64_mod, Ordering,
}
use iron_consensus.Order.{Ord, list_ord, cmp_list, nat_ord}

-- `NodeId`, compared as its text is.
abbrev pub NodeId : Type 0
NodeId = List ℕ

instance unfoldable pub node_ord : Ord NodeId
unfolding list_ord cmp_list
node_ord = list_ord

abbrev pub max_text_id_bytes : ℕ
max_text_id_bytes = 64

-- The reasons of `CoreError::InvalidText`.
pub data TextError : Type 0 where
  empty too_long disallowed_byte bad_boundary : TextError

unfoldable pub is_lower_alphanumeric : ℕ → Bool
is_lower_alphanumeric b = (leb b'a' b && leb b b'z') || (leb b'0' b && leb b b'9')

unfoldable pub all_by {ℓ} : {A : Type ℓ} → (A → Bool) → List A → Bool
all_by p [] = true
all_by p (x ∷ xs) = p x && all_by p xs

-- An index expression behind its bound check; the default is never read there.
unfoldable pub byte_at : List ℕ → ℕ → ℕ
byte_at [] i = 0
byte_at (b ∷ bs) i = if i == 0 then b else byte_at bs (i - 1)

unfoldable pub is_node_byte : ℕ → Bool
unfolding is_lower_alphanumeric
is_node_byte b = is_lower_alphanumeric b || b == b'-'

unfoldable pub validate_node_id : List ℕ → Result TextError (Unit {0})
unfolding all_by is_node_byte byte_at
validate_node_id bytes =
    if length bytes == 0
    then err TextError.empty
    else if ltb max_text_id_bytes (length bytes)
    then err TextError.too_long
    else if not (all_by is_node_byte bytes)
    then err TextError.disallowed_byte
    else if not (is_lower_alphanumeric (byte_at bytes 0))
        || not (is_lower_alphanumeric (byte_at bytes (length bytes - 1)))
    then err TextError.bad_boundary
    else ok tt

-- `NodeId::parse`
unfoldable pub parse_node_id : List ℕ → Result TextError NodeId
unfolding validate_node_id
parse_node_id bytes = elim (validate_node_id bytes) [ ok _ ↦ ok bytes | err e ↦ err e ]

unfoldable pub is_name_byte : ℕ → Bool
unfolding is_lower_alphanumeric
is_name_byte b = is_lower_alphanumeric b || (b == b'-' || (b == b'_' || b == b'.'))

-- `parse` of the `validated_name!` types, `ProtocolName` and `MessageType`.
unfoldable pub parse_name : List ℕ → Result TextError (List ℕ)
unfolding all_by is_name_byte
parse_name bytes =
    if length bytes == 0
    then err TextError.empty
    else if ltb max_text_id_bytes (length bytes)
    then err TextError.too_long
    else if not (all_by is_name_byte bytes)
    then err TextError.disallowed_byte
    else ok bytes

-- `nonzero_integer!`: `new`; `none` is `CoreError::ZeroValue`.
unfoldable pub nonzero_new : ℕ → Option ℕ
nonzero_new value = if value == 0 then none else some value

-- `Lsn::FIRST` and `Lsn::checked_successor`.
abbrev pub lsn_first : ℕ
lsn_first = 1

unfoldable pub checked_successor : ℕ → Option ℕ
checked_successor lsn = checked_add u64_mod lsn 1
