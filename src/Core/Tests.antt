-- ===== src/Core/Tests.antt =====
-- Identities and the validation of settings at concrete inputs.
use iron_consensus.Prelude.{◌≡◌, ◌⊎◌, some, refl, [], ◌∷◌, ok, err}
use iron_consensus.Core.Id.{parse_node_id, TextError}
use iron_consensus.Core.Config.{
  default_dedup, try_from, assembled, keep_or_push, compare_totals, built, concluded,
}
use iron_consensus.Core.Config.Dedup.{IsLegal, Refused, validated, try_from_cases}
use iron_consensus.Core.Dedup.Once.{IsConfigured}
use iron_consensus.Core.Limits.{new_bounded}

-- `node_id_boundaries_and_alphabet_are_enforced`
leading_dash : parse_node_id (b'-' ∷ b'a' ∷ []) ≡ err TextError.bad_boundary
unfolding parse_node_id
leading_dash = refl

-- `RawDedupConfig::default` is legal.
defaults_pass : try_from default_dedup ≡ some (ok (validated default_dedup))
unfolding try_from assembled keep_or_push compare_totals built concluded new_bounded
defaults_pass = refl

try_from_cases_example :
    (IsLegal default_dedup
      × (try_from default_dedup ≡ some (ok (validated default_dedup)))
      × IsConfigured (validated default_dedup))
    ⊎ Refused default_dedup
try_from_cases_example = try_from_cases default_dedup
