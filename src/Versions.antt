-- ===== src/Versions.antt =====
-- services/shared_version_compatibility.py: whether two version strings are compatible. The message of
-- the result is not modelled.
use bhiv_masterdb_ingestion.Prelude.{
  ◌≡◌, ◌↔◌, ℕ, Bool, true, false, [], ◌∷◌, arith, if◌then◌else◌, ◌==◌, ◌||◌,
}
use bhiv_masterdb_ingestion.Prelude.Text.{
  Text, same_text, same_text→eq, same_text_refl, before, after, is_empty,
}

-- The code of "."
abbrev dot : ℕ
dot = 46

abbrev has_dot : Text → Bool
has_dot [] = false
has_dot (c ∷ v) = c == dot || has_dot v

-- `_major_minor`: the first two parts of `version.split(".")`, the second "0" where there is none.
unfoldable pub major_minor : Text → Text × Text
major_minor v = (before dot v, if has_dot v then before dot (after dot v) else 48 ∷ [])

pub data Negotiation : Type 0 where
  unknown exact_match minor_version_drift major_version_mismatch : Negotiation

pub record NegotiationResult : Type 0 where
  pub compatible : Bool
  pub negotiation : Negotiation

unfoldable pub negotiate_version : Text → Text → NegotiationResult
unfolding major_minor
negotiate_version local remote =
    if is_empty remote
    then record { compatible = false; negotiation = unknown }
    else if same_text local remote
    then record { compatible = true; negotiation = exact_match }
    else if same_text (major_minor local).0 (major_minor remote).0
    then record { compatible = true; negotiation = minor_version_drift }
    else record { compatible = false; negotiation = major_version_mismatch }

-- A remote version is compatible exactly when it is given and its major part is the local one.
pub negotiate_version-major :
    (local remote : Text)
    → ((negotiate_version local remote).compatible ≡ true)
      ↔ (is_empty remote ≡ false) × ((major_minor local).0 ≡ (major_minor remote).0)
unfolding negotiate_version
negotiate_version-major local remote = ground (
  arith,
  same_text→eq local remote,
  same_text→eq (major_minor local).0 (major_minor remote).0,
  same_text_refl (major_minor local).0,
)
