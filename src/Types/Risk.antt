-- ===== src/Types/Risk.antt =====
-- crates/ancre-types/src/risk.rs: risk classes, risk flags and their spellings on the wire.
use ancre.Prelude.{
  ℕ, Bool, true, false, Option, none, some, Text, text, ◌==◌, ℕ-Eq, List-Eq, if◌then◌else◌,
}

pub data RiskClass : Type 0 where
  unclassified minimal transparency high : RiskClass

pub data RiskFlag : Type 0 where
  stale_config unpinned_model pin_overridden no_policy_engine : RiskFlag
  telemetry_dropped substantial_candidate : RiskFlag

pub data ChangeClass : Type 0 where
  minor material substantial : ChangeClass

-- RiskClass::as_str
unfoldable pub risk_class_str : RiskClass → Text
risk_class_str unclassified = text "unclassified"
risk_class_str minimal = text "minimal"
risk_class_str transparency = text "transparency"
risk_class_str high = text "high"

-- RiskClass::as_discriminant
unfoldable pub risk_class_discriminant : RiskClass → ℕ
risk_class_discriminant unclassified = 0
risk_class_discriminant minimal = 1
risk_class_discriminant transparency = 2
risk_class_discriminant high = 3

-- RiskClass::from_discriminant
unfoldable pub risk_class_from_discriminant : ℕ → Option RiskClass
risk_class_from_discriminant d =
    if d == 0
    then some unclassified
    else if d == 1
    then some minimal
    else if d == 2
    then some transparency
    else if d == 3
    then some high
    else none

-- RiskClass::from_wire
unfoldable pub risk_class_from_wire : Text → Option RiskClass
risk_class_from_wire s =
    if s == text "unclassified"
    then some unclassified
    else if s == text "minimal"
    then some minimal
    else if s == text "transparency"
    then some transparency
    else if s == text "high"
    then some high
    else none

unfoldable pub fails_closed_by_default : RiskClass → Bool
fails_closed_by_default high = true
fails_closed_by_default _ = false

-- RiskFlag::as_str
unfoldable pub risk_flag_str : RiskFlag → Text
risk_flag_str stale_config = text "stale_config"
risk_flag_str unpinned_model = text "unpinned_model"
risk_flag_str pin_overridden = text "pin_overridden"
risk_flag_str no_policy_engine = text "no_policy_engine"
risk_flag_str telemetry_dropped = text "telemetry_dropped"
risk_flag_str substantial_candidate = text "substantial_candidate"

-- RiskFlag::from_wire
unfoldable pub risk_flag_from_wire : Text → Option RiskFlag
risk_flag_from_wire s =
    if s == text "stale_config"
    then some stale_config
    else if s == text "unpinned_model"
    then some unpinned_model
    else if s == text "pin_overridden"
    then some pin_overridden
    else if s == text "no_policy_engine"
    then some no_policy_engine
    else if s == text "telemetry_dropped"
    then some telemetry_dropped
    else if s == text "substantial_candidate"
    then some substantial_candidate
    else none
