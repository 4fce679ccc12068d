-- ===== src/Jobs/Advance/Location.antt =====
-- The location of an advance (src/jobs/workflow.service.ts and src/common/utils/validate-coordinates.ts).
-- A number is the 64 bits of its floating-point form, read as a natural number.
use fenzit_be.Jobs.Workflow.{has_step_key, TemplateStep}
use fenzit_be.DayStatus.Types.{Double}
use mathlib.Core.Option
use fenzit_be.Prelude.{
  find, get_or, true, codes, List, if◌then◌else◌, Text, none, ◌&&◌, some, ltb, false, ◌||◌, leb,
  ◌^◌, Bool, ◌%◌, Option, ℕ,
}

-- The bits below the sign; the bits of infinity.
abbrev magnitude : Double → ℕ
magnitude d = d % 2 ^ 63

abbrev infinity_bits : ℕ
infinity_bits = 9218868437227405312

-- 90, 180 and 100 as floating-point numbers
abbrev ninety : ℕ
ninety = 4636033603912859648

abbrev one_eighty : ℕ
one_eighty = 4640537203540230144

abbrev hundred : ℕ
hundred = 4636737291354636288

-- Not finite, below -bound or above bound: positive floating-point numbers are ordered as their bits.
unfoldable pub is_invalid : ℕ → Double → Bool
is_invalid bound d = leb infinity_bits (magnitude d) || ltb bound (magnitude d)

unfoldable pub has_invalid_coordinates : Double → Double → Bool
has_invalid_coordinates latitude longitude =
    is_invalid ninety latitude || is_invalid one_eighty longitude

-- `dto.accuracy && dto.accuracy > 100`; a NaN is no number above 100.
unfoldable pub is_flagged_accuracy : Option Double → Bool
is_flagged_accuracy none = false
is_flagged_accuracy (some d) = ltb hundred d && leb d infinity_bits

pub record AdvanceWorkflowDto : Type 0 where
  pub step : Text
  pub latitude : Option Double
  pub longitude : Option Double
  pub accuracy : Option Double

pub record StepMetadata : Type 0 where
  pub position : Option (Double × Double)
  pub accuracy : Option Double
  pub location_captured : Option Bool
  pub reason : Option Text
  pub accuracy_flagged : Option Bool

-- What is captured of a location that is asked for.
pub record Capture : Type 0 where
  pub location_captured : Option Bool
  pub reason : Option Text
  pub accuracy_flagged : Bool

abbrev capture : Bool → Option Text → Bool → Capture
capture captured reason flagged = record {
  location_captured = some captured;
  reason = reason;
  accuracy_flagged = flagged;
}

capture_position : AdvanceWorkflowDto → Option Double → Option Double → Capture
capture_position dto (some latitude) (some longitude) =
    if has_invalid_coordinates latitude longitude
    then capture false (some (codes "Location coordinates out of valid range")) false
    else capture true none (is_flagged_accuracy dto.accuracy)
capture_position dto _ _ = capture false (some (codes "Location not provided")) false

abbrev requires_location : List TemplateStep → Text → Bool
requires_location steps key =
    get_or (Option.map (λ (s : TemplateStep). s.requires_location) (find (has_step_key key) steps))
      true

unfoldable pub capture_of : List TemplateStep → AdvanceWorkflowDto → Capture
unfolding capture_position
capture_of steps dto =
    if requires_location steps dto.step
    then capture_position dto dto.latitude dto.longitude
    else record { location_captured = none; reason = none; accuracy_flagged = false }

abbrev position_of : Option Double → Option Double → Option (Double × Double)
position_of (some latitude) (some longitude) = some (latitude, longitude)
position_of _ _ = none

abbrev position : AdvanceWorkflowDto → Option (Double × Double)
position dto = position_of dto.latitude dto.longitude

-- What the write logs: the position only when it was captured, and nothing for a step without one.
metadata_of : AdvanceWorkflowDto → Capture → Option StepMetadata
metadata_of dto c = elim c.location_captured [
  | none ↦ none
  | some false ↦ some (record {
    position = none;
    accuracy = none;
    location_captured = some false;
    reason = c.reason;
    accuracy_flagged = none;
  })
  | some true ↦ some (record {
    position = position dto;
    accuracy = dto.accuracy;
    location_captured = some true;
    reason = c.reason;
    accuracy_flagged = if c.accuracy_flagged then some true else none;
  })
]

unfoldable pub step_metadata : List TemplateStep → AdvanceWorkflowDto → Option StepMetadata
unfolding metadata_of
step_metadata steps dto = metadata_of dto (capture_of steps dto)
