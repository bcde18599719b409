-- ===== src/Graph/Errors/Tests.antt =====
-- Presented errors at concrete inputs.
use lite_end_go.Base.{◌≡◌, ◌≢◌, ◌↔◌, refl, true, none, []}
use lite_end_go.Strings.{Text, codes, same}
use lite_end_go.Logger.{error_level}
use lite_end_go.Graph.Errors.{
  present_error, is_internal, Raised, code_internal, generic_internal_message, coded,
}
use lite_end_go.Graph.Errors.Laws.{with_message, IsCodedAs, present_error-Masks}

abbrev a_failure : Raised
a_failure = record { guard = none; message = codes "dial tcp 10.0.0.5:5432"; extensions = none }

failure_is_masked : (present_error true [] a_failure).1 ≡ record {
  message = generic_internal_message;
  coded = coded code_internal 500;
  request_id = codes "unknown";
}
unfolding present_error is_internal same
failure_is_masked = refl

present_error-Masks_example :
    (true ≡ true
      → is_internal a_failure ≡ true
      → (message : Text)
      → (present_error true (codes "r1") (with_message a_failure message)).1
        ≡ (present_error true (codes "r1") a_failure).1)
    × ((present_error true (codes "r1") a_failure).0.error ≡ a_failure.message)
    × ((present_error true (codes "r1") a_failure).0.code
        ≡ (present_error true (codes "r1") a_failure).1.coded.code)
    × ((present_error true (codes "r1") a_failure).0.request_id
        ≡ (present_error true (codes "r1") a_failure).1.request_id)
    × (((present_error true (codes "r1") a_failure).0.level ≡ error_level)
        ↔ ((present_error true (codes "r1") a_failure).1.coded.code ≡ code_internal))
    × IsCodedAs a_failure
        (present_error true (codes "r1") a_failure).1.coded.code
        (present_error true (codes "r1") a_failure).1.coded.status_code
    × ((present_error true (codes "r1") a_failure).1.coded.code ≢ code_internal
        → (present_error true (codes "r1") a_failure).1.message ≡ a_failure.message)
present_error-Masks_example = present_error-Masks true (codes "r1") a_failure
