-- ===== src/Status/Builders.antt =====
-- The builders for single codes, of gutil/status.h.
use p4rt_standalone.Status.Code.{StatusCode, StatusApi}
use p4rt_standalone.Status.Builder.{StatusBuilder, from_code}

module _ ⦃api : StatusApi⦄ where
  abbrev cancelled_error_builder : StatusBuilder
  cancelled_error_builder = from_code StatusCode.cancelled

  abbrev unknown_error_builder : StatusBuilder
  unknown_error_builder = from_code StatusCode.unknown

  abbrev pub invalid_argument_error_builder : StatusBuilder
  invalid_argument_error_builder = from_code StatusCode.invalid_argument

  abbrev deadline_exceeded_error_builder : StatusBuilder
  deadline_exceeded_error_builder = from_code StatusCode.deadline_exceeded

  abbrev pub not_found_error_builder : StatusBuilder
  not_found_error_builder = from_code StatusCode.not_found

  abbrev already_exists_error_builder : StatusBuilder
  already_exists_error_builder = from_code StatusCode.already_exists

  abbrev pub permission_denied_error_builder : StatusBuilder
  permission_denied_error_builder = from_code StatusCode.permission_denied

  abbrev resource_exhausted_error_builder : StatusBuilder
  resource_exhausted_error_builder = from_code StatusCode.resource_exhausted

  abbrev failed_precondition_error_builder : StatusBuilder
  failed_precondition_error_builder = from_code StatusCode.failed_precondition

  abbrev aborted_error_builder : StatusBuilder
  aborted_error_builder = from_code StatusCode.aborted

  abbrev out_of_range_error_builder : StatusBuilder
  out_of_range_error_builder = from_code StatusCode.out_of_range

  abbrev pub unimplemented_error_builder : StatusBuilder
  unimplemented_error_builder = from_code StatusCode.unimplemented

  abbrev pub internal_error_builder : StatusBuilder
  internal_error_builder = from_code StatusCode.internal

  abbrev unavailable_error_builder : StatusBuilder
  unavailable_error_builder = from_code StatusCode.unavailable

  abbrev data_loss_error_builder : StatusBuilder
  data_loss_error_builder = from_code StatusCode.data_loss

  abbrev unauthenticated_error_builder : StatusBuilder
  unauthenticated_error_builder = from_code StatusCode.unauthenticated
