-- ===== src/Status/Convert.antt =====
-- The conversions between status types of gutil/status.cc.
use p4rt_standalone.Status.Code.{GrpcStatus, AbslStatus, StatusApi}

unfoldable pub absl_status_to_grpc_status : AbslStatus → GrpcStatus
absl_status_to_grpc_status s = record { error_code = s.code; error_message = s.message }

module _ ⦃api : StatusApi⦄ where
  unfoldable pub grpc_status_to_absl_status : GrpcStatus → AbslStatus
  grpc_status_to_absl_status s = api.status s.error_code s.error_message
