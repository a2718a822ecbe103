-- ===== src/Api/Errors.antt =====
-- common/filters/global-exception.filter.ts: what an exception becomes on the wire.
use issueflow.Prelude.{ℕ, ◌+◌, ◌*◌, Text, Option, none, some, is_empty, if◌then◌else◌}
use Prim.Native.Nat.{◌/◌}
use issueflow.Store.{
  Error, not_found, dependency_not_found, bad_request, status_backwards, forbidden, conflict,
  unresolved_blockers, version_mismatch, unauthorized, precondition_required, unexpected,
}

-- The members of `HttpStatus` that occur.
pub data HttpStatus : Type 0 where
  ok_status bad_request_status unauthorized_status forbidden_status not_found_status : HttpStatus
  conflict_status precondition_failed payload_too_large precondition_required_status : HttpStatus
  internal_server_error : HttpStatus

-- `err.code` of multer; a code that the filter does not name is `other_code`.
pub data MulterCode : Type 0 where
  limit_file_size limit_unexpected_file limit_file_count limit_part_count : MulterCode
  limit_field_key limit_field_value limit_field_count other_code : MulterCode

-- What is thrown: an error of multer with its `field`, or one of the exceptions of the services.
pub data Thrown : Type 0 where
  multer : MulterCode → Option Text → Thrown
  exception : Error → Thrown

pub data UploadMessage : Type 0 where
  upload_exceeds : ℕ → UploadMessage
  unexpected_file_field : Option Text → UploadMessage
  upload_rejected : MulterCode → UploadMessage
  invalid_upload : UploadMessage

pub data ErrorBody : Type 0 where
  upload_error : UploadMessage → ErrorBody
  exception_body : Error → ErrorBody
  internal_message : ErrorBody

-- common/constants/upload.ts
abbrev pub max_upload_bytes : ℕ
max_upload_bytes = 10 * 1024 * 1024

-- `Math.round(MAX_UPLOAD_BYTES / (1024 * 1024))`.
abbrev pub limit_mb : ℕ
limit_mb = (2 * max_upload_bytes + 1024 * 1024) / (2 * (1024 * 1024))

-- The status of the exception's class.
unfoldable pub get_status : Error → HttpStatus
get_status (not_found entity id) = not_found_status
get_status dependency_not_found = not_found_status
get_status (bad_request message) = bad_request_status
get_status (status_backwards from to) = bad_request_status
get_status (forbidden message) = forbidden_status
get_status (conflict message) = conflict_status
get_status (unresolved_blockers ids) = conflict_status
get_status (version_mismatch name version) = precondition_failed
get_status (unauthorized message) = unauthorized_status
get_status (precondition_required message) = precondition_required_status
get_status unexpected = internal_server_error

-- `err.field ? … : …`: an empty name is falsy.
abbrev named_field : Option Text → Option Text
named_field none = none
named_field (some name) = if is_empty name then none else some name

unfoldable pub translate_multer_error : MulterCode → Option Text → HttpStatus × UploadMessage
translate_multer_error limit_file_size field = (payload_too_large, upload_exceeds limit_mb)
translate_multer_error limit_unexpected_file field =
    (bad_request_status, unexpected_file_field (named_field field))
translate_multer_error limit_file_count field =
    (bad_request_status, upload_rejected limit_file_count)
translate_multer_error limit_part_count field =
    (bad_request_status, upload_rejected limit_part_count)
translate_multer_error limit_field_key field = (bad_request_status, upload_rejected limit_field_key)
translate_multer_error limit_field_value field =
    (bad_request_status, upload_rejected limit_field_value)
translate_multer_error limit_field_count field =
    (bad_request_status, upload_rejected limit_field_count)
translate_multer_error other_code field = (bad_request_status, invalid_upload)

-- GlobalExceptionFilter: an exception that is no HttpException tells the client nothing.
unfoldable pub catch : Thrown → HttpStatus × ErrorBody
unfolding translate_multer_error get_status
catch (multer code field) =
    let (status, message) = translate_multer_error code field in (status, upload_error message)
catch (exception unexpected) = (internal_server_error, internal_message)
catch (exception e) = (get_status e, exception_body e)
