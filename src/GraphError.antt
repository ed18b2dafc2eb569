-- ===== src/GraphError.antt =====
-- packages/server/src/domain/graph-api-error.ts and meta-errors.ts: the errors of the Graph API.
pub mod Sends
use whaloc.Base.{String, Option, none, some, ℕ, get_or, decimal}

-- The two headers of a throttled response, before they are printed: `Retry-After`, and the
-- business with the minutes of `X-Business-Use-Case-Usage`.
pub record ThrottleHeaders : Type 0 where
  pub retry_after : ℕ
  pub usage : Option (String × ℕ)

pub record GraphApiError : Type 0 where
  pub message : String
  pub code : ℕ
  pub subcode : Option ℕ
  pub http_status : ℕ
  pub details : Option String
  pub kind : String
  pub headers : Option ThrottleHeaders

abbrev pub default_error_type : String
default_error_type = "OAuthException"

abbrev pub default_error_http_status : ℕ
default_error_http_status = 400

-- `GraphApiErrorOptions`
pub record ErrorOptions : Type 0 where
  pub code : ℕ
  pub http_status : Option ℕ
  pub subcode : Option ℕ
  pub details : Option String
  pub kind : Option String
  pub headers : Option ThrottleHeaders

-- the constructor, with its defaults
unfoldable pub new_error : String → ErrorOptions → GraphApiError
new_error message o = record {
  message = message;
  code = o.code;
  subcode = o.subcode;
  http_status = get_or o.http_status default_error_http_status;
  details = o.details;
  kind = get_or o.kind default_error_type;
  headers = o.headers;
}

abbrev pub only_code : ℕ → ErrorOptions
only_code code = record {
  code = code;
  http_status = none;
  subcode = none;
  details = none;
  kind = none;
  headers = none;
}

unfoldable pub invalid_access_token_error : GraphApiError
unfolding new_error
invalid_access_token_error =
    new_error "Invalid OAuth access token - Cannot parse access token"
      (record (only_code 190) { http_status = some 401 })

-- `format` prints a date the way `formatSessionTime` does.
unfoldable pub expired_access_token_error : (String → String) → String → String → GraphApiError
unfolding new_error
expired_access_token_error format expired_at now =
    new_error
      (Prim.Native.String.◌++◌ "Error validating access token: Session has expired on " (
        Prim.Native.String.◌++◌ (format expired_at) (
          Prim.Native.String.◌++◌ ". The current time is "
            (Prim.Native.String.◌++◌ (format now) "."))))
      (record (only_code 190) { subcode = some 463; http_status = some 401 })

unfoldable pub rate_limit_error : ThrottleHeaders → GraphApiError
unfolding new_error
rate_limit_error headers = new_error "(#130429) Rate limit hit" (record (only_code 130429) {
  http_status = some 429;
  details = some "Cloud API message throughput has been reached.";
  headers = some headers;
})

unfoldable pub pair_rate_limit_error : GraphApiError
unfolding new_error
pair_rate_limit_error =
    new_error "(#131056) (Business Account, Consumer account) pair rate limit hit"
      (record (only_code 131056) {
        details =
            some
              "Too many messages sent from this phone number to the same phone number in a short period of time. Please retry after some delay.";
      })

unfoldable pub application_rate_limit_error : ThrottleHeaders → GraphApiError
unfolding new_error
application_rate_limit_error headers =
    new_error "(#4) Application request limit reached"
      (record (only_code 4) { http_status = some 429; headers = some headers })

unfoldable pub unknown_server_error : GraphApiError
unfolding new_error
unknown_server_error =
    new_error "An unknown error occurred" (record (only_code 1) { http_status = some 500 })

abbrev object_missing_subcode : ℕ
object_missing_subcode = 33

abbrev invalid_parameter_subcode : ℕ
invalid_parameter_subcode = 2494010

unfoldable pub unknown_object_error : String → GraphApiError
unfolding new_error
unknown_object_error id =
    new_error
      (Prim.Native.String.◌++◌ "Unsupported get request. Object with ID '" (
        Prim.Native.String.◌++◌ id
          "' does not exist, cannot be loaded due to missing permissions, or does not support this operation. Please read the Graph API documentation at https://developers.facebook.com/docs/graph-api"))
      (record (only_code 100) { subcode = some object_missing_subcode })

unfoldable pub invalid_parameter_error : String → GraphApiError
unfolding new_error
invalid_parameter_error details =
    new_error "(#100) Invalid parameter"
      (record (only_code 100) { subcode = some invalid_parameter_subcode; details = some details })

unfoldable pub invalid_phone_number_error : GraphApiError
unfolding new_error
invalid_phone_number_error =
    new_error "Invalid parameter: phone_number must be in E.164 format" (only_code 100)

unfoldable pub phone_number_already_exists_error : GraphApiError
unfolding new_error
phone_number_already_exists_error =
    new_error "Phone number is already registered with WhatsApp Business"
      (record (only_code 100) { http_status = some 409; kind = some "GraphMethodException" })

unfoldable pub phone_number_not_registered_error : String → GraphApiError
unfolding new_error
phone_number_not_registered_error display_phone_number =
    new_error "(#133010) Phone number not registered" (record (only_code 133010) {
      details = some (
          Prim.Native.String.◌++◌ "The phone number " (
            Prim.Native.String.◌++◌ display_phone_number
              " is not registered on the WhatsApp Business Platform. Register it with POST /{phone-number-id}/register before sending messages."));
    })

unfoldable pub phone_number_not_verified_error : GraphApiError
unfolding new_error
phone_number_not_verified_error =
    new_error "(#133006) Phone number re-verification needed" (record (only_code 133006) {
      details =
          some
            "Verify the phone number with POST /{phone-number-id}/request_code and POST /{phone-number-id}/verify_code before registering it.";
    })

unfoldable pub invalid_upload_offset_error : ℕ → ℕ → GraphApiError
unfolding invalid_parameter_error
invalid_upload_offset_error expected received = invalid_parameter_error (
    Prim.Native.String.◌++◌ "Param file_offset must be " (
      Prim.Native.String.◌++◌ (decimal expected) (
        Prim.Native.String.◌++◌ ", the number of bytes this session has received; got "
          (decimal received))))

unfoldable pub upload_too_long_error : ℕ → ℕ → GraphApiError
unfolding invalid_parameter_error
upload_too_long_error file_length received = invalid_parameter_error (
    Prim.Native.String.◌++◌ "This upload session was opened for " (
      Prim.Native.String.◌++◌ (decimal file_length)
        (Prim.Native.String.◌++◌ " bytes and has been sent " (decimal received))))

abbrev template_already_exists_subcode : ℕ
template_already_exists_subcode = 2388024

unfoldable pub template_already_exists_error : String → String → GraphApiError
unfolding new_error
template_already_exists_error name language =
    new_error
      (Prim.Native.String.◌++◌ "(#100) Template name (" (
        Prim.Native.String.◌++◌ name (
          Prim.Native.String.◌++◌ ") and language ("
            (Prim.Native.String.◌++◌ language ") already exists"))))
      (record (only_code 100) { subcode = some template_already_exists_subcode })

unfoldable pub template_not_deleted_error : String → GraphApiError
unfolding new_error
template_not_deleted_error name =
    new_error
      (Prim.Native.String.◌++◌ "(#100) Message template name ("
        (Prim.Native.String.◌++◌ name ") does not exist"))
      (record (only_code 100) { http_status = some 404 })
