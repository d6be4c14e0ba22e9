-- ===== src/Response/Status.antt =====
-- The status codes of http_response.cpp.
use server_coursework.Base.{codes, pos}
use server_coursework.Response.{StatusCode}

abbrev pub status_continue : StatusCode
status_continue = record { code = pos 100; description = codes "CONTINUE" }

abbrev pub status_ok : StatusCode
status_ok = record { code = pos 200; description = codes "OK" }

abbrev pub status_created : StatusCode
status_created = record { code = pos 201; description = codes "CREATED" }

abbrev pub status_accepted : StatusCode
status_accepted = record { code = pos 202; description = codes "ACCEPTED" }

abbrev pub status_non_authoritative_information : StatusCode
status_non_authoritative_information = record {
  code = pos 203;
  description = codes "NON_AUTHORITATIVE_INFORMATION";
}

abbrev pub status_no_content : StatusCode
status_no_content = record { code = pos 204; description = codes "NO_CONTENT" }

abbrev pub status_reset_content : StatusCode
status_reset_content = record { code = pos 205; description = codes "RESET_CONTENT" }

abbrev pub status_partial_content : StatusCode
status_partial_content = record { code = pos 206; description = codes "PARTIAL_CONTENT" }

abbrev pub status_multiple_choices : StatusCode
status_multiple_choices = record { code = pos 300; description = codes "MULTIPLE_CHOICES" }

abbrev pub status_moved_permanently : StatusCode
status_moved_permanently = record { code = pos 301; description = codes "MOVED_PERMANENTLY" }

abbrev pub status_found : StatusCode
status_found = record { code = pos 302; description = codes "FOUND" }

abbrev pub status_see_other : StatusCode
status_see_other = record { code = pos 303; description = codes "SEE_OTHER" }

abbrev pub status_not_modified : StatusCode
status_not_modified = record { code = pos 304; description = codes "NOT_MODIFIED" }

abbrev pub status_use_proxy : StatusCode
status_use_proxy = record { code = pos 305; description = codes "USE_PROXY" }

abbrev pub status_temporary_redirect : StatusCode
status_temporary_redirect = record { code = pos 307; description = codes "TEMPORARY_REDIRECT" }

abbrev pub status_bad_request : StatusCode
status_bad_request = record { code = pos 400; description = codes "BAD_REQUEST" }

abbrev pub status_unauthorized : StatusCode
status_unauthorized = record { code = pos 401; description = codes "UNAUTHORIZED" }

abbrev pub status_payment_required : StatusCode
status_payment_required = record { code = pos 402; description = codes "PAYMENT_REQUIRED" }

abbrev pub status_forbidden : StatusCode
status_forbidden = record { code = pos 403; description = codes "FORBIDDEN" }

abbrev pub status_not_found : StatusCode
status_not_found = record { code = pos 404; description = codes "NOT_FOUND" }

abbrev pub status_method_not_allowed : StatusCode
status_method_not_allowed = record { code = pos 405; description = codes "METHOD_NOT_ALLOWED" }

abbrev pub status_not_acceptable : StatusCode
status_not_acceptable = record { code = pos 406; description = codes "NOT_ACCEPTABLE" }

abbrev pub status_proxy_authentication_required : StatusCode
status_proxy_authentication_required = record {
  code = pos 407;
  description = codes "PROXY_AUTHENTICATION_REQUIRED";
}

abbrev pub status_request_timeout : StatusCode
status_request_timeout = record { code = pos 408; description = codes "REQUEST_TIMEOUT" }

abbrev pub status_conflict : StatusCode
status_conflict = record { code = pos 409; description = codes "CONFLICT" }

abbrev pub status_gone : StatusCode
status_gone = record { code = pos 410; description = codes "GONE" }

abbrev pub status_length_required : StatusCode
status_length_required = record { code = pos 411; description = codes "LENGTH_REQUIRED" }

abbrev pub status_precondition_failed : StatusCode
status_precondition_failed = record { code = pos 412; description = codes "PRECONDITION_FAILED" }

abbrev pub status_request_entity_too_large : StatusCode
status_request_entity_too_large = record {
  code = pos 413;
  description = codes "REQUEST_ENTITY_TOO_LARGE";
}

abbrev pub status_request_uri_too_long : StatusCode
status_request_uri_too_long = record { code = pos 414; description = codes "REQUEST_URI_TOO_LONG" }

abbrev pub status_request_unsupported_media_type : StatusCode
status_request_unsupported_media_type = record {
  code = pos 415;
  description = codes "REQUEST_UNSUPPORTED_MEDIA_TYPE";
}

abbrev pub status_requested_range_not_satisfiable : StatusCode
status_requested_range_not_satisfiable = record {
  code = pos 416;
  description = codes "REQUESTED_RANGE_NOT_SATISFIABLE";
}

abbrev pub status_expectation_failed : StatusCode
status_expectation_failed = record { code = pos 417; description = codes "EXPECTATION_FAILED" }

abbrev pub status_internal_server_error : StatusCode
status_internal_server_error = record {
  code = pos 500;
  description = codes "INTERNAL_SERVER_ERROR";
}

abbrev pub status_not_implemented : StatusCode
status_not_implemented = record { code = pos 501; description = codes "NOT_IMPLEMENTED" }

abbrev pub status_bad_gateway : StatusCode
status_bad_gateway = record { code = pos 502; description = codes "BAD_GATEWAY" }

abbrev pub status_service_unavailable : StatusCode
status_service_unavailable = record { code = pos 503; description = codes "SERVICE_UNAVAILABLE" }

abbrev pub status_gateway_timeout : StatusCode
status_gateway_timeout = record { code = pos 504; description = codes "GATEWAY_TIMEOUT" }

abbrev pub status_http_version_not_supported : StatusCode
status_http_version_not_supported = record {
  code = pos 505;
  description = codes "HTTP_VERSION_NOT_SUPPORTED";
}
