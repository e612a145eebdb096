-- ===== src/Errors/Codes.antt =====
-- The codes, the predefined errors and the table of messages of pkg/errors/codes.go.
use goupter.Prelude.{String, none, some, List, [], ◌∷◌}
use goupter.Prelude.Int.{ℤ, pos, int_key}
use goupter.Prelude.Dict.{lookup}

abbrev pub code_success : ℤ
code_success = pos 0

abbrev pub code_bad_request : ℤ
code_bad_request = pos 400

abbrev pub code_unauthorized : ℤ
code_unauthorized = pos 401

abbrev pub code_payment_required : ℤ
code_payment_required = pos 402

abbrev pub code_forbidden : ℤ
code_forbidden = pos 403

abbrev pub code_not_found : ℤ
code_not_found = pos 404

abbrev pub code_method_not_allowed : ℤ
code_method_not_allowed = pos 405

abbrev pub code_not_acceptable : ℤ
code_not_acceptable = pos 406

abbrev pub code_request_timeout : ℤ
code_request_timeout = pos 408

abbrev pub code_conflict : ℤ
code_conflict = pos 409

abbrev pub code_gone : ℤ
code_gone = pos 410

abbrev pub code_unprocessable_entity : ℤ
code_unprocessable_entity = pos 422

abbrev pub code_too_many_requests : ℤ
code_too_many_requests = pos 429

abbrev pub code_internal_error : ℤ
code_internal_error = pos 500

abbrev pub code_not_implemented : ℤ
code_not_implemented = pos 501

abbrev pub code_bad_gateway : ℤ
code_bad_gateway = pos 502

abbrev pub code_service_unavailable : ℤ
code_service_unavailable = pos 503

abbrev pub code_gateway_timeout : ℤ
code_gateway_timeout = pos 504

abbrev pub code_invalid_param : ℤ
code_invalid_param = pos 10001

abbrev pub code_invalid_token : ℤ
code_invalid_token = pos 10002

abbrev pub code_token_expired : ℤ
code_token_expired = pos 10003

abbrev pub code_permission_denied : ℤ
code_permission_denied = pos 10004

abbrev pub code_user_not_found : ℤ
code_user_not_found = pos 10005

abbrev pub code_user_disabled : ℤ
code_user_disabled = pos 10006

abbrev pub code_password_error : ℤ
code_password_error = pos 10007

abbrev pub code_account_locked : ℤ
code_account_locked = pos 10008

abbrev pub code_db_error : ℤ
code_db_error = pos 20001

abbrev pub code_db_not_found : ℤ
code_db_not_found = pos 20002

abbrev pub code_db_duplicate : ℤ
code_db_duplicate = pos 20003

abbrev pub code_db_deadlock : ℤ
code_db_deadlock = pos 20004

abbrev pub code_db_timeout : ℤ
code_db_timeout = pos 20005

abbrev pub code_cache_error : ℤ
code_cache_error = pos 30001

abbrev pub code_cache_miss : ℤ
code_cache_miss = pos 30002

abbrev pub code_cache_expired : ℤ
code_cache_expired = pos 30003

abbrev pub code_external_error : ℤ
code_external_error = pos 40001

abbrev pub code_external_timeout : ℤ
code_external_timeout = pos 40002

abbrev pub code_mq_error : ℤ
code_mq_error = pos 50001

abbrev pub code_mq_timeout : ℤ
code_mq_timeout = pos 50002

abbrev pub code_mq_publish : ℤ
code_mq_publish = pos 50003

abbrev pub code_mq_subscribe : ℤ
code_mq_subscribe = pos 50004

-- The code and the message of each predefined error, in order.
unfoldable pub predefined : List (ℤ × String)
predefined =
    (code_success, "success")
    ∷ (code_bad_request, "bad request")
    ∷ (code_unauthorized, "unauthorized")
    ∷ (code_forbidden, "forbidden")
    ∷ (code_not_found, "not found")
    ∷ (code_method_not_allowed, "method not allowed")
    ∷ (code_too_many_requests, "too many requests")
    ∷ (code_internal_error, "internal error")
    ∷ (code_service_unavailable, "service unavailable")
    ∷ (code_invalid_param, "invalid parameter")
    ∷ (code_invalid_token, "invalid token")
    ∷ (code_token_expired, "token expired")
    ∷ (code_permission_denied, "permission denied")
    ∷ (code_user_not_found, "user not found")
    ∷ (code_user_disabled, "user disabled")
    ∷ (code_password_error, "password error")
    ∷ (code_account_locked, "account locked")
    ∷ (code_db_error, "database error")
    ∷ (code_db_not_found, "record not found")
    ∷ (code_db_duplicate, "duplicate record")
    ∷ (code_db_deadlock, "database deadlock")
    ∷ (code_db_timeout, "database timeout")
    ∷ (code_cache_error, "cache error")
    ∷ (code_cache_miss, "cache miss")
    ∷ (code_cache_expired, "cache expired")
    ∷ (code_external_error, "external service error")
    ∷ (code_external_timeout, "external service timeout")
    ∷ (code_mq_error, "message queue error")
    ∷ (code_mq_timeout, "message queue timeout")
    ∷ (code_mq_publish, "message publish failed")
    ∷ (code_mq_subscribe, "message subscribe failed")
    ∷ []

-- `CodeMessage`
unfoldable pub code_message : List (ℤ × String)
code_message =
    (code_success, "success")
    ∷ (code_bad_request, "bad request")
    ∷ (code_unauthorized, "unauthorized")
    ∷ (code_forbidden, "forbidden")
    ∷ (code_not_found, "not found")
    ∷ (code_method_not_allowed, "method not allowed")
    ∷ (code_too_many_requests, "too many requests")
    ∷ (code_internal_error, "internal error")
    ∷ (code_service_unavailable, "service unavailable")
    ∷ (code_invalid_param, "invalid parameter")
    ∷ (code_invalid_token, "invalid token")
    ∷ (code_token_expired, "token expired")
    ∷ (code_permission_denied, "permission denied")
    ∷ (code_user_not_found, "user not found")
    ∷ (code_user_disabled, "user disabled")
    ∷ (code_password_error, "password error")
    ∷ (code_account_locked, "account locked")
    ∷ (code_db_error, "database error")
    ∷ (code_db_not_found, "record not found")
    ∷ (code_db_duplicate, "duplicate record")
    ∷ (code_db_deadlock, "database deadlock")
    ∷ (code_db_timeout, "database timeout")
    ∷ (code_cache_error, "cache error")
    ∷ (code_cache_miss, "cache miss")
    ∷ (code_cache_expired, "cache expired")
    ∷ (code_external_error, "external service error")
    ∷ (code_external_timeout, "external service timeout")
    ∷ (code_mq_error, "message queue error")
    ∷ (code_mq_timeout, "message queue timeout")
    ∷ (code_mq_publish, "message publish failed")
    ∷ (code_mq_subscribe, "message subscribe failed")
    ∷ []

unfoldable pub get_message_by_code : ℤ → String
unfolding code_message lookup
get_message_by_code code = elim (lookup code code_message) [
  | some msg ↦ msg
  | none ↦ "unknown error"
]
