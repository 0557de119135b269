-- ===== src/Security/Error.antt =====
-- klauthed-security/src/error/security_error.rs: the errors of the crate, with the categories that
-- the `DomainError` derive reads off their attributes.
use rust_libraries.Prelude.{String}
use rust_libraries.Category.{ErrorCategory}

pub data SecurityError : Type 0 where
  hash : String → SecurityError
  invalid_hash : String → SecurityError
  key : String → SecurityError
  encode : String → SecurityError
  malformed_token : String → SecurityError
  invalid_token : String → SecurityError
  expired_token : SecurityError
  token_ttl_overflow : String → SecurityError
  rng : SecurityError
  session_not_found : SecurityError
  session_expired : SecurityError
  forbidden : SecurityError
  mfa_config : String → SecurityError
  invalid_mfa_code : SecurityError
  encryption : SecurityError
  decryption : SecurityError
  key_derivation : SecurityError
  webauthn_config : String → SecurityError
  webauthn : String → SecurityError
  hibp : String → SecurityError

unfoldable pub category : SecurityError → ErrorCategory
category (hash _) = ErrorCategory.internal
category (invalid_hash _) = ErrorCategory.bad_request
category (key _) = ErrorCategory.internal
category (encode _) = ErrorCategory.internal
category (malformed_token _) = ErrorCategory.bad_request
category (invalid_token _) = ErrorCategory.unauthorized
category expired_token = ErrorCategory.unauthorized
category (token_ttl_overflow _) = ErrorCategory.internal
category rng = ErrorCategory.internal
category session_not_found = ErrorCategory.not_found
category session_expired = ErrorCategory.unauthorized
category forbidden = ErrorCategory.forbidden
category (mfa_config _) = ErrorCategory.internal
category invalid_mfa_code = ErrorCategory.unauthorized
category encryption = ErrorCategory.internal
category decryption = ErrorCategory.bad_request
category key_derivation = ErrorCategory.internal
category (webauthn_config _) = ErrorCategory.internal
category (webauthn _) = ErrorCategory.unauthorized
category (hibp _) = ErrorCategory.unavailable
