-- ===== src/Error/Opaque.antt =====
-- What a client learns from an error response of src/error.rs.
use blapki.Prelude.{ℕ, String, ◌≡◌, true, Option, arith}
use blapki.Error.{AppError, status_of, is_server_error, into_response}

module _ (canonical_reason : ℕ → Option String) where
  -- Two errors whose status is the same server error (5xx) have the same response, whatever their
  -- messages are and whatever kind of failure they stand for.
  pub into_response-opaque :
      (e f : AppError)
      → status_of e ≡ status_of f
      → is_server_error (status_of e) ≡ true
      → into_response canonical_reason e ≡ into_response canonical_reason f
  unfolding into_response
  into_response-opaque e f same server = ground arith
