-- ===== src/Error.antt =====
-- src/error.rs: the application's error type and its HTTP form.
pub mod Opaque
use blapki.Prelude.{
  ℕ, String, Bool, ◌&&◌, Option, Result, [], ◌∷◌, Bytes, format, leb, ltb, unwrap_or, if◌then◌else◌,
  as_bytes,
}

-- The payload of `Database` and `Other` is the text that the wrapped error displays.
pub data AppError : Type 0 where
  config bad_request not_found crypto database upstream other : String → AppError

abbrev pub AppResult {ℓ} : Type ℓ → Type ℓ
AppResult A = Result AppError A

-- `e.to_string()`
unfoldable pub to_string : AppError → String
to_string (AppError.config m) = format ("configuration error: " ∷ m ∷ [])
to_string (AppError.bad_request m) = format ("bad request: " ∷ m ∷ [])
to_string (AppError.not_found m) = format ("not found: " ∷ m ∷ [])
to_string (AppError.crypto m) = format ("crypto error: " ∷ m ∷ [])
to_string (AppError.database m) = format ("database error: " ∷ m ∷ [])
to_string (AppError.upstream m) = format ("upstream (Intune) error: " ∷ m ∷ [])
to_string (AppError.other m) = m

-- An `axum` response: the status, the content type and the body.
pub record Response : Type 0 where
  pub status : ℕ
  pub content_type : String
  pub body : Bytes

abbrev text_plain : String
text_plain = "text/plain; charset=utf-8"

unfoldable pub status_of : AppError → ℕ
status_of (AppError.bad_request m) = 400
status_of (AppError.not_found m) = 404
status_of (AppError.config m) = 500
status_of (AppError.crypto m) = 500
status_of (AppError.database m) = 500
status_of (AppError.upstream m) = 502
status_of (AppError.other m) = 500

abbrev pub is_server_error : ℕ → Bool
is_server_error status = leb 500 status && ltb status 600

-- `canonical_reason` is the `http` crate's table of reason phrases.
module _ (canonical_reason : ℕ → Option String) where
  unfoldable pub into_response : AppError → Response
  unfolding status_of to_string
  into_response e =
      let status = status_of e in
      let body =
        if is_server_error status
        then unwrap_or "error" (canonical_reason status)
        else to_string e in
      record { status = status; content_type = text_plain; body = as_bytes body }
