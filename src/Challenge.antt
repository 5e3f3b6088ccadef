-- ===== src/Challenge.antt =====
-- src/challenge/mod.rs: the validators of challenge passwords.
pub mod Secret
use blapki.Prelude.{
  ℕ, String, Bool, false, not, Option, none, some, err, List, [], ◌∷◌, Bytes, length, eqb, as_bytes,
  bit_or, bit_xor, if◌then◌else◌,
}
use blapki.Error.{AppError}
use blapki.Exec.{Exec, pure, raise}
use blapki.Intune.{Backend, Client, Net, IssuedInfo}
use blapki.Intune.Calls.{validate_request, success_notification, failure_notification}

-- Everything a validator needs to make a decision.
pub record ValidationInput : Type 0 where
  pub transaction_id : String
  pub csr_der : Bytes
  pub challenge_password : Option String

-- The three implementations of `ChallengeValidator`.
pub data Validator : Type 0 where
  static_secret : String → Validator
  accept_all : Validator
  delegated : Client → Validator

-- The loop of `constant_time_eq`: `zip` stops at the end of the shorter slice.
unfoldable pub differences : ℕ → Bytes → Bytes → ℕ
differences diff [] ys = diff
differences diff (x ∷ xs) [] = diff
differences diff (x ∷ xs) (y ∷ ys) = differences (bit_or diff (bit_xor x y)) xs ys

unfoldable pub constant_time_eq : Bytes → Bytes → Bool
unfolding differences
constant_time_eq a b = if not (eqb (length a) (length b)) then false else eqb (differences 0 a b) 0

-- `StaticSecretValidator::validate`
unfoldable pub check_secret : String → Option String → Exec Net (Unit {0})
check_secret secret none = raise (AppError.bad_request "missing challenge password")
check_secret secret (some pw) =
    if constant_time_eq (as_bytes pw) (as_bytes secret)
    then pure tt
    else raise (AppError.bad_request "incorrect challenge password")

abbrev pub failure_hresult : ℕ
failure_hresult = 1234

module _ (b : Backend) where
  unfoldable pub validate : Validator → ValidationInput → Exec Net (Unit {0})
  unfolding check_secret
  validate (static_secret secret) input = check_secret secret input.challenge_password
  validate accept_all input = pure tt
  validate (delegated client) input = validate_request b client input.transaction_id input.csr_der

  unfoldable pub on_issued : Validator → ValidationInput → IssuedInfo → Exec Net (Unit {0})
  on_issued (static_secret secret) input info = pure tt
  on_issued accept_all input info = pure tt
  on_issued (delegated client) input info =
      success_notification b client input.transaction_id input.csr_der info

  unfoldable pub on_failure : Validator → ValidationInput → String → Exec Net (Unit {0})
  on_failure (static_secret secret) input message = pure tt
  on_failure accept_all input message = pure tt
  on_failure (delegated client) input message =
      failure_notification b client input.transaction_id input.csr_der failure_hresult message
