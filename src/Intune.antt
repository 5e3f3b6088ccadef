-- ===== src/Intune.antt =====
-- src/intune/mod.rs: the client of the Intune SCEP validation API.
--
-- The HTTP client, the JSON decoders and base64 are libraries: the `Backend`. What the servers
-- answer is not the program's to decide: `answers` gives the answer to the n-th request and the
-- time that it took. `Instant::now()` is `now`, in seconds, which an exchange moves on.
pub mod Calls
pub mod Token
pub mod Approval
use blapki.Prelude.{
  ℕ, ◌+◌, ◌-◌, String, Bool, true, false, ◌&&◌, not, Option, none, some, Result, ok, err, List, [],
  ◌∷◌, ◌++◌, Bytes, format, length, find, map_err, ok_or, and_then, unwrap_or, map_option, map_ok,
  trim_end_matches, take_chars, leb, ltb, max, ℤ, pos, negsuc, ◌==◌, if◌then◌else◌,
}
use blapki.Error.{AppError, AppResult}
use blapki.Exec.{Exec, pure, raise, lift, gets, ◌>>=◌, ◌>>◌}

abbrev pub intune_app_id : String
intune_app_id = "0000000a-0000-0000-c000-000000000000"

abbrev pub graph_resource : String
graph_resource = "https://graph.microsoft.com/"

abbrev pub graph_api_version : String
graph_api_version = "1.0"

abbrev pub scep_service_version : String
scep_service_version = "2018-02-20"

abbrev pub validation_service_name : String
validation_service_name = "ScepRequestValidationFEService"

abbrev pub caller_info : String
caller_info = "blapki"

abbrev pub validate_path : String
validate_path = "ScepActions/validateRequest"

abbrev pub success_path : String
success_path = "ScepActions/successNotification"

abbrev pub failure_path : String
failure_path = "ScepActions/failureNotification"

pub record CachedToken : Type 0 where
  pub value : String
  pub expires_at : ℕ

-- Details of an issued certificate needed for notifications.
pub record IssuedInfo : Type 0 where
  pub thumbprint_sha1 : String
  pub serial_decimal : String
  pub not_after_utc : String
  pub issuer_cn : String

pub data Json : Type 0 where
  text : String → Json
  number : ℕ → Json

-- The three kinds of request that the client sends, with their headers.
pub data HttpRequest : Type 0 where
  token_request : String → List (String × String) → HttpRequest
  discovery_request : String → String → String → String → HttpRequest
  action_request : String → String → String → String → String → List (String × Json) → HttpRequest

pub record HttpReply : Type 0 where
  pub status : ℕ
  pub body : String

pub record Answer : Type 0 where
  pub elapsed : ℕ
  pub outcome : Result String HttpReply

pub record TokenResponse : Type 0 where
  pub access_token : String
  pub expires_in : Option ℤ

pub record Endpoint : Type 0 where
  pub provider_name : Option String
  pub uri : Option String

pub record ValidateResponse : Type 0 where
  pub code : Option String
  pub error_description : Option String

pub record Backend : Type 0 where
  pub answers : ℕ → Answer
  pub show_status : ℕ → String
  pub decode_token : String → Result String TokenResponse
  pub decode_endpoints : String → Result String (List Endpoint)
  pub decode_validate : String → Result String ValidateResponse
  pub decode_value : String → Result String (Unit {0})
  pub b64 : Bytes → String

-- The fixed fields of `IntuneClient`.
pub record Client : Type 0 where
  pub tenant_id : String
  pub client_id : String
  pub client_secret : String
  pub login_host : String
  pub intune_resource : String

-- Its two caches, what was sent so far, and the time.
pub record Net : Type 0 where
  pub tokens : List (String × CachedToken)
  pub validation_uri : Option String
  pub sent : List HttpRequest
  pub now : ℕ

abbrev pub lookup_token : String → List (String × CachedToken) → Option CachedToken
lookup_token scope [] = none
lookup_token scope ((k, t) ∷ more) = if k == scope then some t else lookup_token scope more

unfoldable pub insert_token :
    String → CachedToken → List (String × CachedToken) → List (String × CachedToken)
insert_token scope t [] = (scope, t) ∷ []
insert_token scope t ((k, u) ∷ more) =
    if k == scope then (scope, t) ∷ more else (k, u) ∷ insert_token scope t more

abbrev pub is_success : ℕ → Bool
is_success status = leb 200 status && ltb status 300

-- `expires_in.unwrap_or(3600).max(60) as u64`
unfoldable pub ttl_of : Option ℤ → ℕ
ttl_of none = 3600
ttl_of (some (pos n)) = max n 60
ttl_of (some (negsuc n)) = 60

-- The cached token of a scope, if it has not expired.
unfoldable pub valid_token : String → Net → Option CachedToken
valid_token scope n = elim (lookup_token scope n.tokens) [
  | none ↦ none
  | some t ↦ if ltb n.now t.expires_at then some t else none
]

abbrev pub upstream : List String → AppError
upstream parts = AppError.upstream (format parts)

module _ (b : Backend) (c : Client) where
  -- One exchange: the request is sent, and its answer arrives later.
  unfoldable pub send : HttpRequest → Exec Net (Result String HttpReply)
  send request n =
      let answer = b.answers (length n.sent) in
      (ok answer.outcome, record n { sent = n.sent ++ request ∷ []; now = n.now + answer.elapsed })

  abbrev pub token_form : String → List (String × String)
  token_form scope =
      ("grant_type", "client_credentials")
      ∷ ("client_id", c.client_id)
      ∷ ("client_secret", c.client_secret)
      ∷ ("scope", scope)
      ∷ []

  abbrev pub token_url : String
  token_url = format (c.login_host ∷ "/" ∷ c.tenant_id ∷ "/oauth2/v2.0/token" ∷ [])

  -- The token of an answer.
  unfoldable pub read_token : Result String HttpReply → AppResult TokenResponse
  read_token (err e) = err (upstream ("token request failed: " ∷ e ∷ []))
  read_token (ok reply) =
      if not (is_success reply.status)
      then err (
          upstream (
            "AAD token request returned HTTP "
            ∷ b.show_status reply.status
            ∷ ": "
            ∷ reply.body
            ∷ []))
      else map_err (λ e. upstream ("bad token response: " ∷ e ∷ [])) (b.decode_token reply.body)

  unfoldable pub store_token : String → TokenResponse → Exec Net (Unit {0})
  store_token scope token n =
      let cached : CachedToken = record {
        value = token.access_token;
        expires_at = n.now + (ttl_of token.expires_in - 60);
      } in
      (ok tt, record n { tokens = insert_token scope cached n.tokens })

  unfoldable pub fetch_token : String → Exec Net String
  unfolding send read_token store_token
  fetch_token scope = do
    reply ← send (token_request token_url (token_form scope))
    token ← lift (read_token reply)
    store_token scope token
    pure token.access_token

  unfoldable pub token : String → Exec Net String
  unfolding fetch_token valid_token
  token scope n = elim (valid_token scope n) [
    | some t ↦ (ok t.value, n)
    | none ↦ fetch_token scope n
  ]
