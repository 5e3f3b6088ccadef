-- ===== src/Ca/Keystore.antt =====
-- src/ca/keystore.rs: CA key material from PEM or DER, in a file or in the configuration.
--
-- `KeyCodec` has the decoders of the crates `rsa`, `pkcs8` and `base64`; an `EncryptedPrivateKeyInfo`
-- and a key are their DER. `read_file` is `std::fs::read`.
pub mod Pem
pub mod Bundle
use Prim.Native.String
use blapki.Prelude.{
  ℕ, String, Bool, true, false, Option, none, some, Result, ok, err, List, [], ◌∷◌, Bytes, format,
  map_err, ok_or, and_then, find, trim, trim_start, strip_prefix, strip_suffix, starts_with,
  contains, from_utf8, lines, without_whitespace, as_bytes, ◌>>=◌, ◌==◌, if◌then◌else◌,
}
use blapki.Error.{AppError, AppResult}
use blapki.Crates.{Asn1, Certificate}

-- A PEM block: its label and its content.
abbrev pub Block : Type 0
Block = String × Bytes

pub record KeyCodec : Type 0 where
  pub base64_decode : Bytes → Result String Bytes
  pub from_pkcs8_der : Bytes → Result String Bytes
  pub from_pkcs1_der : Bytes → Result String Bytes
  pub decode_encrypted : Bytes → Result String Bytes
  pub decrypt : Bytes → Bytes → Result String Bytes

pub record FileKeyStore : Type 0 where
  pub path : String
  pub password : Option String

pub record InlineKeyStore : Type 0 where
  pub cert : Bytes
  pub key : Bytes
  pub password : Option String

-- The label of a line that begins a block.
unfoldable pub begin_label : String → Option String
unfolding trim strip_prefix strip_suffix
begin_label line = and_then (strip_prefix "-----BEGIN " (trim line)) (λ s. strip_suffix "-----" s)

unfoldable pub is_end : String → Bool
unfolding trim starts_with
is_end line = starts_with "-----END " (trim line)

module _ (c : KeyCodec) where
  -- A block that is complete: it is dropped if it is no base64.
  unfoldable pub push_block : String → String → List Block → List Block
  push_block label b64 rest = elim (c.base64_decode (as_bytes b64)) [
    | ok der ↦ (label, der) ∷ rest
    | err _ ↦ rest
  ]

  -- The two loops over the lines: outside of a block, or inside of one with its text so far.
  unfoldable pub blocks_from : Option (String × String) → List String → List Block
  unfolding begin_label is_end push_block trim
  blocks_from none [] = []
  blocks_from none (line ∷ more) = elim (begin_label line) [
    | none ↦ blocks_from none more
    | some label ↦ blocks_from (some (label, "")) more
  ]
  blocks_from (some (label, b64)) [] = push_block label b64 []
  blocks_from (some (label, b64)) (line ∷ more) = elim (is_end line) [
    | true ↦ push_block label b64 (blocks_from none more)
    | false ↦ blocks_from (some (label, String.◌++◌ b64 (trim line))) more
  ]

  unfoldable pub pem_blocks : String → List Block
  unfolding blocks_from lines
  pem_blocks text = blocks_from none (lines text)

  -- The bytes are UTF-8 text containing PEM.
  unfoldable pub as_pem_blocks : Bytes → Option (List Block)
  unfolding pem_blocks from_utf8 contains
  as_pem_blocks bytes =
      and_then (from_utf8 bytes)
        (λ text. if contains "-----BEGIN " text then some (pem_blocks text) else none)

  unfoldable pub decrypt_pkcs8 : Bytes → Option String → AppResult Bytes
  decrypt_pkcs8 der password = do
    secret_text ← ok_or (AppError.config "CA key is encrypted but no password given") password
    epki ←
        map_err (λ e. AppError.config (format ("bad encrypted key: " ∷ e ∷ [])))
          (c.decode_encrypted der)
    secret ←
        map_err (λ e. AppError.config (format ("CA key decryption failed: " ∷ e ∷ [])))
          (c.decrypt epki (as_bytes secret_text))
    map_err (λ e. AppError.config (format ("decrypted key is not RSA PKCS#8: " ∷ e ∷ [])))
        (c.from_pkcs8_der secret)

  unfoldable pub load_key_block : String → Bytes → Option String → Option (AppResult Bytes)
  unfolding decrypt_pkcs8
  load_key_block label der password =
      if label == "PRIVATE KEY"
      then some (
          map_err (λ e. AppError.config (format ("bad PKCS#8 key: " ∷ e ∷ [])))
            (c.from_pkcs8_der der))
      else if label == "RSA PRIVATE KEY"
      then some (
          map_err (λ e. AppError.config (format ("bad PKCS#1 key: " ∷ e ∷ [])))
            (c.from_pkcs1_der der))
      else if label == "ENCRYPTED PRIVATE KEY"
      then some (decrypt_pkcs8 der password)
      else none

  -- `find_map` over the blocks, and the error where there is none.
  unfoldable pub first_key : Option String → List Block → AppResult Bytes
  unfolding load_key_block
  first_key password [] = err (AppError.config "no private key block in CA key material")
  first_key password ((label, der) ∷ blocks) = elim (load_key_block label der password) [
    | some key ↦ key
    | none ↦ first_key password blocks
  ]

  unfoldable pub key_from_der : Bytes → Option String → AppResult Bytes
  unfolding decrypt_pkcs8
  key_from_der der password = elim (c.from_pkcs8_der der) [
    | ok key ↦ ok key
    | err _ ↦ elim (c.from_pkcs1_der der) [
      | ok key ↦ ok key
      | err _ ↦ elim (c.decode_encrypted der) [
        | ok epki ↦ decrypt_pkcs8 der password
        | err _ ↦ err (AppError.config "CA key DER is not a recognised RSA key (PKCS#8/PKCS#1)")
      ]
    ]
  ]

  unfoldable pub parse_private_key : Bytes → Option String → AppResult Bytes
  unfolding as_pem_blocks first_key key_from_der
  parse_private_key bytes password = elim (as_pem_blocks bytes) [
    | some blocks ↦ first_key password blocks
    | none ↦ key_from_der bytes password
  ]

  unfoldable pub material_to_bytes : String → String → AppResult Bytes
  unfolding trim_start starts_with without_whitespace
  material_to_bytes value what =
      if starts_with "-----BEGIN" (trim_start value)
      then ok (as_bytes value)
      else map_err
          (λ e. AppError.config (format (what ∷ " is neither PEM nor valid base64: " ∷ e ∷ [])))
          (c.base64_decode (as_bytes (without_whitespace value)))

  unfoldable pub from_material : String → String → Option String → AppResult InlineKeyStore
  unfolding material_to_bytes
  from_material cert key password = do
    cert_bytes ← material_to_bytes cert "CA certificate"
    key_bytes ← material_to_bytes key "CA key"
    ok (record { cert = cert_bytes; key = key_bytes; password = password })

module _ (a : Asn1) (c : KeyCodec) where
  -- The certificate of the first block with that label.
  unfoldable pub first_certificate : List Block → AppResult Certificate
  first_certificate blocks = do
    block ←
        ok_or (AppError.config "no CERTIFICATE block in CA cert material")
          (find (λ b. b.0 == "CERTIFICATE") blocks)
    map_err (λ e. AppError.config (format ("bad CA certificate: " ∷ e ∷ [])))
        (a.decode_certificate block.1)

  unfoldable pub parse_certificate : Bytes → AppResult Certificate
  unfolding as_pem_blocks first_certificate
  parse_certificate bytes = elim (as_pem_blocks c bytes) [
    | some blocks ↦ first_certificate blocks
    | none ↦
        map_err (λ e. AppError.config (format ("bad CA certificate DER: " ∷ e ∷ [])))
          (a.decode_certificate bytes)
  ]

  -- `InlineKeyStore::load`
  unfoldable pub load_inline : InlineKeyStore → AppResult (Certificate × Bytes)
  load_inline store = do
    cert ← parse_certificate store.cert
    key ← parse_private_key c store.key store.password
    ok (cert, key)

  -- `FileKeyStore::load`
  unfoldable pub load_file :
      (String → Result String Bytes) → FileKeyStore → AppResult (Certificate × Bytes)
  load_file read_file store = do
    bytes ←
        map_err
          (λ e. AppError.config (format ("cannot read CA key file " ∷ store.path ∷ ": " ∷ e ∷ [])))
          (read_file store.path)
    cert ← parse_certificate bytes
    key ← parse_private_key c bytes store.password
    ok (cert, key)
