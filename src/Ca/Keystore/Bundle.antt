-- ===== src/Ca/Keystore/Bundle.antt =====
-- What src/ca/keystore.rs loads from the PEM text of a certificate and a key.
use Prim.Native.String
use mathlib.Core.List.{append_assoc, append-nil}
use text.Mathlib.TextLemmas.{append_assoc as append_assoc_text}
use blapki.Prelude.{
  ℕ, String, ◌≡◌, refl, ap, ◌∙◌, sym, Bool, true, false, ◌&&◌, ◌||◌, none, some, ok, List, [], ◌∷◌,
  ◌++◌, Bytes, All, All-append, arith, leb, trim, starts_with, strip_prefix, as_bytes, contains,
  AllCodes, AllCodes-weaken, AllCodes-of_test, is_solid, is_inline, trim-solid, unlines,
  unlines-append, lines-unlines, from_utf8-unlines, contains-append, eqb,
}
use blapki.Ca.Keystore.{
  KeyCodec, begin_label, is_end, push_block, blocks_from, pem_blocks, as_pem_blocks,
}
use blapki.Ca.Keystore.Pem.{joined, blocks_from-block}

-- The base64 alphabet.
abbrev pub is_base64 : ℕ → Bool
is_base64 n =
    (leb b'A' n && leb n b'Z')
    || (leb b'a' n && leb n b'z')
    || (leb b'0' n && leb n b'9')
    || eqb n b'+'
    || eqb n b'/'
    || eqb n b'='

-- Lines, one after the other, after `text`.
abbrev pub concat : String → List String → String
concat text [] = text
concat text (line ∷ more) = concat (String.◌++◌ text line) more

abbrev pub begin_line : String → String
begin_line label = String.◌++◌ "-----BEGIN " (String.◌++◌ label "-----")

abbrev pub end_line : String → String
end_line label = String.◌++◌ "-----END " (String.◌++◌ label "-----")

abbrev pem_lines : String → List String → List String
pem_lines label body = begin_line label ∷ (body ++ end_line label ∷ [])

-- The textual encoding of some content under a label (RFC 7468): between its two marker lines it has
-- lines of base64, and their concatenation decodes to the content.
pub record IsPem (c : KeyCodec) (label : String) (der : Bytes) (text : String) : Type 0 where
  pub body : List String
  pub layout : text ≡ unlines (begin_line label ∷ (body ++ end_line label ∷ []))
  pub alphabet : All (AllCodes is_base64) body
  pub decodes : c.base64_decode (as_bytes (concat "" body)) ≡ ok der

base64_is_solid : (n : ℕ) → is_base64 n ≡ true → is_solid n ≡ true
base64_is_solid n h = ground arith

base64_is_inline : (n : ℕ) → is_base64 n ≡ true → is_inline n ≡ true
base64_is_inline n h = ground arith

trim-base64 : (line : String) → AllCodes is_base64 line → trim line ≡ line
trim-base64 line h = trim-solid line (AllCodes-weaken is_base64 is_solid line base64_is_solid h)

joined-concat :
    (text : String) (body : List String)
    → All (AllCodes is_base64) body
    → joined text body ≡ concat text body
joined-concat text [] h = refl
joined-concat text (line ∷ body) (h, hs) =
    rw (trim-base64 line h) (joined-concat (String.◌++◌ text line) body hs)

no_marker : (line : String) → AllCodes is_base64 line → starts_with "-----END " line ≡ false
unfolding starts_with strip_prefix
no_marker String.[] h = refl
no_marker (String.◌∷◌ c s) (h, hs) = ground arith

is_end-base64 : (line : String) → AllCodes is_base64 line → is_end line ≡ false
unfolding is_end
is_end-base64 line h = rw (trim-base64 line h) (no_marker line h)

body_ends_nowhere :
    (body : List String) → All (AllCodes is_base64) body → All (λ line. is_end line ≡ false) body
body_ends_nowhere [] h = tt
body_ends_nowhere (line ∷ body) (h, hs) = (is_end-base64 line h, body_ends_nowhere body hs)

body_inline : (body : List String) → All (AllCodes is_base64) body → All (AllCodes is_inline) body
body_inline [] h = tt
body_inline (line ∷ body) (h, hs) =
    (AllCodes-weaken is_base64 is_inline line base64_is_inline h, body_inline body hs)

module _ (c : KeyCodec) where
  -- One block, and what follows it.
  blocks_from-pem :
      (label : String) (der : Bytes) (text : String) (rest : List String)
      (pem : IsPem c label der text)
      → begin_label (begin_line label) ≡ some label
      → is_end (end_line label) ≡ true
      → blocks_from c none (pem_lines label pem.body ++ rest)
        ≡ (label, der) ∷ blocks_from c none rest
  unfolding push_block
  blocks_from-pem label der text rest pem first last =
      let flat : pem_lines label pem.body ++ rest
          ≡ begin_line label ∷ (pem.body ++ end_line label ∷ rest) =
        ap (λ r. begin_line label ∷ r) (append_assoc pem.body (end_line label ∷ []) rest) in
      ap (blocks_from c none) flat
      ∙ blocks_from-block c [] pem.body rest (begin_line label) (end_line label) label tt first
          (body_ends_nowhere pem.body pem.alphabet) last
      ∙ rw (joined-concat "" pem.body pem.alphabet, pem.decodes, push_block) refl

  module _ (cert_der key_der : Bytes) (cert_text key_text : String)
      (cert : IsPem c "CERTIFICATE" cert_der cert_text)
      (key : IsPem c "PRIVATE KEY" key_der key_text) where
    abbrev bundle_lines : List String
    bundle_lines = pem_lines "CERTIFICATE" cert.body ++ pem_lines "PRIVATE KEY" key.body

    bundle_inline : All (AllCodes is_inline) bundle_lines
    bundle_inline =
        All-append (AllCodes is_inline) (pem_lines "CERTIFICATE" cert.body)
          (pem_lines "PRIVATE KEY" key.body)
          (
            AllCodes-of_test is_inline (begin_line "CERTIFICATE") refl,
            All-append (AllCodes is_inline) cert.body (end_line "CERTIFICATE" ∷ [])
                (body_inline cert.body cert.alphabet)
                (AllCodes-of_test is_inline (end_line "CERTIFICATE") refl, tt),
          )
          (
            AllCodes-of_test is_inline (begin_line "PRIVATE KEY") refl,
            All-append (AllCodes is_inline) key.body (end_line "PRIVATE KEY" ∷ [])
                (body_inline key.body key.alphabet)
                (AllCodes-of_test is_inline (end_line "PRIVATE KEY") refl, tt),
          )

    bundle_text : String.◌++◌ cert_text key_text ≡ unlines bundle_lines
    bundle_text =
        rw (cert.layout, key.layout)
          (sym
            (unlines-append (pem_lines "CERTIFICATE" cert.body) (pem_lines "PRIVATE KEY" key.body)))

    bundle_blocks :
        pem_blocks c (unlines bundle_lines)
        ≡ ("CERTIFICATE", cert_der) ∷ ("PRIVATE KEY", key_der) ∷ []
    unfolding pem_blocks begin_label is_end
    bundle_blocks = rw (lines-unlines bundle_lines bundle_inline) (
        blocks_from-pem "CERTIFICATE" cert_der cert_text (pem_lines "PRIVATE KEY" key.body) cert
          refl refl
        ∙ ap (λ r. ("CERTIFICATE", cert_der) ∷ r)
            (ap (blocks_from c none) (sym (append-nil (pem_lines "PRIVATE KEY" key.body)))
              ∙ blocks_from-pem "PRIVATE KEY" key_der key_text [] key refl refl))

    bundle_contains : contains "-----BEGIN " (unlines bundle_lines) ≡ true
    bundle_contains =
        let rest = String.◌∷◌ "\n" (
          unlines
            ((cert.body ++ end_line "CERTIFICATE" ∷ []) ++ pem_lines "PRIVATE KEY" key.body)) in
        ap (contains "-----BEGIN ") (append_assoc_text "-----BEGIN " "CERTIFICATE-----" rest)
        ∙ contains-append "-----BEGIN " (String.◌++◌ "CERTIFICATE-----" rest)

    -- The text of a certificate and then of a key is read as these two blocks.
    pub as_pem_blocks-bundle :
        as_pem_blocks c (as_bytes (String.◌++◌ cert_text key_text))
        ≡ some (("CERTIFICATE", cert_der) ∷ ("PRIVATE KEY", key_der) ∷ [])
    unfolding as_pem_blocks
    as_pem_blocks-bundle =
        rw
          (
            bundle_text,
            from_utf8-unlines bundle_lines bundle_inline,
            bundle_contains,
            bundle_blocks,
          )
          refl
