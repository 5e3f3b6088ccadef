-- ===== src/Crypto/Sign/Laws.antt =====
-- Documented behaviour of the builders of `cms`: what they collect, and what the message is that a
-- draft of one certificate and one signer with SHA-256 becomes.
use blapki.Prelude.{String, true, ◌≡◌, Option, none, some, ok, List, [], ◌∷◌, ◌++◌, Bytes}
use blapki.Crates.{AlgorithmIdentifier, Attribute, Certificate, ContentInfo, Asn1, Primitives}
use blapki.Crypto.{id_signed_data, id_sha256, id_content_type, id_message_digest}
use blapki.Crypto.Verify.{RelaxedSignedData, RelaxedSignerInfo, Decoders}
use blapki.Crypto.Sign.{SignerInfo, SignedData, CmsBuilder}
use blapki.Crypto.Sign.Distinct.{In}

-- The builders keep what they are given; a signed attribute goes to the end.
pub record CollectLaws (b : CmsBuilder) : Type 0 where
  pub new_signer_info_same : (i j : SignerInfo) → b.new_signer_info i ≡ ok j → j ≡ i
  pub add_signed_attribute_last :
      (i j : SignerInfo) (x : Attribute)
      → b.add_signed_attribute i x ≡ ok j
      → j ≡ record i { signed_attrs = i.signed_attrs ++ x ∷ [] }
  pub content_type_attribute_oid :
      (oid : String) (x : Attribute) → b.content_type_attribute oid ≡ ok x → x.oid ≡ id_content_type
  pub add_digest_algorithm-nil :
      (d e : SignedData) (alg : AlgorithmIdentifier)
      → d.digest_algorithms ≡ []
      → b.add_digest_algorithm d alg ≡ ok e
      → e ≡ record d { digest_algorithms = alg ∷ [] }
  pub add_certificate-nil :
      (d e : SignedData) (cert : Certificate)
      → d.certificates ≡ []
      → b.add_certificate d cert ≡ ok e
      → e ≡ record d { certificates = cert ∷ [] }
  pub add_signer_info-nil :
      (d e : SignedData) (info : SignerInfo)
      → d.signer_infos ≡ []
      → b.add_signer_info d info ≡ ok e
      → e ≡ record d { signer_infos = info ∷ [] }

-- A message with content has a digest among its attributes.
abbrev pub HasDigest : Option Bytes → List Attribute → Type 0
HasDigest none attrs = Unit
HasDigest (some v) attrs = (x : Attribute) × In x attrs × (x.oid ≡ id_message_digest)

module _ (a : Asn1) where
  -- The octets of the content, where there is one.
  abbrev pub IsValue : Option Bytes → Option Bytes → Type 0
  IsValue none none = Unit
  IsValue (some any) (some v) = a.decode_octets any ≡ ok v
  IsValue none (some v) = ⊥
  IsValue (some any) none = ⊥

module _ (a : Asn1) (p : Primitives) where
  -- Where a signed attribute of the message comes from: the draft, or the builder, which adds the
  -- type of the content and its digest.
  pub data Origin (given : List Attribute) (content : Option Bytes) (x : Attribute) : Type 0 where
    from_draft : In x given → Origin given content x
    content_type : x.oid ≡ id_content_type → Origin given content x
    message_digest :
        (v h : Bytes)
        → content ≡ some v
        → x.oid ≡ id_message_digest
        → x.values ≡ h ∷ []
        → a.decode_octets h ≡ ok (p.sha256 v)
        → Origin given content x

module _ (a : Asn1) (p : Primitives) (d : Decoders) where
  -- What the decoders read of a message that was built for a signer and a certificate; `key` is the
  -- public key of the signer.
  pub record Emitted (key : Bytes) (info : SignerInfo) (cert : Certificate) (ci : ContentInfo)
      : Type 0 where
    pub sd : RelaxedSignedData
    pub signer : RelaxedSignerInfo
    pub attrs : List Attribute
    pub certs : Bytes
    pub cert_reader : Bytes
    pub signer_reader : Bytes
    pub message : Bytes
    pub signature : Bytes
    pub is_signed_data : ci.content_type ≡ id_signed_data
    pub has_signed_data : d.decode_signed_data ci.content ≡ ok sd
    pub has_content : IsValue a info.encap.econtent sd.econtent
    pub opens_signers : d.open_container sd.signer_infos ≡ ok signer_reader
    pub has_signer : d.decode_signer_info signer_reader ≡ ok signer
    pub has_certs : sd.certificates ≡ some certs
    pub opens_certs : d.open_container certs ≡ ok cert_reader
    pub has_cert : d.decode_relaxed_certificate cert_reader ≡ ok cert
    pub uses_sha256 : signer.digest_alg ≡ id_sha256
    pub has_attrs : signer.signed_attrs ≡ some attrs
    pub keeps_attrs : (x : Attribute) → In x info.signed_attrs → In x attrs
    pub origin : (x : Attribute) → In x attrs → Origin a p info.signed_attrs sd.econtent x
    pub has_digest : HasDigest sd.econtent attrs
    pub encodes : a.encode_attributes attrs ≡ ok message
    pub well_formed : p.new_signature signer.signature ≡ ok signature
    pub verifies : p.verify_sha256 key message signature ≡ true
