-- ===== src/Crypto/Sign/Drafts.antt =====
-- What the calls of src/crypto/sign.rs on the builders collect: the draft of a message.
use mathlib.Core.List.{append-nil, append_assoc}
use blapki.Prelude.{
  ◌≡◌, refl, sym, ap, ◌∙◌, ok, List, [], ◌∷◌, ◌++◌, Bytes, arith, map_err-bind-eq-ok, map_err-eq-ok,
}
use blapki.Crates.{Attribute, Certificate, ContentInfo, Asn1}
use blapki.Scep.Attributes.{der_err}
use blapki.Crypto.{sha256_alg}
use blapki.Crypto.Sign.{
  SignerInfo, SignedData, CmsBuilder, builder_err, add_attributes, build_signed_data,
}
use blapki.Crypto.Sign.Laws.{CollectLaws}

-- The draft of a message of one signer and one certificate.
abbrev pub draft_of : SignerInfo → Certificate → SignedData
draft_of info cert = record {
  encap = info.encap;
  digest_algorithms = sha256_alg ∷ [];
  certificates = cert ∷ [];
  signer_infos = info ∷ [];
}

module _ (b : CmsBuilder) (laws : CollectLaws b) where
  -- All attributes were added, in order.
  pub add_attributes-eq-ok :
      (xs : List Attribute) (i j : SignerInfo)
      → add_attributes b xs i ≡ ok j
      → j ≡ record i { signed_attrs = i.signed_attrs ++ xs }
  unfolding add_attributes
  add_attributes-eq-ok [] i j h =
      let same : i ≡ j = ground arith in
      sym same ∙ ap (λ xs. record i { signed_attrs = xs }) (sym (append-nil i.signed_attrs))
  add_attributes-eq-ok (x ∷ xs) i j h =
      let (k, e, h₁) = map_err-bind-eq-ok builder_err (b.add_signed_attribute i x) _ h in
      let step = laws.add_signed_attribute_last i k x e in
      let rest = add_attributes-eq-ok xs k j h₁ in
      rest
      ∙ ap {A = SignerInfo} (λ k. record k { signed_attrs = k.signed_attrs ++ xs }) step
      ∙ ap (λ ys. record i { signed_attrs = ys }) (append_assoc i.signed_attrs (x ∷ []) xs)

  pub build_signed_data-eq-ok :
      (a : Asn1) (info : SignerInfo) (cert : Certificate) (der : Bytes)
      → build_signed_data a b info.encap sha256_alg cert info ≡ ok der
      → (ci : ContentInfo) × (b.build (draft_of info cert) ≡ ok ci)
        × (a.encode_content_info ci ≡ ok der)
  unfolding build_signed_data
  build_signed_data-eq-ok a info cert der h =
      let (d₁, e₁, h₁) = map_err-bind-eq-ok builder_err _ _ h in
      let (d₂, e₂, h₂) = map_err-bind-eq-ok builder_err (b.add_certificate d₁ cert) _ h₁ in
      let (d₃, e₃, h₃) = map_err-bind-eq-ok builder_err (b.add_signer_info d₂ info) _ h₂ in
      let (ci, e₄, h₄) = map_err-bind-eq-ok builder_err (b.build d₃) _ h₃ in
      let s₁ = laws.add_digest_algorithm-nil _ d₁ sha256_alg refl e₁ in
      let s₂ = laws.add_certificate-nil d₁ d₂ cert (ap (λ d. d.certificates) s₁) e₂ in
      let t₂ = s₂ ∙ ap {A = SignedData} (λ d. record d { certificates = cert ∷ [] }) s₁ in
      let s₃ = laws.add_signer_info-nil d₂ d₃ info (ap (λ d. d.signer_infos) t₂) e₃ in
      let t₃ = s₃ ∙ ap {A = SignedData} (λ d. record d { signer_infos = info ∷ [] }) t₂ in
      (ci, rw (← t₃) e₄, map_err-eq-ok der_err (a.encode_content_info ci) h₄)
