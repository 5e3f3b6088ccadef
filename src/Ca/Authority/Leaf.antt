-- ===== src/Ca/Authority/Leaf.antt =====
-- What a certificate that src/ca/authority.rs issues is made of.
use blapki.Prelude.{
  String, ◌≡◌, false, Option, none, some, ok, List, [], ◌∷◌, ◌++◌, Bytes, All, All-append,
  >>=-eq-ok, map_err-bind-eq-ok, map_err-eq-ok, arith, ◌∙◌, ap,
}
use blapki.Crates.{Asn1, Certificate, CertReq}
use blapki.Ca.Serial.{random_serial}
use blapki.Ca.Extensions.{
  ExtensionCodec, key_usage, extended_key_usage, requested_san, authority_info_access,
  crl_distribution_points,
}
use blapki.Ca.Authority.{
  IssueOptions, CertificateAuthority, ExtensionValue, Builder, basic_constraints, key_usage_flags,
  key_purposes, subject_key_identifier, authority_key_identifier, subject_alt_name, info_access,
  distribution_points, bld_err, add_all, add_purposes, add_san, add_ocsp, add_crl,
  add_leaf_extensions, issue, Validity,
}

-- What a builder was told.
pub record Contents : Type 0 where
  pub issuer : Bytes
  pub serial_number : Bytes
  pub subject : Bytes
  pub public_key : Bytes
  pub extensions : List ExtensionValue

-- Documented behaviour of the `CertificateBuilder`: it starts from the names and the key that it is
-- given, and appends extensions.
pub record BuilderLaws (b : Builder) : Type 0 where
  pub contents : b.Template → Contents
  pub new_template-contents :
      (issuer serial : Bytes) (validity : Validity) (subject key signer : Bytes) (t : b.Template)
      → b.new_template issuer serial validity subject key signer ≡ ok t
      → contents t ≡ record {
        issuer = issuer;
        serial_number = serial;
        subject = subject;
        public_key = key;
        extensions = [];
      }
  pub add_extension-contents :
      (t : b.Template) (v : ExtensionValue) (t' : b.Template)
      → b.add_extension t v ≡ ok t'
      → contents t' ≡ record (contents t) { extensions = (contents t).extensions ++ v ∷ [] }

abbrev pub IsOther : ExtensionValue → Type 0
IsOther (basic_constraints ca path_len) = ⊥
IsOther _ = Unit

module _ (a : Asn1) (x : ExtensionCodec) (b : Builder) (laws : BuilderLaws b) where
  -- The builder was told these names and this key, then that the subject is no CA, and nothing else
  -- about basic constraints.
  pub record IsLeaf (issuer serial subject key : Bytes) (t : b.Template) : Type 0 where
    pub others : List ExtensionValue
    pub told : laws.contents t ≡ record {
      issuer = issuer;
      serial_number = serial;
      subject = subject;
      public_key = key;
      extensions = basic_constraints false none ∷ others;
    }
    pub no_more : All IsOther others

  module _ (issuer serial subject key : Bytes) where
    add_extension-IsLeaf :
        (t : b.Template) (v : ExtensionValue) (t' : b.Template)
        → b.add_extension t v ≡ ok t'
        → IsOther v
        → IsLeaf issuer serial subject key t
        → IsLeaf issuer serial subject key t'
    add_extension-IsLeaf t v t' h other leaf = record {
      others = leaf.others ++ v ∷ [];
      told =
          laws.add_extension-contents t v t' h
          ∙ ap {A = Contents} (λ c. record c { extensions = c.extensions ++ v ∷ [] }) leaf.told;
      no_more = All-append IsOther leaf.others (v ∷ []) leaf.no_more (other, tt);
    }

    add_all-IsLeaf :
        (vs : List ExtensionValue) (t t' : b.Template)
        → add_all a x b vs t ≡ ok t'
        → All IsOther vs
        → IsLeaf issuer serial subject key t
        → IsLeaf issuer serial subject key t'
    unfolding add_all
    add_all-IsLeaf [] t t' h others leaf = ground arith
    add_all-IsLeaf (v ∷ vs) t t' h (other, others) leaf =
        let (u, e, k) = map_err-bind-eq-ok bld_err (b.add_extension t v) _ h in
        add_all-IsLeaf vs u t' k others (add_extension-IsLeaf t v u e other leaf)

    add_purposes-IsLeaf :
        (oids : List String) (t t' : b.Template)
        → add_purposes a x b oids t ≡ ok t'
        → IsLeaf issuer serial subject key t
        → IsLeaf issuer serial subject key t'
    unfolding add_purposes
    add_purposes-IsLeaf [] t t' h leaf = ground arith
    add_purposes-IsLeaf (oid ∷ oids) t t' h leaf =
        add_all-IsLeaf (key_purposes (oid ∷ oids) ∷ []) t t' h (tt, tt) leaf

    add_san-IsLeaf :
        (san : Option Bytes) (t t' : b.Template)
        → add_san a x b san t ≡ ok t'
        → IsLeaf issuer serial subject key t
        → IsLeaf issuer serial subject key t'
    unfolding add_san
    add_san-IsLeaf none t t' h leaf = ground arith
    add_san-IsLeaf (some san) t t' h leaf =
        add_all-IsLeaf (subject_alt_name san ∷ []) t t' h (tt, tt) leaf

    add_ocsp-IsLeaf :
        (url : Option String) (t t' : b.Template)
        → add_ocsp a x b url t ≡ ok t'
        → IsLeaf issuer serial subject key t
        → IsLeaf issuer serial subject key t'
    unfolding add_ocsp
    add_ocsp-IsLeaf none t t' h leaf = ground arith
    add_ocsp-IsLeaf (some url) t t' h leaf =
        let (aia, _, k) = >>=-eq-ok (authority_info_access x url) _ h in
        add_all-IsLeaf (info_access aia ∷ []) t t' k (tt, tt) leaf

    add_crl-IsLeaf :
        (url : Option String) (t t' : b.Template)
        → add_crl a x b url t ≡ ok t'
        → IsLeaf issuer serial subject key t
        → IsLeaf issuer serial subject key t'
    unfolding add_crl
    add_crl-IsLeaf none t t' h leaf = ground arith
    add_crl-IsLeaf (some url) t t' h leaf =
        let (points, _, k) = >>=-eq-ok (crl_distribution_points x url) _ h in
        add_all-IsLeaf (distribution_points points ∷ []) t t' k (tt, tt) leaf

    -- What a new builder contains, with no extension yet.
    IsNew : b.Template → Type 0
    IsNew t = laws.contents t ≡ record {
      issuer = issuer;
      serial_number = serial;
      subject = subject;
      public_key = key;
      extensions = [];
    }

    first-IsLeaf :
        (t t' : b.Template)
        → IsNew t
        → add_all a x b (basic_constraints false none ∷ []) t ≡ ok t'
        → IsLeaf issuer serial subject key t'
    unfolding add_all IsNew
    first-IsLeaf t t' new h =
        let (u, e, k) =
          map_err-bind-eq-ok bld_err (b.add_extension t (basic_constraints false none)) _ h in
        let same : u ≡ t' = ground arith in
        record {
          others = [];
          told = rw (← same) (
              laws.add_extension-contents t _ u e
              ∙ ap {A = Contents}
                  (λ c. record c { extensions = c.extensions ++ basic_constraints false none ∷ [] })
                  new);
          no_more = tt;
        }

    add_leaf_extensions-IsLeaf :
        (csr : CertReq) (opts : IssueOptions) (ski aki : Bytes) (t t' : b.Template)
        → IsNew t
        → add_leaf_extensions a x b csr opts ski aki t ≡ ok t'
        → IsLeaf issuer serial subject key t'
    unfolding add_leaf_extensions
    add_leaf_extensions-IsLeaf csr opts ski aki t t' new h =
        let (t₁, e₁, h₁) = >>=-eq-ok (add_all a x b (basic_constraints false none ∷ []) t) _ h in
        let (usage, _, h₂) = >>=-eq-ok (key_usage opts.key_usage) _ h₁ in
        let (t₃, e₃, h₃) = >>=-eq-ok (add_all a x b (key_usage_flags usage ∷ []) t₁) _ h₂ in
        let (eku, _, h₄) = >>=-eq-ok (extended_key_usage x opts.extended_key_usage) _ h₃ in
        let (t₅, e₅, h₅) = >>=-eq-ok (add_purposes a x b eku t₃) _ h₄ in
        let ids = subject_key_identifier ski ∷ authority_key_identifier aki ∷ [] in
        let (t₆, e₆, h₆) = >>=-eq-ok (add_all a x b ids t₅) _ h₅ in
        let (san, _, h₇) = >>=-eq-ok (requested_san a x csr) _ h₆ in
        let (t₈, e₈, h₈) = >>=-eq-ok (add_san a x b san t₆) _ h₇ in
        let (t₉, e₉, h₉) = >>=-eq-ok (add_ocsp a x b opts.ocsp_url t₈) _ h₈ in
        add_crl-IsLeaf opts.crl_url t₉ t' h₉ (
          add_ocsp-IsLeaf opts.ocsp_url t₈ t₉ e₉ (
            add_san-IsLeaf san t₆ t₈ e₈ (
              add_all-IsLeaf ids t₅ t₆ e₆ (tt, (tt, tt))
                (add_purposes-IsLeaf eku t₃ t₅ e₅ (
                  add_all-IsLeaf (key_usage_flags usage ∷ []) t₁ t₃ e₃ (tt, tt)
                    (first-IsLeaf t t₁ new e₁))))))

  -- A certificate that the CA issues is built for the CA as issuer, with a serial number made from
  -- the generator's bytes and the subject and public key of the CSR, and it says that its subject is
  -- no CA. Nothing in the CSR or the options changes that.
  pub issue-IsLeaf :
      (random : Bytes) (ca : CertificateAuthority) (csr : CertReq) (opts : IssueOptions)
      (cert : Certificate)
      → issue a x b random ca csr opts ≡ ok cert
      → (t : b.Template) × (b.build t ≡ ok cert)
        × IsLeaf ca.cert.subject (random_serial random) csr.subject csr.public_key t
  unfolding issue IsNew
  issue-IsLeaf random ca csr opts cert h =
      let (validity, _, h₁) = map_err-bind-eq-ok _ (b.validity_from_now _) _ h in
      let (ski, _, h₂) = map_err-bind-eq-ok _ (b.new_subject_key_id csr.public_key) _ h₁ in
      let (aki, _, h₃) = map_err-bind-eq-ok _ (b.new_authority_key_id ca.cert.public_key) _ h₂ in
      let (t, e, h₄) =
        map_err-bind-eq-ok bld_err
          (b.new_template ca.cert.subject (random_serial random) validity csr.subject csr.public_key
            ca.private_key)
          _ h₃ in
      let (t', e', h₅) = >>=-eq-ok (add_leaf_extensions a x b csr opts ski aki t) _ h₄ in
      (
        t',
        map_err-eq-ok bld_err (b.build t') h₅,
        add_leaf_extensions-IsLeaf ca.cert.subject (random_serial random) csr.subject csr.public_key
            csr opts ski aki t t' (laws.new_template-contents _ _ validity _ _ _ t e) e',
      )
