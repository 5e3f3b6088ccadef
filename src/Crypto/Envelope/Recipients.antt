-- ===== src/Crypto/Envelope/Recipients.antt =====
-- The choice of a recipient in src/crypto/envelope.rs.
use blapki.Prelude.{
  ◌≡◌, refl, ◌⊎◌, inl, inr, Bool, true, false, none, some, List, [], ◌∷◌, ok, arith, find, any,
  Option-cases,
}
use blapki.Crates.{Certificate, KeyTransRecipientInfo, EnvelopedData, Asn1}
use blapki.Crypto.Envelope.{ktris, ktri_matches, only_or_err, select_recipient}

find-eq-some {ℓ} :
    {A : Type ℓ} (q : A → Bool) (xs : List A) (x : A) → find q xs ≡ some x → q x ≡ true
find-eq-some q [] x h = cc
find-eq-some q (y ∷ xs) x h = ground (arith, find-eq-some q xs x)

find-eq-none {ℓ} : {A : Type ℓ} (q : A → Bool) (xs : List A) → find q xs ≡ none → any q xs ≡ false
find-eq-none q [] h = refl
find-eq-none q (y ∷ xs) h = ground (arith, find-eq-none q xs)

only_or_err-eq-ok :
    (ks : List KeyTransRecipientInfo) (k : KeyTransRecipientInfo)
    → only_or_err ks ≡ ok k
    → ks ≡ k ∷ []
unfolding only_or_err
only_or_err-eq-ok (x ∷ []) k h = ground arith
only_or_err-eq-ok _ k h = cc

-- The recipient that is chosen names the CA certificate, unless none does: then it is the only
-- key-transport recipient of the envelope.
pub select_recipient-eq-ok :
    (a : Asn1) (env : EnvelopedData) (cert : Certificate) (k : KeyTransRecipientInfo)
    → select_recipient a env cert ≡ ok k
    → (ktri_matches a k cert ≡ true)
      ⊎ ((any (λ r. ktri_matches a r cert) (ktris env.recip_infos) ≡ false)
          × (ktris env.recip_infos ≡ k ∷ []))
unfolding select_recipient
select_recipient-eq-ok a env cert k h =
    elim (Option-cases (find (λ r. ktri_matches a r cert) (ktris env.recip_infos))) [
      | inl missing ↦ inr (
        find-eq-none (λ r. ktri_matches a r cert) (ktris env.recip_infos) missing,
        only_or_err-eq-ok (ktris env.recip_infos) k (ground arith),
      )
      | inr (x, found) ↦
          inl (find-eq-some (λ r. ktri_matches a r cert) (ktris env.recip_infos) k (ground arith))
    ]
