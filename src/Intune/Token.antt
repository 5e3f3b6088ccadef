-- ===== src/Intune/Token.antt =====
-- The token cache of src/intune/mod.rs.
use blapki.Prelude.{
  ℕ, ◌+◌, ◌-◌, ◌≤◌, String, ◌≡◌, refl, Bool, true, false, Option, none, some, ok, List, [], ◌∷◌,
  arith, ltb, ap, ◌++◌, length-append, ◌==◌, eq_iff, eq_refl, length, if◌then◌else◌, ℤ, pos, negsuc,
}
use blapki.Intune.{
  CachedToken, TokenResponse, Backend, Client, Net, lookup_token, insert_token, ttl_of, valid_token,
  read_token, store_token, fetch_token, token, send, token_request, token_url, token_form,
}

pub lookup-insert_token :
    (k j : String) (t : CachedToken) (m : List (String × CachedToken))
    → lookup_token j (insert_token k t m) ≡ (if k == j then some t else lookup_token j m)
unfolding insert_token
lookup-insert_token k j t [] = refl
lookup-insert_token k j t ((i, u) ∷ m) =
    ground (arith, eq_iff k j, eq_iff i k, eq_iff i j, lookup-insert_token k j t m)

-- Every token lives at least a minute, whatever the server says.
pub ttl_of_ge : (e : Option ℤ) → 60 ≤ ttl_of e
unfolding ttl_of
ttl_of_ge none = omega arith
ttl_of_ge (some (pos n)) = omega arith
ttl_of_ge (some (negsuc n)) = omega arith

abbrev pub later : Net → ℕ → Net
later n k = record n { now = n.now + k }

module _ (b : Backend) (c : Client) where
  -- The state after a token was fetched.
  abbrev fetched : String → Net → TokenResponse → Net
  fetched scope n resp =
      let time = n.now + (b.answers (length n.sent)).elapsed in
      record n {
        tokens =
            insert_token scope
              (record {
                value = resp.access_token;
                expires_at = time + (ttl_of resp.expires_in - 60);
              })
              n.tokens;
        sent = n.sent ++ token_request (token_url b c) (token_form b c scope) ∷ [];
        now = time;
      }

  token-fetched :
      (scope : String) (n : Net) (resp : TokenResponse)
      → valid_token scope n ≡ none
      → read_token b c (b.answers (length n.sent)).outcome ≡ ok resp
      → token b c scope n ≡ (ok resp.access_token, fetched scope n resp)
  unfolding token fetch_token send store_token
  token-fetched scope n resp h granted = ground arith

  valid_token-fetched :
      (scope : String) (n : Net) (resp : TokenResponse) (k : ℕ)
      → valid_token scope (later (fetched scope n resp) k) ≡ (
          if ltb (k + 60) (ttl_of resp.expires_in)
          then some (record {
            value = resp.access_token;
            expires_at =
                n.now + (b.answers (length n.sent)).elapsed + (ttl_of resp.expires_in - 60);
          })
          else none)
  unfolding valid_token
  valid_token-fetched scope n resp k = ground (
    arith,
    ttl_of_ge resp.expires_in,
    lookup-insert_token scope scope
        (record {
          value = resp.access_token;
          expires_at = n.now + (b.answers (length n.sent)).elapsed + (ttl_of resp.expires_in - 60);
        })
        n.tokens,
    eq_refl scope,
  )

  token-served :
      (scope : String) (n : Net) (t : CachedToken) (alive : Bool)
      → valid_token scope n ≡ (if alive then some t else none)
      → token b c scope n ≡ (if alive then (ok t.value, n) else fetch_token b c scope n)
  unfolding token
  token-served scope n t true h = rw (h, token)
  token-served scope n t false h = rw (h, token)

  -- A token that is not in the cache is fetched by one request. From then on it is served without a
  -- request while more than a minute of the lifetime that the server granted is left, and after that
  -- it is fetched again.
  pub token_lifetime :
      (scope : String) (n : Net) (resp : TokenResponse) (k : ℕ)
      → valid_token scope n ≡ none
      → read_token b c (b.answers (length n.sent)).outcome ≡ ok resp
      → ((token b c scope n).0 ≡ ok resp.access_token)
        × (length (token b c scope n).1.sent ≡ length n.sent + 1)
        × (token b c scope (later (token b c scope n).1 k) ≡ (
            if ltb (k + 60) (ttl_of resp.expires_in)
            then (ok resp.access_token, later (token b c scope n).1 k)
            else fetch_token b c scope (later (token b c scope n).1 k)))
  token_lifetime scope n resp k h granted =
      let e = token-fetched scope n resp h granted in
      let v = valid_token-fetched scope n resp k in
      (
        ap (λ x. x.0) e,
        rw e (omega (arith, length-append {0} n.sent)),
        rw e (token-served scope (later (fetched scope n resp) k) _ _ v),
      )
