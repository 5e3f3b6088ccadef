-- ===== src/Http/History.antt =====
-- The life of a server of src/http: requests, revocations and what happens around them.
--
-- src/db/repo.rs has `revoke`, and no handler calls it: an operator revokes on the database. Between
-- two requests the engine may fail or recover, time passes, and a restart forgets what the Intune
-- client cached.
use blapki.Prelude.{ℕ, String, ◌≡◌, Option, List, ℤ}
use blapki.Db.Repo.{revoke}
use blapki.Intune.{Net}
use blapki.Http.{AppState, World, Moment}
use blapki.Http.Router.{Request, Site, serve}
pub mod Kept
pub mod Origins
pub mod Revoked

module _ (site : Site) (state : AppState) where
  pub data Step (before after : World) : Type 0 where
    serves :
        (m : Moment) (now : ℕ) (r : Request)
        → after ≡ (serve site state m now r before).1
        → Step before after
    revokes :
        (ca_id serial : String) (reason : ℤ) (at : String)
        → after ≡ record before { pool = (revoke ca_id serial reason at before.pool).1 }
        → Step before after
    moves_on :
        (outages : List (Option String)) (net : Net)
        → after ≡ record before { pool = record before.pool { outages = outages }; net = net }
        → Step before after

  -- The worlds that a server can come to.
  pub data Reach (start : World) : World → Type 0 where
    here : Reach start start
    next : {before after : World} → Reach start before → Step before after → Reach start after
