-- ===== src/Sessions/Histories.antt =====
-- Refresh sessions under any history of calls.
use buddy_web_ver.Base.{
  ℕ, ◌≡◌, ◌≢◌, refl, ◌∙◌, sym, subst, inl, inr, Bool, ◌&&◌, ◌||◌, Option, none, some, ◌∷◌, ◌==◌,
  is_some, arith, scalar, any, Bool-cases,
}
use buddy_web_ver.Errors.{ok}
use buddy_web_ver.Time.{Datetime}
use buddy_web_ver.Text.{Text}
use buddy_web_ver.Models.User.{User}
use buddy_web_ver.Models.Account.{RefreshSession}
use buddy_web_ver.Db.{Db, lift_then, err≢ok}
use buddy_web_ver.Sessions.Jwt.{Libraries}
use buddy_web_ver.Sessions.Tokens.{TokenPair, RefreshTokenClaims, utc_second}
use buddy_web_ver.Sessions.Families.{
  put, stage_family_revocation, Rotation, rotate_refresh_session, revoke_refresh_session,
  revoke_found, create_refresh_session,
}
use buddy_web_ver.Sessions.Rotations.{rotation-Ended}
use buddy_web_ver.Sessions.Reuse.{Spent, Spent-put, row_holds, Ended-writes}

module _ (l : Libraries) (session_id token_id : ℕ) where
  -- A call of the service that did not raise, or a change of other tables. The identifiers that are
  -- made in it are not those that are in use: `uuid4` does not repeat.
  pub data Step (db : Db) : Db → Type 0 where
    rotates :
        (key : Text) (decoded_at a r : ℕ) (token : l.Token) (claims : RefreshTokenClaims)
        (now : Datetime) (o : Rotation l) {db' : Db}
        → r ≢ token_id
        → rotate_refresh_session l key decoded_at a r token claims now db ≡ ok (o, db')
        → Step db db'
    revokes :
        (sid uid : ℕ) (now : Datetime) {db' : Db} {u : Unit {0}}
        → revoke_refresh_session sid uid now db ≡ ok (u, db')
        → Step db db'
    creates :
        (u : User) (pair : TokenPair l) (s : RefreshSession) {db' : Db}
        → pair.refresh_token_id ≢ token_id
        → create_refresh_session l u pair db ≡ ok (s, db')
        → Step db db'
    elsewhere : {db' : Db} → db'.refresh_sessions ≡ db.refresh_sessions → Step db db'

  pub data History (db : Db) : Db → Type 0 where
    here : History db db
    next : {d d' : Db} → History db d → Step d d' → History db d'

  rotation-Spent :
      (key : Text) (decoded_at a r : ℕ) (token : l.Token) (claims : RefreshTokenClaims)
      (now : Datetime) (o : Rotation l) (db db' : Db)
      → r ≢ token_id
      → rotate_refresh_session l key decoded_at a r token claims now db ≡ ok (o, db')
      → Spent session_id token_id db.refresh_sessions
      → Spent session_id token_id db'.refresh_sessions
  rotation-Spent key decoded_at a r token claims now o db db' fresh h spent =
      let (s, at, _, found, _, ended) =
        rotation-Ended l key decoded_at a r token claims now db db' o h in
      let (t, wrote, same, token_is) =
        Ended-writes l key decoded_at a r token claims s at db ended in
      let moved : s.id ≡ session_id → s.refresh_token_id ≢ token_id =
        row_holds (λ (s : RefreshSession). s.id ≡ session_id → s.refresh_token_id ≢ token_id)
          (λ s. s.id == claims.session_id) s db.refresh_sessions spent found in
      rw wrote (
        Spent-put session_id token_id t db.refresh_sessions
          (λ at_session. elim token_is [
            | inl kept ↦ λ is. moved (sym same ∙ at_session) (sym kept ∙ is)
            | inr is_new ↦ λ is. fresh (sym is_new ∙ is)
          ])
          spent)

  found-Spent :
      (p : RefreshSession → Bool) (o : Option RefreshSession) (at : ℕ) (db db' : Db) {u : Unit {0}}
      → scalar p db.refresh_sessions ≡ o
      → revoke_found o at db ≡ ok (u, db')
      → Spent session_id token_id db.refresh_sessions
      → Spent session_id token_id db'.refresh_sessions
  unfolding stage_family_revocation
  found-Spent p none at db db' found h spent =
      let same : db ≡ db' = ground arith in
      subst (λ (d : Db). Spent session_id token_id d.refresh_sessions) same spent
  found-Spent p (some s) at db db' found h spent =
      elim (Bool-cases (is_some s.deleted_at || is_some s.revoked_at)) [
        | inl e ↦
            let left = rw e at h in
            let same : db ≡ db' = ground arith in
            subst (λ (d : Db). Spent session_id token_id d.refresh_sessions) same spent
        | inr e ↦
            let wrote = rw e at h in
            let t : RefreshSession = record s { revoked_at = some at } in
            let same : record db { refresh_sessions = put t db.refresh_sessions } ≡ db' =
              ground arith in
            subst (λ (d : Db). Spent session_id token_id d.refresh_sessions) same
              (Spent-put session_id token_id t db.refresh_sessions
                (row_holds
                  (λ (s : RefreshSession). s.id ≡ session_id → s.refresh_token_id ≢ token_id) p s
                  db.refresh_sessions spent found)
                spent)
      ]

  revocation-Spent :
      (sid uid : ℕ) (now : Datetime) (db db' : Db) {u : Unit {0}}
      → revoke_refresh_session sid uid now db ≡ ok (u, db')
      → Spent session_id token_id db.refresh_sessions
      → Spent session_id token_id db'.refresh_sessions
  unfolding revoke_refresh_session
  revocation-Spent sid uid now db db' {u} h spent =
      let p : RefreshSession → Bool = λ s. s.id == sid && s.user_id == uid in
      let (at, _, h1) =
        lift_then (utc_second now) (λ at db. revoke_found (scalar p db.refresh_sessions) at db) db
          db' u h in
      found-Spent p (scalar p db.refresh_sessions) at db db' refl h1 spent

  creation-Spent :
      (u : User) (pair : TokenPair l) (s : RefreshSession) (db db' : Db)
      → pair.refresh_token_id ≢ token_id
      → create_refresh_session l u pair db ≡ ok (s, db')
      → Spent session_id token_id db.refresh_sessions
      → Spent session_id token_id db'.refresh_sessions
  unfolding create_refresh_session
  creation-Spent u pair s db db' fresh h spent =
      elim (Bool-cases (
        any (λ t. t.id == pair.session_id || t.refresh_token_id == pair.refresh_token_id)
          db.refresh_sessions)) [
            | inl e ↦ let wrong = rw e at h in absurd (err≢ok wrong)
            | inr e ↦
                let wrote = rw e at h in
                let made : RefreshSession = record {
                  id = pair.session_id;
                  user_id = u.id;
                  refresh_token_id = pair.refresh_token_id;
                  expires_at = pair.refresh_expires_at;
                  revoked_at = none;
                  deleted_at = none;
                } in
                let same : record db { refresh_sessions = made ∷ db.refresh_sessions } ≡ db' =
                  ground arith in
                subst (λ (d : Db). Spent session_id token_id d.refresh_sessions) same
                  ((λ _. fresh), spent)
          ]

  Step-Spent :
      {db db' : Db}
      → Step db db'
      → Spent session_id token_id db.refresh_sessions
      → Spent session_id token_id db'.refresh_sessions
  Step-Spent {db} (rotates key decoded_at a r token claims now o {db'} fresh h) spent =
      rotation-Spent key decoded_at a r token claims now o db db' fresh h spent
  Step-Spent {db} (revokes sid uid now {db'} h) spent = revocation-Spent sid uid now db db' h spent
  Step-Spent {db} (creates u pair s {db'} fresh h) spent =
      creation-Spent u pair s db db' fresh h spent
  Step-Spent (elsewhere same) spent = rw same spent

  pub History-Spent :
      {db db' : Db}
      → History db db'
      → Spent session_id token_id db.refresh_sessions
      → Spent session_id token_id db'.refresh_sessions
  History-Spent here spent = spent
  History-Spent (next past step) spent = Step-Spent step (History-Spent past spent)
