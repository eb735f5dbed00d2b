-- ===== src/Sessions/Rotations.antt =====
-- A rotation taken apart.
use buddy_web_ver.Base.{
  ℕ, ◌≡◌, refl, subst, inl, inr, Bool, true, false, ◌||◌, Option, none, some, ◌==◌, is_some, arith,
  scalar, any, Bool-cases,
}
use buddy_web_ver.Errors.{refresh_session_error, Result, ok, or_raise, or_raise_inv, Result-cases}
use buddy_web_ver.Time.{Datetime, aware}
use buddy_web_ver.Text.{Text}
use buddy_web_ver.Models.User.{User}
use buddy_web_ver.Models.Account.{RefreshSession}
use buddy_web_ver.Db.{
  Db, Session, pure, guard, read, lift_then, read_then, bind-ok_inv, err≢ok, ◌>>=◌, ◌>>◌,
}
use buddy_web_ver.Sessions.Jwt.{Libraries}
use buddy_web_ver.Sessions.Tokens.{
  RefreshTokenClaims, RefreshTokenRotation, prepare_refresh_rotation, utc_second,
}
use buddy_web_ver.Sessions.Families.{
  put, family, same_token, save_family, stage_family_revocation, is_untrusted, may_refresh,
  Rotation, rotated, revoked, revoke_family, replace_token, rotate_for, rotate_family,
  rotate_refresh_session,
}

module _ (l : Libraries) (key : Text) (decoded_at access_token_id refresh_token_id : ℕ)
    (refresh_token : l.Token) (claims : RefreshTokenClaims) where
  abbrev prepare : User → ℕ → Result (RefreshTokenRotation l)
  prepare u at =
      prepare_refresh_rotation l key decoded_at access_token_id refresh_token_id refresh_token
        u.role (aware at)

  -- The two ends of a rotation that did not raise: the family is revoked, or its token replaced.
  pub data Ended (s : RefreshSession) (at : ℕ) (db : Db) : Rotation l → Db → Type 0 where
    family_revoked : Ended s at db revoked (record db {
      refresh_sessions = put (record s { revoked_at = some at }) db.refresh_sessions;
    })
    token_replaced :
        (u : User) (r : RefreshTokenRotation l)
        → is_untrusted s claims at ≡ false
        → scalar (λ u. u.id == claims.user_id) db.users ≡ some u
        → may_refresh u ≡ true
        → prepare u at ≡ ok r
        → r.consumed_token_id ≡ s.refresh_token_id
        → any
            (same_token (record s {
              refresh_token_id = r.replacement.refresh_token_id;
              expires_at = r.replacement.refresh_expires_at;
            }))
            db.refresh_sessions
          ≡ false
        → Ended s at db (rotated u r.replacement) (record db {
          refresh_sessions =
              put
                (record s {
                  refresh_token_id = r.replacement.refresh_token_id;
                  expires_at = r.replacement.refresh_expires_at;
                })
                db.refresh_sessions;
        })

  module _ (s : RefreshSession) (at : ℕ) (db : Db) where
    carried :
        (o o' : Rotation l) (d d' : Db)
        → ◌≡◌ {A = Result (Rotation l × Db)} (ok (o, d)) (ok (o', d'))
        → Ended s at db o d
        → Ended s at db o' d'
    carried o o' d d' h e =
        let same : o ≡ o' = cc in
        let same_db : d ≡ d' = cc in
        subst (λ (x : Rotation l). Ended s at db x d') same
          (subst (λ (x : Db). Ended s at db o x) same_db e)

    revocation-Ended :
        (o : Rotation l) (db' : Db) → revoke_family l s at db ≡ ok (o, db') → Ended s at db o db'
    unfolding stage_family_revocation
    revocation-Ended o db' h = carried revoked o _ db' h family_revoked

    saved :
        (t : RefreshSession) (db₁ : Db) {u : Unit {0}}
        → save_family t db ≡ ok (u, db₁)
        → (any (same_token t) db.refresh_sessions ≡ false)
          × (db₁ ≡ record db { refresh_sessions = put t db.refresh_sessions })
    unfolding save_family
    saved t db₁ h = elim (Bool-cases (any (same_token t) db.refresh_sessions)) [
      | inl e ↦ let wrong = rw e at h in ground arith
      | inr e ↦ let wrote = rw e at h in (e, ground arith)
    ]

    replacement-Ended :
        (u : User) (r : RefreshTokenRotation l) (o : Rotation l) (db' : Db)
        → is_untrusted s claims at ≡ false
        → scalar (λ u. u.id == claims.user_id) db.users ≡ some u
        → may_refresh u ≡ true
        → prepare u at ≡ ok r
        → replace_token l s u r at db ≡ ok (o, db')
        → Ended s at db o db'
    replacement-Ended u r o db' trusted found may prepared h =
        elim (Bool-cases (r.consumed_token_id == s.refresh_token_id)) [
          | inr e ↦ let left = rw e at h in revocation-Ended o db' left
          | inl e ↦
              let t : RefreshSession = record s {
                refresh_token_id = r.replacement.refresh_token_id;
                expires_at = r.replacement.refresh_expires_at;
              } in
              let went = rw e at h in
              let (x, db₁, wrote, ended) =
                bind-ok_inv (save_family t) (λ _. pure (rotated u r.replacement)) db db' o went in
              let (fresh, is_db) = saved t db₁ wrote in
              carried (rotated u r.replacement) o _ db'
                (subst
                  (λ (d : Db).
                    ◌≡◌ {A = Result (Rotation l × Db)} (ok (rotated u r.replacement, d))
                      (ok (o, db')))
                  is_db ended)
                (token_replaced u r trusted found may prepared (ground arith) fresh)
        ]

    user-Ended :
        (x : Option User) (o : Rotation l) (db' : Db)
        → is_untrusted s claims at ≡ false
        → scalar (λ u. u.id == claims.user_id) db.users ≡ x
        → rotate_for l key decoded_at access_token_id refresh_token_id refresh_token claims s at x
            db
          ≡ ok (o, db')
        → Ended s at db o db'
    unfolding rotate_for
    user-Ended none o db' trusted found h = revocation-Ended o db' h
    user-Ended (some u) o db' trusted found h = elim (Bool-cases (may_refresh u)) [
      | inr e ↦ let left = rw e at h in revocation-Ended o db' left
      | inl e ↦
          let went = rw e at h in
          elim (Result-cases (prepare u at)) [
            | inl (r, prepared) ↦
                replacement-Ended u r o db' trusted found e prepared (rw (prepared, ◌>>=◌) at went)
            | inr (x, failed) ↦ let wrong = rw (failed, ◌>>=◌) at went in absurd (err≢ok wrong)
          ]
    ]

    pub family-Ended :
        (o : Rotation l) (db' : Db)
        → rotate_family l key decoded_at access_token_id refresh_token_id refresh_token claims s at
            db
          ≡ ok (o, db')
        → Ended s at db o db'
    unfolding rotate_family
    family-Ended o db' h = elim (Bool-cases (is_untrusted s claims at)) [
      | inl e ↦ let left = rw e at h in revocation-Ended o db' left
      | inr e ↦ let went = rw e at h in user-Ended _ o db' e refl went
    ]

  guarded :
      (b : Bool) (db db₁ : Db) {u : Unit {0}}
      → guard b refresh_session_error db ≡ ok (u, db₁)
      → (b ≡ false) × (db₁ ≡ db)
  guarded true db db₁ h = ground arith
  guarded false db db₁ h = ground arith

  -- A rotation that did not raise: the live family of the claims, and its end.
  pub rotation-Ended :
      (now : Datetime) (db db' : Db) (o : Rotation l)
      → rotate_refresh_session l key decoded_at access_token_id refresh_token_id refresh_token
          claims now db
        ≡ ok (o, db')
      → (s : RefreshSession) × (at : ℕ) × (utc_second now ≡ ok at)
        × (family claims.session_id db.refresh_sessions ≡ some s)
        × ((is_some s.deleted_at || is_some s.revoked_at) ≡ false)
        × Ended s at db o db'
  unfolding rotate_refresh_session
  rotation-Ended now db db' o h =
      let rest : RefreshSession → ℕ → Session (Rotation l) =
        rotate_family l key decoded_at access_token_id refresh_token_id refresh_token claims in
      let find : Db → Result RefreshSession =
        λ db. or_raise (family claims.session_id db.refresh_sessions) refresh_session_error in
      let live : RefreshSession → Session (Unit {0}) =
        λ s. guard (is_some s.deleted_at || is_some s.revoked_at) refresh_session_error in
      let (at, is_at, h1) =
        lift_then (utc_second now) (λ at. read find >>= λ s. live s >> rest s at) db db' o h in
      let (s, found, h2) = read_then find (λ s. live s >> rest s at) db db' o h1 in
      let (_, db₁, passed, h3) = bind-ok_inv (live s) (λ _. rest s at) db db' o h2 in
      let (is_live, same) = guarded (is_some s.deleted_at || is_some s.revoked_at) db db₁ passed in
      let ended = subst (λ (d : Db). rest s at d ≡ ok (o, db')) same h3 in
      (
        s,
        at,
        is_at,
        or_raise_inv _ refresh_session_error s found,
        is_live,
        family-Ended s at db o db' ended,
      )
