-- ===== src/Db.antt =====
-- The database tables and the session in which a service runs. A service maps the tables to a
-- result with the tables that it leaves. One that raises leaves none: every caller rolls back
-- (apps/api/app/api/matching.py), which is `run`. Calls run one after another, as the row locks
-- (`with_for_update`) make them.
pub mod Tables
use buddy_web_ver.Base.{
  ℕ, ◌+◌, ◌≡◌, refl, sym, ◌∙◌, Bool, true, false, ◌&&◌, ◌||◌, Option, none, some, List, [], ◌∷◌,
  ◌==◌, if◌then◌else◌, any, inl, inr,
}
use buddy_web_ver.Errors.{Exception, unique_violation, Result, ok, err, or_raise, Result-cases}
use buddy_web_ver.Models.User.{User}
use buddy_web_ver.Models.Profile.{StudentProfile, ProfilePhoto}
use buddy_web_ver.Models.Catalog.{CatalogItem, Selection, ProfileLanguage, ProfileCustomPreference}
use buddy_web_ver.Models.Match.{BuddyMatch, BuddyConversation, low_user_id, high_user_id}
use buddy_web_ver.Models.Chat.{BuddyMessage}
use buddy_web_ver.Models.Account.{RefreshSession, EmailVerificationToken}
use buddy_web_ver.Models.Outbox.{TransactionalOutbox}
use buddy_web_ver.Models.Invitation.{MatchingInvitation}
use buddy_web_ver.Db.Tables.{clashes, put}

pub record Db : Type 0 where
  pub users : List User
  pub profiles : List StudentProfile
  pub photos : List ProfilePhoto
  pub interests : List CatalogItem
  pub languages : List CatalogItem
  pub activities : List CatalogItem
  pub profile_interests : List Selection
  pub profile_languages : List ProfileLanguage
  pub profile_activities : List Selection
  pub custom_preferences : List ProfileCustomPreference
  pub invitations : List MatchingInvitation
  pub matches : List BuddyMatch
  pub conversations : List BuddyConversation
  pub messages : List BuddyMessage
  pub refresh_sessions : List RefreshSession
  pub verification_tokens : List EmailVerificationToken
  pub outbox : List TransactionalOutbox

abbrev pub Session {ℓ} : Type ℓ → Type ℓ
Session A = Db → Result (A × Db)

infixl 5 ◌>>=◌ ◌>>◌
abbrev pub ◌>>=◌ {ℓ κ} : {A : Type ℓ} {B : Type κ} → Session A → (A → Session B) → Session B
◌>>=◌ m f db = elim (m db) [ ok (a, db') ↦ f a db' | err e ↦ err e ]

abbrev pub ◌>>◌ {ℓ κ} : {A : Type ℓ} {B : Type κ} → Session A → Session B → Session B
m >> k = m >>= λ _. k

module _ {ℓ} {A : Type ℓ} where
  abbrev pub pure : A → Session A
  pure a db = ok (a, db)

  abbrev pub fail : Exception → Session A
  fail e db = err e

  abbrev pub lift : Result A → Session A
  lift (ok a) db = ok (a, db)
  lift (err e) db = err e

  abbrev pub query : (Db → A) → Session A
  query f db = ok (f db, db)

  -- A read that may raise.
  abbrev pub read : (Db → Result A) → Session A
  read f db = lift (f db) db

  -- `try: m` with `except` clauses that only raise another exception.
  abbrev pub map_error : (Exception → Exception) → Session A → Session A
  map_error f m db = elim (m db) [ ok r ↦ ok r | err e ↦ err (f e) ]

  -- An endpoint's transaction: commit after a result, roll back on an exception.
  abbrev pub run : Session A → Db → Result A × Db
  run m db = elim (m db) [ ok (a, db') ↦ (ok a, db') | err e ↦ (err e, db) ]

abbrev pub guard : Bool → Exception → Session (Unit {0})
guard true e db = err e
guard false e db = ok (tt, db)

-- The `UPDATE` of one changed invitation, by its primary key; the mapper counts up `version`.
unfoldable pub save_invitation : MatchingInvitation → Session (Unit {0})
save_invitation i db =
    ok (tt, record db { invitations = put (record i { version = i.version + 1 }) db.invitations })

-- The `INSERT` of an invitation: its key must be new, and so must its pair among the pending rows
-- (`uq_matching_invitations_pending_pair`).
unfoldable pub insert_invitation : MatchingInvitation → Session (Unit {0})
insert_invitation i db =
    if any (clashes i) db.invitations
    then err unique_violation
    else ok (tt, record db { invitations = i ∷ db.invitations })

-- The `INSERT` of a match: its key, its accepted invitation and its active pair must be new.
abbrev pub match_clashes : BuddyMatch → BuddyMatch → Bool
match_clashes m other =
    m.id == other.id
    || m.accepted_invitation_id == other.accepted_invitation_id
    || (low_user_id m == low_user_id other && high_user_id m == high_user_id other)

unfoldable pub insert_match : BuddyMatch → Session (Unit {0})
insert_match m db =
    if any (match_clashes m) db.matches
    then err unique_violation
    else ok (tt, record db { matches = m ∷ db.matches })

pub err≢ok {ℓ} : {A : Type ℓ} {x : Exception} {a : A} → err x ≡ ok a → ⊥
err≢ok h = cc

module _ {ℓ κ} {A : Type ℓ} {B : Type κ} (m : Session A) (f : A → Session B) where
  pub bind-ok : (db db' : Db) (a : A) → m db ≡ ok (a, db') → (m >>= f) db ≡ f a db'
  bind-ok db db' a e = rw (e, ◌>>=◌)

  pub bind-err : (db : Db) (x : Exception) → m db ≡ err x → (m >>= f) db ≡ err x
  bind-err db x e = rw (e, ◌>>=◌)

  -- A bind that succeeds is two steps that do.
  pub bind-ok_inv :
      (db db' : Db) (b : B)
      → (m >>= f) db ≡ ok (b, db')
      → (a : A) × (db₁ : Db) × (m db ≡ ok (a, db₁)) × (f a db₁ ≡ ok (b, db'))
  bind-ok_inv db db' b e = go (m db) refl
    where
      go :
          (r : Result (A × Db))
          → m db ≡ r
          → (a : A) × (db₁ : Db) × (m db ≡ ok (a, db₁)) × (f a db₁ ≡ ok (b, db'))
      go (ok (a, db₁)) h = (a, db₁, h, sym (bind-ok db db₁ a h) ∙ e)
      go (err x) h = let wrong = sym (bind-err db x h) ∙ e in absurd (err≢ok wrong)

-- A lifted result that succeeds is handed on with the tables as they were.
pub lift_then {ℓ κ} :
    {A : Type ℓ} {B : Type κ} (r : Result A) (f : A → Session B) (db db' : Db) (b : B)
    → (lift r >>= f) db ≡ ok (b, db')
    → (a : A) × (r ≡ ok a) × (f a db ≡ ok (b, db'))
lift_then (ok a) f db db' b h = (a, refl, h)
lift_then (err e) f db db' b h = cc

pub read_then {ℓ κ} :
    {A : Type ℓ} {B : Type κ} (r : Db → Result A) (f : A → Session B) (db db' : Db) (b : B)
    → (read r >>= f) db ≡ ok (b, db')
    → (a : A) × (r db ≡ ok a) × (f a db ≡ ok (b, db'))
read_then r f db db' b h = lift_then (r db) f db db' b h

-- A check that was passed.
pub guard_then {ℓ} :
    {A : Type ℓ} (b : Bool) (e : Exception) (k : Session A) (db db' : Db) (a : A)
    → (guard b e >> k) db ≡ ok (a, db')
    → (b ≡ false) × (k db ≡ ok (a, db'))
guard_then true e k db db' a h = cc
guard_then false e k db db' a h = (refl, h)

pub map_read_then {ℓ κ} :
    {A : Type ℓ} {B : Type κ} (g : Exception → Exception) (r : Db → Result A) (f : A → Session B)
    (db db' : Db) (b : B)
    → (map_error g (read r) >>= f) db ≡ ok (b, db')
    → (a : A) × (r db ≡ ok a) × (f a db ≡ ok (b, db'))
map_read_then g r f db db' b h = elim (Result-cases (r db)) [
  | inl (a, e) ↦ (a, e, rw (e, map_error, ◌>>=◌) at h)
  | inr (x, e) ↦ let wrong = rw (e, map_error, ◌>>=◌) at h in absurd (err≢ok wrong)
]

pub map_error_ok {ℓ} :
    {A : Type ℓ} (g : Exception → Exception) (m : Session A) (db db' : Db) (a : A)
    → map_error g m db ≡ ok (a, db')
    → m db ≡ ok (a, db')
map_error_ok g m db db' a h = elim (Result-cases (m db)) [
  | inl (r, e) ↦ e ∙ (rw (e, map_error) at h)
  | inr (x, e) ↦ let wrong = rw (e, map_error) at h in absurd (err≢ok wrong)
]
