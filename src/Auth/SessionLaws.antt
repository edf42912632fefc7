-- ===== src/Auth/SessionLaws.antt =====
-- Requests on the sessions in any order (apps/api/src/auth/auth.service.ts): what `refresh` read of a
-- session may be old when it commits.
use autonomous_csa.Base.{
  ◌≤◌, ℕ, ◌≡◌, refl, sym, ap, subst, ◌∙◌, Bool-cases, ==_iff, Option-cases, inl, inr, Bool, true,
  false, not, ◌&&◌, ◌||◌, List, [], ◌∷◌, none, some, is_some, and_then-some, Text, text_eq,
  text_eq→eq, ◌==◌, any, count, arith,
}
use autonomous_csa.Http.{
  Response, HttpError, refuse, reply, on_found_keeps, on_found_replied, on_found_missing,
  on_found_refused, on_reply_cases, on_found_cases, throw_if_cases,
}
use autonomous_csa.Auth.Sessions.{
  RefreshSession, User, AuthDb, AuthServices, RequestMetadata, MemberView, AuthAnswer, has_id,
  create_session, add_session, is_rotatable, revoke_where, rotate, logout, commit_refresh,
}
use autonomous_csa.Auth.Accounts.{
  LoginDto, RegisterDto, NewIds, login, register, open_session, create_account, create_rows,
  commit_registration,
}

-- A session is open until it is revoked.
abbrev pub is_open : Text → RefreshSession → Bool
is_open id session = text_eq session.id id && not (is_some session.revoked_at)

-- The requests that write sessions. `refreshes` commits a session and its user as they were read at
-- any time before.
pub data Step (order : List MemberView → List MemberView) (services : AuthServices) (db : AuthDb)
    : AuthDb → Type 0 where
  registers :
      {db' : AuthDb} (metadata : RequestMetadata) (ids : NewIds) (dto : RegisterDto)
      → (register order services metadata ids dto db).0 ≡ db'
      → Step order services db db'
  logs_in :
      {db' : AuthDb} (metadata : RequestMetadata) (limited : Response (Unit {0}))
      (session_id : Text) (dto : LoginDto)
      → (login order services metadata limited session_id dto db).0 ≡ db'
      → Step order services db db'
  refreshes :
      {db' : AuthDb} (metadata : RequestMetadata) (now : ℕ) (new_id token : Text)
      (found : RefreshSession × User)
      → (commit_refresh order services metadata now new_id token found db).0 ≡ db'
      → Step order services db db'
  logs_out :
      {db' : AuthDb} (now : ℕ) (token : Text)
      → logout services now token db ≡ db'
      → Step order services db db'

pub data Reach (order : List MemberView → List MemberView) (services : AuthServices) (db : AuthDb)
    : AuthDb → Type 0 where
  here : Reach order services db db
  next :
      {db' db'' : AuthDb}
      → Reach order services db db'
      → Step order services db' db''
      → Reach order services db db''

-- The session exists and no row of it is open.
abbrev pub IsRevoked : Text → List RefreshSession → Type 0
IsRevoked id sessions = (any (has_id id) sessions ≡ true) × (any (is_open id) sessions ≡ false)

any_or :
    (p q : RefreshSession → Bool) (sessions : List RefreshSession)
    → any (λ s. p s || q s) sessions ≡ false
    → any p sessions ≡ false
any_or p q [] h = refl
any_or p q (s ∷ sessions) h = ground (arith, h, any_or p q sessions)

pub create_session_lem :
    (row : RefreshSession) (sessions sessions' : List RefreshSession)
    → create_session row sessions ≡ some sessions'
    → (any (has_id row.id) sessions ≡ false) × (row ∷ sessions ≡ sessions')
unfolding create_session
create_session_lem row sessions sessions' e =
    ground (arith, e, any_or (has_id row.id) (λ s. text_eq s.token_hash row.token_hash) sessions)

other_id :
    (id : Text) (row : RefreshSession) (sessions : List RefreshSession)
    → any (has_id row.id) sessions ≡ false
    → any (has_id id) sessions ≡ true
    → text_eq row.id id ≡ false
other_id id row sessions fresh there = elim (Bool-cases (text_eq row.id id)) [
  | inl e ↦ ground (arith, fresh, there, ap (λ t. any (has_id t) sessions) (text_eq→eq row.id id e))
  | inr e ↦ e
]

create-IsRevoked :
    (id : Text) (row : RefreshSession) (sessions sessions' : List RefreshSession)
    → create_session row sessions ≡ some sessions'
    → IsRevoked id sessions
    → IsRevoked id sessions'
create-IsRevoked id row sessions sessions' e h =
    let p = create_session_lem row sessions sessions' e in
    subst (IsRevoked id) p.1 (ground (arith, h, other_id id row sessions p.0 h.0))

revoke-IsRevoked :
    (id : Text) (test : RefreshSession → Bool) (now : ℕ) (sessions : List RefreshSession)
    → any (is_open id) sessions ≡ false
    → any (is_open id) (revoke_where test now sessions) ≡ false
unfolding revoke_where
revoke-IsRevoked id test now [] h = refl
revoke-IsRevoked id test now (s ∷ sessions) h =
    ground (arith, h, revoke-IsRevoked id test now sessions)

pub any-revoke_where :
    (id : Text) (test : RefreshSession → Bool) (now : ℕ) (sessions : List RefreshSession)
    → any (has_id id) (revoke_where test now sessions) ≡ any (has_id id) sessions
unfolding revoke_where
any-revoke_where id test now [] = refl
any-revoke_where id test now (s ∷ sessions) = ground (arith, any-revoke_where id test now sessions)

create_account_sessions :
    (services : AuthServices) (ids : NewIds) (dto : RegisterDto) (email slug : Text)
    (db db' : AuthDb)
    → create_account services ids dto email slug db ≡ some db'
    → db'.sessions ≡ db.sessions
unfolding create_account
create_account_sessions services ids dto email slug db db' e = ground (arith, e)

-- What a request that opens the session `id` may do to the table, and answer: it is refused, or it adds a
-- row of that identifier.
module _ (P : AuthDb × Response AuthAnswer → Type 0) (db : AuthDb)
    (refused : (error : HttpError) → P (db, refuse error)) (id : Text)
    (opens : (row : RefreshSession) (before after : AuthDb) (response : Response AuthAnswer)
      → before.sessions ≡ db.sessions
      → row.revoked_at ≡ none
      → row.id ≡ id
      → add_session row before ≡ some after
      → P (after, response)) where
  open_session_cases :
      (order : List MemberView → List MemberView) (services : AuthServices)
      (metadata : RequestMetadata) (user_id email : Text)
      → P (open_session order services metadata id user_id email db)
  unfolding open_session
  open_session_cases order services metadata user_id email =
      on_found_cases db P _ _ _ refused
        λ payload _. on_found_cases db P _ _ _ refused λ db' e. opens _ db db' _ refl refl refl e

  pub login_cases :
      (order : List MemberView → List MemberView) (services : AuthServices)
      (metadata : RequestMetadata) (limited : Response (Unit {0})) (dto : LoginDto)
      → P (login order services metadata limited id dto db)
  unfolding login
  login_cases order services metadata limited dto = on_reply_cases db P _ _ refused λ u _.
      on_found_cases db P _ _ _ refused λ user _.
        throw_if_cases db P _ _ _ refused
          λ _. open_session_cases order services metadata user.id user.email

  create_rows_cases :
      (services : AuthServices) (ids : NewIds) (dto : RegisterDto) (email slug : Text)
      (row : RefreshSession) (db' : AuthDb) (response : Response AuthAnswer)
      → row.revoked_at ≡ none
      → row.id ≡ id
      → create_rows services ids dto email slug row db ≡ some db'
      → P (db', response)
  unfolding create_rows
  create_rows_cases services ids dto email slug row db' response new its e =
      let (mid, made, added) =
        and_then-some (create_account services ids dto email slug db) (add_session row) db' e in
      opens row mid db' response (create_account_sessions services ids dto email slug db mid made)
        new its added

  pub register_cases :
      (order : List MemberView → List MemberView) (services : AuthServices)
      (metadata : RequestMetadata) (ids : NewIds) (dto : RegisterDto)
      → ids.session_id ≡ id
      → P (register order services metadata ids dto db)
  unfolding register commit_registration
  register_cases order services metadata ids dto its = on_reply_cases db P _ _ refused λ slug _.
      throw_if_cases db P _ _ _ refused λ _. throw_if_cases db P _ _ _ refused λ _.
        on_found_cases db P _ _ _ refused λ payload _.
          on_found_cases db P _ _ _ refused
            λ db' e. create_rows_cases services ids dto _ slug _ db' _ refl its e

RevokedIn : Text → AuthDb → Type 0
RevokedIn id db = IsRevoked id db.sessions

add_session-IsRevoked :
    (id : Text) (row : RefreshSession) (db db' : AuthDb)
    → add_session row db ≡ some db'
    → IsRevoked id db.sessions
    → IsRevoked id db'.sessions
unfolding add_session
add_session-IsRevoked id row db db' e h = elim (Option-cases (create_session row db.sessions)) [
  | inl refused ↦ ground (arith, e, refused)
  | inr (sessions, created) ↦
      subst (IsRevoked id) (ground (arith, e, created))
        (create-IsRevoked id row db.sessions sessions created h)
]

abbrev pub revoked_db : (RefreshSession → Bool) → ℕ → AuthDb → AuthDb
revoked_db test now db = record db { sessions = revoke_where test now db.sessions }

pub rotate_lem :
    (now : ℕ) (old hash : Text) (row : RefreshSession) (db db' : AuthDb)
    → rotate now old hash row db ≡ some db'
    → (count (is_rotatable old hash now) db.sessions ≡ 1)
      × (add_session row (revoked_db (is_rotatable old hash now) now db) ≡ some db')
unfolding rotate
rotate_lem now old hash row db db' e =
    elim (Bool-cases (count (is_rotatable old hash now) db.sessions == 1)) [
      | inl one ↦
          ((==_iff (count (is_rotatable old hash now) db.sessions) 1).0 one, ground (arith, e, one))
      | inr other ↦ ground (arith, e, other)
    ]

rotate-IsRevoked :
    (id : Text) (now : ℕ) (old hash : Text) (row : RefreshSession) (db db' : AuthDb)
    → rotate now old hash row db ≡ some db'
    → IsRevoked id db.sessions
    → IsRevoked id db'.sessions
rotate-IsRevoked id now old hash row db db' e h =
    let test = is_rotatable old hash now in
    add_session-IsRevoked id row (revoked_db test now db) db'
      (rotate_lem now old hash row db db' e).1
      (any-revoke_where id test now db.sessions ∙ h.0, revoke-IsRevoked id test now db.sessions h.1)

logout-IsRevoked :
    (id : Text) (services : AuthServices) (now : ℕ) (token : Text) (db : AuthDb)
    → RevokedIn id db
    → RevokedIn id (logout services now token db)
unfolding logout RevokedIn
logout-IsRevoked id services now token db h =
    elim (Option-cases (services.verify_refresh_token token)) [
      | inl e ↦ rw (logout, e) h
      | inr (payload, e) ↦
          let test =
            λ (s : RefreshSession). text_eq s.id payload.sid && not (is_some s.revoked_at) in
          rw (logout, e)
            (
              any-revoke_where id test now db.sessions ∙ h.0,
              revoke-IsRevoked id test now db.sessions h.1,
            )
    ]

opens-RevokedIn :
    (id : Text) (db : AuthDb)
    → RevokedIn id db
    → (row : RefreshSession) (before after : AuthDb) → before.sessions ≡ db.sessions
    → row.revoked_at ≡ none
    → add_session row before ≡ some after
    → RevokedIn id after
unfolding RevokedIn
opens-RevokedIn id db h row before after same new e =
    add_session-IsRevoked id row before after e (subst (IsRevoked id) (sym same) h)

-- Among rows of which at most one has the identifier, revoking the one that may be rotated leaves
-- none open.
none_open :
    (id : Text) (test : RefreshSession → Bool) (now : ℕ) (sessions : List RefreshSession)
    → count (has_id id) sessions ≡ 0
    → any (is_open id) (revoke_where test now sessions) ≡ false
unfolding revoke_where
none_open id test now [] h = refl
none_open id test now (s ∷ sessions) h = ground (arith, h, none_open id test now sessions)

count_rotatable :
    (id hash : Text) (now : ℕ) (sessions : List RefreshSession)
    → count (is_rotatable id hash now) sessions ≤ count (has_id id) sessions
count_rotatable id hash now [] = omega arith
count_rotatable id hash now (s ∷ sessions) = ground (arith, count_rotatable id hash now sessions)

pub revoke-closes :
    (id hash : Text) (now : ℕ) (sessions : List RefreshSession)
    → count (has_id id) sessions ≤ 1
    → count (is_rotatable id hash now) sessions ≡ 1
    → IsRevoked id (revoke_where (is_rotatable id hash now) now sessions)
unfolding revoke_where
revoke-closes id hash now [] h one = ground (arith, one)
revoke-closes id hash now (s ∷ sessions) h one = ground (
  arith,
  h,
  one,
  revoke-closes id hash now sessions,
  none_open id (is_rotatable id hash now) now sessions,
  count_rotatable id hash now sessions,
)

pub not_rotatable :
    (id hash : Text) (now : ℕ) (sessions : List RefreshSession)
    → any (is_open id) sessions ≡ false
    → count (is_rotatable id hash now) sessions ≡ 0
not_rotatable id hash now [] h = refl
not_rotatable id hash now (s ∷ sessions) h = ground (arith, h, not_rotatable id hash now sessions)

rotate-refuses :
    (id hash : Text) (now : ℕ) (row : RefreshSession) (db : AuthDb)
    → RevokedIn id db
    → rotate now id hash row db ≡ none
unfolding rotate RevokedIn
rotate-refuses id hash now row db h = rw (not_rotatable id hash now db.sessions h.1) refl

rotate-revokes :
    (id hash : Text) (now : ℕ) (row : RefreshSession) (db db' : AuthDb)
    → count (has_id id) db.sessions ≤ 1
    → rotate now id hash row db ≡ some db'
    → RevokedIn id db'
unfolding RevokedIn
rotate-revokes id hash now row db db' keyed e =
    let (one, added) = rotate_lem now id hash row db db' e in
    add_session-IsRevoked id row (revoked_db (is_rotatable id hash now) now db) db' added
      (revoke-closes id hash now db.sessions keyed one)

module _ (order : List MemberView → List MemberView) (services : AuthServices) where
  commit_refresh-IsRevoked :
      (id : Text) (metadata : RequestMetadata) (now : ℕ) (new_id token : Text)
      (found : RefreshSession × User) (db : AuthDb)
      → RevokedIn id db
      → RevokedIn id (commit_refresh order services metadata now new_id token found db).0
  unfolding commit_refresh RevokedIn
  commit_refresh-IsRevoked id metadata now new_id token (session, user) db h =
      on_found_keeps db (RevokedIn id) _ _ _ h λ payload _.
        on_found_keeps db (RevokedIn id) _ _ _ h λ db' e. rotate-IsRevoked id now _ _ _ db db' e h

  Step-IsRevoked :
      {db db' : AuthDb} (id : Text)
      → Step order services db db'
      → RevokedIn id db
      → RevokedIn id db'
  Step-IsRevoked {db} {db'} id (registers metadata ids dto e) h = subst (RevokedIn id) e (
      register_cases (λ p. RevokedIn id p.0) db (λ error. h) ids.session_id
        (λ row before after response same new its.
          opens-RevokedIn id db h row before after same new)
        order services metadata ids dto refl)
  Step-IsRevoked {db} {db'} id (logs_in metadata limited session_id dto e) h =
      subst (RevokedIn id) e (
        login_cases (λ p. RevokedIn id p.0) db (λ error. h) session_id
          (λ row before after response same new its.
            opens-RevokedIn id db h row before after same new)
          order services metadata limited dto)
  Step-IsRevoked {db} {db'} id (refreshes metadata now new_id token found e) h =
      subst (RevokedIn id) e (commit_refresh-IsRevoked id metadata now new_id token found db h)
  Step-IsRevoked {db} {db'} id (logs_out now token e) h =
      subst (RevokedIn id) e (logout-IsRevoked id services now token db h)

  Reach-IsRevoked :
      {db db' : AuthDb} (id : Text)
      → Reach order services db db'
      → RevokedIn id db
      → RevokedIn id db'
  Reach-IsRevoked id here h = h
  Reach-IsRevoked id (next r s) h = Step-IsRevoked id s (Reach-IsRevoked id r h)

  commit_refresh-revokes :
      (metadata : RequestMetadata) (now : ℕ) (new_id token : Text) (session : RefreshSession)
      (user : User) (db db' : AuthDb) (answer : AuthAnswer)
      → count (has_id session.id) db.sessions ≤ 1
      → commit_refresh order services metadata now new_id token (session, user) db
        ≡ (db', reply answer)
      → RevokedIn session.id db'
  unfolding commit_refresh
  commit_refresh-revokes metadata now new_id token session user db db' answer keyed e =
      let (payload, _, rest) = on_found_replied db _ _ _ db' answer e in
      let (after, rotated, last) = on_found_replied db _ _ _ db' answer rest in
      subst (RevokedIn session.id) (ap (λ p. p.0) last)
        (rotate-revokes session.id _ now _ db after keyed rotated)

  commit_refresh-refused :
      (metadata : RequestMetadata) (now : ℕ) (new_id token : Text) (session : RefreshSession)
      (user : User) (db : AuthDb)
      → RevokedIn session.id db
      → (error : HttpError) × (commit_refresh order services metadata now new_id token
            (session, user)
            db
          ≡ (db, refuse error))
  unfolding commit_refresh
  commit_refresh-refused metadata now new_id token session user db h =
      on_found_refused db _ _ _ λ payload.
        let refused = rotate-refuses session.id (services.hash_refresh_token token) now _ db h in
        (_, on_found_missing db _ _ _ refused)

  -- A refresh token is exchanged once. After a refresh of a session that succeeded, and after any
  -- further requests that register, log in, refresh or log out, every refresh that read the same
  -- session, before or after, is refused and leaves the tables as they are. This is of a table with one
  -- row for the session.
  pub refresh_once :
      (metadata metadata' : RequestMetadata) (now now' : ℕ) (new_id new_id' token token' : Text)
      (session session' : RefreshSession) (user user' : User) (db db' db'' : AuthDb)
      (answer : AuthAnswer)
      → count (has_id session.id) db.sessions ≤ 1
      → commit_refresh order services metadata now new_id token (session, user) db
        ≡ (db', reply answer)
      → Reach order services db' db''
      → session'.id ≡ session.id
      → (error : HttpError) × (commit_refresh order services metadata' now' new_id' token'
            (session', user')
            db''
          ≡ (db'', refuse error))
  refresh_once metadata metadata' now now' new_id new_id' token token' session session' user user'
        db db' db'' answer keyed done r same =
      commit_refresh-refused metadata' now' new_id' token' session' user' db'' (
        subst (λ id. RevokedIn id db'') (sym same)
          (Reach-IsRevoked session.id r (
            commit_refresh-revokes metadata now new_id token session user db db' answer keyed
              done)))
