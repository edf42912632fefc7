-- ===== src/Auth/SessionSet.antt =====
-- The open sessions as a set of identifiers, which is all that a request reads or changes of the other
-- sessions (apps/api/src/auth/auth.service.ts).
use autonomous_csa.Base.{
  ◌≤◌, ℕ, ◌≡◌, refl, sym, ap, subst, ◌∙◌, Bool-cases, Option-cases, inl, inr, Bool, true, false,
  not, ◌&&◌, ◌||◌, ◌⊎◌, List, [], ◌∷◌, Option, none, some, Text, text_eq, text_eq→eq, any, count,
  count_of_any, arith,
}
use autonomous_csa.Http.{Response, refuse, reply, on_found_cases}
use autonomous_csa.Auth.Sessions.{
  RefreshSession, User, AuthDb, AuthServices, RequestMetadata, MemberView, AuthAnswer,
  RefreshPayload, has_id, create_session, add_session, is_rotatable, revoke_where, rotate, logout,
  commit_refresh,
}
use autonomous_csa.Auth.Accounts.{register, login}
use autonomous_csa.Auth.SessionLaws.{
  is_open, Step, registers, logs_in, refreshes, logs_out, create_session_lem, revoked_db,
  rotate_lem, register_cases, login_cases, any-revoke_where, not_rotatable, revoke-closes,
}

-- What a request asks of the set: one more, one in the place of another, or one less, if it names one.
pub data SetRequest : Type 0 where
  opens : Text → SetRequest
  replaces : (old new : Text) → SetRequest
  closes : Option Text → SetRequest

module _ (before after : Text → Bool) where
  abbrev pub Same : Type 0
  Same = (i : Text) → after i ≡ before i

  abbrev pub IsOpened : Text → Type 0
  IsOpened id = (before id ≡ false) × ((i : Text) → after i ≡ (text_eq id i || before i))

  abbrev pub IsReplaced : Text → Text → Type 0
  IsReplaced old new =
      (before old ≡ true)
      × (before new ≡ false)
      × ((i : Text) → after i ≡ (text_eq new i || (before i && not (text_eq old i))))

  abbrev pub IsClosed : Text → Type 0
  IsClosed id = (i : Text) → after i ≡ (before i && not (text_eq id i))

  -- The step of a request on the set. Only a request that was refused may leave undone what it asks.
  abbrev pub SetStep : SetRequest → (replied : Bool) → Type 0
  SetStep (opens id) replied = IsOpened id ⊎ ((replied ≡ false) × Same)
  SetStep (replaces old new) replied = IsReplaced old new ⊎ ((replied ≡ false) × Same)
  SetStep (closes none) replied = Same
  SetStep (closes (some id)) replied = IsClosed id

abbrev pub open_in : AuthDb → Text → Bool
open_in db id = any (is_open id) db.sessions

-- One row for each identifier.
abbrev pub IsKeyed : AuthDb → Type 0
IsKeyed db = (id : Text) → count (has_id id) db.sessions ≤ 1

abbrev pub is_reply : Response AuthAnswer → Bool
is_reply (refuse error) = false
is_reply (reply answer) = true

abbrev pub sid_of : Option RefreshPayload → Option Text
sid_of none = none
sid_of (some payload) = some payload.sid

module _ (order : List MemberView → List MemberView) (services : AuthServices) where
  -- What each request asks of the set, and whether it was answered with a reply: `logout` always is.
  abbrev pub request_of : {db db' : AuthDb} → Step order services db db' → SetRequest
  request_of (registers metadata ids dto e) = opens ids.session_id
  request_of (logs_in metadata limited session_id dto e) = opens session_id
  request_of (refreshes metadata now new_id token found e) = replaces found.0.id new_id
  request_of (logs_out now token e) = closes (sid_of (services.verify_refresh_token token))

  abbrev pub has_replied : {db db' : AuthDb} → Step order services db db' → Bool
  has_replied {db} (registers metadata ids dto e) =
      is_reply (register order services metadata ids dto db).1
  has_replied {db} (logs_in metadata limited session_id dto e) =
      is_reply (login order services metadata limited session_id dto db).1
  has_replied {db} (refreshes metadata now new_id token found e) =
      is_reply (commit_refresh order services metadata now new_id token found db).1
  has_replied (logs_out now token e) = true

abbrev Refines : SetRequest → AuthDb → AuthDb → Bool → Type 0
Refines request db db' replied = SetStep (open_in db) (open_in db') request replied × IsKeyed db'

not_open :
    (id : Text) (sessions : List RefreshSession)
    → any (has_id id) sessions ≡ false
    → any (is_open id) sessions ≡ false
not_open id [] h = refl
not_open id (s ∷ sessions) h = ground (arith, h, not_open id sessions)

same_id : (a b i : Text) → text_eq a b ≡ true → text_eq a i ≡ text_eq b i
same_id a b i h = ap (λ t. text_eq t i) (text_eq→eq a b h)

-- A row that is added, and one that is kept under its identifier.
added_open :
    (row : RefreshSession) (sessions : List RefreshSession) (i : Text)
    → row.revoked_at ≡ none
    → any (is_open i) (row ∷ sessions) ≡ (text_eq row.id i || any (is_open i) sessions)
added_open row sessions i new = ground (arith, new)

added_keyed :
    (row : RefreshSession) (sessions : List RefreshSession) (i : Text)
    → any (has_id row.id) sessions ≡ false
    → count (has_id i) sessions ≤ 1
    → count (has_id i) (row ∷ sessions) ≤ 1
added_keyed row sessions i fresh keyed = elim (Bool-cases (text_eq row.id i)) [
  | inl e ↦
      let none_there =
        ap (λ t. count (has_id t) sessions) (sym (text_eq→eq row.id i e))
        ∙ count_of_any (has_id row.id) sessions fresh in
      ground (arith, none_there)
  | inr e ↦ ground (arith, keyed, e)
]

count-revoke_where :
    (id : Text) (test : RefreshSession → Bool) (now : ℕ) (sessions : List RefreshSession)
    → count (has_id id) (revoke_where test now sessions) ≡ count (has_id id) sessions
unfolding revoke_where
count-revoke_where id test now [] = refl
count-revoke_where id test now (s ∷ sessions) =
    ground (arith, count-revoke_where id test now sessions)

-- Revoking rows of one identifier leaves the others as they are.
kept_open :
    (old i : Text) (test : RefreshSession → Bool) (now : ℕ) (sessions : List RefreshSession)
    → ((s : RefreshSession) → test s ≡ true → text_eq s.id old ≡ true)
    → text_eq old i ≡ false
    → any (is_open i) (revoke_where test now sessions) ≡ any (is_open i) sessions
unfolding revoke_where
kept_open old i test now [] only other = refl
kept_open old i test now (s ∷ sessions) only other =
    ground (arith, kept_open old i test now sessions only other, only s, same_id s.id old i)

closed_by_logout :
    (id : Text) (now : ℕ) (sessions : List RefreshSession)
    → any (is_open id) (revoke_where (is_open id) now sessions) ≡ false
unfolding revoke_where
closed_by_logout id now [] = refl
closed_by_logout id now (s ∷ sessions) = ground (arith, closed_by_logout id now sessions)

-- Where one test closes an identifier and touches no other.
closing_lem :
    (old i : Text) (test : RefreshSession → Bool) (now : ℕ) (sessions : List RefreshSession)
    → ((s : RefreshSession) → test s ≡ true → text_eq s.id old ≡ true)
    → any (is_open old) (revoke_where test now sessions) ≡ false
    → any (is_open i) (revoke_where test now sessions)
      ≡ (any (is_open i) sessions && not (text_eq old i))
closing_lem old i test now sessions only closed = elim (Bool-cases (text_eq old i)) [
  | inl e ↦
      let same =
        ap (λ t. any (is_open t) (revoke_where test now sessions)) (sym (text_eq→eq old i e)) in
      ground (arith, same, closed, e)
  | inr e ↦ ground (arith, kept_open old i test now sessions only e, e)
]

add_session_lem :
    (row : RefreshSession) (db db' : AuthDb)
    → add_session row db ≡ some db'
    → (any (has_id row.id) db.sessions ≡ false) × (row ∷ db.sessions ≡ db'.sessions)
unfolding add_session
add_session_lem row db db' e = elim (Option-cases (create_session row db.sessions)) [
  | inl refused ↦ ground (arith, e, refused)
  | inr (sessions, created) ↦
      let p = create_session_lem row db.sessions sessions created in
      (p.0, ground (arith, e, created, p.1))
]

add_session-Refines :
    (row : RefreshSession) (before after : AuthDb) (db : AuthDb) (replied : Bool)
    → IsKeyed db
    → before.sessions ≡ db.sessions
    → row.revoked_at ≡ none
    → add_session row before ≡ some after
    → Refines (opens row.id) db after replied
add_session-Refines row before after db replied keyed same new e =
    let (fresh, added) = add_session_lem row before after e in
    let fresh' = ap (any (has_id row.id)) (sym same) ∙ fresh in
    let row_on = ap (λ t. row ∷ t) (sym same) ∙ added in
    (
      inl (
        not_open row.id db.sessions fresh',
        λ i. sym (ap (any (is_open i)) row_on) ∙ added_open row db.sessions i new,
      ),
      λ i.
          subst (λ t. count (has_id i) t ≤ 1) row_on
            (added_keyed row db.sessions i fresh' (keyed i)),
    )

opened-Refines :
    (id : Text) (db : AuthDb)
    → IsKeyed db
    → (row : RefreshSession) (before after : AuthDb) (response : Response AuthAnswer)
    → before.sessions ≡ db.sessions
    → row.revoked_at ≡ none
    → row.id ≡ id
    → add_session row before ≡ some after
    → Refines (opens id) db after (is_reply response)
opened-Refines id db keyed row before after response same new its e =
    subst (λ i. Refines (opens i) db after (is_reply response)) its
      (add_session-Refines row before after db (is_reply response) keyed same new e)

opens-refused : (id : Text) (db : AuthDb) → IsKeyed db → Refines (opens id) db db false
opens-refused id db keyed = (inr (refl, λ i. refl), keyed)

replaces-refused :
    (old new : Text) (db : AuthDb) → IsKeyed db → Refines (replaces old new) db db false
replaces-refused old new db keyed = (inr (refl, λ i. refl), keyed)

opened_by_count :
    (id hash : Text) (now : ℕ) (sessions : List RefreshSession)
    → count (is_rotatable id hash now) sessions ≡ 1
    → any (is_open id) sessions ≡ true
opened_by_count id hash now sessions one = elim (Bool-cases (any (is_open id) sessions)) [
  | inl e ↦ e
  | inr e ↦ ground (arith, one, not_rotatable id hash now sessions e)
]

only_rotatable :
    (id hash : Text) (now : ℕ) (s : RefreshSession)
    → is_rotatable id hash now s ≡ true
    → text_eq s.id id ≡ true
only_rotatable id hash now s h = ground (arith, h)

rotate-Refines :
    (now : ℕ) (old hash : Text) (row : RefreshSession) (db db' : AuthDb) (replied : Bool)
    → IsKeyed db
    → row.revoked_at ≡ none
    → rotate now old hash row db ≡ some db'
    → Refines (replaces old row.id) db db' replied
rotate-Refines now old hash row db db' replied keyed new e =
    let test = is_rotatable old hash now in
    let (one, added) = rotate_lem now old hash row db db' e in
    let revoked_rows = revoke_where test now db.sessions in
    let (fresh, row_on) = add_session_lem row (revoked_db test now db) db' added in
    let closed = (revoke-closes old hash now db.sessions (keyed old) one).1 in
    (
      inl (
        opened_by_count old hash now db.sessions one,
        not_open row.id db.sessions (sym (any-revoke_where row.id test now db.sessions) ∙ fresh),
        λ i.
            sym (ap (any (is_open i)) row_on)
            ∙ added_open row revoked_rows i new
            ∙ ap (λ b. text_eq row.id i || b)
                (closing_lem old i test now db.sessions (only_rotatable old hash now) closed),
      ),
      λ i.
          subst (λ t. count (has_id i) t ≤ 1) row_on
            (added_keyed row revoked_rows i fresh
              (subst (λ n. n ≤ 1) (sym (count-revoke_where i test now db.sessions)) (keyed i))),
    )

only_open : (id : Text) (s : RefreshSession) → is_open id s ≡ true → text_eq s.id id ≡ true
only_open id s h = ground (arith, h)

logout-Refines :
    (services : AuthServices) (now : ℕ) (token : Text) (db : AuthDb)
    → IsKeyed db
    → Refines
        (closes (sid_of (services.verify_refresh_token token)))
        db
        (logout services now token db)
        true
unfolding logout
logout-Refines services now token db keyed =
    elim (Option-cases (services.verify_refresh_token token)) [
      | inl e ↦ rw (logout, e) (λ i. refl, keyed)
      | inr (payload, e) ↦
          let test = is_open payload.sid in
          rw (logout, e)
            (
              λ i.
                  closing_lem payload.sid i test now db.sessions (only_open payload.sid)
                    (closed_by_logout payload.sid now db.sessions),
              λ i. subst (λ n. n ≤ 1) (sym (count-revoke_where i test now db.sessions)) (keyed i),
            )
    ]

-- What a request leaves and answers, as a step of what it asks.
abbrev AnswersStep : SetRequest → AuthDb → AuthDb × Response AuthAnswer → Type 0
AnswersStep request db p = Refines request db p.0 (is_reply p.1)

module _ (order : List MemberView → List MemberView) (services : AuthServices) where
  commit_refresh-Refines :
      (metadata : RequestMetadata) (now : ℕ) (new_id token : Text) (found : RefreshSession × User)
      (db : AuthDb)
      → IsKeyed db
      → AnswersStep
          (replaces found.0.id new_id)
          db
          (commit_refresh order services metadata now new_id token found db)
  unfolding commit_refresh
  commit_refresh-Refines metadata now new_id token (session, user) db keyed =
      let P = AnswersStep (replaces session.id new_id) db in
      on_found_cases db P _ _ _ (λ error. replaces-refused session.id new_id db keyed)
        λ payload _.
          on_found_cases db P _ _ _ (λ error. replaces-refused session.id new_id db keyed)
            λ db' e. rotate-Refines now _ _ _ db db' _ keyed refl e

  -- Each request on a table with one row for each session is the step on the set of the open
  -- sessions that it asks for. A registration or a login opens its new session, which was not open; a
  -- refresh opens its new session in the place of the one that it read, which was open; only where one of
  -- these three is refused may it leave the set as it is. A logout closes the session of its token and
  -- no other, and leaves the set with a token that is not accepted. The table has one row for each session
  -- afterwards, too.
  pub Step-SetStep :
      {db db' : AuthDb}
      → IsKeyed db
      → (step : Step order services db db')
      → SetStep
          (open_in db)
          (open_in db')
          (request_of order services step)
          (has_replied order services step)
        × IsKeyed db'
  Step-SetStep {db} {db'} keyed (registers metadata ids dto e) =
      subst
        (λ x.
          Refines (opens ids.session_id) db x
            (is_reply (register order services metadata ids dto db).1))
        e
        (register_cases (AnswersStep (opens ids.session_id) db) db
          (λ error. opens-refused ids.session_id db keyed) ids.session_id
          (opened-Refines ids.session_id db keyed) order services metadata ids dto refl)
  Step-SetStep {db} {db'} keyed (logs_in metadata limited session_id dto e) =
      subst
        (λ x.
          Refines (opens session_id) db x
            (is_reply (login order services metadata limited session_id dto db).1))
        e
        (login_cases (AnswersStep (opens session_id) db) db
          (λ error. opens-refused session_id db keyed) session_id
          (opened-Refines session_id db keyed) order services metadata limited dto)
  Step-SetStep {db} {db'} keyed (refreshes metadata now new_id token found e) =
      subst
        (λ x.
          Refines (replaces found.0.id new_id) db x
            (is_reply (commit_refresh order services metadata now new_id token found db).1))
        e (commit_refresh-Refines metadata now new_id token found db keyed)
  Step-SetStep {db} {db'} keyed (logs_out now token e) =
      subst (λ x. Refines (closes (sid_of (services.verify_refresh_token token))) db x true) e
        (logout-Refines services now token db keyed)
