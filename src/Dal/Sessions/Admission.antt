-- ===== src/Dal/Sessions/Admission.antt =====
-- `create_session` of app/db/dal.py: one active session for each asset, one session for each key.
use tsg.Base.{
  ℕ, ◌≤◌, ◌≡◌, ◌≢◌, refl, ap, subst, String, Bool, true, false, ◌&&◌, Option, none, some, List, ◌∷◌,
  arith, ◌==◌, if◌then◌else◌, nat_eq, string_eq, is_some_of, any, find_where, count_where,
  count_where-any, find_where-any, any-find_where, Bool-cases, Option-cases, inl, inr,
}
use tsg.Enums.{SessionStatus, session_status_eq}
use tsg.Models.{Db, SessionRow}
use tsg.Dal.Sessions.{
  session_conflict, idempotency_key_conflict, Result, err, ok, is_session, holds_asset,
  has_idempotency_key, violates_index, find_key_holder, session_id_of, create_session, load_session,
}

-- The primary key and the two unique indexes hold of a table.
pub record Admitted (rows : List SessionRow) : Type 0 where
  pub one_per_id : (id : ℕ) → count_where (is_session id) rows ≤ 1
  pub one_per_asset : (entity asset : ℕ) → count_where (holds_asset entity asset) rows ≤ 1
  pub one_per_key :
      (entity : ℕ) (key : String) → count_where (has_idempotency_key entity key) rows ≤ 1

same_key : (o : Option String) (key : String) → is_some_of o key ≡ true → o ≡ some key
same_key none key h = absurd (ground (arith, h))
same_key (some k) key h = ap some ((string_eq.eqb_iff k key).0 h)

key_found :
    (entity : ℕ) (o : Option String) (rows : List SessionRow) (winner : ℕ)
    → elim o [
      | none ↦ none
      | some key ↦
          (if key == ""
            then none
            else session_id_of (find_where (has_idempotency_key entity key) rows))
    ]
      ≡ some winner
    → any
        (λ r.
          r.session_id == winner
          && elim o [ none ↦ false | some key ↦ has_idempotency_key entity key r ])
        rows
      ≡ true
key_found entity none rows winner h = absurd (ground (arith, h))
key_found entity (some key) rows winner h =
    elim (Option-cases (find_where (has_idempotency_key entity key) rows)) [
      | inl e ↦ absurd (ground (arith, h, e))
      | inr (r, e) ↦
          any-find_where (has_idempotency_key entity key) (λ x. x.session_id == winner) rows e
            (ground (arith, h, e))
    ]

-- A key that a session holds has a holder, unless the key is empty.
key_missed :
    (entity : ℕ) (o : Option String) (rows : List SessionRow)
    → o ≢ some ""
    → elim o [
      | none ↦ none
      | some key ↦
          (if key == ""
            then none
            else session_id_of (find_where (has_idempotency_key entity key) rows))
    ]
      ≡ none
    → elim o [ none ↦ false | some key ↦ any (has_idempotency_key entity key) rows ] ≡ false
key_missed entity none rows filled h = refl
key_missed entity (some key) rows filled h =
    elim (Bool-cases (any (has_idempotency_key entity key) rows)) [
      | inr e ↦ e
      | inl e ↦
          let (r, found) = find_where-any (has_idempotency_key entity key) rows e in
          let named : key ≢ "" = λ k. filled (ap some k) in
          absurd (ground (arith, h, found, named, (string_eq.eqb_iff key "").0))
    ]

admits :
    (v : SessionRow) (rows : List SessionRow)
    → Admitted rows
    → violates_index v rows ≡ false
    → Admitted (v ∷ rows)
admits v rows a h = record {
  one_per_id = λ id. elim (Bool-cases (is_session id v)) [
    | inr other ↦ ground (arith, other, a.one_per_id id)
    | inl same ↦
        let e : v.session_id ≡ id = ground (arith, same) in
        let free : count_where (is_session v.session_id) rows ≡ 0 =
          count_where-any (is_session v.session_id) rows (ground (arith, h)) in
        let free' : count_where (is_session id) rows ≡ 0 =
          subst (λ i. count_where (is_session i) rows ≡ 0) e free in
        ground (arith, same, free')
  ];
  one_per_asset = λ entity asset.
      ground
        (arith, h, a.one_per_asset entity asset, count_where-any (holds_asset entity asset) rows);
  one_per_key = λ entity key. ground (
    arith,
    h,
    a.one_per_key entity key,
    count_where-any (has_idempotency_key entity key) rows,
    same_key v.idempotency_key key,
  );
}

-- A session of the entity has the idempotency key of the new row.
abbrev pub key_taken : SessionRow → Db → Bool
key_taken v db = elim v.idempotency_key [
  | none ↦ false
  | some key ↦ any (has_idempotency_key v.entity_id key) db.sessions
]

-- What the answer of `create_session v` says of the tables before it.
abbrev pub Ends : SessionRow → Db → Result (ℕ × Db) → Type 0
Ends v db (ok (sid, db')) =
    (sid ≡ v.session_id) × (load_session sid db' ≡ some v) × Admitted db'.sessions
Ends v db (err (idempotency_key_conflict sid)) =
    any
      (λ r. r.session_id == sid && elim v.idempotency_key [
        | none ↦ false
        | some key ↦ has_idempotency_key v.entity_id key r
      ])
      db.sessions
    ≡ true
Ends v db (err (session_conflict (some sid))) =
    (any (λ r. r.session_id == sid && holds_asset v.entity_id v.asset_external_id r) db.sessions
      ≡ true)
    × (key_taken v db ≡ false)
Ends v db (err (session_conflict none)) =
    (any (is_session v.session_id) db.sessions ≡ true) × (key_taken v db ≡ false)
Ends v db (err _) = ⊥

-- The insert of an active session whose idempotency key, if any, is not empty, into a table that the
-- primary key and the two unique indexes admit: it is stored and found, and they still hold, or the
-- conflict names a session of the table that has the key, or else, where no session has the key, one
-- that is active on the asset, or no session, where the new row's id is taken.
pub create_session_lem :
    (v : SessionRow) (db : Db)
    → v.session_status ≡ SessionStatus.active
    → v.idempotency_key ≢ some ""
    → Admitted db.sessions
    → Ends v db (create_session v db)
unfolding create_session
create_session_lem v db active key a = go (violates_index v db.sessions) refl
  where
    by_asset :
        (o : Option SessionRow)
        → find_where (holds_asset v.entity_id v.asset_external_id) db.sessions ≡ o
        → violates_index v db.sessions ≡ true
        → find_key_holder v db.sessions ≡ none
        → Ends v db (err (session_conflict (session_id_of o)))
    by_asset none e bad no_key = (
      ground (
        arith,
        e,
        bad,
        find_where-any (holds_asset v.entity_id v.asset_external_id) db.sessions,
        key_missed v.entity_id v.idempotency_key db.sessions key no_key,
      ),
      key_missed v.entity_id v.idempotency_key db.sessions key no_key,
    )
    by_asset (some r) e bad no_key = (
      any-find_where (holds_asset v.entity_id v.asset_external_id)
          (λ x. x.session_id == r.session_id) db.sessions e (ground arith),
      key_missed v.entity_id v.idempotency_key db.sessions key no_key,
    )

    by_key :
        (o : Option ℕ)
        → find_key_holder v db.sessions ≡ o
        → violates_index v db.sessions ≡ true
        → Ends v db (elim o [
          | some winner ↦ err (idempotency_key_conflict winner)
          | none ↦ err (
              session_conflict (
                session_id_of
                  (find_where (holds_asset v.entity_id v.asset_external_id) db.sessions)))
        ])
    by_key (some winner) e bad = key_found v.entity_id v.idempotency_key db.sessions winner e
    by_key none e bad = by_asset _ refl bad e

    go :
        (b : Bool)
        → violates_index v db.sessions ≡ b
        → Ends v db (
            if b
            then elim (find_key_holder v db.sessions) [
              | some winner ↦ err (idempotency_key_conflict winner)
              | none ↦ err (
                  session_conflict (
                    session_id_of
                      (find_where (holds_asset v.entity_id v.asset_external_id) db.sessions)))
            ]
            else ok (v.session_id, record db { sessions = v ∷ db.sessions }))
    go true bad = by_key _ refl bad
    go false fine = (refl, unfold load_session in ground arith, admits v db.sessions a fine)
