-- ===== src/Store/Replay.antt =====
-- internal/store/pairing.go: a machine link that is presented again.
use nox_app.Base.{
  ℕ, ◌≤◌, String, ◌≡◌, ◌≢◌, refl, ap, sym, ◌∙◌, subst, Bool, true, false, not, ◌&&◌, none, some,
  List, [], ◌∷◌, arith, All, same, holds, same→eq, inl, inr, Option-cases,
}
use nox_app.Sql.{select, update, count}
use nox_app.Sql.Laws.{select-update, select-meets, select_narrow, select_unmet}
use nox_app.Sql.Counts.{count-update}
use nox_app.Db.{Db, TokenRow, UserRow, machine}
use nox_app.Tx.{Tx, ok, err, pure, token_invalid, ◌>>=◌, ◌>>◌}
use nox_app.Tx.Within.{>>=-eq-ok}
use nox_app.Store.Identity.{
  Entropy, Identity, is_device, insert_user, device_owner_of, count_people, person_row,
}
use nox_app.Store.Tokens.{
  PairToken, scanned_token, is_token, unspent, read_token, paired_by, spend_token, bind_device,
  record_outcome, resolve_sole_person, sole_user, join_by_machine_link, pair_by_machine_link,
}
use nox_app.Store.Requests.{PairResult}
use nox_app.Store.Pairing.{pair, pair_kind, paired_result}
use nox_app.Store.Effects.{
  after_spend, after_outcome, after_bind, spendable, spent_row, spent_tokens, outcome_row,
}
use nox_app.Store.Answers.Joined.{bind_device-IsBound, owner_of_rows}

-- The person that a machine link goes to, found or brought into being.
pub record IsResolved (id : Identity) (a b : Db) : Type 0 where
  pub devices : b.devices ≡ a.devices
  pub tokens : b.tokens ≡ a.tokens
  pub label : UserRow
  pub known : select (λ u. same id.user_id u.user_id) b.users ≡ some label
  pub name : label.label ≡ id.label
  pub same_id : label.user_id ≡ id.user_id

IsResolved-by :
    (rnd : Entropy) (now : ℕ) (a b : Db) (id : Identity) (people : List UserRow)
    → a.users ≡ people
    → resolve_sole_person rnd now a ≡ ok (id, b)
    → IsResolved id a b
unfolding resolve_sole_person sole_user count_people select insert_user
IsResolved-by rnd now a b id [] none_yet e = record {
  devices = ground arith;
  tokens = ground arith;
  label = person_row id now;
  known = let rows : b.users ≡ person_row id now ∷ [] = ground arith in rw rows (ground arith);
  name = refl;
  same_id = refl;
}
IsResolved-by rnd now a b id (u ∷ []) sole e = record {
  devices = ground arith;
  tokens = ground arith;
  label = u;
  known = let rows : b.users ≡ u ∷ [] = ground arith in rw rows (ground arith);
  name = ground arith;
  same_id = ground arith;
}
IsResolved-by rnd now a b id (u ∷ v ∷ people) more e = absurd (ground arith)

-- How a machine link that joins a device leaves the store.
pub record IsTaken (t key : String) (id : Identity) (db : Db) : Type 0 where
  pub row : TokenRow
  pub there : select (is_token t) db.tokens ≡ some row
  pub used : unspent row ≡ false
  pub used_by : row.used_by ≡ some key
  pub produced : row.paired_user_id ≡ some id.user_id
  pub created : row.created_person ≡ id.created
  pub kind : row.kind ≡ machine
  pub person : UserRow
  pub known : select (λ u. same id.user_id u.user_id) db.users ≡ some person
  pub name : person.label ≡ id.label
  pub same_id : person.user_id ≡ id.user_id
  pub owner : device_owner_of key db ≡ id.user_id

module _ (rnd : Entropy) (pt : PairToken) (key platform : String) (now : ℕ) where
  finish : Identity → Tx (Identity × Bool)
  finish id = record_outcome pt.token id >> pure (id, true)

  bind : Identity → Tx (Identity × Bool)
  bind id = bind_device key id.user_id platform now >> finish id

  joined_rows :
      (db db' : Db) (id : Identity) (row : TokenRow) (j : Bool)
      → All (λ d. d.user_id ≢ "") db.devices
      → select (is_token pt.token) db.tokens ≡ some row
      → row.kind ≡ machine
      → pt ≡ scanned_token row
      → join_by_machine_link rnd pt key platform now db ≡ ok ((id, j), db')
      → IsTaken pt.token key id db'
        × (count (is_token pt.token) db'.tokens ≡ count (is_token pt.token) db.tokens)
  unfolding join_by_machine_link finish bind
  joined_rows db db' id row j named there machine_row scan e =
      let (s, db₁, spend, e₁) =
        >>=-eq-ok (spend_token pt.token key now) (λ _. resolve_sole_person rnd now >>= bind) db
          (id, j) db' (ground arith) in
      let (id₂, db₂, resolves, e₂) =
        >>=-eq-ok (resolve_sole_person rnd now) bind db₁ (id, j) db' e₁ in
      let (b, db₃, binds, e₃) =
        >>=-eq-ok (bind_device key id₂.user_id platform now) (λ _. finish id₂) db₂ (id, j) db' e₂ in
      let (o, db₄, records, e₄) =
        >>=-eq-ok (record_outcome pt.token id₂) (λ _. pure (id₂, true)) db₃ (id, j) db' e₃ in
      let w₁ = (after_spend db db₁ pt.token key now s spend).0 in
      let w₂ = IsResolved-by rnd now db₁ db₂ id₂ db₁.users refl resolves in
      let w₃ = (after_bind db₂ db₃ key id₂.user_id platform now b binds).1 in
      let w₄ = after_outcome db₃ db₄ pt.token id₂ o records in
      let same_person : id₂ ≡ id = ground arith in
      let last : db₄ ≡ db' = ground arith in
      let rows : db'.tokens
          ≡ update (is_token pt.token) (outcome_row id₂) (spent_tokens pt.token key now db.tokens) =
        ground arith in
      let seen₁ =
        select-update (is_token pt.token) (spendable pt.token) (spent_row key now) db.tokens
          (λ x. refl) in
      let seen₂ =
        select-update (is_token pt.token) (is_token pt.token) (outcome_row id₂)
          (spent_tokens pt.token key now db.tokens) (λ x. refl) in
      let met = select-meets (is_token pt.token) db.tokens row there in
      let fresh : unspent row ≡ true = ground arith in
      let found : select (is_token pt.token) db'.tokens
          ≡ some (outcome_row id₂ (spent_row key now row)) =
        rw (rows, seen₂, seen₁) (ground arith) in
      let bound =
        bind_device-IsBound key id₂.user_id platform now db₂ db₃
          (subst (All (λ d. d.user_id ≢ "")) {x = db.devices} {y = db₂.devices}
            (ground (arith, w₂.devices)) named)
          binds in
      let people : db'.users ≡ db₂.users = ground arith in
      let devices : db'.devices ≡ db₃.devices = ground arith in
      let kept₁ =
        count-update (is_token pt.token) (spendable pt.token) (spent_row key now) db.tokens
          (λ x. refl) in
      let kept₂ =
        count-update (is_token pt.token) (is_token pt.token) (outcome_row id₂)
          (spent_tokens pt.token key now db.tokens) (λ x. refl) in
      (
        record {
          row = outcome_row id₂ (spent_row key now row);
          there = found;
          used = refl;
          used_by = refl;
          produced = ground arith;
          created = ground arith;
          kind = machine_row;
          person = w₂.label;
          known =
              subst (λ us. select (λ u. same id.user_id u.user_id) us ≡ some w₂.label) (sym people)
                (subst (λ i. select (λ u. same i.user_id u.user_id) db₂.users ≡ some w₂.label)
                  same_person w₂.known);
          name = ground (arith, w₂.name);
          same_id = ground (arith, w₂.same_id);
          owner =
              owner_of_rows key db₃ db' (sym devices)
              ∙ bound.owner
              ∙ ap (λ x. x.user_id) same_person;
        },
        ap (count (is_token pt.token)) rows ∙ kept₂ ∙ kept₁,
      )

-- The lookup of a lost reply, in a store where the token is taken.
paired_by-IsTaken :
    (t key : String) (id : Identity) (db : Db)
    → IsTaken t key id db
    → id.user_id ≢ ""
    → paired_by t key db ≡ some id
unfolding paired_by device_owner_of
paired_by-IsTaken t key id db v named =
    let met = select-meets (is_token t) db.tokens v.row v.there in
    let hit =
      select_narrow (is_token t) (λ r. is_token t r && not (unspent r) && holds r.used_by key)
        db.tokens v.row (λ y h. ground arith) v.there (ground (arith, v.used, v.used_by)) in
    elim (Option-cases (select (is_device key) db.devices)) [
      | inl missing ↦ absurd (ground (arith, v.owner))
      | inr (d, found) ↦
          let here = select-meets (is_device key) db.devices d found in
          let device =
            select_narrow (is_device key) (λ x. same x.device_key key && same id.user_id x.user_id)
              db.devices d (λ y h. ground arith) found (ground (arith, v.owner)) in
          rw (hit, v.produced, v.known, device) (ground (arith, v.name, v.same_id, v.created))
    ]

paired_by_stranger :
    (t key key' : String) (id : Identity) (db : Db)
    → IsTaken t key id db
    → count (is_token t) db.tokens ≤ 1
    → key' ≢ key
    → paired_by t key' db ≡ none
unfolding paired_by
paired_by_stranger t key key' id db v one ne =
    let unmet =
      select_unmet (is_token t) (λ r. is_token t r && not (unspent r) && holds r.used_by key')
        db.tokens v.row (λ y h. ground arith) one v.there (ground (arith, v.used_by)) in
    rw unmet

taken :
    (rnd : Entropy) (t key platform : String) (now : ℕ) (db db' : Db) (row : TokenRow)
    (a : PairResult)
    → All (λ d. d.user_id ≢ "") db.devices
    → select (is_token t) db.tokens ≡ some row
    → row.kind ≡ machine
    → a.joined ≡ true
    → pair rnd t key platform now db ≡ ok (a, db')
    → IsTaken t key a.identity db'
      × (count (is_token t) db'.tokens ≡ count (is_token t) db.tokens)
      × (a ≡ paired_result (a.identity, true))
unfolding pair read_token pair_kind pair_by_machine_link
taken rnd t key platform now db db' row a named there machine_row joined e =
    elim (Option-cases (paired_by row.token key db)) [
      | inr (id, again) ↦ absurd (ground arith)
      | inl first ↦
          let same_t = same→eq row.token t (select-meets (is_token t) db.tokens row there) in
          let here = subst (λ x. select (is_token x) db.tokens ≡ some row) (sym same_t) there in
          let joins : join_by_machine_link rnd (scanned_token row) key platform now db
              ≡ ok ((a.identity, true), db') =
            ground arith in
          let rows =
            joined_rows rnd (scanned_token row) key platform now db db' a.identity row true named
              here machine_row refl joins in
          (
            subst (λ x. IsTaken x key a.identity db') same_t rows.0,
            subst (λ x. count (is_token x) db'.tokens ≡ count (is_token x) db.tokens) same_t rows.1,
            ground arith,
          )
    ]

-- Where no device row has an empty person and the token is a machine link: if a device joins by
-- it, as a person whose id is not empty, then presenting the link again for the same key, at any
-- second and with any platform, gives the same answer marked as not joining now, and writes
-- nothing.
pub pair-replay :
    (rnd rnd' : Entropy) (t key platform platform' : String) (now later : ℕ) (db db' : Db)
    (row : TokenRow) (a : PairResult)
    → All (λ d. d.user_id ≢ "") db.devices
    → select (is_token t) db.tokens ≡ some row
    → row.kind ≡ machine
    → a.joined ≡ true
    → a.identity.user_id ≢ ""
    → pair rnd t key platform now db ≡ ok (a, db')
    → pair rnd' t key platform' later db' ≡ ok (record a { joined = false }, db')
unfolding pair read_token pair_kind pair_by_machine_link
pair-replay rnd rnd' t key platform platform' now later db db' row a named there machine_row joined
      person e =
    let (v, kept, shape) =
      taken rnd t key platform now db db' row a named there machine_row joined e in
    let same_t = same→eq v.row.token t (select-meets (is_token t) db'.tokens v.row v.there) in
    let again =
      subst (λ x. paired_by x key db' ≡ some a.identity) (sym same_t)
        (paired_by-IsTaken t key a.identity db' v person) in
    ground (arith, v.there, v.kind)

-- Where no device row has an empty person and one row at most has the token, a machine link: if a
-- device joins by it, then presenting the link for another key, at any second and with any
-- platform, is refused as invalid.
pub pair_by_another :
    (rnd rnd' : Entropy) (t key key' platform platform' : String) (now later : ℕ) (db db' : Db)
    (row : TokenRow) (a : PairResult)
    → All (λ d. d.user_id ≢ "") db.devices
    → count (is_token t) db.tokens ≤ 1
    → select (is_token t) db.tokens ≡ some row
    → row.kind ≡ machine
    → a.joined ≡ true
    → key' ≢ key
    → pair rnd t key platform now db ≡ ok (a, db')
    → pair rnd' t key' platform' later db' ≡ err token_invalid
unfolding pair read_token pair_kind pair_by_machine_link join_by_machine_link
pair_by_another rnd rnd' t key key' platform platform' now later db db' row a named one there
      machine_row joined ne e =
    let (v, kept, shape) =
      taken rnd t key platform now db db' row a named there machine_row joined e in
    let same_t = same→eq v.row.token t (select-meets (is_token t) db'.tokens v.row v.there) in
    let again =
      subst (λ x. paired_by x key' db' ≡ none) (sym same_t)
        (paired_by_stranger t key key' a.identity db' v (omega arith) ne) in
    ground (arith, v.there, v.kind, v.used)
