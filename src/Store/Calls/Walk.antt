-- ===== src/Store/Calls/Walk.antt =====
-- The calls of internal/store on pairing as a few writes, and rules to carry a relation across them.
use nox_app.Base.{ℕ, String, ◌≡◌, refl, Bool, Option, none, some, List, [], ◌∷◌}
use nox_app.Db.{Db, UserRow, DeviceRow, Kind, machine, invite_device, other_kind, TokenRow}
use nox_app.Tx.{Tx, Result, ok, err, Error, run, settle, token_invalid}
use nox_app.Tx.Within.{
  Within, Within-read, Within-pure, Within-require, Within-bind, Within-fail, Within-if,
}
use nox_app.Store.Identity.{
  Entropy, Identity, touch_device, insert_user, resolve_identity, found_identity, set_label,
}
use nox_app.Store.Tokens.{
  PairToken, spend_token, bind_device, record_outcome, insert_machine_link, issue_device_invite,
  issue_machine_link, page_machine_link, mint_page_link, resolve_sole_person, sole_user,
  first_person, join_by_machine_link, pair_by_machine_link, read_token, scan_token,
  join_or_replay_link,
}
use nox_app.Store.Requests.{
  PairRequest, allow_request, answerable, decide_pair_request, person_of, refused_as,
}
use nox_app.Store.Calls.Closings.{Closings, by_invite, denies, cancel-Within, expire-Within}
use nox_app.Store.Calls.{
  Call, resolves, names, issues, pages, invites, pairs, decides, cancels, expires, revokes, step,
  history,
}
use nox_app.Store.Pairing.{pair, pair_kind}
use nox_app.Store.Devices.{remove_device, revoke_device_by, revoke_found, check_caller}

pub record Writes (R : Db → Db → Type 0) : Type 0 where
  pub closings : Closings R
  pub touches : (key : String) (now : ℕ) (db : Db) → Within R (touch_device key now) db
  pub labels : (id label : String) (db : Db) → Within R (set_label id label) db
  pub users : (rnd : Entropy) (now : ℕ) (db : Db) → Within R (insert_user rnd now) db
  pub binds :
      (key user platform : String) (now : ℕ) (db : Db)
      → Within R (bind_device key user platform now) db
  pub spends : (t key : String) (now : ℕ) (db : Db) → Within R (spend_token t key now) db
  pub records : (t : String) (id : Identity) (db : Db) → Within R (record_outcome t id) db
  pub links : (rnd : Entropy) (now : ℕ) (db : Db) → Within R (insert_machine_link rnd now) db
  pub invites :
      (rnd : Entropy) (issuer : String) (now : ℕ) (db : Db)
      → Within R (issue_device_invite rnd issuer now) db
  pub removes : (key : String) (now : ℕ) (db : Db) → Within R (remove_device key now) db

module _ {R : Db → Db → Type 0} (w : Writes R) where
  open w use {closings}
  open closings use {flow}

  found : (o : Option Identity) (db : Db) → Within R (found_identity o) db
  found none db = Within-fail _ db
  found (some id) db = Within-pure flow id db

  resolve : (key : String) (now : ℕ) (db : Db) → Within R (resolve_identity key now) db
  unfolding resolve_identity
  resolve key now db =
      search (flow, found, Within-read, Within-pure, Within-require, Within-bind, w.touches)

  mint : (rnd : Entropy) (now : ℕ) (db : Db) → Within R (mint_page_link rnd now) db
  unfolding mint_page_link
  mint rnd now db = search (flow, Within-read, Within-pure, Within-if, Within-bind, w.links)

  page :
      (seen : Db) (rnd : Entropy) (now : ℕ) (db : Db) → Within R (page_machine_link seen rnd now) db
  unfolding page_machine_link
  page seen rnd now db = search (flow, Within-pure, Within-if, mint)

  scans : (row : Option TokenRow) (db : Db) → Within R (scan_token row) db
  scans none db = Within-fail _ db
  scans (some r) db = Within-pure flow _ db

  reads : (t : String) (db : Db) → Within R (read_token t) db
  unfolding read_token
  reads t db = search (flow, Within-read, Within-bind, scans)

  first : (people : List UserRow) (db : Db) → Within R (first_person people) db
  first [] db = Within-fail _ db
  first (u ∷ _) db = Within-pure flow _ db

  sole : (db : Db) → Within R sole_user db
  unfolding sole_user
  sole db = search (flow, Within-read, Within-bind, first)

  person : (rnd : Entropy) (now : ℕ) (db : Db) → Within R (resolve_sole_person rnd now) db
  unfolding resolve_sole_person
  person rnd now db =
      search (flow, Within-read, Within-pure, Within-fail, Within-if, Within-bind, sole, w.users)

  joins :
      (rnd : Entropy) (pt : PairToken) (key platform : String) (now : ℕ) (db : Db)
      → Within R (join_by_machine_link rnd pt key platform now) db
  unfolding join_by_machine_link
  joins rnd pt key platform now db =
      search (flow, Within-pure, Within-require, Within-bind, person, w.spends, w.binds, w.records)
        depth 12

  join_or_replay :
      (o : Option Identity) (rnd : Entropy) (pt : PairToken) (key platform : String) (now : ℕ)
      (db : Db)
      → Within R (join_or_replay_link o rnd pt key platform now) db
  join_or_replay none rnd pt key platform now db = joins rnd pt key platform now db
  join_or_replay (some id) rnd pt key platform now db = Within-pure flow _ db

  by_link :
      (rnd : Entropy) (pt : PairToken) (key platform : String) (now : ℕ) (db : Db)
      → Within R (pair_by_machine_link rnd pt key platform now) db
  unfolding pair_by_machine_link
  by_link rnd pt key platform now db = search (flow, Within-read, Within-bind, join_or_replay)

  by_kind :
      (k : Kind) (rnd : Entropy) (pt : PairToken) (key platform : String) (now : ℕ) (db : Db)
      → Within R (pair_kind k rnd pt key platform now) db
  unfolding pair_kind
  by_kind machine rnd pt key platform now db = search (flow, Within-pure, Within-bind, by_link)
  by_kind invite_device rnd pt key platform now db = by_invite closings rnd pt key platform now db
  by_kind (other_kind _) rnd pt key platform now db = Within-fail _ db

  pub pair-Within :
      (rnd : Entropy) (t key platform : String) (now : ℕ) (db : Db)
      → Within R (pair rnd t key platform now) db
  unfolding pair
  pair-Within rnd t key platform now db = search (flow, Within-bind, reads, by_kind)

  persons : (o : Option UserRow) (db : Db) → Within R (person_of o) db
  persons none db = Within-fail _ db
  persons (some u) db = Within-pure flow _ db

  -- Turning one error into another leaves the successes as they were.
  renamed :
      (e : Error) (m : Tx (Unit {0})) (db : Db)
      → Within R m db
      → Within R (λ db. refused_as e (m db)) db
  renamed e m db h = record { at = λ a db' q. h.at a db' (go (m db) a db' q) }
    where
      go :
          (r : Result (Unit {0} × Db)) (a : Unit {0}) (db' : Db)
          → refused_as e r ≡ ok (a, db')
          → r ≡ ok (a, db')
      go (ok x) a db' q = q
      go (err token_invalid) a db' q = cc
      go (err _) a db' q = cc

  allows :
      (r : PairRequest) (id : String) (now : ℕ) (db : Db) → Within R (allow_request r id now) db
  unfolding allow_request
  allows r id now db =
      search
        (
          flow, Within-read, Within-bind, renamed, persons, w.spends, closings.closes, w.binds,
          w.records,
        )
        depth 14

  answers :
      (o : Option PairRequest) (issuer : String) (now : ℕ) (db : Db)
      → Within R (answerable o issuer now) db
  unfolding answerable
  answers none issuer now db = Within-fail _ db
  answers (some r) issuer now db = search (flow, Within-pure, Within-require, Within-bind)

  pub decide-Within :
      (id issuer : String) (allow : Bool) (now : ℕ) (db : Db)
      → Within R (decide_pair_request id issuer allow now) db
  unfolding decide_pair_request
  decide-Within id issuer allow now db =
      search (flow, Within-read, Within-require, Within-if, Within-bind, answers, allows, denies)
        depth 10

  revokes_row :
      (o : Option DeviceRow) (key : String) (now : ℕ) (db : Db)
      → Within R (revoke_found o key now) db
  revokes_row none key now db = Within-pure flow _ db
  revokes_row (some d) key now db = w.removes key now db

  checks : (caller : String) (db : Db) → Within R (check_caller caller) db
  unfolding check_caller
  checks caller db = search (flow, Within-read, Within-require, Within-bind)

  pub revoke-Within :
      (caller key : String) (now : ℕ) (db : Db) → Within R (revoke_device_by caller key now) db
  unfolding revoke_device_by
  revoke-Within caller key now db = search (flow, Within-read, Within-bind, checks, revokes_row)

  pub after_run : {A : Type 0} (m : Tx A) (db : Db) → Within R m db → R db (run m db).0
  after_run {A} m db h = go (m db) h.at
    where
      go :
          (r : Result (A × Db))
          → ((a : A) (db' : Db) → r ≡ ok (a, db') → R db db')
          → R db (settle db r).0
      go (ok (a, db')) h = h a db' refl
      go (err e) h = flow.still db

  pub step-R : (db : Db) (c : Call) → R db (step db c)
  unfolding step issue_machine_link
  step-R db (resolves key now) = after_run _ db (resolve key now db)
  step-R db (names id label) = after_run _ db (w.labels id label db)
  step-R db (issues rnd now) = after_run _ db (w.links rnd now db)
  step-R db (pages seen rnd now) = after_run _ db (page seen rnd now db)
  step-R db (invites rnd issuer now) = after_run _ db (w.invites rnd issuer now db)
  step-R db (pairs rnd t key platform now) = after_run _ db (pair-Within rnd t key platform now db)
  step-R db (decides id issuer allow now) = after_run _ db (decide-Within id issuer allow now db)
  step-R db (cancels t key now) = after_run _ db (cancel-Within closings t key now db)
  step-R db (expires seen now) = after_run _ db (expire-Within closings seen now db)
  step-R db (revokes caller key now) = after_run _ db (revoke-Within caller key now db)

  pub history-R : (db : Db) (cs : List Call) → R db (history db cs)
  unfolding history
  history-R db [] = flow.still db
  history-R db (c ∷ cs) =
      flow.chain db (step db c) (history (step db c) cs) (step-R db c) (history-R (step db c) cs)
