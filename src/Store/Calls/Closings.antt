-- ===== src/Store/Calls/Closings.antt =====
-- internal/store/requests.go: the calls that open, repeat and close requests, as a few writes.
use nox_app.Base.{ℕ, String, Option, none, some, List, [], ◌∷◌}
use nox_app.Db.{Db, Outcome, allowed}
use nox_app.Tx.Within.{
  IsFlow, Within, Within-read, Within-pure, Within-require, Within-bind, Within-fail, Within-if,
}
use nox_app.Store.Identity.{Entropy, Identity}
use nox_app.Store.Tokens.{PairToken}
use nox_app.Store.Requests.{
  PairRequest, close_request, open_request, repeat_outcome, repeat_request, request_by_invite,
  deny_request, cancel_found, cancel_pair_request, close_each, expire_pair_requests, replayed,
  open_or_repeat,
}

pub record Closings (R : Db → Db → Type 0) : Type 0 where
  pub flow : IsFlow R
  pub opens :
      (rnd : Entropy) (pt : PairToken) (key platform : String) (now : ℕ) (db : Db)
      → Within R (open_request rnd pt key platform now) db
  pub closes :
      (r : PairRequest) (outcome : Outcome) (now : ℕ) (db : Db)
      → Within R (close_request r outcome now) db

module _ {R : Db → Db → Type 0} (w : Closings R) where
  open w use {flow}

  replays : (o : Option Identity) (r : PairRequest) (db : Db) → Within R (replayed o r) db
  replays none r db = Within-fail _ db
  replays (some id) r db = Within-pure flow _ db

  repeats :
      (o : Option Outcome) (r : PairRequest) (pt : PairToken) (key : String) (now : ℕ) (db : Db)
      → Within R (repeat_outcome o r pt key now) db
  unfolding repeat_outcome
  repeats none r pt key now db = search (flow, Within-pure, Within-if, Within-bind, w.closes)
  repeats (some allowed) r pt key now db = search (flow, Within-read, Within-bind, replays)
  repeats (some _) r pt key now db = Within-pure flow _ db

  repeated :
      (r : PairRequest) (pt : PairToken) (key : String) (now : ℕ) (db : Db)
      → Within R (repeat_request r pt key now) db
  unfolding repeat_request
  repeated r pt key now db = search (flow, Within-require, Within-bind, repeats)

  invited :
      (o : Option PairRequest) (rnd : Entropy) (pt : PairToken) (key platform : String) (now : ℕ)
      (db : Db)
      → Within R (open_or_repeat o rnd pt key platform now) db
  invited none rnd pt key platform now db = w.opens rnd pt key platform now db
  invited (some r) rnd pt key platform now db = repeated r pt key now db

  pub by_invite :
      (rnd : Entropy) (pt : PairToken) (key platform : String) (now : ℕ) (db : Db)
      → Within R (request_by_invite rnd pt key platform now) db
  unfolding request_by_invite
  by_invite rnd pt key platform now db = search (flow, Within-read, Within-bind, invited)

  pub denies : (r : PairRequest) (now : ℕ) (db : Db) → Within R (deny_request r now) db
  unfolding deny_request
  denies r now db = search (flow, Within-pure, Within-bind, w.closes)

  withdraws :
      (o : Option PairRequest) (key : String) (now : ℕ) (db : Db)
      → Within R (cancel_found o key now) db
  unfolding cancel_found
  withdraws none key now db = Within-pure flow _ db
  withdraws (some r) key now db = search (flow, Within-pure, Within-if, Within-bind, w.closes)

  pub cancel-Within :
      (t key : String) (now : ℕ) (db : Db) → Within R (cancel_pair_request t key now) db
  unfolding cancel_pair_request
  cancel-Within t key now db = search (flow, Within-read, Within-bind, withdraws)

  pub close_each-Within :
      (o : Outcome) (now : ℕ) (rs : List PairRequest) (db : Db) → Within R (close_each o now rs) db
  unfolding close_each
  close_each-Within o now [] db = Within-pure flow _ db
  close_each-Within o now (r ∷ rs) db = Within-bind flow _ _ db (w.closes r _ now db) λ a db' _.
      Within-bind flow _ _ db' (close_each-Within o now rs db') λ b db'' _. Within-pure flow _ db''

  pub expire-Within : (seen : Db) (now : ℕ) (db : Db) → Within R (expire_pair_requests seen now) db
  unfolding expire_pair_requests
  expire-Within seen now db =
      search (flow, Within-read, Within-pure, Within-if, Within-bind, close_each-Within)
