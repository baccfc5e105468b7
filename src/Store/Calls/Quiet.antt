-- ===== src/Store/Calls/Quiet.antt =====
-- The devices and the people, under the calls of internal/store/requests.go.
use nox_app.Base.{ℕ, String, ◌≡◌, refl, ◌∙◌, some, arith}
use nox_app.Sql.{select}
use nox_app.Db.{Db, invite_device, TokenRow}
use nox_app.Tx.{ok}
use nox_app.Tx.Within.{IsFlow}
use nox_app.Store.Identity.{Entropy}
use nox_app.Store.Tokens.{PairToken, read_token, scanned_token, is_token}
use nox_app.Store.Requests.{PairResult}
use nox_app.Store.Pairing.{pair, pair_kind}
use nox_app.Store.Effects.{after_open, after_close}
use nox_app.Store.Calls.Closings.{Closings, by_invite}

-- Nobody is let in, and nobody is sent away.
pub record IsQuiet (a b : Db) : Type 0 where
  pub devices : b.devices ≡ a.devices
  pub users : b.users ≡ a.users

IsQuiet-flow : IsFlow IsQuiet
IsQuiet-flow = record {
  still = λ db. record { devices = refl; users = refl };
  chain = λ a b c f g. record { devices = g.devices ∙ f.devices; users = g.users ∙ f.users };
}

pub closings-IsQuiet : Closings IsQuiet
closings-IsQuiet = record {
  flow = IsQuiet-flow;
  opens = λ rnd pt key platform now db. record {
    at = λ a db' e.
        let whole = (after_open db db' rnd pt key platform now a e).0 in
        record { devices = ground arith; users = ground arith };
  };
  closes = λ r outcome now db. record {
    at = λ a db' e.
        let whole = (after_close db db' r outcome now a e).0 in
        record { devices = ground arith; users = ground arith };
  };
}

-- Presenting an invite, by whomever, changes neither the devices nor the people when it succeeds.
pub pair-IsQuiet :
    (rnd : Entropy) (t key platform : String) (now : ℕ) (db db' : Db) (row : TokenRow)
    (a : PairResult)
    → select (is_token t) db.tokens ≡ some row
    → row.kind ≡ invite_device
    → pair rnd t key platform now db ≡ ok (a, db')
    → IsQuiet db db'
unfolding pair read_token pair_kind
pair-IsQuiet rnd t key platform now db db' row a there invite e =
    let pt : PairToken = scanned_token row in
    (by_invite closings-IsQuiet rnd pt key platform now db).at a db' (ground arith)
