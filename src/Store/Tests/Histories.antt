-- ===== src/Store/Tests/Histories.antt =====
-- Histories of calls run on a concrete store.
use nox_app.Base.{◌≡◌, refl, false, key_dec, arith, All}
use nox_app.Db.{Db}
use nox_app.Sql.{select, update, count, where_rows, place, order_by}
use nox_app.Store.Tokens
use nox_app.Store.Requests
use nox_app.Store.Pairing.{pair}
use nox_app.Store.Calls.{history}
use nox_app.Store.Backing.{IsBacked}
use nox_app.Store.Backing.History.{history-IsBacked}
use nox_app.Store.OnePerson.{IsOnePerson, history-IsOnePerson}
use nox_app.Store.OneLink.{
  HasOneLink, live_links, live_links-insert_machine_link, history-HasOneLink,
}
use nox_app.Store.Sweep.{expire_pair_requests-All}
use nox_app.Store.Tests.{draw, home, after, home-IsBacked, some_calls}

abbrev pub joined_home : Db
joined_home = after (pair (draw "y") "link" "laptop" "linux" 200) home

history-IsBacked_example : IsBacked (history home some_calls)
history-IsBacked_example = history-IsBacked home some_calls home-IsBacked

history-IsOnePerson_example : IsOnePerson (history home some_calls)
unfolding key_dec count
history-IsOnePerson_example =
    history-IsOnePerson home some_calls
      (record { at_most = omega arith; owned = (omega arith, tt) })

history-HasOneLink_example : HasOneLink (history home some_calls)
unfolding count
history-HasOneLink_example = history-HasOneLink home some_calls (record { one = omega arith })

live_links-insert_machine_link_example :
    live_links (after (Tokens.insert_machine_link (draw "w") 200) home) ≡ 1
unfolding key_dec update count Tokens.insert_machine_link Tokens.insert_token Tokens.exec_tokens
    Tokens.new_token_value
live_links-insert_machine_link_example =
    live_links-insert_machine_link (draw "w") 200 home
      (after (Tokens.insert_machine_link (draw "w") 200) home) _ refl

expire_pair_requests-All_example :
    All
      (λ r. Requests.due 700 r ≡ false)
      (after (Requests.expire_pair_requests home 700) home).requests
unfolding key_dec select update count where_rows place order_by Requests.expire_pair_requests
    Requests.list_requests Requests.close_each Requests.close_request Requests.close_row
    Tokens.exec_tokens
expire_pair_requests-All_example =
    expire_pair_requests-All home (after (Requests.expire_pair_requests home 700) home) 700 _ refl
