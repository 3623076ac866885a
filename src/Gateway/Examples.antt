-- ===== src/Gateway/Examples.antt =====
-- A poll with a message of the owner and one of a stranger.
use mosaid.Base.{ℕ, String, Bool, true, Option, none, some, [], ◌∷◌}
use mosaid.Int.{ℤ, pos}
use mosaid.Queue.{Inbound, Outbound}
use mosaid.Queue.Unique.{empty}
use mosaid.Gateway.{World, receive_all}
use mosaid.Gateway.Owner.{IsOwned, receive_all-IsOwned}

abbrev allow : ℕ → ℤ → String → ℕ × Bool
allow g user text = (g, true)

abbrev handle : ℕ → Inbound → ℕ × Option Outbound
handle h m = (h, none)

abbrev hash : Inbound → String
hash m = m.text

abbrev hello : Inbound
hello = record {
  update_id = 1;
  message_id = pos 1;
  chat_id = pos 7;
  user_id = pos 7;
  chat_type = "private";
  text = "hello";
  received_at = 5;
}

abbrev foreign : Inbound
foreign = record hello { update_id = 2; user_id = pos 8 }

abbrev world : World ℕ ℕ
world = record { guard = 0; handler = 0; sent = []; store = some empty; offset = 0 }

receive_all-IsOwned_example :
    IsOwned
      (pos 7)
      (receive_all allow handle hash (pos 7) world ((5, hello) ∷ (6, foreign) ∷ [])).store
receive_all-IsOwned_example =
    receive_all-IsOwned allow handle hash (pos 7) world ((5, hello) ∷ (6, foreign) ∷ []) tt
