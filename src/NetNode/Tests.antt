-- ===== src/NetNode/Tests.antt =====
-- Examples of the node that writes to a connection.
use rulego.Prelude.{◌≡◌, refl, true, false, none, some, [], ◌∷◌}
use rulego.Dsl.{pos}
use rulego.Result.{ok, err}
use rulego.Msg.{RuleMsg, json_type}
use rulego.NetNode.{
  NetNodeConfiguration, armed, NetNode, close, write, tell_success, on_msg, on_write, on_disconnect,
  init, with_defaults, round, fire, message, happens, happen_all,
}
use rulego.NetNode.Laws.{IsWatched, init-happen_all-IsWatched, recovers}

abbrev config : NetNodeConfiguration
config = record {
  protocol = "";
  server = ":8888";
  connect_timeout = pos 0;
  heartbeat_interval = pos 30;
}

abbrev node : NetNode
node = record { config = config; conn = some 1; heartbeat_timer = armed; disconnected = false }

abbrev msg : RuleMsg
msg = record { ts = 1; id = "m"; data_type = json_type; type = "T"; content = "a"; metadata = [] }

defaults_test : (with_defaults config).protocol ≡ "tcp"
unfolding with_defaults
defaults_test = refl

-- A write that fails does not make the node dial again.
still_connected : (on_msg (some "broken pipe") node msg).0.disconnected ≡ false
unfolding on_msg on_write
still_connected = refl

sent_test : (on_msg none node msg).1 ≡ write 1 "a\n" ∷ tell_success msg ∷ []
unfolding on_msg on_write
sent_test = refl

stopped_test : (on_disconnect node).1 ≡ close 1 ∷ []
unfolding on_disconnect
stopped_test = refl

init-happen_all-IsWatched_example : IsWatched (
    happen_all
      (init (ok 1) config).0.0
      (message (some "broken pipe") msg ∷ fire (some "broken pipe") ∷ round (ok 2) ∷ []))
init-happen_all-IsWatched_example =
    init-happen_all-IsWatched config 1
      (message (some "broken pipe") msg ∷ fire (some "broken pipe") ∷ round (ok 2) ∷ [])

recovers_example :
    let lost = (happens node (fire (some "broken pipe"))).0 in
    let tried = happen_all lost (round (err "refused") ∷ []) in
    let back = (happens tried (round (ok 2))).0 in
    (lost.disconnected ≡ true)
    × (tried ≡ lost)
    × (back.conn ≡ some 2)
    × (back.disconnected ≡ false)
    × (back.heartbeat_timer ≡ armed)
    × ((happens tried (round (ok 2))).1 ≡ close 1 ∷ [])
recovers_example = recovers node "broken pipe" ("refused" ∷ []) 2 (refl, λ h. refl) refl
