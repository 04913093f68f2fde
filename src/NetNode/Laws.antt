-- ===== src/NetNode/Laws.antt =====
-- A node that is connected notices when its connection is lost (components/external/net_node.go).
use rulego.Prelude.{
  ℕ, String, ◌≡◌, refl, sym, Bool, true, false, Option, none, some, List, [], ◌∷◌, map, is_some,
}
use mathlib.Core.Bool.{false≢true}
use rulego.Result.{ok, err}
use rulego.NetNode.{
  NetNodeConfiguration, Timer, absent, armed, idle, NetNode, on_connect, on_ping, on_write, on_msg,
  start_round, init, Event, round, fire, message, happens, happen_all, closed,
}

-- There is a connection, and while the node takes it for good the heartbeat runs.
abbrev pub IsWatched : NetNode → Type 0
IsWatched x = (is_some x.conn ≡ true) × (x.disconnected ≡ false → x.heartbeat_timer ≡ armed)

init-IsWatched : (config : NetNodeConfiguration) (c : ℕ) → IsWatched (init (ok c) config).0.0
unfolding init on_connect
init-IsWatched config c = (refl, λ h. refl)

at : NetNodeConfiguration → Option ℕ → Timer → Bool → NetNode
at config conn timer disconnected = record {
  config = config;
  conn = conn;
  heartbeat_timer = timer;
  disconnected = disconnected;
}

IsWatched-at :
    (config : NetNodeConfiguration) (conn : Option ℕ) (timer : Timer) (disconnected : Bool)
    (event : Event)
    → IsWatched (at config conn timer disconnected)
    → IsWatched (happens (at config conn timer disconnected) event).0
unfolding at happens start_round on_connect on_ping on_msg on_write
IsWatched-at config none timer disconnected event (h, k) = elim (false≢true h) [ ]
IsWatched-at config (some c) timer true (round (ok d)) (h, k) = (refl, λ e. refl)
IsWatched-at config (some c) timer true (round (err t)) (h, k) = (refl, k)
IsWatched-at config (some c) timer false (round dial) (h, k) = (refl, k)
IsWatched-at config (some c) absent disconnected (fire result) (h, k) = (refl, k)
IsWatched-at config (some c) idle disconnected (fire result) (h, k) = (refl, k)
IsWatched-at config (some c) armed true (fire result) (h, k) = (refl, λ e. cc)
IsWatched-at config (some c) armed false (fire none) (h, k) = (refl, λ e. refl)
IsWatched-at config (some c) armed false (fire (some t)) (h, k) = (refl, λ e. cc)
IsWatched-at config (some c) timer disconnected (message (some t) msg) (h, k) = (refl, k)
IsWatched-at config (some c) absent disconnected (message none msg) (h, k) = (refl, k)
IsWatched-at config (some c) armed disconnected (message none msg) (h, k) = (refl, λ e. refl)
IsWatched-at config (some c) idle disconnected (message none msg) (h, k) = (refl, λ e. refl)

happens-IsWatched : (x : NetNode) (event : Event) → IsWatched x → IsWatched (happens x event).0
unfolding at
happens-IsWatched x event h = IsWatched-at x.config x.conn x.heartbeat_timer x.disconnected event h

happen_all-IsWatched :
    (x : NetNode) (events : List Event) → IsWatched x → IsWatched (happen_all x events)
unfolding happen_all
happen_all-IsWatched x [] h = h
happen_all-IsWatched x (event ∷ events) h =
    happen_all-IsWatched (happens x event).0 events (happens-IsWatched x event h)

-- From a successful `Init` on, whatever rounds, heartbeats and messages come and however their writes
-- and dials end: the node has a connection, and as long as it takes it for good its heartbeat runs.
pub init-happen_all-IsWatched :
    (config : NetNodeConfiguration) (c : ℕ) (events : List Event)
    → IsWatched (happen_all (init (ok c) config).0.0 events)
init-happen_all-IsWatched config c events =
    happen_all-IsWatched (init (ok c) config).0.0 events (init-IsWatched config c)

-- A dial that fails leaves a node without connection as it is.
failing_rounds :
    (config : NetNodeConfiguration) (conn : Option ℕ) (timer : Timer) (failures : List String)
    → happen_all (at config conn timer true) (map (λ (t : String). round (err t)) failures)
      ≡ at config conn timer true
unfolding at happen_all happens start_round on_connect
failing_rounds config conn timer [] = refl
failing_rounds config conn timer (t ∷ failures) = failing_rounds config conn timer failures

absent-ne-armed : absent ≡ armed → ⊥
absent-ne-armed h = cc

idle-ne-armed : idle ≡ armed → ⊥
idle-ne-armed h = cc

recovers_at :
    (config : NetNodeConfiguration) (conn : Option ℕ) (timer : Timer) (disconnected : Bool)
    (e : String) (failures : List String) (c : ℕ)
    → IsWatched (at config conn timer disconnected)
    → disconnected ≡ false
    → let lost = (happens (at config conn timer disconnected) (fire (some e))).0 in
      let tried = happen_all lost (map (λ t. round (err t)) failures) in
      let back = (happens tried (round (ok c))).0 in
      (lost.disconnected ≡ true)
      × (tried ≡ lost)
      × (back.conn ≡ some c)
      × (back.disconnected ≡ false)
      × (back.heartbeat_timer ≡ armed)
      × ((happens tried (round (ok c))).1 ≡ closed conn)
unfolding at happens start_round on_connect on_ping
recovers_at config none timer disconnected e failures c (h, k) connected = elim (false≢true h) [ ]
recovers_at config (some c0) timer true e failures c (h, k) connected =
    elim (false≢true (sym connected)) [ ]
recovers_at config (some c0) absent false e failures c (h, k) connected =
    elim (absent-ne-armed (k refl)) [ ]
recovers_at config (some c0) idle false e failures c (h, k) connected =
    elim (idle-ne-armed (k refl)) [ ]
recovers_at config (some c0) armed false e failures c (h, k) connected =
    rw (failing_rounds config (some c0) idle failures) (refl, refl, refl, refl, refl, refl)

-- A connection that is lost comes back. In a node with the invariant that takes its connection for
-- good: as soon as a heartbeat cannot be written, the next round of the loop in which dialing
-- succeeds closes the old connection and leaves the node with the new one, taken for good, and with
-- its heartbeat running; rounds before it in which dialing fails change nothing.
pub recovers :
    (x : NetNode) (e : String) (failures : List String) (c : ℕ)
    → IsWatched x
    → x.disconnected ≡ false
    → let lost = (happens x (fire (some e))).0 in
      let tried = happen_all lost (map (λ t. round (err t)) failures) in
      let back = (happens tried (round (ok c))).0 in
      (lost.disconnected ≡ true)
      × (tried ≡ lost)
      × (back.conn ≡ some c)
      × (back.disconnected ≡ false)
      × (back.heartbeat_timer ≡ armed)
      × ((happens tried (round (ok c))).1 ≡ closed x.conn)
unfolding at
recovers x e failures c h connected =
    recovers_at x.config x.conn x.heartbeat_timer x.disconnected e failures c h connected
