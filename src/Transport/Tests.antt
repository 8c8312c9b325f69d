-- ===== src/Transport/Tests.antt =====
-- The transport's theorems at concrete sockets.
use sol_gateway_dcc.Base.{
  ℕ, ◌≡◌, refl, true, false, none, some, List, [], ◌∷◌, JsString, codes, str_eq, nat_eq,
}
use sol_gateway_dcc.Js.Map.{get, set, delete}
use sol_gateway_dcc.Js.Text.{starts_with}
use sol_gateway_dcc.Transport.Peers.{
  P2pConfig, P2pTransport, P2pMessage, PeerConnection, heartbeat, new_transport, close,
  broadcast_to, handle_inbound_connection, open_outbound, receive,
}
use sol_gateway_dcc.Transport.Names.{KnowsNames}
use sol_gateway_dcc.Transport.Runs.{
  Event, inbound, opened, received, step, run, HasNewNumbers, peers-run,
}

abbrev config : P2pConfig
config = record {
  node_id = codes "v1";
  heartbeat_interval_ms = 10000;
  reconnect_base_ms = 2000;
  max_reconnect_ms = 60000;
}

abbrev hello : P2pMessage ℕ
hello = record { type = heartbeat; node_id = codes "v2"; payload = 0; peers = []; signature = none }

-- Two sockets whose peers both say that they are v2.
abbrev both : List (Event ℕ)
both =
    inbound 0 (codes "inbound-a") (codes "10.0.0.2") 1
    ∷ opened 1 (codes "10.0.0.2:8000") 2
    ∷ received 0 hello 3
    ∷ received 1 hello 4
    ∷ []

both-HasNewNumbers : HasNewNumbers (new_transport config) both
unfolding HasNewNumbers step new_transport handle_inbound_connection open_outbound receive get set
both-HasNewNumbers = (refl, (refl, (tt, (tt, tt))))

-- Names what a run of the transport computes with.
transport_code : Unit {0}
unfolding run new_transport handle_inbound_connection open_outbound receive get set delete
    starts_with broadcast_to close
transport_code = tt

abbrev talking : P2pTransport
talking = run (new_transport config) both

talking-KnowsNames : KnowsNames talking
talking-KnowsNames = (peers-run config both both-HasNewNumbers).0

peers-run_example :
    KnowsNames talking
    × ((i j : JsString) (c : ℕ)
        → get i talking.peers ≡ some c
        → get j talking.peers ≡ some c
        → i ≡ j)
peers-run_example = peers-run config both both-HasNewNumbers

before_test : broadcast_to talking ≡ 1 ∷ []
unfolding transport_code
before_test = refl

after_test : broadcast_to (close {A = ℕ} talking 0).0 ≡ []
unfolding transport_code
after_test = refl

abbrev named : JsString → ℕ → PeerConnection
named address now = record {
  node_id = codes "v2";
  first_id = codes "x";
  address = address;
  last_seen = now;
  is_outbound = false;
  is_open = true;
}
