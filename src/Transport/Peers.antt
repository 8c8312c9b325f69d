-- ===== src/Transport/Peers.antt =====
-- validator/src/p2p/transport.ts. The map of peers and the callbacks of a socket share one mutable
-- PeerConnection: a connection is a number, the map holds numbers, and a store holds what they stand for.
-- Logging is left out, and the text of a message is the message.
use sol_gateway_dcc.Base.{
  ℕ, ◌+◌, ◌*◌, ◌^◌, min, Bool, true, false, ◌&&◌, ◌||◌, not, Option, none, some, List, [], ◌∷◌,
  ◌++◌, JsString, codes, ◌==◌, str_eq, nat_eq, ltb, if◌then◌else◌, any,
}
use sol_gateway_dcc.Js.Map.{JsMap, get, set, delete}
use sol_gateway_dcc.Js.Text.{starts_with, includes_text}

-- `first_id` is the id until the peer names itself; `is_open` is its socket's readyState.
pub record PeerConnection : Type 0 where
  pub node_id : JsString
  pub first_id : JsString
  pub address : JsString
  pub last_seen : ℕ
  pub is_outbound : Bool
  pub is_open : Bool

pub record P2pConfig : Type 0 where
  pub node_id : JsString
  pub heartbeat_interval_ms : ℕ
  pub reconnect_base_ms : ℕ
  pub max_reconnect_ms : ℕ

pub record P2pTransport : Type 0 where
  pub config : P2pConfig
  pub is_running : Bool
  pub peers : JsMap JsString ℕ
  pub connections : JsMap ℕ PeerConnection

pub data MessageType : Type 0 where
  attestation heartbeat peer_list attestation_request unknown : MessageType

-- `peers` is the texts of `payload.peers`, where that is an array.
pub record P2pMessage (A : Type 0) : Type 0 where
  pub type : MessageType
  pub node_id : JsString
  pub payload : A
  pub peers : List JsString
  pub signature : Option JsString

-- A dial of an address after a number of attempts, and the timer before one.
pub data TransportOutput (A : Type 0) : Type 0 where
  attestation_received attestation_requested : A → JsString → TransportOutput A
  dial : JsString → ℕ → TransportOutput A
  redial : JsString → ℕ → ℕ → TransportOutput A

unfoldable pub new_transport : P2pConfig → P2pTransport
new_transport config = record { config = config; is_running = true; peers = []; connections = [] }

abbrev pub add_peer : P2pTransport → ℕ → PeerConnection → P2pTransport
add_peer t c p = record t { peers = set p.node_id c t.peers; connections = set c p t.connections }

-- `temp_id` is drawn at random.
unfoldable pub handle_inbound_connection : P2pTransport → ℕ → JsString → JsString → ℕ → P2pTransport
handle_inbound_connection t c temp_id address now = add_peer t c (record {
  node_id = temp_id;
  first_id = temp_id;
  address = address;
  last_seen = now;
  is_outbound = false;
  is_open = true;
})

-- The open event of a socket that was dialled.
unfoldable pub open_outbound : P2pTransport → ℕ → JsString → ℕ → P2pTransport
open_outbound t c address now = add_peer t c (record {
  node_id = codes "outbound-" ++ address;
  first_id = codes "outbound-" ++ address;
  address = address;
  last_seen = now;
  is_outbound = true;
  is_open = true;
})

unfoldable pub connect_to_peer :
    {A : Type 0} → P2pTransport → JsString → ℕ → List (TransportOutput A)
connect_to_peer t address attempts = if t.is_running then dial address attempts ∷ [] else []

abbrev pub backoff : P2pConfig → ℕ → ℕ
backoff config attempts = min (config.reconnect_base_ms * 2 ^ attempts) config.max_reconnect_ms

unfoldable pub schedule_reconnect :
    {A : Type 0} → P2pTransport → JsString → ℕ → List (TransportOutput A)
schedule_reconnect t address attempts =
    if t.is_running then redial address (attempts + 1) (backoff t.config attempts) ∷ [] else []

-- The connections of the map, in its order.
unfoldable pub peer_list_of : P2pTransport → JsMap JsString ℕ → List PeerConnection
peer_list_of t [] = []
peer_list_of t ((k, c) ∷ m) = elim (get c t.connections) [
  | none ↦ peer_list_of t m
  | some p ↦ p ∷ peer_list_of t m
]

unfoldable pub is_already_connected : P2pTransport → JsString → Bool
unfolding peer_list_of
is_already_connected t address =
    any (λ p. p.address == address || includes_text address p.address) (peer_list_of t t.peers)

unfoldable pub learn_peers : {A : Type 0} → P2pTransport → List JsString → List (TransportOutput A)
unfolding is_already_connected connect_to_peer
learn_peers t [] = []
learn_peers t (address ∷ rest) =
    (if is_already_connected t address then [] else connect_to_peer t address 0)
    ++ learn_peers t rest

unfoldable pub handle_message :
    {A : Type 0} → P2pTransport → P2pMessage A → List (TransportOutput A)
unfolding learn_peers
handle_message t msg = elim msg.type [
  | attestation ↦ attestation_received msg.payload msg.node_id ∷ []
  | heartbeat ↦ []
  | peer_list ↦ learn_peers t msg.peers
  | attestation_request ↦ attestation_requested msg.payload msg.node_id ∷ []
  | unknown ↦ []
]

-- The peer has not named itself: an outbound one as long as its id looks like a first one.
unfoldable pub is_unnamed : PeerConnection → Bool
is_unnamed p =
    if p.is_outbound then starts_with (codes "outbound-") p.node_id else p.node_id == p.first_id

unfoldable pub name_peer : P2pTransport → ℕ → PeerConnection → JsString → P2pTransport
unfolding is_unnamed
name_peer t c p id =
    if not (id == []) && is_unnamed p
    then record t {
      peers = set id c (delete p.node_id t.peers);
      connections = set c (record p { node_id = id }) t.connections;
    }
    else t

abbrev pub touch : PeerConnection → ℕ → PeerConnection
touch p now = record p { last_seen = now }

unfoldable pub receive_from :
    {A : Type 0}
    → P2pTransport
    → ℕ
    → PeerConnection
    → P2pMessage A
    → ℕ
    → P2pTransport × List (TransportOutput A)
unfolding handle_message name_peer
receive_from t c p msg now =
    let seen = record t { connections = set c (touch p now) t.connections } in
    (name_peer seen c (touch p now) msg.node_id, handle_message seen msg)

unfoldable pub receive :
    {A : Type 0} → P2pTransport → ℕ → P2pMessage A → ℕ → P2pTransport × List (TransportOutput A)
unfolding receive_from
receive t c msg now = elim (get c t.connections) [
  | none ↦ (t, [])
  | some p ↦ receive_from t c p msg now
]

unfoldable pub close_connection :
    {A : Type 0} → P2pTransport → ℕ → PeerConnection → P2pTransport × List (TransportOutput A)
unfolding schedule_reconnect
close_connection t c p = (
  record t {
    peers = delete p.node_id t.peers;
    connections = set c (record p { is_open = false }) t.connections;
  },
  if p.is_outbound then schedule_reconnect t p.address 0 else [],
)

-- The close event of a socket.
unfoldable pub close : {A : Type 0} → P2pTransport → ℕ → P2pTransport × List (TransportOutput A)
unfolding close_connection
close t c = elim (get c t.connections) [ none ↦ (t, []) | some p ↦ close_connection t c p ]

-- No word for three intervals on a socket that is not open.
unfoldable pub is_dead : P2pConfig → ℕ → PeerConnection → Bool
is_dead config now p = ltb (p.last_seen + config.heartbeat_interval_ms * 3) now && not p.is_open

-- The loop over the entries, which deletes from the map.
unfoldable pub prune : P2pTransport → ℕ → JsMap JsString ℕ → JsMap JsString ℕ → JsMap JsString ℕ
unfolding is_dead
prune t now [] peers = peers
prune t now ((k, c) ∷ m) peers = elim (get c t.connections) [
  | none ↦ prune t now m peers
  | some p ↦ prune t now m (if is_dead t.config now p then delete k peers else peers)
]

unfoldable pub prune_dead_peers : P2pTransport → ℕ → P2pTransport
unfolding prune
prune_dead_peers t now = record t { peers = prune t now t.peers t.peers }

-- The connections that a broadcast writes to.
unfoldable pub recipients : P2pTransport → JsMap JsString ℕ → List ℕ
recipients t [] = []
recipients t ((k, c) ∷ m) = elim (get c t.connections) [
  | none ↦ recipients t m
  | some p ↦ if p.is_open then c ∷ recipients t m else recipients t m
]

unfoldable pub broadcast_to : P2pTransport → List ℕ
unfolding recipients
broadcast_to t = recipients t t.peers

-- `close` on the sockets of the map.
unfoldable pub shut : JsMap JsString ℕ → JsMap ℕ PeerConnection → JsMap ℕ PeerConnection
shut [] connections = connections
shut ((k, c) ∷ m) connections = elim (get c connections) [
  | none ↦ shut m connections
  | some p ↦ shut m (set c (record p { is_open = false }) connections)
]

unfoldable pub stop : P2pTransport → P2pTransport
unfolding shut
stop t = record t { is_running = false; peers = []; connections = shut t.peers t.connections }
