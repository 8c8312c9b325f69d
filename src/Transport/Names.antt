-- ===== src/Transport/Names.antt =====
-- Every entry of the map of peers stands under the id of its connection, whatever the sockets do.
use sol_gateway_dcc.Base.{
  ℕ, ◌≡◌, ◌≢◌, refl, sym, ap, ◌∙◌, false, not, ◌&&◌, none, some, [], ◌∷◌, arith, JsString, ◌==◌,
  str_eq, nat_eq, nat_eqb, nat_eqb_iff, if_cases, Option-cases, Bool-cases, inl, inr,
}
use sol_gateway_dcc.Js.Map.{JsMap, get, set, delete, get-set, get-delete}
use sol_gateway_dcc.Transport.Peers.{
  PeerConnection, P2pTransport, P2pMessage, name_peer, touch, receive_from, receive,
  close_connection, close, is_unnamed, is_dead, prune, add_peer, stop,
}

-- What the map names is there, under its own id.
abbrev pub KnowsNames : P2pTransport → Type 0
KnowsNames t =
    (id : JsString) (c : ℕ)
    → get id t.peers ≡ some c
    → (p : PeerConnection) × (get c t.connections ≡ some p) × (p.node_id ≡ id)

-- A new connection: no entry of the map is of it.
abbrev pub IsFresh : P2pTransport → ℕ → Type 0
IsFresh t c = get c t.connections ≡ none

-- A change of one connection, under which its id is not in the map, keeps what is known of the others.
known_others :
    (t : P2pTransport) (c : ℕ) (p : PeerConnection) (id : JsString) (d : ℕ)
    → KnowsNames t
    → get id t.peers ≡ some d
    → d ≢ c
    → (q : PeerConnection) × (get d (set c p t.connections) ≡ some q) × (q.node_id ≡ id)
known_others t c p id d h found apart =
    let (q, there, name) = h id d found in
    (q, ground (arith, get-set c d p t.connections, there, apart), name)

-- The map with one more entry for a connection that no other entry names.
set-KnowsNames :
    (t : P2pTransport) (c : ℕ) (p : PeerConnection) (m : JsMap JsString ℕ)
    → ((id : JsString) (d : ℕ) → get id m ≡ some d → (get id t.peers ≡ some d) × (d ≢ c))
    → KnowsNames t
    → KnowsNames (record t { peers = set p.node_id c m; connections = set c p t.connections })
set-KnowsNames t c p m others h id d found = elim (Bool-cases (p.node_id == id)) [
  | inl same ↦
      let at : d ≡ c = ground (arith, get-set p.node_id id c m, found, same) in
      (p, ground (arith, get-set c d p t.connections, at), (str_eq.eqb_iff p.node_id id).0 same)
  | inr other ↦
      let old : get id m ≡ some d = ground (arith, get-set p.node_id id c m, found, other) in
      let (there, apart) = others id d old in known_others t c p id d h there apart
]

pub add_peer-KnowsNames :
    (t : P2pTransport) (c : ℕ) (p : PeerConnection)
    → IsFresh t c
    → KnowsNames t
    → KnowsNames (add_peer t c p)
add_peer-KnowsNames t c p fresh h =
    set-KnowsNames t c p t.peers
      (λ id d found.
        let (q, there, _) = h id d found in
        (found, λ e. let gone = rw e at there in ground (arith, gone, fresh)))
      h

-- One connection has one id.
pub name_of :
    (t : P2pTransport) (c d : ℕ) (p q : PeerConnection) (id : JsString)
    → get c t.connections ≡ some p
    → get d t.connections ≡ some q
    → d ≡ c
    → q.node_id ≡ id
    → p.node_id ≡ id
name_of t c d p q id found there e name =
    let at_c = rw e at there in
    let pq : p ≡ q = ground (arith, found, at_c) in ap (λ (r : PeerConnection). r.node_id) pq ∙ name

-- A change that keeps the id of a connection.
touch-KnowsNames :
    (t : P2pTransport) (c : ℕ) (p p' : PeerConnection)
    → get c t.connections ≡ some p
    → p'.node_id ≡ p.node_id
    → KnowsNames t
    → KnowsNames (record t { connections = set c p' t.connections })
touch-KnowsNames t c p p' found name h id d at =
    let (q, there, q_name) = h id d at in
    elim (Bool-cases (nat_eqb c d)) [
      | inl same ↦
          let cd : c ≡ d = (nat_eqb_iff c d).0 same in
          (
            p',
            ground (arith, get-set c d p' t.connections, same),
            name ∙ name_of t c d p q id found there (sym cd) q_name,
          )
      | inr other ↦ (q, ground (arith, get-set c d p' t.connections, other, there), q_name)
    ]

-- A map with fewer entries.
pub fewer-KnowsNames :
    (t : P2pTransport) (m : JsMap JsString ℕ)
    → ((id : JsString) (d : ℕ) → get id m ≡ some d → get id t.peers ≡ some d)
    → KnowsNames t
    → KnowsNames (record t { peers = m })
fewer-KnowsNames t m sub h id d found = h id d (sub id d found)

name_peer-KnowsNames :
    (t : P2pTransport) (c : ℕ) (p : PeerConnection) (id : JsString)
    → get c t.connections ≡ some p
    → KnowsNames t
    → KnowsNames (name_peer t c p id)
unfolding name_peer
name_peer-KnowsNames t c p id found h =
    if_cases KnowsNames (not (id == []) && is_unnamed p) _ _
      (λ _.
        set-KnowsNames t c (record p { node_id = id }) (delete p.node_id t.peers)
          (λ j d at. elim (Bool-cases (p.node_id == j)) [
            | inl same ↦ absurd (ground (arith, get-delete p.node_id j t.peers, at, same))
            | inr other ↦
                let there : get j t.peers ≡ some d =
                  ground (arith, get-delete p.node_id j t.peers, at, other) in
                let (q, known, name) = h j d there in
                (
                  there,
                  λ e. absurd (
                      ground (
                        arith,
                        other,
                        (str_eq.eqb_iff p.node_id j).1 (name_of t c d p q j found known e name),
                      )),
                )
          ])
          h)
      (λ _. h)

pub receive-KnowsNames :
    {A : Type 0} (t : P2pTransport) (c : ℕ) (msg : P2pMessage A) (now : ℕ)
    → KnowsNames t
    → KnowsNames (receive t c msg now).0
unfolding receive receive_from
receive-KnowsNames t c msg now h = elim (Option-cases (get c t.connections)) [
  | inl missing ↦ rw (missing, receive) h
  | inr (p, found) ↦
      rw (found, receive)
        (name_peer-KnowsNames (record t { connections = set c (touch p now) t.connections }) c
          (touch p now) msg.node_id
          (ground (arith, get-set c c (touch p now) t.connections, (nat_eqb_iff c c).1 refl))
          (touch-KnowsNames t c p (touch p now) found refl h))
]

pub close-KnowsNames :
    (A : Type 0) (t : P2pTransport) (c : ℕ) → KnowsNames t → KnowsNames (close {A = A} t c).0
unfolding close close_connection
close-KnowsNames A t c h = elim (Option-cases (get c t.connections)) [
  | inl missing ↦ rw (missing, close) h
  | inr (p, found) ↦
      let shut_one = record p { is_open = false } in
      rw (found, close)
        (fewer-KnowsNames (record t { connections = set c shut_one t.connections })
          (delete p.node_id t.peers)
          (λ id d at. ground (arith, get-delete p.node_id id t.peers, at))
          (touch-KnowsNames t c p shut_one found refl h))
]

pub stop-KnowsNames : (t : P2pTransport) → KnowsNames (stop t)
unfolding stop get
stop-KnowsNames t id c found = absurd (ground (arith, found))

-- What pruning leaves was there.
pub prune-get :
    (t : P2pTransport) (now : ℕ) (m peers : JsMap JsString ℕ) (id : JsString) (d : ℕ)
    → get id (prune t now m peers) ≡ some d
    → get id peers ≡ some d
unfolding prune
prune-get t now [] peers id d at = at
prune-get t now ((k, c) ∷ m) peers id d at = elim (Option-cases (get c t.connections)) [
  | inl missing ↦ prune-get t now m peers id d (rw (missing, prune) at at)
  | inr (p, found) ↦
      let rest = prune-get t now m _ id d (rw (found, prune) at at) in
      if_cases (λ ps. get id ps ≡ some d → get id peers ≡ some d) (is_dead t.config now p)
        (delete k peers) peers (λ _ left. ground (arith, get-delete k id peers, left))
        (λ _ left. left) rest
]
