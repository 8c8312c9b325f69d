-- ===== src/Transport/Takeover.antt =====
-- Two sockets whose peers give the same id.
use sol_gateway_dcc.Base.{
  ℕ, ◌≡◌, ◌≢◌, refl, ◌∙◌, false, some, arith, JsString, ◌==◌, str_eq, nat_eq, Bool-cases, inl, inr,
}
use sol_gateway_dcc.Js.Map.{get, get-set, get-delete}
use sol_gateway_dcc.Transport.Peers.{PeerConnection, P2pTransport, close, close_connection}
use sol_gateway_dcc.Transport.Names.{KnowsNames, name_of}

-- Where two connections have one id, which an entry of the map can name only once, the close of the one
-- takes away the entry of the other: its socket stays as it was, and no entry names it, so that no
-- broadcast reaches it.
pub close-takes_over :
    (A : Type 0) (t : P2pTransport) (c d : ℕ) (p q : PeerConnection)
    → KnowsNames t
    → get c t.connections ≡ some p
    → get d t.connections ≡ some q
    → p.node_id ≡ q.node_id
    → c ≢ d
    → (get d (close {A = A} t c).0.connections ≡ some q)
      × ((id : JsString) → get id (close {A = A} t c).0.peers ≢ some d)
unfolding close close_connection
close-takes_over A t c d p q h found_c found_d same apart =
    rw (found_c, close)
      (
        ground (arith, get-set c d (record p { is_open = false }) t.connections, found_d, apart),
        λ id at. elim (Bool-cases (p.node_id == id)) [
          | inl named ↦ absurd (ground (arith, get-delete p.node_id id t.peers, at, named))
          | inr other ↦
              let there : get id t.peers ≡ some d =
                ground (arith, get-delete p.node_id id t.peers, at, other) in
              let (r, known, name) = h id d there in
              absurd (
                ground (
                  arith,
                  other,
                  (str_eq.eqb_iff p.node_id id).1
                      (same ∙ name_of t d d q r id found_d known refl name),
                ))
        ],
      )
