-- ===== src/Transport/Runs.antt =====
-- Runs of the transport: the events of sockets and timers in any order.
use sol_gateway_dcc.Base.{
  ℕ, ◌≡◌, refl, sym, ◌∙◌, some, List, [], ◌∷◌, arith, JsString, str_eq, nat_eq,
}
use sol_gateway_dcc.Js.Map.{get}
use sol_gateway_dcc.Transport.Peers.{
  P2pConfig, P2pTransport, P2pMessage, new_transport, handle_inbound_connection, open_outbound,
  receive, close, prune, prune_dead_peers, stop,
}
use sol_gateway_dcc.Transport.Names.{
  KnowsNames, IsFresh, name_of, add_peer-KnowsNames, fewer-KnowsNames, receive-KnowsNames,
  close-KnowsNames, stop-KnowsNames, prune-get,
}

-- A socket's events, the pruning of the heartbeat's timer and the end.
pub data Event (A : Type 0) : Type 0 where
  inbound : ℕ → JsString → JsString → ℕ → Event A
  opened : ℕ → JsString → ℕ → Event A
  received : ℕ → P2pMessage A → ℕ → Event A
  closed : ℕ → Event A
  pruned : ℕ → Event A
  stopped : Event A

unfoldable pub step : {A : Type 0} → P2pTransport → Event A → P2pTransport
step t (inbound c id address now) = handle_inbound_connection t c id address now
step t (opened c address now) = open_outbound t c address now
step t (received c msg now) = (receive t c msg now).0
step {A = A} t (closed c) = (close {A = A} t c).0
step t (pruned now) = prune_dead_peers t now
step t stopped = stop t

unfoldable pub run : {A : Type 0} → P2pTransport → List (Event A) → P2pTransport
unfolding step
run t [] = t
run t (ev ∷ evs) = run (step t ev) evs

-- New sockets have new numbers.
abbrev pub NewNumber : {A : Type 0} → P2pTransport → Event A → Type 0
NewNumber t (inbound c id address now) = IsFresh t c
NewNumber t (opened c address now) = IsFresh t c
NewNumber t (received c msg now) = Unit
NewNumber t (closed c) = Unit
NewNumber t (pruned now) = Unit
NewNumber t stopped = Unit

unfoldable pub HasNewNumbers : {A : Type 0} → P2pTransport → List (Event A) → Type 0
HasNewNumbers t [] = Unit
HasNewNumbers t (ev ∷ evs) = NewNumber t ev × HasNewNumbers (step t ev) evs

run-KnowsNames :
    {A : Type 0} (evs : List (Event A)) (t : P2pTransport)
    → HasNewNumbers t evs
    → KnowsNames t
    → KnowsNames (run t evs)
unfolding run step HasNewNumbers handle_inbound_connection open_outbound prune_dead_peers
run-KnowsNames [] t n h = h
run-KnowsNames (inbound c id address now ∷ evs) t (fresh, n) h =
    run-KnowsNames evs (handle_inbound_connection t c id address now) n
      (add_peer-KnowsNames t c _ fresh h)
run-KnowsNames (opened c address now ∷ evs) t (fresh, n) h =
    run-KnowsNames evs (open_outbound t c address now) n (add_peer-KnowsNames t c _ fresh h)
run-KnowsNames (received c msg now ∷ evs) t (_, n) h =
    run-KnowsNames evs (receive t c msg now).0 n (receive-KnowsNames t c msg now h)
run-KnowsNames {A = A} (closed c ∷ evs) t (_, n) h =
    run-KnowsNames evs (close {A = A} t c).0 n (close-KnowsNames A t c h)
run-KnowsNames (pruned now ∷ evs) t (_, n) h =
    run-KnowsNames evs (prune_dead_peers t now) n
      (fewer-KnowsNames t (prune t now t.peers t.peers) (prune-get t now t.peers t.peers) h)
run-KnowsNames (stopped ∷ evs) t (_, n) h = run-KnowsNames evs (stop t) n (stop-KnowsNames t)

-- In every order of connections, messages, closes, prunings and stops, from a new transport, each entry of
-- the map of peers stands under the id that its connection has by then, and so no connection stands under
-- two ids: a peer that names itself anew leaves no stale entry.
pub peers-run :
    {A : Type 0} (config : P2pConfig) (evs : List (Event A))
    → HasNewNumbers (new_transport config) evs
    → KnowsNames (run (new_transport config) evs)
      × ((i j : JsString) (c : ℕ)
          → get i (run (new_transport config) evs).peers ≡ some c
          → get j (run (new_transport config) evs).peers ≡ some c
          → i ≡ j)
unfolding new_transport get
peers-run config evs n =
    let known =
      run-KnowsNames evs (new_transport config) n (λ id c found. absurd (ground (arith, found))) in
    (
      known,
      λ i j c at_i at_j.
          let (p, found, name) = known i c at_i in
          let (q, there, name') = known j c at_j in
          sym name ∙ name_of (run (new_transport config) evs) c c p q j found there refl name',
    )
