-- ===== src/SolanaWatcher/Finalized.antt =====
-- When a deposit is finalized, and how often.
use sol_gateway_dcc.Base.{
  ℕ, ◌+◌, ◌-◌, ◌≤◌, ◌≡◌, ◌↔◌, refl, ap, inl, inr, false, Option, none, some, List, [], ◌∷◌, ◌++◌,
  arith, JsString, ◌==◌, str_eq, Option-cases, if_cases,
}
use sol_gateway_dcc.Base.Int.{pos, sub_ℕ, leb_ℤ}
use sol_gateway_dcc.Js.Map.{
  get, has, delete, has-set, has-delete, has-get, AllEntries, AllEntries-get, AllEntries-set,
  AllEntries-delete,
}
use sol_gateway_dcc.Events.{SolanaDepositEvent}
use sol_gateway_dcc.Consensus.Counting.{bit}
use sol_gateway_dcc.SolanaWatcher.Finality.{
  SolanaWatcher, WatcherOutput, deposit_finalized, deposit_invalidated, add_event, process_logs,
  FetchedTx, verify_transaction_finality, confirmed, visit_event, visit, WatcherEvent, logs, visits,
  watch_step, watch,
}

-- What makes an entry final: enough confirmations, and the node still has its transaction, in the same
-- slot and not failed.
pub record IsFinal (w : SolanaWatcher) (e : SolanaDepositEvent) (current : ℕ) (tx : FetchedTx)
    : Type 0 where
  pub deep : e.slot + w.required_confirmations ≤ current
  pub same_slot : tx.slot ≡ e.slot
  pub succeeded : tx.failed ≡ false

visit_event-IsFinal :
    (w : SolanaWatcher) (id : JsString) (e : SolanaDepositEvent) (current : ℕ) (tx : FetchedTx)
    → IsFinal w e current tx
    → visit_event w id e current (some tx) ≡ (
      record w { pending_events = delete id w.pending_events },
      deposit_finalized (confirmed e (pos (current - e.slot))) ∷ [],
    )
unfolding visit_event
visit_event-IsFinal w id e current tx f = ground (arith, f.deep, f.same_slot, f.succeeded)

visit_event-finalized :
    (w : SolanaWatcher) (id : JsString) (e : SolanaDepositEvent) (current : ℕ)
    (fetched : Option FetchedTx) {d : SolanaDepositEvent}
    → (visit_event w id e current fetched).1 ≡ deposit_finalized d ∷ []
    → (tx : FetchedTx) × (fetched ≡ some tx)
      × IsFinal w e current tx
      × (d ≡ confirmed e (pos (current - e.slot)))
unfolding visit_event
visit_event-finalized w id e current none h = absurd (ground arith)
visit_event-finalized w id e current (some tx) h = (
  tx,
  refl,
  record { deep = ground arith; same_slot = ground arith; succeeded = ground arith },
  ground arith,
)

-- A visit finalizes a pending deposit exactly when the current slot is at least `requiredConfirmations`
-- past the deposit's slot and the node still has its transaction, not failed, in that slot; the event
-- that is emitted is the pending one with its confirmations. The reorg protection window, which the
-- loop's comment also asks for, plays no part.
pub visit-finalized_iff :
    (w : SolanaWatcher) (id : JsString) (e : SolanaDepositEvent) (current : ℕ)
    (fetched : Option FetchedTx)
    → get id w.pending_events ≡ some e
    → ((visit w id current fetched).1
        ≡ deposit_finalized (confirmed e (pos (current - e.slot))) ∷ [])
      ↔ ((tx : FetchedTx) × (fetched ≡ some tx) × IsFinal w e current tx)
unfolding visit
visit-finalized_iff w id e current fetched found = (
  (λ h.
      let (tx, same, final, _) =
        visit_event-finalized w id e current fetched (rw (found, visit) at h) in
      (tx, same, final)),
  λ (tx, same, final).
      rw (found, visit) (rw same (ap (λ r. r.1) (visit_event-IsFinal w id e current tx final))),
)

-- The entries stand under their transfers.
abbrev pub KeyIsId : JsString → SolanaDepositEvent → Type 0
KeyIsId id e = e.transfer_id ≡ id

-- How many outputs finalize a transfer, and how many logged events are of it.
unfoldable pub finalized_count : JsString → List WatcherOutput → ℕ
finalized_count id [] = 0
finalized_count id (deposit_finalized e ∷ os) = bit (e.transfer_id == id) + finalized_count id os
finalized_count id (deposit_invalidated e ∷ os) = finalized_count id os

logged_in : JsString → List SolanaDepositEvent → ℕ
logged_in id [] = 0
logged_in id (e ∷ es) = bit (e.transfer_id == id) + logged_in id es

unfoldable pub logged_count : JsString → List WatcherEvent → ℕ
unfolding logged_in
logged_count id [] = 0
logged_count id (logs es ∷ evs) = logged_in id es + logged_count id evs
logged_count id (visits k current fetched ∷ evs) = logged_count id evs

abbrev pending_bit : JsString → SolanaWatcher → ℕ
pending_bit id w = bit (has id w.pending_events)

abbrev KeysAreIds : SolanaWatcher → Type 0
KeysAreIds w = AllEntries KeyIsId w.pending_events

add_event-KeysAreIds :
    (w : SolanaWatcher) (e : SolanaDepositEvent) → KeysAreIds w → KeysAreIds (add_event w e)
unfolding add_event
add_event-KeysAreIds w e h =
    if_cases KeysAreIds (has e.transfer_id w.pending_events) _ _ (λ _. h)
      (λ _. AllEntries-set KeyIsId e.transfer_id e w.pending_events refl h)

add_event-pending :
    (id : JsString) (w : SolanaWatcher) (e : SolanaDepositEvent)
    → pending_bit id (add_event w e) ≤ bit (e.transfer_id == id) + pending_bit id w
unfolding add_event
add_event-pending id w e = ground (arith, has-set e.transfer_id id e w.pending_events)

process_logs-KeysAreIds :
    (w : SolanaWatcher) (es : List SolanaDepositEvent)
    → KeysAreIds w
    → KeysAreIds (process_logs w es)
unfolding process_logs
process_logs-KeysAreIds w [] h = h
process_logs-KeysAreIds w (e ∷ es) h =
    process_logs-KeysAreIds (add_event w e) es (add_event-KeysAreIds w e h)

process_logs-pending :
    (id : JsString) (w : SolanaWatcher) (es : List SolanaDepositEvent)
    → pending_bit id (process_logs w es) ≤ logged_in id es + pending_bit id w
unfolding process_logs logged_in
process_logs-pending id w [] = omega arith
process_logs-pending id w (e ∷ es) =
    omega (arith, process_logs-pending id (add_event w e) es, add_event-pending id w e)

-- A visit keeps the keys, and finalizes only what it removes.
abbrev VisitCounted : JsString → SolanaWatcher → SolanaWatcher × List WatcherOutput → Type 0
VisitCounted id w r =
    KeysAreIds r.0 × (finalized_count id r.1 + pending_bit id r.0 ≤ pending_bit id w)

visit_event-VisitCounted :
    (id k : JsString) (w : SolanaWatcher) (e : SolanaDepositEvent) (current : ℕ)
    (fetched : Option FetchedTx)
    → get k w.pending_events ≡ some e
    → KeysAreIds w
    → VisitCounted id w (visit_event w k e current fetched)
unfolding visit_event finalized_count
visit_event-VisitCounted id k w e current fetched found h =
    if_cases (VisitCounted id w) (leb_ℤ (pos w.required_confirmations) (sub_ℕ current e.slot)) _ _
      (λ _.
        if_cases (VisitCounted id w) (verify_transaction_finality fetched e.slot) _ _
          (λ _. (gone, finalized)) (λ _. (gone, ground (arith, has-delete k id w.pending_events))))
      (λ _. (h, omega arith))
  where
    gone : KeysAreIds (record w { pending_events = delete k w.pending_events })
    gone = AllEntries-delete KeyIsId k w.pending_events h

    here : e.transfer_id ≡ k
    here = AllEntries-get KeyIsId k w.pending_events h found

    finalized :
        bit (e.transfer_id == id) + 0 + bit (has id (delete k w.pending_events)) ≤ pending_bit id w
    finalized = ground (
      arith,
      here,
      has-delete k id w.pending_events,
      has-get k w.pending_events,
      found,
      str_eq.eqb_iff k id,
    )

visit-VisitCounted :
    (id k : JsString) (w : SolanaWatcher) (current : ℕ) (fetched : Option FetchedTx)
    → KeysAreIds w
    → VisitCounted id w (visit w k current fetched)
unfolding visit finalized_count
visit-VisitCounted id k w current fetched h = elim (Option-cases (get k w.pending_events)) [
  | inl missing ↦ rw (missing, visit) (h, omega arith)
  | inr (e, found) ↦ rw (found, visit) (visit_event-VisitCounted id k w e current fetched found h)
]

finalized_count-append :
    (id : JsString) (os ps : List WatcherOutput)
    → finalized_count id (os ++ ps) ≡ finalized_count id os + finalized_count id ps
unfolding finalized_count
finalized_count-append id [] ps = omega arith
finalized_count-append id (deposit_finalized e ∷ os) ps =
    omega (arith, finalized_count-append id os ps)
finalized_count-append id (deposit_invalidated e ∷ os) ps = finalized_count-append id os ps

watch_counted :
    (id : JsString) (evs : List WatcherEvent) (w : SolanaWatcher)
    → KeysAreIds w
    → finalized_count id (watch w evs).1 + pending_bit id (watch w evs).0
      ≤ logged_count id evs + pending_bit id w
unfolding watch watch_step finalized_count logged_count
watch_counted id [] w h = omega arith
watch_counted id (logs es ∷ evs) w h = omega (
  arith,
  watch_counted id evs (process_logs w es) (process_logs-KeysAreIds w es h),
  process_logs-pending id w es,
)
watch_counted id (visits k current fetched ∷ evs) w h =
    let v = visit-VisitCounted id k w current fetched h in
    let r = visit w k current fetched in
    omega
      (arith, v.1, watch_counted id evs r.0 v.0, finalized_count-append id r.1 (watch r.0 evs).1)

-- From an empty watcher, in every order of logs and visits, a transfer is finalized at most as often as
-- an event of it was logged: no visit finalizes twice what was seen once.
pub finalized_count-le-logged_count :
    (required : ℕ) (id : JsString) (evs : List WatcherEvent)
    → finalized_count id
        (watch (record { required_confirmations = required; pending_events = [] }) evs).1
      ≤ logged_count id evs
unfolding has
finalized_count-le-logged_count required id evs = omega (
  arith,
  watch_counted id evs (record { required_confirmations = required; pending_events = [] }) tt,
)
