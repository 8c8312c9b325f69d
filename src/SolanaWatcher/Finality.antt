-- ===== src/SolanaWatcher/Finality.antt =====
-- validator/src/watchers/solana-watcher.ts: processLogs, and the visit that runFinalityLoop pays to a
-- pending event. The loop waits for the node in between, so logs may arrive between two visits, and a
-- schedule is any order of arrivals and visits.
use sol_gateway_dcc.Base.{
  ℕ, Bool, false, ◌&&◌, not, Option, none, some, List, [], ◌∷◌, ◌++◌, JsString, str_eq, nat_eqb,
  if◌then◌else◌,
}
use sol_gateway_dcc.Base.Int.{ℤ, pos, sub_ℕ, leb_ℤ}
use sol_gateway_dcc.Js.Map.{JsMap, get, has, set, delete}
use sol_gateway_dcc.Events.{SolanaDepositEvent}

pub record SolanaWatcher : Type 0 where
  pub required_confirmations : ℕ
  pub pending_events : JsMap JsString SolanaDepositEvent

pub data WatcherOutput : Type 0 where
  deposit_finalized deposit_invalidated : SolanaDepositEvent → WatcherOutput

-- One event of a log: the first event of a transfer stays.
unfoldable pub add_event : SolanaWatcher → SolanaDepositEvent → SolanaWatcher
add_event w e =
    if has e.transfer_id w.pending_events
    then w
    else record w { pending_events = set e.transfer_id e w.pending_events }

-- The loop of processLogs.
unfoldable pub process_logs : SolanaWatcher → List SolanaDepositEvent → SolanaWatcher
unfolding add_event
process_logs w [] = w
process_logs w (e ∷ events) = process_logs (add_event w e) events

-- What `getTransaction` answers; `meta.err` is set where the transaction failed.
pub record FetchedTx : Type 0 where
  pub slot : ℕ
  pub failed : Bool

-- verifyTransactionFinality; `none` where no transaction is found or the request fails.
unfoldable pub verify_transaction_finality : Option FetchedTx → ℕ → Bool
verify_transaction_finality none event_slot = false
verify_transaction_finality (some tx) event_slot = nat_eqb tx.slot event_slot && not tx.failed

abbrev pub confirmed : SolanaDepositEvent → ℤ → SolanaDepositEvent
confirmed e n = record e { confirmations = n }

unfoldable pub visit_event :
    SolanaWatcher
    → JsString
    → SolanaDepositEvent
    → ℕ
    → Option FetchedTx
    → SolanaWatcher × List WatcherOutput
unfolding verify_transaction_finality
visit_event w id e current_slot fetched =
    let confirmations = sub_ℕ current_slot e.slot in
    if leb_ℤ (pos w.required_confirmations) confirmations
    then if verify_transaction_finality fetched e.slot
      then (
        record w { pending_events = delete id w.pending_events },
        deposit_finalized (confirmed e confirmations) ∷ [],
      )
      else (record w { pending_events = delete id w.pending_events }, deposit_invalidated e ∷ [])
    else (w, [])

-- The visit of one entry; an entry that is gone is not visited.
unfoldable pub visit :
    SolanaWatcher → JsString → ℕ → Option FetchedTx → SolanaWatcher × List WatcherOutput
unfolding visit_event
visit w id current_slot fetched = elim (get id w.pending_events) [
  | none ↦ (w, [])
  | some e ↦ visit_event w id e current_slot fetched
]

pub data WatcherEvent : Type 0 where
  logs : List SolanaDepositEvent → WatcherEvent
  visits : JsString → ℕ → Option FetchedTx → WatcherEvent

unfoldable pub watch_step : SolanaWatcher → WatcherEvent → SolanaWatcher × List WatcherOutput
unfolding process_logs visit
watch_step w (logs events) = (process_logs w events, [])
watch_step w (visits id current_slot fetched) = visit w id current_slot fetched

unfoldable pub watch : SolanaWatcher → List WatcherEvent → SolanaWatcher × List WatcherOutput
unfolding watch_step
watch w [] = (w, [])
watch w (ev ∷ evs) =
    let (w', os) = watch_step w ev in let (w'', later) = watch w' evs in (w'', os ++ later)
