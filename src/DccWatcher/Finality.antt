-- ===== src/DccWatcher/Finality.antt =====
-- validator/src/watchers/dcc-watcher.ts: the visit that runFinalityLoop pays to a pending burn.
use sol_gateway_dcc.Base.{
  ℕ, Bool, false, ◌&&◌, not, Option, none, some, List, [], ◌∷◌, JsString, str_eq, nat_eqb,
  if◌then◌else◌, ◌==◌,
}
use sol_gateway_dcc.Base.Int.{ℤ, pos, ◌-ℤ◌, leb_ℤ}
use sol_gateway_dcc.Js.Map.{get, delete}
use sol_gateway_dcc.Events.{DccBurnEvent, JsNumber, nan, int}
use sol_gateway_dcc.DccWatcher.Scan.{DccWatcher}

pub data BurnOutput : Type 0 where
  burn_finalized burn_invalidated : DccBurnEvent → BurnOutput

-- What the node answers for the burn's data entry.
pub record DataResponse : Type 0 where
  pub status : ℕ
  pub value : Option JsString

unfoldable pub is_truthy : Option JsString → Bool
is_truthy none = false
is_truthy (some s) = not (s == [])

-- verifyBurnOnChain; `none` where the request fails.
unfoldable pub verify_burn_on_chain : Option DataResponse → Bool
unfolding is_truthy
verify_burn_on_chain none = false
verify_burn_on_chain (some r) = nat_eqb r.status 200 && is_truthy r.value

abbrev pub confirmed_burn : DccBurnEvent → ℤ → DccBurnEvent
confirmed_burn e n = record e { confirmations = n }

unfoldable pub settle_burn :
    DccWatcher → JsString → DccBurnEvent → ℤ → Option DataResponse → DccWatcher × List BurnOutput
unfolding verify_burn_on_chain
settle_burn w id e confirmations answer =
    if leb_ℤ (pos w.required_confirmations) confirmations
    then if verify_burn_on_chain answer
      then (
        record w { pending_burns = delete id w.pending_burns },
        burn_finalized (confirmed_burn e confirmations) ∷ [],
      )
      else (record w { pending_burns = delete id w.pending_burns }, burn_invalidated e ∷ [])
    else (w, [])

-- No comparison with NaN holds.
unfoldable pub visit_burn_event :
    DccWatcher
    → JsString
    → DccBurnEvent
    → JsNumber
    → ℕ
    → Option DataResponse
    → DccWatcher × List BurnOutput
unfolding settle_burn
visit_burn_event w id e nan current answer = (w, [])
visit_burn_event w id e (int h) current answer = settle_burn w id e (pos current -ℤ h) answer

unfoldable pub visit_burn :
    DccWatcher → JsString → ℕ → Option DataResponse → DccWatcher × List BurnOutput
unfolding visit_burn_event
visit_burn w id current answer = elim (get id w.pending_burns) [
  | none ↦ (w, [])
  | some e ↦ visit_burn_event w id e e.height current answer
]
