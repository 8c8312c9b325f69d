-- ===== src/DccWatcher/Finalized.antt =====
-- Which burns a visit of the finality loop of validator/src/watchers/dcc-watcher.ts finalizes.
use sol_gateway_dcc.Base.{
  ℕ, ◌≡◌, ◌↔◌, refl, true, Option, none, some, [], ◌∷◌, arith, JsString, str_eq,
}
use sol_gateway_dcc.Base.Int.{ℤ, pos, ◌-ℤ◌, ◌≤ℤ◌}
use sol_gateway_dcc.Js.Map.{get}
use sol_gateway_dcc.Events.{DccBurnEvent, JsNumber, nan, int}
use sol_gateway_dcc.DccWatcher.Scan.{DccWatcher}
use sol_gateway_dcc.DccWatcher.Finality.{
  burn_finalized, DataResponse, is_truthy, verify_burn_on_chain, confirmed_burn, settle_burn,
  visit_burn_event, visit_burn,
}

-- The record's height is a number, far enough below the current one, and the node has the record.
pub record IsSettled (w : DccWatcher) (height : JsNumber) (current : ℕ) (r : DataResponse) (h : ℤ)
    : Type 0 where
  pub number : height ≡ int h
  pub deep : pos w.required_confirmations ≤ℤ (pos current -ℤ h)
  pub status : r.status ≡ 200
  pub value : is_truthy r.value ≡ true

visit_burn_event-settled :
    (w : DccWatcher) (id : JsString) (e : DccBurnEvent) (height : JsNumber) (current : ℕ)
    (r : DataResponse) (h : ℤ)
    → IsSettled w height current r h
    → (visit_burn_event w id e height current (some r)).1
      ≡ burn_finalized (confirmed_burn e (pos current -ℤ h)) ∷ []
unfolding visit_burn_event settle_burn verify_burn_on_chain
visit_burn_event-settled w id e nan current r h s = absurd (let n = s.number in ground (arith, n))
visit_burn_event-settled w id e (int k) current r h s =
    let same : k ≡ h = ground (arith, s.number) in
    rw same (ground (arith, s.deep, s.status, s.value))

visit_burn_event-finalized :
    (w : DccWatcher) (id : JsString) (e : DccBurnEvent) (height : JsNumber) (current : ℕ)
    (answer : Option DataResponse) {d : DccBurnEvent}
    → (visit_burn_event w id e height current answer).1 ≡ burn_finalized d ∷ []
    → (r : DataResponse) × (h : ℤ) × (answer ≡ some r)
      × IsSettled w height current r h
      × (d ≡ confirmed_burn e (pos current -ℤ h))
unfolding visit_burn_event settle_burn verify_burn_on_chain
visit_burn_event-finalized w id e nan current answer x = absurd (ground (arith, x))
visit_burn_event-finalized w id e (int h) current none x = absurd (ground (arith, x))
visit_burn_event-finalized w id e (int h) current (some r) x = (
  r,
  h,
  refl,
  record {
    number = refl;
    deep = ground (arith, x);
    status = ground (arith, x);
    value = ground (arith, x);
  },
  ground (arith, x),
)

-- A visit finalizes a pending burn exactly when its record's height is a number, the current height is at
-- least `requiredConfirmations` past it, and the node answers the burn's data entry with status 200 and a
-- value that is not empty; the event that is emitted is the pending one with its confirmations. A burn
-- whose height is NaN is never finalized.
pub visit_burn-finalized_iff :
    (w : DccWatcher) (id : JsString) (e d : DccBurnEvent) (current : ℕ)
    (answer : Option DataResponse)
    → get id w.pending_burns ≡ some e
    → ((visit_burn w id current answer).1 ≡ burn_finalized d ∷ []) ↔ (
        (r : DataResponse) × (h : ℤ) × (answer ≡ some r)
        × IsSettled w e.height current r h
        × (d ≡ confirmed_burn e (pos current -ℤ h)))
unfolding visit_burn
visit_burn-finalized_iff w id e d current answer found = (
  (λ x. visit_burn_event-finalized w id e e.height current answer (rw (found, visit_burn) at x)),
  λ (r, h, same, settled, event).
      rw (found, visit_burn)
        (rw (same, event) (visit_burn_event-settled w id e e.height current r h settled)),
)
