-- ===== src/DccWatcher/Polling.antt =====
-- Which burns a poll of validator/src/watchers/dcc-watcher.ts leaves pending.
use sol_gateway_dcc.Base.{
  ℕ, zero, suc, ◌+◌, ◌-◌, ◌≡◌, refl, ◌∙◌, Bool, false, ◌||◌, Option, none, some, List, [], ◌∷◌,
  arith, JsString, ◌==◌, str_eq, any, ltb, if_cases, Option-cases, inl, inr,
}
use Prim.Native.Nat.{max}
use sol_gateway_dcc.Js.Map.{has, has-set}
use sol_gateway_dcc.Events.{DccBurnEvent}
use sol_gateway_dcc.DccWatcher.Scan.{
  DccWatcher, DccTx, burn_event_of, add_burn, check_for_burn_event, scan_transactions, scan_block,
  scan_blocks, poll,
}

-- A transaction shows a burn with the id.
unfoldable pub shows : JsString → JsString → DccTx → Bool
shows contract id tx = elim (burn_event_of contract tx) [ none ↦ false | some e ↦ e.burn_id == id ]

unfoldable pub block_shows : JsString → JsString → Option (List DccTx) → Bool
unfolding shows
block_shows contract id none = false
block_shows contract id (some txs) = any (shows contract id) txs

-- The `n` heights from `h` on.
abbrev pub heights : ℕ → ℕ → List ℕ
heights h zero = []
heights h (suc n) = h ∷ heights (h + 1) n

abbrev is_pending : JsString → DccWatcher → Bool
is_pending id w = has id w.pending_burns

-- A step adds to what is pending what it shows, and keeps the contract and the height.
record Adds (id : JsString) (w : DccWatcher) (shown : Bool) (w' : DccWatcher) : Type 0 where
  pending : is_pending id w' ≡ (is_pending id w || shown)
  contract : w'.bridge_contract ≡ w.bridge_contract

add_burn-Adds :
    (id : JsString) (w : DccWatcher) (e : DccBurnEvent) → Adds id w (e.burn_id == id) (add_burn w e)
unfolding add_burn
add_burn-Adds id w e =
    if_cases (Adds id w (e.burn_id == id)) (has e.burn_id w.pending_burns) _ _
      (λ old. record {
        pending = ground (arith, old, (str_eq.eqb_iff e.burn_id id).0);
        contract = refl;
      })
      (λ _. record {
        pending = ground (arith, has-set e.burn_id id e w.pending_burns);
        contract = refl;
      })

nothing-Adds : (id : JsString) (w : DccWatcher) → Adds id w false w
nothing-Adds id w = record { pending = ground arith; contract = refl }

Adds-then :
    (id : JsString) (w v u : DccWatcher) (a b : Bool)
    → Adds id w a v
    → Adds id v b u
    → Adds id w (a || b) u
Adds-then id w v u a b p q = record {
  pending = ground (arith, p.pending, q.pending);
  contract = q.contract ∙ p.contract;
}

check-Adds :
    (id : JsString) (w : DccWatcher) (tx : DccTx)
    → Adds id w (shows w.bridge_contract id tx) (check_for_burn_event w tx)
unfolding check_for_burn_event shows
check-Adds id w tx = elim (Option-cases (burn_event_of w.bridge_contract tx)) [
  | inl none_left ↦ rw (none_left, check_for_burn_event, shows) (nothing-Adds id w)
  | inr (e, found) ↦ rw (found, check_for_burn_event, shows) (add_burn-Adds id w e)
]

scan_transactions-Adds :
    (id : JsString) (txs : List DccTx) (w : DccWatcher)
    → Adds id w (any (shows w.bridge_contract id) txs) (scan_transactions w txs)
unfolding scan_transactions
scan_transactions-Adds id [] w = nothing-Adds id w
scan_transactions-Adds id (tx ∷ txs) w =
    let first = check-Adds id w tx in
    let rest = scan_transactions-Adds id txs (check_for_burn_event w tx) in
    Adds-then id w (check_for_burn_event w tx) (scan_transactions (check_for_burn_event w tx) txs) _
      _ first (rw (first.contract) at rest)

scan_block-Adds :
    (id : JsString) (block : Option (List DccTx)) (w : DccWatcher)
    → Adds id w (block_shows w.bridge_contract id block) (scan_block w block)
unfolding scan_block block_shows
scan_block-Adds id none w = nothing-Adds id w
scan_block-Adds id (some txs) w = scan_transactions-Adds id txs w

scan_blocks-Adds :
    (id : JsString) (fetch : ℕ → Option (List DccTx)) (h n : ℕ) (w : DccWatcher)
    → Adds id w
        (any (λ k. block_shows w.bridge_contract id (fetch k)) (heights h n))
        (scan_blocks fetch h n w)
unfolding scan_blocks
scan_blocks-Adds id fetch h zero w = nothing-Adds id w
scan_blocks-Adds id fetch h (suc n) w =
    let first = scan_block-Adds id (fetch h) w in
    let rest = scan_blocks-Adds id fetch (h + 1) n (scan_block w (fetch h)) in
    Adds-then id w (scan_block w (fetch h)) (scan_blocks fetch (h + 1) n (scan_block w (fetch h))) _
      _ first (rw (first.contract) at rest)

-- After a poll, a burn id is pending exactly when it was before, or a block above the last processed
-- height and up to the current one, as the node answers it, has a transaction that shows it; a block
-- that the node does not answer shows none, and the height moves past it all the same.
pub has-poll :
    (fetch : ℕ → Option (List DccTx)) (current : ℕ) (w : DccWatcher) (id : JsString)
    → (has id (poll fetch current w).pending_burns ≡ (
        has id w.pending_burns
        || any
            (λ h. block_shows w.bridge_contract id (fetch h))
            (heights (w.last_processed_height + 1) (current - w.last_processed_height))))
      × ((poll fetch current w).last_processed_height ≡ max w.last_processed_height current)
unfolding poll
has-poll fetch current w id =
    if_cases
      (λ w'.
        (is_pending id w' ≡ (is_pending id w || scanned (current - last)))
        × (w'.last_processed_height ≡ max last current))
      (ltb last current) _ _
      (λ ahead.
        ((scan_blocks-Adds id fetch (last + 1) (current - last) w).pending, ground (arith, ahead)))
      (λ behind. (nothing_scanned behind, ground (arith, behind)))
  where
    last : ℕ
    last = w.last_processed_height

    scanned : ℕ → Bool
    scanned n = any (λ h. block_shows w.bridge_contract id (fetch h)) (heights (last + 1) n)

    nothing_scanned :
        ltb last current ≡ false → is_pending id w ≡ (is_pending id w || scanned (current - last))
    nothing_scanned behind =
        let none_left : current - last ≡ 0 = ground (arith, behind) in rw none_left (ground arith)
