-- ===== src/TransferStatus/Pushes.antt =====
-- Whom the update of api/src/routes/admin.ts reaches through broadcastTransferUpdate of api/src/routes/transfer.ts.
use sol_gateway_dcc.Base.{
  append_nil, ℕ, ◌≡◌, refl, sym, ap, subst, ◌∙◌, Bool, true, false, ◌&&◌, Option, none, some, List,
  [], ◌∷◌, ◌++◌, map, JsString, str_eq, nat_eq, ◌==◌, if◌then◌else◌, filterb, Bool-cases,
  Option-cases, inl, inr, arith, replicate,
}
use sol_gateway_dcc.Js.Map.{get, has, includes, has-get}
use sol_gateway_dcc.TransferStore.Store.{Transfers, or_null, update_row, update_transfer_status}
use sol_gateway_dcc.TransferStore.Admin.{
  PatchBody, patch_status, patch_given, patch_valid, patch_answer, valid_statuses,
}
use sol_gateway_dcc.TransferStatus.Stream.{
  Update, connected, keepalive, current, updated, SseOutput, writes, ends, Streams, new_streams,
  is_final, send_update, broadcast_transfer_update, set_or_empty, update_of, push_patch,
  patch_and_push, StreamEvent, run_streams,
}
use sol_gateway_dcc.TransferStatus.Listeners.{
  listens, bit, count, count-filterb, run_streams-Counts,
}

-- The updates that are written to a response.
abbrev pub updates_to : ℕ → List SseOutput → List (JsString × Update)
updates_to r [] = []
updates_to r (writes c (updated id u) ∷ os) =
    let rest = updates_to r os in if c == r then (id, u) ∷ rest else rest
updates_to r (writes c connected ∷ os) = updates_to r os
updates_to r (writes c keepalive ∷ os) = updates_to r os
updates_to r (writes c (current id t) ∷ os) = updates_to r os
updates_to r (ends c ∷ os) = updates_to r os

abbrev once : JsString → Update → Bool → List (JsString × Update)
once id u b = if b then (id, u) ∷ [] else []

updates_to-sent :
    (r : ℕ) (id : JsString) (u : Update) (cs : List ℕ) (os : List SseOutput)
    → updates_to r os ≡ []
    → updates_to r (map (λ c. writes c (updated id u)) cs ++ os) ≡ replicate (count r cs) (id, u)
updates_to-sent r id u [] os h = h
updates_to-sent r id u (c ∷ cs) os h = elim (Bool-cases (c == r)) [
  | inl same ↦ rw same (ap (◌∷◌ (id, u)) (updates_to-sent r id u cs os h))
  | inr other ↦ rw other (updates_to-sent r id u cs os h)
]

updates_to-ends : (r : ℕ) (cs : List ℕ) → updates_to r (map ends cs) ≡ []
updates_to-ends r [] = refl
updates_to-ends r (c ∷ cs) = updates_to-ends r cs

replicate-bit :
    (id : JsString) (u : Update) (b : Bool) {n : ℕ} → n ≡ bit b → replicate n (id, u) ≡ once id u b
replicate-bit id u false q = ap (λ k. replicate k (id, u)) q
replicate-bit id u true q = ap (λ k. replicate k (id, u)) q

send_update-updates_to :
    (id : JsString) (r : ℕ) (u : Update) (w : ℕ → Bool) (b : Bool) (s : Streams)
    (o : Option (List ℕ))
    → count r (set_or_empty o) ≡ bit b
    → updates_to r (send_update id u w s o).1 ≡ once id u (b && w r)
unfolding send_update set_or_empty
send_update-updates_to id r u w b s none h =
    replicate-bit id u (b && w r) {n = 0} (ground (arith, h))
send_update-updates_to id r u w b s (some []) h =
    replicate-bit id u (b && w r) {n = 0} (ground (arith, h))
send_update-updates_to id r u w b s (some (c ∷ cs)) h =
    let q : count r (filterb w (c ∷ cs)) ≡ bit (b && w r) =
      count-filterb r w (c ∷ cs) ∙ ground (arith, h) in
    elim (Bool-cases (is_final u.status)) [
      | inl final ↦ rw final (
          updates_to-sent r id u (filterb w (c ∷ cs)) _ (updates_to-ends r (filterb w (c ∷ cs)))
          ∙ replicate-bit id u (b && w r) q)
      | inr going ↦ rw going (
          ap (updates_to r)
            (sym (append_nil (map (λ c. writes c (updated id u)) (filterb w (c ∷ cs)))))
          ∙ (updates_to-sent r id u (filterb w (c ∷ cs)) [] refl ∙ replicate-bit id u (b && w r) q))
    ]

broadcast-updates_to :
    (id : JsString) (r : ℕ) (u : Update) (w : ℕ → Bool) (es : List StreamEvent)
    → updates_to r (broadcast_transfer_update id u w (run_streams es new_streams)).1
      ≡ once id u (listens id r es && w r)
unfolding broadcast_transfer_update set_or_empty get
broadcast-updates_to id r u w es =
    send_update-updates_to id r u w (listens id r es) (run_streams es new_streams) _
      (run_streams-Counts id r false es new_streams refl)

-- Whether the status is one of the eight, and the transfer is stored.
abbrev pub is_patched : JsString → JsString → Transfers → Bool
is_patched id status store = includes status valid_statuses && has id store

pushed-listens :
    (id status : JsString) (r : ℕ) (body : PatchBody) (now : ℕ) (w : ℕ → Bool) (store : Transfers)
    (es : List StreamEvent)
    → updates_to r
        (push_patch id body w
          (some status)
          (run_streams es new_streams)
          (patch_given id (or_null (some status)) body now store).1).1
      ≡ once id (update_of body status) (is_patched id status store && (listens id r es && w r))
unfolding push_patch patch_given patch_valid patch_answer update_transfer_status update_row or_null
    includes
pushed-listens id [] r body now w store es = refl
pushed-listens id (c ∷ s) r body now w store es =
    elim (Bool-cases (includes (c ∷ s) valid_statuses)) [
      | inl valid ↦ elim (Option-cases (get id store)) [
        | inl missing ↦ rw (valid, missing, has-get id store, missing) refl
        | inr (t, found) ↦
            rw (valid, found, has-get id store, found)
              (broadcast-updates_to id r (update_of body (c ∷ s)) w es)
      ]
      | inr invalid ↦ rw invalid refl
    ]

-- After any openings, closings, updates and intervals, an operator's update of a status is written to a response
-- exactly once, with the transfer's id, where the status is one of the eight, the transfer is stored, the response
-- listens to it, and the write returns; and else not at all. A response listens since its opening under an id of 16
-- characters or more, until it is closed, a write of an update to it fails, or the transfer is completed or failed.
pub patch_and_push-listens :
    (id status : JsString) (r : ℕ) (body : PatchBody) (now : ℕ) (w : ℕ → Bool) (store : Transfers)
    (es : List StreamEvent)
    → body.status ≡ some status
    → updates_to r (patch_and_push id body now w store (run_streams es new_streams)).1.1 ≡ (
        if is_patched id status store && (listens id r es && w r)
        then (id, update_of body status) ∷ []
        else [])
unfolding patch_and_push patch_status push_patch
patch_and_push-listens id status r body now w store es q =
    subst
      (λ o.
        updates_to r
          (push_patch id body w o (run_streams es new_streams)
            (patch_given id (or_null o) body now store).1).1
        ≡ once id (update_of body status) (is_patched id status store && (listens id r es && w r)))
      (sym q) (pushed-listens id status r body now w store es)
