-- ===== src/TransferStore/Histories.antt =====
-- What any run of calls leaves of one transfer in the store of api/src/utils/transfer-store.ts.
use sol_gateway_dcc.Base.{
  ℕ, ◌≡◌, refl, ◌∙◌, ap, Option, none, some, List, [], ◌∷◌, arith, JsString, str_eq, ◌==◌,
  if◌then◌else◌, Bool-cases, inl, inr,
}
use sol_gateway_dcc.Js.Map.{get, get-set, has-get}
use sol_gateway_dcc.TransferStore.Store.{
  CreateParams, Transfer, Transfers, Extra, new_transfer, create_transfer, updated_transfer,
  update_row, update_transfer_status, get_transfer_by_id,
}

pub data StoreCall : Type 0 where
  creates : CreateParams → ℕ → StoreCall
  updates : JsString → JsString → Extra → ℕ → StoreCall

unfoldable pub perform : StoreCall → Transfers → Transfers
perform (creates p now) s = (create_transfer p now s).0
perform (updates id status x now) s = (update_transfer_status id status x now s).0

unfoldable pub perform_all : List StoreCall → Transfers → Transfers
perform_all [] s = s
perform_all (c ∷ cs) s = perform_all cs (perform c s)

-- One transfer's own history: only its first creation counts, and only its updates after that.
unfoldable pub track : JsString → StoreCall → Option Transfer → Option Transfer
track id (creates p now) (some t) = some t
track id (creates p now) none = if p.transfer_id == id then some (new_transfer p now) else none
track id (updates j status x now) none = none
track id (updates j status x now) (some t) =
    if j == id then some (updated_transfer status x now t) else some t

unfoldable pub track_all : JsString → List StoreCall → Option Transfer → Option Transfer
track_all id [] t = t
track_all id (c ∷ cs) t = track_all id cs (track id c t)

get-update_row :
    (id j status : JsString) (x : Extra) (now : ℕ) (s : Transfers) (u : Option Transfer)
    → get j s ≡ u
    → get id (update_row j status x now s u).0 ≡ track id (updates j status x now) (get id s)
unfolding update_row track
get-update_row id j status x now s none h = elim (Bool-cases (j == id)) [
  | inl same ↦ let q : j ≡ id = (str_eq.eqb_iff j id).0 same in grind (arith, q, h)
  | inr other ↦ grind (arith, other, h)
]
get-update_row id j status x now s (some t) h = elim (Bool-cases (j == id)) [
  | inl same ↦
      let q : j ≡ id = (str_eq.eqb_iff j id).0 same in
      grind (arith, q, h, same, get-set j id (updated_transfer status x now t) s)
  | inr other ↦ grind (arith, other, h, get-set j id (updated_transfer status x now t) s)
]

get-perform :
    (id : JsString) (c : StoreCall) (s : Transfers) → get id (perform c s) ≡ track id c (get id s)
unfolding perform create_transfer update_transfer_status track
get-perform id (creates p now) s = elim (Bool-cases (p.transfer_id == id)) [
  | inl same ↦
      let q : p.transfer_id ≡ id = (str_eq.eqb_iff p.transfer_id id).0 same in
      grind
        (arith, q, same, has-get p.transfer_id s, get-set p.transfer_id id (new_transfer p now) s)
  | inr other ↦ grind (arith, other, get-set p.transfer_id id (new_transfer p now) s)
]
get-perform id (updates j status x now) s = get-update_row id j status x now s (get j s) refl

-- After any calls of createTransfer and updateTransferStatus, getTransferById answers with the
-- transfer's own history: the row of its first creation, with its updates since then applied in
-- order, whatever the calls about other transfers are, and nothing where it was never created.
pub get_transfer_by_id-perform_all :
    (id : JsString) (cs : List StoreCall) (s : Transfers)
    → get_transfer_by_id id (perform_all cs s) ≡ track_all id cs (get_transfer_by_id id s)
unfolding perform_all track_all get_transfer_by_id
get_transfer_by_id-perform_all id [] s = refl
get_transfer_by_id-perform_all id (c ∷ cs) s =
    get_transfer_by_id-perform_all id cs (perform c s) ∙ ap (track_all id cs) (get-perform id c s)
