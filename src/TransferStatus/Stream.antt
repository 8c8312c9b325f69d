-- ===== src/TransferStatus/Stream.antt =====
-- The streams of api/src/routes/transfer.ts: sseClients, broadcastTransferUpdate and GET /transfer/:id/stream, with
-- the status update of api/src/routes/admin.ts that broadcasts. A Response is a number. `writable` says on which
-- responses a write returns.
use sol_gateway_dcc.Base.{
  ℕ, Bool, ◌||◌, not, Option, none, some, List, [], ◌∷◌, ◌++◌, map, JsString, codes, str_eq, nat_eq,
  ◌==◌, if◌then◌else◌, filterb,
}
use sol_gateway_dcc.Js.Map.{JsMap, get, set, delete, add, includes}
use sol_gateway_dcc.TransferStore.Store.{Transfers, Transfer}
use sol_gateway_dcc.TransferStore.Admin.{
  PatchBody, PatchAnswer, status_updated, status_required, invalid_status, transfer_not_found,
  patch_status,
}
use sol_gateway_dcc.TransferStatus.Route.{is_short}

-- `data` of a broadcast.
pub record Update : Type 0 where
  pub status : JsString
  pub error : Option JsString
  pub dest_tx_hash : Option JsString

pub data SseMessage : Type 0 where
  connected keepalive : SseMessage
  current : JsString → Transfer → SseMessage
  updated : JsString → Update → SseMessage

pub data SseOutput : Type 0 where
  writes : ℕ → SseMessage → SseOutput
  ends : ℕ → SseOutput

-- sseClients, and the intervals that run, by their response.
pub record Streams : Type 0 where
  pub sse_clients : JsMap JsString (List ℕ)
  pub keepalives : List ℕ

abbrev pub new_streams : Streams
new_streams = record { sse_clients = []; keepalives = [] }

unfoldable pub is_final : JsString → Bool
is_final status = status == codes "completed" || status == codes "failed"

-- A response whose write throws is taken out of the set, which keeps its place in the map.
unfoldable pub send_update :
    JsString → Update → (ℕ → Bool) → Streams → Option (List ℕ) → Streams × List SseOutput
unfolding is_final
send_update id u writable s none = (s, [])
send_update id u writable s (some []) = (s, [])
send_update id u writable s (some (c ∷ cs)) =
    let left = filterb writable (c ∷ cs) in
    let sent = map (λ r. writes r (updated id u)) left in
    if is_final u.status
    then (record s { sse_clients = delete id s.sse_clients }, sent ++ map ends left)
    else (record s { sse_clients = set id left s.sse_clients }, sent)

unfoldable pub broadcast_transfer_update :
    JsString → Update → (ℕ → Bool) → Streams → Streams × List SseOutput
unfolding send_update
broadcast_transfer_update id u writable s = send_update id u writable s (get id s.sse_clients)

unfoldable pub set_or_empty : Option (List ℕ) → List ℕ
set_or_empty none = []
set_or_empty (some cs) = cs

unfoldable pub send_current : JsString → ℕ → Option Transfer → List SseOutput
send_current id r none = []
send_current id r (some t) = writes r (current id t) ∷ []

-- `none` is the answer 400.
unfoldable pub open_stream :
    JsString → ℕ → Option Transfer → Streams → Option (Streams × List SseOutput)
unfolding set_or_empty send_current is_short
open_stream id r t s =
    if is_short id
    then none
    else some (
      record {
        sse_clients = set id (add r (set_or_empty (get id s.sse_clients))) s.sse_clients;
        keepalives = r ∷ s.keepalives;
      },
      writes r connected ∷ send_current id r t,
    )

unfoldable pub remove : ℕ → List ℕ → List ℕ
remove r cs = filterb (λ c. not (c == r)) cs

-- A set that is empty by now is taken out of the map.
unfoldable pub close_left : JsString → Streams → List ℕ → Streams
close_left id s [] = record s { sse_clients = delete id s.sse_clients }
close_left id s (c ∷ left) = record s { sse_clients = set id (c ∷ left) s.sse_clients }

unfoldable pub close_from : JsString → ℕ → Streams → Option (List ℕ) → Streams
unfolding remove close_left
close_from id r s none = s
close_from id r s (some cs) = close_left id s (remove r cs)

-- The callback of 'close', which knows the id and the response.
unfoldable pub close_stream : JsString → ℕ → Streams → Streams
unfolding close_from remove
close_stream id r s =
    close_from id r (record s { keepalives = remove r s.keepalives }) (get id s.sse_clients)

-- One turn of a response's interval, which an error clears.
unfoldable pub tick : ℕ → (ℕ → Bool) → Streams → Streams × List SseOutput
unfolding remove
tick r writable s =
    if includes r s.keepalives
    then if writable r
      then (s, writes r keepalive ∷ [])
      else (record s { keepalives = remove r s.keepalives }, [])
    else (s, [])

abbrev pub update_of : PatchBody → JsString → Update
update_of body status = record {
  status = status;
  error = body.error;
  dest_tx_hash = body.dest_tx_hash;
}

unfoldable pub push_patch :
    JsString
    → PatchBody
    → (ℕ → Bool)
    → Option JsString
    → Streams
    → PatchAnswer
    → Streams × List SseOutput
unfolding broadcast_transfer_update
push_patch id body writable (some status) s status_updated =
    broadcast_transfer_update id (update_of body status) writable s
push_patch id body writable none s status_updated = (s, [])
push_patch id body writable status s status_required = (s, [])
push_patch id body writable status s invalid_status = (s, [])
push_patch id body writable status s transfer_not_found = (s, [])

-- PATCH /admin/transfer/:id/status, with its broadcast.
unfoldable pub patch_and_push :
    JsString
    → PatchBody
    → ℕ
    → (ℕ → Bool)
    → Transfers
    → Streams
    → (Transfers × PatchAnswer) × (Streams × List SseOutput)
unfolding push_patch patch_status
patch_and_push id body now writable store s =
    let result = patch_status id body now store in
    (result, push_patch id body writable body.status s result.1)

-- The events of the streams. An opening comes with what is stored of the transfer.
pub data StreamEvent : Type 0 where
  opens : JsString → ℕ → Option Transfer → StreamEvent
  closes : JsString → ℕ → StreamEvent
  updates : JsString → Update → (ℕ → Bool) → StreamEvent
  ticks : ℕ → (ℕ → Bool) → StreamEvent

unfoldable pub after_opening : Streams → Option (Streams × List SseOutput) → Streams
after_opening s none = s
after_opening s (some (s', outputs)) = s'

unfoldable pub stream_event : StreamEvent → Streams → Streams
unfolding after_opening open_stream close_stream broadcast_transfer_update tick
stream_event (opens id r t) s = after_opening s (open_stream id r t s)
stream_event (closes id r) s = close_stream id r s
stream_event (updates id u writable) s = (broadcast_transfer_update id u writable s).0
stream_event (ticks r writable) s = (tick r writable s).0

unfoldable pub run_streams : List StreamEvent → Streams → Streams
run_streams [] s = s
run_streams (e ∷ es) s = run_streams es (stream_event e s)
