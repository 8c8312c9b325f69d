-- ===== src/TransferStatus/Listeners.antt =====
-- Who listens to a transfer: the sets of sseClients in api/src/routes/transfer.ts, after any events.
use sol_gateway_dcc.Base.{
  ℕ, suc, ◌+◌, ◌≡◌, refl, sym, ap, ◌∙◌, Bool, true, false, ◌||◌, ◌&&◌, not, Option, none, some,
  List, [], ◌∷◌, ◌++◌, JsString, str_eq, nat_eq, ◌==◌, ==→eq, if◌then◌else◌, filterb, Bool-cases,
  inl, inr, arith, ltb,
}
use sol_gateway_dcc.Js.Map.{get, set, delete, add, includes, get-set, get-delete}
use sol_gateway_dcc.TransferStore.Store.{Transfer}
use sol_gateway_dcc.TransferStatus.Route.{is_short}
use sol_gateway_dcc.TransferStatus.Stream.{
  Update, Streams, is_final, send_update, broadcast_transfer_update, set_or_empty, open_stream,
  remove, close_left, close_from, close_stream, tick, StreamEvent, opens, closes, updates, ticks,
  after_opening, stream_event, run_streams,
}

-- Whether a response listens to a transfer after an event.
abbrev listens_after : JsString → ℕ → Bool → StreamEvent → Bool
listens_after id r b (opens j c t) = b || (j == id && (c == r && not (is_short j)))
listens_after id r b (closes j c) = b && not (j == id && c == r)
listens_after id r b (updates j u writable) =
    b && (not (j == id) || (writable r && not (is_final u.status)))
listens_after id r b (ticks c writable) = b

-- Whether a response listens to a transfer after some events: since it was after_opening, it was not closed, no write of an
-- update failed, and the transfer did not become final.
abbrev pub listens_from : JsString → ℕ → Bool → List StreamEvent → Bool
listens_from id r b [] = b
listens_from id r b (e ∷ es) = listens_from id r (listens_after id r b e) es

abbrev pub listens : JsString → ℕ → List StreamEvent → Bool
listens id r es = listens_from id r false es

abbrev pub bit : Bool → ℕ
bit b = if b then 1 else 0

abbrev pub count : ℕ → List ℕ → ℕ
count r [] = 0
count r (c ∷ cs) = let k = count r cs in if c == r then suc k else k

abbrev pub listeners : JsString → Streams → List ℕ
listeners id s = set_or_empty (get id s.sse_clients)

pub count-filterb :
    (r : ℕ) (p : ℕ → Bool) (cs : List ℕ) → count r (filterb p cs) ≡ (if p r then count r cs else 0)
count-filterb r p [] = ground arith
count-filterb r p (c ∷ cs) = elim (Bool-cases (c == r)) [
  | inl same ↦
      let pc : p c ≡ p r = ap p (==→eq c r same) in ground (arith, pc, same, count-filterb r p cs)
  | inr other ↦ ground (arith, other, count-filterb r p cs)
]

count-append : (r : ℕ) (cs ds : List ℕ) → count r (cs ++ ds) ≡ count r cs + count r ds
count-append r [] ds = omega arith
count-append r (c ∷ cs) ds = ground (arith, count-append r cs ds)

includes-count : (r : ℕ) (cs : List ℕ) → includes r cs ≡ ltb 0 (count r cs)
unfolding includes
includes-count r [] = refl
includes-count r (c ∷ cs) = ground (arith, includes-count r cs)

count-add :
    (r c : ℕ) (b : Bool) (cs : List ℕ) → count r cs ≡ bit b → count r (add c cs) ≡ bit (b || c == r)
unfolding add
count-add r c b cs h = ground (arith, h, includes-count c cs, count-append r cs (c ∷ []), ==→eq c r)

-- The set of a transfer counts each of its listeners once.
abbrev pub Counts : JsString → ℕ → Bool → Streams → Type 0
Counts id r b s = count r (listeners id s) ≡ bit b

set-Counts :
    (id j : JsString) (r : ℕ) (b b' : Bool) (cs : List ℕ) (s : Streams) (ks : List ℕ)
    → Counts id r b s
    → (j == id ≡ true → count r cs ≡ bit b')
    → (j == id ≡ false → b' ≡ b)
    → Counts id r b' (record { sse_clients = set j cs s.sse_clients; keepalives = ks })
unfolding set_or_empty
set-Counts id j r b b' cs s ks h same other =
    rw (get-set j id cs s.sse_clients)
      (elim (Bool-cases (j == id)) [ inl q ↦ rw q (same q) | inr q ↦ rw (q, other q) h ])

delete-Counts :
    (id j : JsString) (r : ℕ) (b b' : Bool) (s : Streams) (ks : List ℕ)
    → Counts id r b s
    → (j == id ≡ true → b' ≡ false)
    → (j == id ≡ false → b' ≡ b)
    → Counts id r b' (record { sse_clients = delete j s.sse_clients; keepalives = ks })
unfolding set_or_empty
delete-Counts id j r b b' s ks h same other =
    rw (get-delete j id s.sse_clients)
      (elim (Bool-cases (j == id)) [ inl q ↦ rw (q, same q) refl | inr q ↦ rw (q, other q) h ])

bit-zero : (b : Bool) → 0 ≡ bit b → b ≡ false
bit-zero b h = ground (arith, h)

-- What the map holds of the transfer itself.
found-Counts :
    (id j : JsString) (r : ℕ) (b : Bool) (s : Streams) (o : Option (List ℕ))
    → j == id ≡ true
    → get j s.sse_clients ≡ o
    → Counts id r b s
    → count r (set_or_empty o) ≡ bit b
found-Counts id j r b s o same q h =
    ap (λ x. count r (set_or_empty x)) (sym q)
    ∙ (ap (λ i. count r (set_or_empty (get i s.sse_clients))) (==→eq j id same) ∙ h)

opens-Counts :
    (id j : JsString) (r c : ℕ) (t : Option Transfer) (b : Bool) (s : Streams)
    → Counts id r b s
    → Counts id r (listens_after id r b (opens j c t)) (stream_event (opens j c t) s)
unfolding stream_event after_opening open_stream
opens-Counts id j r c t b s h = elim (Bool-cases (is_short j)) [
  | inl short ↦ rw short (h ∙ ground (arith, short))
  | inr long ↦ rw long (
      set-Counts id j r b _ _ s (c ∷ s.keepalives) h
        (λ q.
          let e : (b || (c == r)) ≡ (b || (j == id && (c == r && not false))) = ground (arith, q) in
          count-add r c b _ (found-Counts id j r b s _ q refl h) ∙ ap bit e)
        (λ q. ground (arith, q, long)))
]

close_left-Counts :
    (id j : JsString) (r : ℕ) (b b' : Bool) (s : Streams) (left : List ℕ)
    → Counts id r b s
    → (j == id ≡ true → count r left ≡ bit b')
    → (j == id ≡ false → b' ≡ b)
    → Counts id r b' (close_left j s left)
unfolding close_left
close_left-Counts id j r b b' s [] h same other =
    delete-Counts id j r b b' s s.keepalives h (λ q. bit-zero b' (same q)) other
close_left-Counts id j r b b' s (c ∷ left) h same other =
    set-Counts id j r b b' (c ∷ left) s s.keepalives h same other

close_from-Counts :
    (id j : JsString) (r c : ℕ) (b : Bool) (s : Streams) (o : Option (List ℕ))
    → get j s.sse_clients ≡ o
    → Counts id r b s
    → Counts id r (listens_after id r b (closes j c)) (close_from j c s o)
unfolding close_from remove set_or_empty
close_from-Counts id j r c b s none q h =
    let unheard : j == id ≡ true → b ≡ false =
      (λ same. bit-zero b (found-Counts id j r b s none same q h)) in
    let e : b ≡ (b && not (j == id && c == r)) = ground (arith, unheard) in h ∙ ap bit e
close_from-Counts id j r c b s (some cs) q h =
    close_left-Counts id j r b _ s _ h
      (λ same.
        let k = found-Counts id j r b s (some cs) same q h in
        count-filterb r (λ d. not (d == c)) cs ∙ ground (arith, k, same, ==→eq r c, ==→eq c r))
      (λ other. ground (arith, other))

send_update-Counts :
    (id j : JsString) (r : ℕ) (u : Update) (w : ℕ → Bool) (b : Bool) (s : Streams)
    (o : Option (List ℕ))
    → get j s.sse_clients ≡ o
    → Counts id r b s
    → Counts id r (listens_after id r b (updates j u w)) (send_update j u w s o).0
unfolding send_update set_or_empty
send_update-Counts id j r u w b s none q h =
    let unheard : j == id ≡ true → b ≡ false =
      (λ same. bit-zero b (found-Counts id j r b s none same q h)) in
    let e : b ≡ (b && (not (j == id) || (w r && not (is_final u.status)))) =
      ground (arith, unheard) in
    h ∙ ap bit e
send_update-Counts id j r u w b s (some []) q h =
    let unheard : j == id ≡ true → b ≡ false =
      (λ same. bit-zero b (found-Counts id j r b s (some []) same q h)) in
    let e : b ≡ (b && (not (j == id) || (w r && not (is_final u.status)))) =
      ground (arith, unheard) in
    h ∙ ap bit e
send_update-Counts id j r u w b s (some (c ∷ cs)) q h = elim (Bool-cases (is_final u.status)) [
  | inl final ↦ rw final (
      delete-Counts id j r b _ s s.keepalives h (λ same. ground (arith, same, final))
        (λ other. ground (arith, other)))
  | inr going ↦ rw going (
      set-Counts id j r b _ (filterb w (c ∷ cs)) s s.keepalives h
        (λ same.
          let k = found-Counts id j r b s (some (c ∷ cs)) same q h in
          count-filterb r w (c ∷ cs) ∙ ground (arith, k, same, going))
        (λ other. ground (arith, other)))
]

tick-Counts :
    (id : JsString) (r c : ℕ) (w : ℕ → Bool) (b : Bool) (s : Streams)
    → Counts id r b s
    → Counts id r b (tick c w s).0
unfolding tick
tick-Counts id r c w b s h = elim (Bool-cases (includes c s.keepalives)) [
  | inl runs ↦ elim (Bool-cases (w c)) [ inl q ↦ rw (runs, q) h | inr q ↦ rw (runs, q) h ]
  | inr stopped ↦ rw stopped h
]

stream_event-Counts :
    (id : JsString) (r : ℕ) (b : Bool) (e : StreamEvent) (s : Streams)
    → Counts id r b s
    → Counts id r (listens_after id r b e) (stream_event e s)
unfolding stream_event close_stream broadcast_transfer_update
stream_event-Counts id r b (opens j c t) s h = opens-Counts id j r c t b s h
stream_event-Counts id r b (closes j c) s h =
    close_from-Counts id j r c b _ (get j s.sse_clients) refl h
stream_event-Counts id r b (updates j u w) s h =
    send_update-Counts id j r u w b s (get j s.sse_clients) refl h
stream_event-Counts id r b (ticks c w) s h = tick-Counts id r c w b s h

pub run_streams-Counts :
    (id : JsString) (r : ℕ) (b : Bool) (es : List StreamEvent) (s : Streams)
    → Counts id r b s
    → Counts id r (listens_from id r b es) (run_streams es s)
unfolding run_streams
run_streams-Counts id r b [] s h = h
run_streams-Counts id r b (e ∷ es) s h =
    run_streams-Counts id r (listens_after id r b e) es (stream_event e s)
      (stream_event-Counts id r b e s h)
