-- ===== src/DccWatcher/Records.antt =====
-- What the watcher reads from a burn's record: the record that the comment in parseBurnEvent of
-- validator/src/watchers/dcc-watcher.ts describes, and the one that `burn` and `burnToken` of
-- dcc-contracts/bridge-controller/bridge_controller.ride write.
use sol_gateway_dcc.Base.{
  ℕ, ◌≤◌, ◌<◌, ◌^◌, ◌≡◌, ◌≢◌, refl, ap, ◌∙◌, true, false, none, some, List, [], ◌∷◌, ◌++◌, arith,
  JsString, codes, leb, any, All, All-mono, Bool-cases, Option-cases, if_cases, inl, inr, ◌+◌, ◌*◌,
}
use sol_gateway_dcc.Base.Int.{pos}
use sol_gateway_dcc.Js.Bytes.{to_number_exact}
use sol_gateway_dcc.Js.Numerals.{
  to_bigint, int, digits_from, digits, digit_value, with_sign, bigint_literal, is_space, trim_start,
  trim_end, end_at,
}
use sol_gateway_dcc.Js.Decimal.{
  decimal, IsDigit, decimal-IsNumeral, to_bigint-IsNumeral, parse_int-IsNumeral,
}
use sol_gateway_dcc.Js.Splits.{BarFree, join, split-join}
use sol_gateway_dcc.DccWatcher.Scan.{
  DccWatcher, DataEntry, DccTx, find_burn_entry, burn_of_parts, parse_entry, parse_burn_event,
  burn_event_of, check_for_burn_event,
}

abbrev pub burn_key : JsString → JsString
burn_key burn_id = codes "burn_" ++ burn_id

-- "sender|solRecipient|amount|height|timestamp"
unfoldable pub described_record : JsString → JsString → ℕ → ℕ → ℕ → JsString
described_record sender recipient amount height timestamp =
    join sender (recipient ∷ decimal amount ∷ decimal height ∷ decimal timestamp ∷ [])

-- What the contract writes, the mint between the recipient and the amount.
unfoldable pub contract_record : JsString → JsString → JsString → ℕ → ℕ → ℕ → JsString
contract_record caller recipient mint amount height timestamp =
    join caller (recipient ∷ mint ∷ decimal amount ∷ decimal height ∷ decimal timestamp ∷ [])

pub decimal-BarFree : (n : ℕ) → BarFree (decimal n)
decimal-BarFree n =
    let v = decimal-IsNumeral n in
    rw (v.split) (
      omega (arith, v.first_digit.1),
      All-mono IsDigit (λ c. c ≢ 124) (λ c d. omega (arith, d.1)) v.rest v.rest_digits,
    )

parse_entry_joined :
    (tx_id burn_id x : JsString) (xs : List JsString)
    → BarFree x
    → All BarFree xs
    → parse_entry tx_id (record { key = burn_key burn_id; value = some (join x xs) })
      ≡ burn_of_parts burn_id tx_id (x ∷ xs)
unfolding parse_entry
parse_entry_joined tx_id burn_id x xs h hs = ap (burn_of_parts burn_id tx_id) (split-join x xs h hs)

burn_of_parts-decimal :
    (burn_id tx_id sender recipient : JsString) (amount height timestamp : ℕ)
    → height < 2 ^ 53
    → timestamp < 2 ^ 53
    → burn_of_parts burn_id tx_id
        (sender ∷ recipient ∷ decimal amount ∷ decimal height ∷ decimal timestamp ∷ [])
      ≡ some (record {
        burn_id = burn_id;
        sender = sender;
        sol_recipient = recipient;
        amount = pos amount;
        height = int (pos height);
        timestamp = int (pos timestamp);
        tx_id = tx_id;
        confirmations = pos 0;
      })
unfolding burn_of_parts
burn_of_parts-decimal burn_id tx_id sender recipient amount height timestamp hh ht =
    rw
      (
        to_bigint-IsNumeral (decimal amount) amount (decimal-IsNumeral amount),
        parse_int-IsNumeral (decimal height) height (decimal-IsNumeral height),
        parse_int-IsNumeral (decimal timestamp) timestamp (decimal-IsNumeral timestamp),
        to_number_exact height hh,
        to_number_exact timestamp ht,
      )
      refl

-- A record as the comment describes it is read back: under the key of a burn id, the sender and the
-- recipient (without bars), the amount of any size, and the height and the timestamp below 2^53 come out
-- as they were written.
pub parse_entry-described_record :
    (tx_id burn_id sender recipient : JsString) (amount height timestamp : ℕ)
    → BarFree sender
    → BarFree recipient
    → height < 2 ^ 53
    → timestamp < 2 ^ 53
    → parse_entry tx_id (record {
      key = burn_key burn_id;
      value = some (described_record sender recipient amount height timestamp);
    })
      ≡ some (record {
        burn_id = burn_id;
        sender = sender;
        sol_recipient = recipient;
        amount = pos amount;
        height = int (pos height);
        timestamp = int (pos timestamp);
        tx_id = tx_id;
        confirmations = pos 0;
      })
unfolding described_record
parse_entry-described_record tx_id burn_id sender recipient amount height timestamp hs hr hh ht =
    parse_entry_joined tx_id burn_id sender
      (recipient ∷ decimal amount ∷ decimal height ∷ decimal timestamp ∷ []) hs
      (hr, (decimal-BarFree amount, (decimal-BarFree height, (decimal-BarFree timestamp, tt))))
    ∙ burn_of_parts-decimal burn_id tx_id sender recipient amount height timestamp hh ht

abbrev IsPlain : JsString → Type 0
IsPlain = All (λ c. (49 ≤ c) × (c ≤ 122))

-- The text of a mint's address: characters from '1' to 'z', one at least past '9'.
pub record IsMintText (s : JsString) : Type 0 where
  pub plain : IsPlain s
  pub lettered : any (λ c. leb 58 c) s ≡ true

plain_digit_value : (c : ℕ) → 58 ≤ c → c ≤ 122 → digit_value 10 c ≡ none
unfolding digit_value
plain_digit_value c h k = ground (arith, h, k)

plain_not_space : (c : ℕ) → 49 ≤ c → c ≤ 122 → is_space c ≡ false
unfolding is_space
plain_not_space c h k = ground (arith, h, k)

trim_end-plain : (s : JsString) → IsPlain s → trim_end s ≡ s
unfolding trim_end end_at
trim_end-plain [] h = refl
trim_end-plain (c ∷ []) (h, hs) = rw (plain_not_space c h.0 h.1) refl
trim_end-plain (c ∷ d ∷ s) (h, hs) = rw (trim_end-plain (d ∷ s) hs, trim_end) refl

digits_from-lettered :
    (v : ℕ) (s : JsString) → IsPlain s → any (λ c. leb 58 c) s ≡ true → digits_from 10 v s ≡ none
unfolding digits_from
digits_from-lettered v [] h l = absurd (ground arith)
digits_from-lettered v (c ∷ s) (h, hs) l = elim (Bool-cases (leb 58 c)) [
  | inl letter ↦ rw (plain_digit_value c (ground (arith, letter)) h.1, digits_from) refl
  | inr digit ↦ elim (Option-cases (digit_value 10 c)) [
    | inl none_left ↦ rw (none_left, digits_from) refl
    | inr (d, found) ↦
        rw (found, digits_from) (digits_from-lettered (v * 10 + d) s hs (rw digit at l))
  ]
]

to_bigint-IsMintText : (s : JsString) → IsMintText s → to_bigint s ≡ none
unfolding to_bigint trim_start bigint_literal digits with_sign
to_bigint-IsMintText [] m = absurd (let l = m.lettered in ground (arith, l))
to_bigint-IsMintText (c ∷ s) m =
    let h = m.plain.0 in
    let l = digits_from-lettered 0 (c ∷ s) m.plain m.lettered in
    rw (plain_not_space c h.0 h.1, trim_start)
      (rw (trim_end-plain (c ∷ s) m.plain) (ground (arith, h.0, h.1, l)))

burn_of_parts-IsMintText :
    (burn_id tx_id caller recipient mint : JsString) (rest : List JsString)
    → IsMintText mint
    → burn_of_parts burn_id tx_id (caller ∷ recipient ∷ mint ∷ rest) ≡ none
unfolding burn_of_parts
burn_of_parts-IsMintText burn_id tx_id caller recipient mint (height ∷ timestamp ∷ rest) m =
    rw (to_bigint-IsMintText mint m, burn_of_parts) refl
burn_of_parts-IsMintText burn_id tx_id caller recipient mint (height ∷ []) m = refl
burn_of_parts-IsMintText burn_id tx_id caller recipient mint [] m = refl

parse_burn_event-contract_record :
    (tx : DccTx) (entries : List DataEntry) (burn_id caller recipient mint : JsString)
    (amount height timestamp : ℕ)
    → BarFree caller
    → BarFree recipient
    → IsMintText mint
    → tx.entries ≡ some entries
    → find_burn_entry entries
      ≡ some (record {
        key = burn_key burn_id;
        value = some (contract_record caller recipient mint amount height timestamp);
      })
    → parse_burn_event tx ≡ none
unfolding contract_record parse_burn_event
parse_burn_event-contract_record tx entries burn_id caller recipient mint amount height timestamp hc
      hr hm he hf =
    rw (he, parse_burn_event)
      (rw (hf, parse_burn_event)
        (parse_entry_joined tx.id burn_id caller
            (recipient ∷ mint ∷ decimal amount ∷ decimal height ∷ decimal timestamp ∷ []) hc
            (
              hr,
              (
                All-mono _ (λ c. c ≢ 124) (λ c p. omega (arith, p.1)) mint hm.plain,
                (decimal-BarFree amount, (decimal-BarFree height, (decimal-BarFree timestamp, tt))),
              ),
            )
          ∙ burn_of_parts-IsMintText burn_id tx.id caller recipient mint
              (decimal amount ∷ decimal height ∷ decimal timestamp ∷ []) hm))

-- No burn of a mint whose text is no number is seen. Let the mint have only characters from '1' to 'z' and
-- at least one past '9', as every base58 text but one of digits alone has. A transaction whose first burn
-- entry holds the contract's record then leaves the watcher as it was, whoever burns, for whatever
-- recipient (both without bars), amount, height and time: where the watcher reads the amount, the contract
-- has written the mint.
pub check-contract_record :
    (w : DccWatcher) (tx : DccTx) (entries : List DataEntry)
    (burn_id caller recipient mint : JsString) (amount height timestamp : ℕ)
    → BarFree caller
    → BarFree recipient
    → IsMintText mint
    → tx.entries ≡ some entries
    → find_burn_entry entries
      ≡ some (record {
        key = burn_key burn_id;
        value = some (contract_record caller recipient mint amount height timestamp);
      })
    → check_for_burn_event w tx ≡ w
unfolding check_for_burn_event burn_event_of
check-contract_record w tx entries burn_id caller recipient mint amount height timestamp hc hr hm he
      hf =
    let unread =
      parse_burn_event-contract_record tx entries burn_id caller recipient mint amount height
        timestamp hc hr hm he hf in
    let unseen : burn_event_of w.bridge_contract tx ≡ none =
      if_cases (λ o. o ≡ none) _ _ _ (λ _. unread) (λ _. refl) in
    rw (unseen, check_for_burn_event) refl
