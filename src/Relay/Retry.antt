-- ===== src/Relay/Retry.antt =====
-- telegram-bot/src/bridge/relay.cjs: withRetry and consensusMint. What a call does is its outcome, and the
-- delay between attempts, which is random in part, is left out.
use sol_gateway_dcc.Base.{
  ℕ, zero, suc, ◌+◌, ◌<◌, ◌≤◌, ◌≡◌, ◌↔◌, refl, ap, ◌∙◌, List, [], ◌∷◌, arith, ◌⊎◌, inl, inr,
  JsString, codes,
}

pub data Attempt (A : Type 0) : Type 0 where
  succeeded : A → Attempt A
  raised : JsString → Attempt A

-- The loop with `left` attempts after the one numbered `attempt`, and how many calls it makes.
unfoldable pub retry_from : {A : Type 0} → (ℕ → Attempt A) → ℕ → ℕ → Attempt A × ℕ
retry_from fn zero attempt = (fn attempt, 1)
retry_from fn (suc left) attempt =
    let later = retry_from fn left (attempt + 1) in
    elim (fn attempt) [ succeeded x ↦ (succeeded x, 1) | raised e ↦ (later.0, later.1 + 1) ]

-- Five attempts.
unfoldable pub with_retry : {A : Type 0} → (ℕ → Attempt A) → Attempt A × ℕ
unfolding retry_from
with_retry fn = retry_from fn 4 1

-- The answers that are not errors, in the order of the endpoints.
unfoldable pub fulfilled : {A : Type 0} → List (Attempt A) → List A
fulfilled [] = []
fulfilled (succeeded x ∷ rs) = x ∷ fulfilled rs
fulfilled (raised e ∷ rs) = fulfilled rs

unfoldable pub first_of : {A : Type 0} → List A → Attempt A
first_of [] = raised (codes "All validator endpoints failed")
first_of (x ∷ xs) = succeeded x

-- What the endpoints answer to one request each.
unfoldable pub consensus_mint : {A : Type 0} → List (Attempt A) → Attempt A
unfolding fulfilled first_of
consensus_mint [] = raised (codes "No VALIDATOR_ENDPOINTS configured for consensus mode")
consensus_mint (r ∷ rs) = first_of (fulfilled (r ∷ rs))

-- The first attempt that succeeds is the `k`-th from `attempt` on, counted from 0.
pub record FirstSuccess {A : Type 0} (fn : ℕ → Attempt A) (attempt k : ℕ) (x : A) : Type 0 where
  pub success : fn (attempt + k) ≡ succeeded x
  pub failures : (j : ℕ) → j < k → (e : JsString) × (fn (attempt + j) ≡ raised e)

pub Attempt-cases :
    {A : Type 0} (a : Attempt A) → ((x : A) × (a ≡ succeeded x)) ⊎ ((e : JsString) × (a ≡ raised e))
Attempt-cases (succeeded x) = inl (x, refl)
Attempt-cases (raised e) = inr (e, refl)

first_at_once :
    {A : Type 0} (fn : ℕ → Attempt A) (attempt : ℕ) (x : A)
    → fn attempt ≡ succeeded x
    → FirstSuccess fn attempt 0 x
first_at_once fn attempt x h = record {
  success = ap fn (omega arith) ∙ h;
  failures = λ j below. absurd (omega arith);
}

-- One more failure before.
first_later :
    {A : Type 0} (fn : ℕ → Attempt A) (attempt k : ℕ) (x : A) (e : JsString)
    → fn attempt ≡ raised e
    → FirstSuccess fn (attempt + 1) k x
    → FirstSuccess fn attempt (k + 1) x
first_later fn attempt k x e h f = record {
  success = ap fn (omega arith) ∙ f.success;
  failures = failed;
}
  where
    failed : (j : ℕ) → j < k + 1 → (e : JsString) × (fn (attempt + j) ≡ raised e)
    failed zero below = (e, ap fn (omega arith) ∙ h)
    failed (suc j) below =
        let (e', there) = f.failures j (omega arith) in (e', ap fn (omega arith) ∙ there)

retry_from-succeeded :
    {A : Type 0} (fn : ℕ → Attempt A) (left attempt : ℕ) {x : A}
    → (retry_from fn left attempt).0 ≡ succeeded x
    → (k : ℕ) × (k ≤ left) × FirstSuccess fn attempt k x × ((retry_from fn left attempt).1 ≡ k + 1)
unfolding retry_from
retry_from-succeeded fn zero attempt {x} h = (0, omega arith, first_at_once fn attempt x h, refl)
retry_from-succeeded fn (suc left) attempt {x} h = elim (Attempt-cases (fn attempt)) [
  | inl (y, at_once) ↦
      let same = rw (at_once, retry_from) at h in
      (0, omega arith, first_at_once fn attempt x (at_once ∙ same), rw (at_once, retry_from) refl)
  | inr (e, failed) ↦
      let (k, bound, f, calls) =
        retry_from-succeeded fn left (attempt + 1) (rw (failed, retry_from) at h) in
      (
        k + 1,
        omega arith,
        first_later fn attempt k x e failed f,
        rw (failed, retry_from) (ap (λ n. n + 1) calls),
      )
]

retry_from-first :
    {A : Type 0} (fn : ℕ → Attempt A) (left attempt k : ℕ) (x : A)
    → k ≤ left
    → FirstSuccess fn attempt k x
    → (retry_from fn left attempt).0 ≡ succeeded x
unfolding retry_from
retry_from-first fn zero attempt k x h f = ap fn (omega arith) ∙ f.success
retry_from-first fn (suc left) attempt zero x h f =
    let at_once : fn attempt ≡ succeeded x = ap fn (omega arith) ∙ f.success in
    rw (at_once, retry_from) refl
retry_from-first fn (suc left) attempt (suc k) x h f =
    let (e, there) = f.failures 0 (omega arith) in
    let failed : fn attempt ≡ raised e = ap fn (omega arith) ∙ there in
    rw (failed, retry_from)
      (retry_from-first fn left (attempt + 1) k x (omega arith) (record {
        success = ap fn (omega arith) ∙ f.success;
        failures = λ j below.
            let (e', later) = f.failures (j + 1) (omega arith) in (e', ap fn (omega arith) ∙ later);
      }))

retry_from-calls :
    {A : Type 0} (fn : ℕ → Attempt A) (left attempt : ℕ) → (retry_from fn left attempt).1 ≤ left + 1
unfolding retry_from
retry_from-calls fn zero attempt = omega arith
retry_from-calls fn (suc left) attempt = elim (Attempt-cases (fn attempt)) [
  | inl (y, at_once) ↦ rw (at_once, retry_from) (omega arith)
  | inr (e, failed) ↦
      rw (failed, retry_from) (omega (arith, retry_from-calls fn left (attempt + 1)))
]

-- A retry gives a value exactly when it is the value of the first attempt that succeeds, among the first
-- five, and it never makes more than five calls.
pub with_retry-succeeded_iff :
    {A : Type 0} (fn : ℕ → Attempt A) (x : A)
    → (((with_retry fn).0 ≡ succeeded x) ↔ ((k : ℕ) × (k ≤ 4) × FirstSuccess fn 1 k x))
      × ((with_retry fn).1 ≤ 5)
unfolding with_retry
with_retry-succeeded_iff fn x = (
  (
    (λ h. let (k, bound, f, _) = retry_from-succeeded fn 4 1 h in (k, bound, f)),
    λ (k, bound, f). retry_from-first fn 4 1 k x bound f,
  ),
  retry_from-calls fn 4 1,
)
