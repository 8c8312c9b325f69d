-- ===== src/RateLimiter/Sliding.antt =====
-- What the rate limiter admits, against all that it has admitted: runs of requests and prunings under a
-- clock that does not go back.
use sol_gateway_dcc.Base.{
  ℕ, ◌≤◌, ◌≡◌, refl, sym, ap, ◌∙◌, true, some, List, [], ◌∷◌, arith, nat_eq, nat_eqb, nat_eqb_iff,
  ◌==◌, if◌then◌else◌, if_cases, filterb, Bool-cases, inl, inr,
}
use sol_gateway_dcc.Base.Windows.{within, filterb_later}
use sol_gateway_dcc.Js.Map.{JsMap, get, set, delete, get-set, get-delete, AllEntries}
use sol_gateway_dcc.Js.Distinct.{
  HasDistinctKeys, set-HasDistinctKeys, delete-HasDistinctKeys, entries_mono, entries-get,
}
use sol_gateway_dcc.RateLimiter.Limiter.{
  RateLimiter, times_of, is_empty, prune_buckets, prune_stale,
}

pub times_of-set :
    (u v : ℕ) (ts : List ℕ) (m : JsMap ℕ (List ℕ))
    → times_of v (set u ts m) ≡ (if u == v then ts else times_of v m)
unfolding times_of
times_of-set u v ts m =
    rw (get-set u v ts m, times_of)
      (elim (Bool-cases (u == v)) [ inl same ↦ rw same refl | inr other ↦ rw other refl ])

times_of-delete :
    (u v : ℕ) (m : JsMap ℕ (List ℕ))
    → times_of v (delete u m) ≡ (if u == v then [] else times_of v m)
unfolding times_of
times_of-delete u v m =
    rw (get-delete u v m, times_of)
      (elim (Bool-cases (u == v)) [ inl same ↦ rw same refl | inr other ↦ rw other refl ])

-- Two lists of times look the same from `now` on.
abbrev pub SameFrom : ℕ → ℕ → List ℕ → List ℕ → Type 0
SameFrom w now xs ys =
    (later : ℕ) → now ≤ later → filterb (within w later) xs ≡ filterb (within w later) ys

-- What is left of the times of an entry once it is pruned.
pruned_entry : ℕ → ℕ → ℕ → List ℕ → JsMap ℕ (List ℕ) → JsMap ℕ (List ℕ)
pruned_entry w now u ts m =
    if is_empty (filterb (within w now) ts) then delete u m else set u (filterb (within w now) ts) m

empty_nil : (ts : List ℕ) → is_empty ts ≡ true → ts ≡ []
unfolding is_empty
empty_nil [] h = refl
empty_nil (t ∷ ts) h = absurd (ground (arith, h))

pruned_entry-times_of :
    (w now u v : ℕ) (ts : List ℕ) (m : JsMap ℕ (List ℕ))
    → times_of v (pruned_entry w now u ts m)
      ≡ (if u == v then filterb (within w now) ts else times_of v m)
unfolding pruned_entry
pruned_entry-times_of w now u v ts m =
    if_cases (λ m'. times_of v m' ≡ (if u == v then fresh else times_of v m)) (is_empty fresh) _ _
      (λ none_left.
        times_of-delete u v m
        ∙ ap (λ xs. if u == v then xs else times_of v m) (sym (empty_nil fresh none_left)))
      (λ _. times_of-set u v fresh m)
  where
    fresh : List ℕ
    fresh = filterb (within w now) ts

pruned_entry-SameFrom :
    (w now u v : ℕ) (ts : List ℕ) (m : JsMap ℕ (List ℕ))
    → SameFrom w now ts (times_of u m)
    → SameFrom w now (times_of v (pruned_entry w now u ts m)) (times_of v m)
pruned_entry-SameFrom w now u v ts m same later h =
    ap (filterb (within w later)) (pruned_entry-times_of w now u v ts m)
    ∙ elim (Bool-cases (nat_eqb u v)) [
      | inl at ↦
          let uv : u ≡ v = (nat_eqb_iff u v).0 at in
          rw at (
            filterb_later w now later ts h
            ∙ same later h
            ∙ ap (λ k. filterb (within w later) (times_of k m)) uv)
      | inr other ↦ rw other refl
    ]

-- Every entry that is left to prune looks like what the map holds.
abbrev Snapshot : ℕ → ℕ → JsMap ℕ (List ℕ) → JsMap ℕ (List ℕ) → Type 0
Snapshot w now entries m = AllEntries (λ u ts. SameFrom w now ts (times_of u m)) entries

prune_buckets-SameFrom :
    (w now v : ℕ) (entries m : JsMap ℕ (List ℕ))
    → Snapshot w now entries m
    → SameFrom w now (times_of v (prune_buckets w now entries m)) (times_of v m)
unfolding prune_buckets pruned_entry
prune_buckets-SameFrom w now v [] m h later q = refl
prune_buckets-SameFrom w now v ((u, ts) ∷ entries) m (h, hs) later q =
    prune_buckets-SameFrom w now v entries next
      (entries_mono _ _ entries
        (λ j xs _ same later' q'.
          same later' q' ∙ sym (pruned_entry-SameFrom w now u j ts m h later' q'))
        hs)
      later q
    ∙ pruned_entry-SameFrom w now u v ts m h later q
  where
    next : JsMap ℕ (List ℕ)
    next = pruned_entry w now u ts m

pub prune_buckets-HasDistinctKeys :
    (w now : ℕ) (entries m : JsMap ℕ (List ℕ))
    → HasDistinctKeys m
    → HasDistinctKeys (prune_buckets w now entries m)
unfolding prune_buckets
prune_buckets-HasDistinctKeys w now [] m h = h
prune_buckets-HasDistinctKeys w now ((u, ts) ∷ entries) m h =
    prune_buckets-HasDistinctKeys w now entries _ (
      if_cases HasDistinctKeys (is_empty (filterb (within w now) ts)) _ _
        (λ _. delete-HasDistinctKeys u m h)
        (λ _. set-HasDistinctKeys u (filterb (within w now) ts) m h))

-- Pruning changes nothing that a later request sees.
pub prune_stale-SameFrom :
    (l : RateLimiter) (now v : ℕ)
    → HasDistinctKeys l.buckets
    → SameFrom l.window_ms now (times_of v (prune_stale l now).buckets) (times_of v l.buckets)
unfolding prune_stale times_of
prune_stale-SameFrom l now v h = prune_buckets-SameFrom l.window_ms now v l.buckets l.buckets (
    entries_mono (λ u ts. get u l.buckets ≡ some ts)
      (λ u ts. SameFrom l.window_ms now ts (times_of u l.buckets)) l.buckets
      (λ u ts _ found later q.
        ap (filterb (within l.window_ms later)) (sym (found_times u ts found)))
      (entries-get l.buckets h))
  where
    found_times : (u : ℕ) (ts : List ℕ) → get u l.buckets ≡ some ts → times_of u l.buckets ≡ ts
    found_times u ts found = rw (found, times_of) refl
