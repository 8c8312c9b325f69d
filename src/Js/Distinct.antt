-- ===== src/Js/Distinct.antt =====
-- The keys of a Map are distinct, so each of its entries is what `get` finds.
use sol_gateway_dcc.Base.{
  ◌≡◌, refl, true, false, some, [], ◌∷◌, arith, Key, ◌==◌, Bool-cases, inl, inr, ==_refl,
}
use sol_gateway_dcc.Js.Map.{JsMap, get, has, set, delete, has-set, has-delete, AllEntries}

module _ {ℓ κ} {K : Type ℓ} {V : Type κ} ⦃e : Key K⦄ where
  abbrev pub HasDistinctKeys : JsMap K V → Type 0
  HasDistinctKeys [] = Unit
  HasDistinctKeys ((k, v) ∷ m) = (has k m ≡ false) × HasDistinctKeys m

  pub set-HasDistinctKeys :
      (k : K) (v : V) (m : JsMap K V) → HasDistinctKeys m → HasDistinctKeys (set k v m)
  unfolding set has
  set-HasDistinctKeys k v [] h = (refl, tt)
  set-HasDistinctKeys k v ((j, w) ∷ m) (h, hs) = elim (Bool-cases (j == k)) [
    | inl same ↦ rw same (h, hs)
    | inr other ↦ rw other (
      ground (arith, has-set k j v m, h, other, e.eqb_iff j k, e.eqb_iff k j),
      set-HasDistinctKeys k v m hs,
    )
  ]

  pub delete-HasDistinctKeys :
      (k : K) (m : JsMap K V) → HasDistinctKeys m → HasDistinctKeys (delete k m)
  unfolding delete
  delete-HasDistinctKeys k [] h = tt
  delete-HasDistinctKeys k ((j, w) ∷ m) (h, hs) = elim (Bool-cases (j == k)) [
    | inl same ↦ rw same (delete-HasDistinctKeys k m hs)
    | inr other ↦ rw other (ground (arith, has-delete k j m, h), delete-HasDistinctKeys k m hs)
  ]

  -- A predicate of the entries of a list of which every key is in another, and what follows from it.
  pub entries_mono {ν ξ} :
      (P : K → V → Type ν) (Q : K → V → Type ξ) (m : JsMap K V)
      → ((k : K) (v : V) → has k m ≡ true → P k v → Q k v)
      → AllEntries P m
      → AllEntries Q m
  unfolding has
  entries_mono P Q [] f h = tt
  entries_mono P Q ((k, v) ∷ m) f (h, hs) = (
    f k v (ground (arith, ==_refl k)) h,
    entries_mono P Q m (λ j w there. f j w (ground (arith, there))) hs,
  )

  pub entries-get : (m : JsMap K V) → HasDistinctKeys m → AllEntries (λ k v. get k m ≡ some v) m
  unfolding get
  entries-get [] h = tt
  entries-get ((k, v) ∷ m) (h, hs) = (
    ground (arith, ==_refl k),
    entries_mono _ _ m
        (λ j w there found. elim (Bool-cases (k == j)) [
          | inl same ↦
              let kj : k ≡ j = (e.eqb_iff k j).0 same in
              let clash = rw kj at h in absurd (ground (arith, clash, there))
          | inr other ↦ ground (arith, other, found)
        ])
        (entries-get m hs),
  )
