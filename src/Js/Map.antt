-- ===== src/Js/Map.antt =====
-- JavaScript's Map and Set: entries in the order of their insertion. `set` on a key that is there
-- changes its value in place, and on another key adds an entry at the end. The keys of a Map are
-- distinct, so `delete` may drop every entry of its key.
use sol_gateway_dcc.Base.{
  ◌≡◌, refl, sym, subst, Bool, true, false, ◌||◌, Option, none, some, List, [], ◌∷◌, ◌++◌, arith,
  Key, ◌==◌, if◌then◌else◌, Bool-cases, inl, inr,
}

abbrev pub JsMap {ℓ κ} : Type ℓ → Type κ → Type (ℓ ⊔ κ)
JsMap K V = List (K × V)

module _ {ℓ κ} {K : Type ℓ} {V : Type κ} ⦃e : Key K⦄ where
  unfoldable pub get : K → JsMap K V → Option V
  get k [] = none
  get k ((j, v) ∷ m) = if j == k then some v else get k m

  unfoldable pub has : K → JsMap K V → Bool
  has k [] = false
  has k ((j, v) ∷ m) = if j == k then true else has k m

  unfoldable pub set : K → V → JsMap K V → JsMap K V
  set k v [] = (k, v) ∷ []
  set k v ((j, w) ∷ m) = if j == k then (j, v) ∷ m else (j, w) ∷ set k v m

  unfoldable pub delete : K → JsMap K V → JsMap K V
  delete k [] = []
  delete k ((j, w) ∷ m) = if j == k then delete k m else (j, w) ∷ delete k m

  pub get-set :
      (k j : K) (v : V) (m : JsMap K V) → get j (set k v m) ≡ (if k == j then some v else get j m)
  unfolding get set
  get-set k j v [] = refl
  get-set k j v ((i, w) ∷ m) =
      ground (arith, e.eqb_iff k j, e.eqb_iff i k, e.eqb_iff i j, get-set k j v m)

  pub get-delete :
      (k j : K) (m : JsMap K V) → get j (delete k m) ≡ (if k == j then none else get j m)
  unfolding get delete
  get-delete k j [] = ground arith
  get-delete k j ((i, w) ∷ m) =
      ground (arith, e.eqb_iff k j, e.eqb_iff i k, e.eqb_iff i j, get-delete k j m)

  pub has-get :
      (k : K) (m : JsMap K V) → has k m ≡ (elim (get k m) [ none ↦ false | some v ↦ true ])
  unfolding get has
  has-get k [] = refl
  has-get k ((j, v) ∷ m) = ground (arith, has-get k m)

  pub has-set : (k j : K) (v : V) (m : JsMap K V) → has j (set k v m) ≡ ((k == j) || has j m)
  unfolding has set
  has-set k j v [] = ground arith
  has-set k j v ((i, w) ∷ m) =
      ground (arith, e.eqb_iff k j, e.eqb_iff i k, e.eqb_iff i j, has-set k j v m)

  pub has-delete :
      (k j : K) (m : JsMap K V) → has j (delete k m) ≡ (if k == j then false else has j m)
  unfolding has delete
  has-delete k j [] = ground arith
  has-delete k j ((i, w) ∷ m) =
      ground (arith, e.eqb_iff k j, e.eqb_iff i k, e.eqb_iff i j, has-delete k j m)

  -- Every value satisfies a predicate of its key.
  abbrev pub AllEntries {ν} : (K → V → Type ν) → JsMap K V → Type ν
  AllEntries P [] = Unit
  AllEntries P ((k, v) ∷ m) = P k v × AllEntries P m

  pub AllEntries-get {ν} :
      (P : K → V → Type ν) (k : K) (m : JsMap K V) {v : V}
      → AllEntries P m
      → get k m ≡ some v
      → P k v
  unfolding get
  AllEntries-get P k [] h q = absurd (ground arith)
  AllEntries-get P k ((j, w) ∷ m) {v} (h, hs) q = elim (Bool-cases (j == k)) [
    | inl same ↦
        let wv : w ≡ v = ground arith in
        let jk : j ≡ k = (e.eqb_iff j k).0 same in subst (λ x. P x v) jk (subst (P j) wv h)
    | inr other ↦ AllEntries-get P k m hs (ground arith)
  ]

  pub AllEntries-set {ν} :
      (P : K → V → Type ν) (k : K) (v : V) (m : JsMap K V)
      → P k v
      → AllEntries P m
      → AllEntries P (set k v m)
  unfolding set
  AllEntries-set P k v [] p h = (p, tt)
  AllEntries-set P k v ((j, w) ∷ m) p (h, hs) = elim (Bool-cases (j == k)) [
    | inl same ↦
        rw same (let jk : j ≡ k = (e.eqb_iff j k).0 same in (subst (λ x. P x v) (sym jk) p, hs))
    | inr other ↦ rw other (h, AllEntries-set P k v m p hs)
  ]

  pub AllEntries-delete {ν} :
      (P : K → V → Type ν) (k : K) (m : JsMap K V) → AllEntries P m → AllEntries P (delete k m)
  unfolding delete
  AllEntries-delete P k [] h = tt
  AllEntries-delete P k ((j, w) ∷ m) (h, hs) = elim (Bool-cases (j == k)) [
    | inl same ↦ rw same (AllEntries-delete P k m hs)
    | inr other ↦ rw other (h, AllEntries-delete P k m hs)
  ]

module _ {ℓ} {K : Type ℓ} ⦃e : Key K⦄ where
  -- A Set as the list of its members in order of insertion.
  unfoldable pub includes : K → List K → Bool
  includes k [] = false
  includes k (j ∷ s) = (j == k) || includes k s

  unfoldable pub add : K → List K → List K
  add k s = if includes k s then s else s ++ k ∷ []

  includes-append : (j : K) (s t : List K) → includes j (s ++ t) ≡ (includes j s || includes j t)
  unfolding includes
  includes-append j [] t = refl
  includes-append j (i ∷ s) t = ground (arith, includes-append j s t)

  pub includes-add : (k j : K) (s : List K) → includes j (add k s) ≡ ((k == j) || includes j s)
  unfolding add includes
  includes-add k j s = elim (Bool-cases (includes k s)) [
    | inl old ↦ rw old (elim (Bool-cases (k == j)) [
      | inl same ↦ rw same (subst (λ x. includes x s ≡ true) ((e.eqb_iff k j).0 same) old)
      | inr other ↦ rw other
    ])
    | inr new ↦ rw (new, includes-append j s (k ∷ [])) (ground arith)
  ]
