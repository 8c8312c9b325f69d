-- ===== src/Bot/Columns.antt =====
-- What updateTransfer of telegram-bot/src/store.cjs leaves alone.
use sol_gateway_dcc.Base.{
  ℕ, ◌≡◌, refl, ◌∙◌, subst, true, false, Option, none, some, List, [], ◌∷◌, arith, JsString, codes,
  ◌==◌, ==→eq, str_eq, Bool-cases, inl, inr,
}
use sol_gateway_dcc.Js.Map.{get, set, includes, get-set}
use sol_gateway_dcc.Bot.Store.{
  Cell, integer, Row, Store, updatable_cols, updatable, set_columns, update_row, update_entries,
  update_transfer,
}

abbrev pub column_of : JsString → Option Row → Option Cell
column_of k none = none
column_of k (some row) = get k row

-- A column of the transfer with an id.
abbrev pub column : JsString → JsString → Store → Option Cell
column k id s = column_of k (get id s.transfers)

-- A column that may be updated is another.
apart :
    (j k : JsString)
    → includes j updatable_cols ≡ true
    → includes k updatable_cols ≡ false
    → (j == k) ≡ false
apart j k may h = elim (Bool-cases (j == k)) [
  | inl same ↦
      let clash = subst (λ c. includes c updatable_cols ≡ true) (==→eq j k same) may in
      absurd (ground (arith, clash, h))
  | inr other ↦ other
]

set_columns-column :
    (k : JsString) (fields : List (JsString × Cell)) (row : Row)
    → includes k updatable_cols ≡ false
    → get k (set_columns (updatable fields) row) ≡ get k row
unfolding set_columns updatable
set_columns-column k [] row h = refl
set_columns-column k ((j, v) ∷ fields) row h = elim (Bool-cases (includes j updatable_cols)) [
  | inl may ↦
      rw may (
        set_columns-column k fields (set j v row) h ∙ get-set j k v row ∙ rw (apart j k may h) refl)
  | inr other ↦ rw other (set_columns-column k fields row h)
]

update_row-column :
    (k id j : JsString) (row : Option Row) (fields : List (JsString × Cell)) (now : ℕ) (s : Store)
    → includes k updatable_cols ≡ false
    → (codes "updated_at" == k) ≡ false
    → get id s.transfers ≡ row
    → column k j (update_row row id (updatable fields) now s) ≡ column k j s
unfolding update_row
update_row-column k id j none fields now s h u e = refl
update_row-column k id j (some row) fields now s h u e = elim (Bool-cases (id == j)) [
  | inl same ↦
      let here : get j s.transfers ≡ some row =
        subst (λ x. get x s.transfers ≡ some row) (==→eq id j same) e in
      rw
        (
          get-set id j (set (codes "updated_at") (integer now) (set_columns (updatable fields) row))
              s.transfers,
          same,
          here,
        )
        (get-set (codes "updated_at") k (integer now) (set_columns (updatable fields) row)
          ∙ rw u (set_columns-column k fields row h))
  | inr other ↦
      rw
        (
          get-set id j (set (codes "updated_at") (integer now) (set_columns (updatable fields) row))
              s.transfers,
          other,
        )
        refl
]

-- updateTransfer, given any fields whatever, changes no column of any transfer but the six that may be
-- updated and updated_at.
pub update_transfer-column :
    (k id j : JsString) (fields : List (JsString × Cell)) (now : ℕ) (s : Store)
    → includes k updatable_cols ≡ false
    → (codes "updated_at" == k) ≡ false
    → column k j (update_transfer id fields now s) ≡ column k j s
unfolding update_transfer
update_transfer-column k id j fields now s h u = go (updatable fields) refl
  where
    go :
        (kept : List (JsString × Cell))
        → updatable fields ≡ kept
        → column k j (update_entries id kept now s) ≡ column k j s
    go [] e = unfold update_entries in refl
    go (f ∷ kept) e =
        unfold update_entries in
        rw (← e) (update_row-column k id j (get id s.transfers) fields now s h u refl)
