-- ===== src/Js/Splits.antt =====
-- `split('|')` undoes joining by bars.
use sol_gateway_dcc.Base.{
  append_nil, ℕ, ◌≡◌, ◌≢◌, sym, ap, ◌∙◌, false, List, [], ◌∷◌, ◌++◌, arith, JsString, codes, All,
}
use mathlib.Core.List.{append_assoc}
use sol_gateway_dcc.Js.Text.{starts_with, split, split_from}

-- No bar in the text.
abbrev pub BarFree : JsString → Type 0
BarFree = All (λ c. c ≢ 124)

unfoldable pub join : JsString → List JsString → JsString
join x [] = x
join x (y ∷ ys) = x ++ 124 ∷ join y ys

starts_with_other : (c : ℕ) (s : JsString) → c ≢ 124 → starts_with (124 ∷ []) (c ∷ s) ≡ false
unfolding starts_with
starts_with_other c s h = ground (arith, h)

split_from_end : (cur s : JsString) → BarFree s → split_from (124 ∷ []) 0 cur s ≡ (cur ++ s) ∷ []
unfolding split_from
split_from_end cur [] h = ap (λ t. t ∷ []) (sym (append_nil cur))
split_from_end cur (c ∷ s) (h, hs) =
    rw (starts_with_other c s h, split_from)
      (split_from_end (cur ++ c ∷ []) s hs ∙ ap (λ t. t ∷ []) (append_assoc cur (c ∷ []) s))

split_from_bar :
    (cur s rest : JsString)
    → BarFree s
    → split_from (124 ∷ []) 0 cur (s ++ 124 ∷ rest) ≡ (cur ++ s) ∷ split_from (124 ∷ []) 0 [] rest
unfolding split_from starts_with
split_from_bar cur [] rest h = ap (λ t. t ∷ split_from (124 ∷ []) 0 [] rest) (sym (append_nil cur))
split_from_bar cur (c ∷ s) rest (h, hs) =
    rw (starts_with_other c (s ++ 124 ∷ rest) h, split_from)
      (split_from_bar (cur ++ c ∷ []) s rest hs
        ∙ ap (λ t. t ∷ split_from (124 ∷ []) 0 [] rest) (append_assoc cur (c ∷ []) s))

pub split-join :
    (x : JsString) (xs : List JsString)
    → BarFree x
    → All BarFree xs
    → split (codes "|") (join x xs) ≡ x ∷ xs
unfolding split join
split-join x [] h hs = split_from_end [] x h
split-join x (y ∷ ys) h (hy, hs) =
    split_from_bar [] x (join y ys) h ∙ ap (◌∷◌ x) (split-join y ys hy hs)
