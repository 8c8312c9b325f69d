-- ===== src/Base/Keys.antt =====
-- Equality tests as an interface: the keys of maps and sets. A JavaScript string is the list of its
-- UTF-16 code units; `codes` reads an ASCII literal.
use Prim.Native.Nat.{ℕ}
use Prim.Native.Char.{code}
use Prim.Native.String.{String}
use mathlib.Core.Path.{◌≡◌, refl}
use mathlib.Core.Logic.{◌↔◌, ◌≢◌}
use mathlib.Core.Bool.{Bool, true, false, ◌&&◌}
use mathlib.Core.List.{List, [], ◌∷◌}
use native.Mathlib.Omega.{arith}
use sol_gateway_dcc.Base.Tests.{nat_eqb, nat_eqb_iff}

pub record Key {ℓ} (K : Type ℓ) : Type ℓ where
  pub eqb : K → K → Bool
  pub eqb_iff : (j k : K) → (eqb j k ≡ true) ↔ (j ≡ k)

abbrev pub JsString : Type 0
JsString = List ℕ

abbrev pub codes : String → JsString
codes String.[] = []
codes (String.◌∷◌ c s) = code c ∷ codes s

abbrev pub str_eqb : JsString → JsString → Bool
str_eqb [] [] = true
str_eqb [] (_ ∷ _) = false
str_eqb (_ ∷ _) [] = false
str_eqb (a ∷ s) (b ∷ t) = nat_eqb a b && str_eqb s t

pub str_eqb_iff : (s t : JsString) → (str_eqb s t ≡ true) ↔ (s ≡ t)
str_eqb_iff [] [] = ground arith
str_eqb_iff [] (b ∷ t) = ground arith
str_eqb_iff (a ∷ s) [] = ground arith
str_eqb_iff (a ∷ s) (b ∷ t) = ground (arith, str_eqb_iff s t)

instance abbrev pub nat_eq : Key ℕ
nat_eq = record { eqb = nat_eqb; eqb_iff = nat_eqb_iff }

instance abbrev pub str_eq : Key JsString
str_eq = record { eqb = str_eqb; eqb_iff = str_eqb_iff }

infix 50 ◌==◌
abbrev pub ◌==◌ {ℓ} : {K : Type ℓ} ⦃key : Key K⦄ → K → K → Bool
◌==◌ ⦃key⦄ = key.eqb

module _ {ℓ} {A : Type ℓ} ⦃e : Key A⦄ where
  pub ==_refl : (a : A) → (a == a) ≡ true
  ==_refl a = (e.eqb_iff a a).1 refl

  pub ==→eq : (a b : A) → (a == b) ≡ true → a ≡ b
  ==→eq a b h = (e.eqb_iff a b).0 h

  pub ==_sym : (a b : A) → (a == b) ≡ (b == a)
  ==_sym a b = ground (arith, e.eqb_iff a b, e.eqb_iff b a)

  pub ne→== : (a b : A) → a ≢ b → (a == b) ≡ false
  ne→== a b h = ground (arith, e.eqb_iff a b)
