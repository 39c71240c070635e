-- ===== src/Base/Equal.antt =====
-- `PartialEq` as an interface: a Boolean test with its law, and the instances that the crates use.
use Prim.Native.Nat.{ℕ}
use Prim.Native.String.{String}
use mathlib.Core.Path.{◌≡◌, refl}
use mathlib.Core.Logic.{◌↔◌}
use mathlib.Core.Bool.{Bool, true}
use text.Mathlib.Text.{◌==◌ as str_eq}
use text.Mathlib.TextEquality.{eq_iff}
use gm_kms.Base.Tests.{nat_eq, nat_eq_iff}

-- `a == b` of a type, and that it is the equality of the model.
pub record PartialEq {ℓ} (T : Type ℓ) : Type ℓ where
  pub test : T → T → Bool
  pub test_iff : (x y : T) → (test x y ≡ true) ↔ (x ≡ y)

module _ {ℓ} {T : Type ℓ} ⦃eq : PartialEq T⦄ where
  infix 50 ◌==◌
  abbrev pub ◌==◌ : T → T → Bool
  x == y = eq.test x y

  pub ==_refl : (x : T) → (x == x) ≡ true
  ==_refl x = (eq.test_iff x x).1 refl

-- texts, by the native comparison
instance abbrev pub string_Eq : PartialEq String
string_Eq = record { test = str_eq; test_iff = eq_iff }

-- ids and counters
instance abbrev pub nat_Eq : PartialEq ℕ
nat_Eq = record { test = nat_eq; test_iff = nat_eq_iff }
