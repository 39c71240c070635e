-- ===== src/Base/Text.antt =====
-- Texts as their UTF-8 bytes, with the `str` methods of the source on them.
use Prim.Native.Char.{code}
use Prim.Native.Nat.{ℕ, zero, suc, ◌+◌}
use Prim.Native.String.{String}
use mathlib.Core.Path.{◌≡◌, refl, ap}
use mathlib.Core.Logic.{◌↔◌}
use mathlib.Core.Bool.{Bool, true, false, ◌&&◌}
use mathlib.Core.List.{List, [], ◌∷◌, ◌++◌}
use mathlib.Core.Option
use mathlib.Core.Option.{Option, none, some}
use native.Mathlib.Omega.{arith}
use native.Mathlib.Nat.{zero-add, suc-add}
use gm_kms.Base.Lists.{length}
use gm_kms.Base.Tests.{if-cases, leb, ltb, nat_eq, if◌then◌else◌}
use gm_kms.Base.Equal.{PartialEq}

abbrev pub Bytes : Type 0
Bytes = List ℕ

-- a literal of the source, all of whose characters are ASCII
abbrev pub ascii : String → Bytes
ascii String.[] = []
ascii (String.◌∷◌ c s) = code c ∷ ascii s

abbrev pub bytes_eq : Bytes → Bytes → Bool
bytes_eq [] [] = true
bytes_eq [] (d ∷ t) = false
bytes_eq (c ∷ s) [] = false
bytes_eq (c ∷ s) (d ∷ t) = nat_eq c d && bytes_eq s t

pub bytes_eq_iff : (s t : Bytes) → (bytes_eq s t ≡ true) ↔ (s ≡ t)
bytes_eq_iff [] [] = (λ _. refl, λ _. refl)
bytes_eq_iff [] (d ∷ t) = (λ h. cc, λ h. cc)
bytes_eq_iff (c ∷ s) [] = (λ h. cc, λ h. cc)
bytes_eq_iff (c ∷ s) (d ∷ t) =
    let tails = bytes_eq_iff s t in (λ h. ground (arith, tails), λ h. ground (arith, tails))

instance abbrev pub bytes_Eq : PartialEq Bytes
bytes_Eq = record { test = bytes_eq; test_iff = bytes_eq_iff }

-- `starts_with` of a text
abbrev pub has_prefix : Bytes → Bytes → Bool
has_prefix [] t = true
has_prefix (c ∷ p) [] = false
has_prefix (c ∷ p) (d ∷ t) = nat_eq c d && has_prefix p t

-- `find` of a text: the offset of its first occurrence
abbrev pub find : Bytes → Bytes → Option ℕ
find p [] = if has_prefix p [] then some 0 else none
find p (d ∷ t) =
    let later : Option ℕ = Option.map suc (find p t) in
    if has_prefix p (d ∷ t) then some 0 else later

abbrev pub drop : ℕ → Bytes → Bytes
drop zero t = t
drop (suc n) [] = []
drop (suc n) (d ∷ t) = drop n t

-- the second and later bytes of a character
abbrev pub is_continuation : ℕ → Bool
is_continuation b = leb 128 b && ltb b 192

abbrev pub at_boundary : Bytes → Bool
at_boundary [] = true
at_boundary (d ∷ t) = if is_continuation d then false else true

-- `&text[n..]`; `none` is the panic past the end or inside a character
abbrev pub slice_from : ℕ → Bytes → Option Bytes
slice_from zero t = some t
slice_from (suc n) [] = none
slice_from (suc zero) (d ∷ t) = if at_boundary t then some t else none
slice_from (suc (suc n)) (d ∷ t) = slice_from (suc n) t

-- `split` at an ASCII character
abbrev pub prepend : ℕ → List Bytes → List Bytes
prepend c [] = (c ∷ []) ∷ []
prepend c (p ∷ ps) = (c ∷ p) ∷ ps

abbrev pub split : ℕ → Bytes → List Bytes
split sep [] = [] ∷ []
split sep (c ∷ t) = let rest = split sep t in if nat_eq c sep then [] ∷ rest else prepend c rest

-- `ends_with` of a character
abbrev pub ends_with : ℕ → Bytes → Bool
ends_with c [] = false
ends_with c (d ∷ []) = nat_eq d c
ends_with c (d ∷ e ∷ t) = ends_with c (e ∷ t)

-- What the searches find.
pub has_prefix-split : (p t : Bytes) → has_prefix p t ≡ true → t ≡ p ++ drop (length p) t
has_prefix-split [] t h = refl
has_prefix-split (c ∷ p) [] h = cc
has_prefix-split (c ∷ p) (d ∷ t) h = ground (arith, has_prefix-split p t)

pub drop-nil : (n : ℕ) → drop n [] ≡ []
drop-nil zero = refl
drop-nil (suc n) = refl

-- the occurrence that an offset stands for
abbrev pub OccursAt : Bytes → Bytes → Option ℕ → Type 0
OccursAt p t none = Unit
OccursAt p t (some i) = (gap : Bytes) × (t ≡ gap ++ (p ++ drop (i + length p) t))

OccursAt-zero : (p t : Bytes) → has_prefix p t ≡ true → OccursAt p t (some 0)
OccursAt-zero p t h = ([], ground (arith, has_prefix-split p t h, zero-add (length p)))

OccursAt-suc :
    (p : Bytes) (d : ℕ) (t : Bytes) (o : Option ℕ)
    → OccursAt p t o
    → OccursAt p (d ∷ t) (Option.map suc o)
OccursAt-suc p d t none h = h
OccursAt-suc p d t (some j) (gap, fits) = (d ∷ gap, ground (arith, fits, suc-add j (length p)))

pub find-OccursAt : (p t : Bytes) → OccursAt p t (find p t)
find-OccursAt p [] = if-cases (OccursAt p []) (has_prefix p []) (OccursAt-zero p []) (λ e. tt)
find-OccursAt p (d ∷ t) =
    if-cases (OccursAt p (d ∷ t)) (has_prefix p (d ∷ t)) (OccursAt-zero p (d ∷ t))
      (λ e. OccursAt-suc p d t (find p t) (find-OccursAt p t))

pub drop-drop : (m n : ℕ) (t : Bytes) → drop n (drop m t) ≡ drop (m + n) t
drop-drop zero n t = rw zero-add
drop-drop (suc m) n [] = rw (drop-nil n, drop-nil (suc m + n))
drop-drop (suc m) n (d ∷ t) = ground (arith, drop-drop m n t, suc-add m n)

pub drop-length : (t : Bytes) → drop (length t) t ≡ []
drop-length [] = refl
drop-length (d ∷ t) = drop-length t

pub take-drop : (n : ℕ) (t : Bytes) → (gap : Bytes) × (t ≡ gap ++ drop n t)
take-drop zero t = ([], refl)
take-drop (suc n) [] = ([], refl)
take-drop (suc n) (d ∷ t) = let (gap, e) = take-drop n t in (d ∷ gap, ap (λ s. d ∷ s) e)
