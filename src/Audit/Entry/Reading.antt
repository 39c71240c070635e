-- ===== src/Audit/Entry/Reading.antt =====
-- What reading a line of the log gives (crates/kms-audit/src/lib.rs): the metadata of an event is a
-- HashMap, whose order is that of the instance. So a line reads as its entry up to that order, and as
-- its entry itself where there is at most one key. A list of the metadata is in the order in which the
-- instance is iterated.
use gm_kms.Base.{
  [], ◌∷◌, ◌≡◌, ◌≤◌, ◌==◌, Bytes, HashMap, bytes_Eq, get, length, refl, arith, ap, sym, inl, inr,
  Bool-cases, ◌∙◌, ==_refl,
}
use mathlib.Core.Option.{some-injective, some-ne-none}
use mathlib.Core.Path.{ap₂}
use gm_kms.Policy.Json.{Value}
use gm_kms.Audit.Types.{SignedAuditEntry}

-- the same values under the same keys, in some order
abbrev pub SameMap : HashMap Bytes Value → HashMap Bytes Value → Type 0
SameMap m n = (length m ≡ length n) × ((key : Bytes) → get key m ≡ get key n)

abbrev pub IsReordered : SignedAuditEntry → SignedAuditEntry → Type 0
IsReordered e f =
    (m : HashMap Bytes Value) × (f ≡ record e { payload = record e.payload { metadata = m } })
    × SameMap e.payload.metadata m

-- at most one key, so that there is one order
abbrev pub IsSingle : SignedAuditEntry → Type 0
IsSingle e = length e.payload.metadata ≤ 1

SameMap-single : (m n : HashMap Bytes Value) → length m ≤ 1 → SameMap m n → n ≡ m
unfolding get
SameMap-single [] [] small same = refl
SameMap-single [] (q ∷ n) small (count, same) = absurd (omega (arith, count))
SameMap-single ((k, v) ∷ p ∷ m) n small same = absurd (omega arith)
SameMap-single ((k, v) ∷ []) [] small (count, same) = absurd (omega (arith, count))
SameMap-single ((k, v) ∷ []) (q ∷ r ∷ n) small (count, same) = absurd (omega (arith, count))
SameMap-single ((k, v) ∷ []) ((j, w) ∷ []) small (count, same) = elim (Bool-cases (j == k)) [
  | inl alike ↦
      let key = (bytes_Eq.test_iff j k).0 alike in
      let value = some-injective _ _ (rw (==_refl k, alike) at (same k)) in
      ap₂ (λ (a : Bytes) (b : Value). (a, b) ∷ []) key (sym value)
  | inr differ ↦ absurd (some-ne-none _ (rw (==_refl k, differ) at (same k)))
]

pub IsReordered-single : (e f : SignedAuditEntry) → IsSingle e → IsReordered e f → f ≡ e
IsReordered-single e f small (m, same, order) =
    same
    ∙ ap (λ n. record e { payload = record e.payload { metadata = n } })
        (SameMap-single e.payload.metadata m small order)
