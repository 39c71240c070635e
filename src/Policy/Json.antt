-- ===== src/Policy/Json.antt =====
-- `serde_json::Value` as far as crates/kms-policy reads it, and `i64` as a signed number.
use gm_kms.Base.{ℕ, Bool, Option, none, some, List, [], ◌∷◌, Bytes, bytes_Eq, ◌==◌, if◌then◌else◌}

-- `negsuc n` is -(n + 1).
pub data ℤ : Type 0 where
  pos : ℕ → ℤ
  negsuc : ℕ → ℤ

-- A number stands for what `as_i64` makes of it.
mutual
  pub data Value : Type 0 where
    null : Value
    boolean : Bool → Value
    number : Option ℤ → Value
    text : Bytes → Value
    array : Items → Value
    object : Members → Value

  pub data Items : Type 0 where
    nil : Items
    item : Value → Items → Items

  pub data Members : Type 0 where
    end : Members
    member : Bytes → Value → Members → Members

abbrev pub as_str : Value → Option Bytes
as_str (text s) = some s
as_str _ = none

abbrev pub as_i64 : Value → Option ℤ
as_i64 (number n) = n
as_i64 _ = none

abbrev pub field : Bytes → Members → Option Value
field k end = none
field k (member j v m) = if j == k then some v else field k m

abbrev pub texts : List Bytes → Items
texts [] = nil
texts (s ∷ ss) = item (text s) (texts ss)
