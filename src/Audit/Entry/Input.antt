-- ===== src/Audit/Entry/Input.antt =====
-- The signing input of crates/kms-audit/src/lib.rs: what can be read back from it.
use gm_kms.Base.{
  ℕ, zero, suc, none, [], ◌∷◌, ◌/◌, ◌≡◌, ◌<◌, ◌^◌, Bytes, true, Option, refl, arith, ap, length,
}
use Prim.Native.Nat.pow
use gm_kms.Audit.Types.{AuditEvent}
use gm_kms.Audit.Entry.{Hmac, le_bytes, new, verify}

head_of : ℕ → Bytes → ℕ
head_of z [] = z
head_of z (c ∷ t) = c

tail_of : Bytes → Bytes
tail_of [] = []
tail_of (c ∷ t) = t

pub length-le_bytes : (w n : ℕ) → length (le_bytes w n) ≡ w
unfolding le_bytes
length-le_bytes zero n = refl
length-le_bytes (suc w) n = ap suc (length-le_bytes w (n / 256))

pub le_bytes_injective :
    (w a b : ℕ) → a < 256 ^ w → b < 256 ^ w → le_bytes w a ≡ le_bytes w b → a ≡ b
unfolding le_bytes head_of tail_of
le_bytes_injective zero a b small small' e = ground arith
le_bytes_injective (suc w) a b small small' e =
    let low = ap (head_of 0) e in
    let high =
      le_bytes_injective w (a / 256) (b / 256) (omega (arith, pow.suc 256 w))
        (omega (arith, pow.suc 256 w)) (ap tail_of e) in
    omega (arith, low, high)

module _ (hmac : Hmac) (payload_json : AuditEvent → Bytes) where
  -- an entry that was signed verifies
  pub verify-new :
      (payload : AuditEvent) (sequence : ℕ) (key : Bytes) (previous : Option Bytes)
      → verify hmac payload_json key (new hmac payload_json payload sequence key previous none)
        ≡ true
  unfolding verify new
  verify-new payload sequence key previous = (hmac.verify_tag_iff key _ _).1 refl
