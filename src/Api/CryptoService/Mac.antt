-- ===== src/Api/CryptoService/Mac.antt =====
-- crates/kms-api/src/service/crypto_service.rs: which contexts and messages have one MAC input.
use gm_kms.Base.{
  append_injective, ap, sym, ◌∙◌, ℕ, zero, suc, none, some, [], ◌∷◌, ◌++◌, ◌<◌, ◌^◌, ◌≡◌, ◌≢◌,
  Bytes, length, refl, arith,
}
use gm_kms.Core.Aad.{be_bytes}
use gm_kms.Api.CryptoService.{build_mac_input}

be_bytes_4_injective : (a b : ℕ) → a < 2 ^ 32 → b < 2 ^ 32 → be_bytes 4 a ≡ be_bytes 4 b → a ≡ b
unfolding be_bytes
be_bytes_4_injective a b small small' e = ground arith

length-be_bytes : (w n : ℕ) → length (be_bytes w n) ≡ w
unfolding be_bytes
length-be_bytes zero n = refl
length-be_bytes (suc w) n = ap suc (length-be_bytes w n)

-- Two non-empty contexts of less than 2^32 bytes whose MAC inputs agree are the same, with the same
-- message.
pub build_mac_input_injective :
    (a b message other : Bytes)
    → a ≢ []
    → b ≢ []
    → length a < 2 ^ 32
    → length b < 2 ^ 32
    → build_mac_input (some a) message ≡ build_mac_input (some b) other
    → (a ≡ b) × (message ≡ other)
unfolding build_mac_input be_bytes
build_mac_input_injective [] b message other na nb la lb h = absurd (na refl)
build_mac_input_injective (x ∷ a) [] message other na nb la lb h = absurd (nb refl)
build_mac_input_injective (x ∷ a) (y ∷ b) message other na nb la lb h =
    let (lengths, rest) =
      append_injective (be_bytes 4 (length (x ∷ a))) (be_bytes 4 (length (y ∷ b))) _ _
        (length-be_bytes 4 (length (x ∷ a)) ∙ sym (length-be_bytes 4 (length (y ∷ b)))) h in
    append_injective (x ∷ a) (y ∷ b) message other (be_bytes_4_injective _ _ la lb lengths) rest

-- A message without a context that begins with the length and the bytes of a context has the MAC
-- input of the rest of it in this context.
pub build_mac_input_confused :
    (a message : Bytes)
    → a ≢ []
    → build_mac_input none (be_bytes 4 (length a) ++ (a ++ message))
      ≡ build_mac_input (some a) message
unfolding build_mac_input
build_mac_input_confused [] message na = absurd (na refl)
build_mac_input_confused (b ∷ a) message na = refl
