-- ===== src/Keystore/KexSession/History.antt =====
-- The message history of crates/kms-keystore/src/sm2_kex_session.rs: how long a message stays in it.
use gm_kms.Base.{
  if-cases, ℕ, [], ◌∷◌, ◌++◌, ◌+◌, ◌<◌, ◌≤◌, ◌≡◌, ◌*◌, Bytes, Bool, true, bytes_Eq, refl, arith, ap,
  List, ltb, filter, push, length, Bool-cases, inl, inr, ==_refl, lt→ltb, length-push, ◌∙◌,
}
use gm_kms.Keystore.KexSession.{
  retain, is_replay, limit_size, add_message, minus, message_history_ttl_secs,
  max_message_history_size,
}
use mathlib.Core.List.{append_assoc}

-- The message is in the history, with no more than so many newer ones.
abbrev pub IsRecent : Bytes → ℕ → ℕ → List (Bytes × ℕ) → Type 0
IsRecent msg_hash at newer history =
    (old : List (Bytes × ℕ)) × (young : List (Bytes × ℕ)) × (history
      ≡ old ++ (msg_hash, at) ∷ young)
    × (length young ≤ newer)

pub length-filter {ℓ} : {A : Type ℓ} (p : A → Bool) (xs : List A) → length (filter p xs) ≤ length xs
length-filter p [] = omega arith
length-filter p (x ∷ xs) = ground (arith, length-filter p xs)

filter-append {ℓ} :
    {A : Type ℓ} (p : A → Bool) (xs ys : List A) → filter p (xs ++ ys) ≡ filter p xs ++ filter p ys
filter-append p [] ys = refl
filter-append p (x ∷ xs) ys = elim (Bool-cases (p x)) [
  | inl kept ↦ rw kept (ap (λ zs. x ∷ zs) (filter-append p xs ys))
  | inr gone ↦ rw gone (filter-append p xs ys)
]

retain-IsRecent :
    (cutoff : ℕ) (msg_hash : Bytes) (at newer : ℕ) (history : List (Bytes × ℕ))
    → cutoff < at
    → IsRecent msg_hash at newer history
    → IsRecent msg_hash at newer (retain cutoff history)
unfolding retain
retain-IsRecent cutoff msg_hash at newer history late (old, young, same, few) =
    let kept = λ (m : Bytes × ℕ). ltb cutoff m.1 in
    (
      filter kept old,
      filter kept young,
      ap (filter kept) same
          ∙ (filter-append kept old ((msg_hash, at) ∷ young) ∙ rw (lt→ltb cutoff at late) refl),
      omega (arith, length-filter kept young),
    )

limit_size-IsRecent :
    (msg_hash : Bytes) (at newer : ℕ) (history : List (Bytes × ℕ))
    → newer ≤ 9
    → IsRecent msg_hash at newer history
    → IsRecent msg_hash at newer (limit_size history)
limit_size-IsRecent msg_hash at newer history few ([], young, same, short) =
    rw same ([], young, ground arith, short)
limit_size-IsRecent msg_hash at newer history few (m ∷ old, young, same, short) = rw same (
    if-cases (λ (h : List (Bytes × ℕ)). IsRecent msg_hash at newer h)
      (ltb max_message_history_size (length (m ∷ (old ++ (msg_hash, at) ∷ young))))
      (λ full. (old, young, refl, short)) (λ room. (m ∷ old, young, refl, short)))

pub add_message-IsRecent :
    (now : ℕ) (other msg_hash : Bytes) (at newer : ℕ) (history : List (Bytes × ℕ))
    → minus now (message_history_ttl_secs * 1000) < at
    → newer + 1 ≤ 9
    → IsRecent msg_hash at newer history
    → IsRecent msg_hash at (newer + 1) (add_message now other history)
unfolding add_message
add_message-IsRecent now other msg_hash at newer history late few recent =
    let (old, young, same, short) =
      retain-IsRecent (minus now (message_history_ttl_secs * 1000)) msg_hash at newer history late
        recent in
    limit_size-IsRecent msg_hash at (newer + 1) _ few (
      old,
      push young (other, now),
      ap (λ h. push h (other, now)) same
          ∙ append_assoc old ((msg_hash, at) ∷ young) ((other, now) ∷ []),
      omega (arith, length-push young (other, now)),
    )

pub add_message-new :
    (now : ℕ) (msg_hash : Bytes) (history : List (Bytes × ℕ))
    → IsRecent msg_hash now 0 (add_message now msg_hash history)
unfolding add_message
add_message-new now msg_hash history =
    limit_size-IsRecent msg_hash now 0 _ (omega arith)
      (retain (minus now (message_history_ttl_secs * 1000)) history, [], refl, omega arith)

is_replay-append :
    (msg_hash : Bytes) (at : ℕ) (old young : List (Bytes × ℕ))
    → is_replay msg_hash (old ++ (msg_hash, at) ∷ young) ≡ true
is_replay-append msg_hash at [] young = ground (arith, ==_refl msg_hash)
is_replay-append msg_hash at (m ∷ old) young =
    ground (arith, is_replay-append msg_hash at old young)

-- what is in the history, and no older than the cutoff, is seen
pub is_replay-IsRecent :
    (cutoff : ℕ) (msg_hash : Bytes) (at newer : ℕ) (history : List (Bytes × ℕ))
    → cutoff < at
    → IsRecent msg_hash at newer history
    → is_replay msg_hash (retain cutoff history) ≡ true
is_replay-IsRecent cutoff msg_hash at newer history late recent =
    let (old, young, same, short) = retain-IsRecent cutoff msg_hash at newer history late recent in
    ap (is_replay msg_hash) same ∙ is_replay-append msg_hash at old young

length-limit_size :
    (history : List (Bytes × ℕ)) → length history ≤ 11 → length (limit_size history) ≤ 10
length-limit_size [] h = omega arith
length-limit_size (m ∷ rest) h = ground arith

-- A history of ten messages at most still is one after a new message.
pub length-add_message :
    (now : ℕ) (msg_hash : Bytes) (history : List (Bytes × ℕ))
    → length history ≤ 10
    → length (add_message now msg_hash history) ≤ 10
unfolding add_message retain
length-add_message now msg_hash history few =
    length-limit_size
      (push (retain (minus now (message_history_ttl_secs * 1000)) history) (msg_hash, now))
      (omega (
        arith,
        length-push (retain (minus now (message_history_ttl_secs * 1000)) history) (msg_hash, now),
        length-filter (λ m. ltb (minus now (message_history_ttl_secs * 1000)) m.1) history,
      ))
