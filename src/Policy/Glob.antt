-- ===== src/Policy/Glob.antt =====
-- crates/kms-policy/src/engine.rs: `glob_match`, and crates/kms-core/src/policy.rs: its namesake.
-- The first can panic in a slice: its result is `none` then.
pub mod Sound
pub mod Shapes
use gm_kms.Base.{
  ℕ, ◌+◌, Bool, true, false, Option, none, some, List, [], ◌∷◌, length, nat_eq, ◌==◌, Bytes,
  bytes_Eq, has_prefix, find, drop, slice_from, split, ends_with, if◌then◌else◌,
}

abbrev pub star : ℕ
star = b'*'

abbrev pub starts_with_star : Bytes → Bool
starts_with_star [] = false
starts_with_star (c ∷ p) = nat_eq c star

-- `parts.iter().find(|p| !p.is_empty())`
unfoldable pub first_nonempty : List Bytes → Option Bytes
first_nonempty [] = none
first_nonempty ([] ∷ ps) = first_nonempty ps
first_nonempty ((c ∷ p) ∷ ps) = some (c ∷ p)

abbrev pub after_first : List Bytes → List Bytes
after_first [] = []
after_first (p ∷ ps) = ps

-- What the part before the loop finds: a panic, `return false`, or a position.
pub data Start : Type 0 where
  panic : Start
  refuse : Start
  start_at : ℕ → Start

-- the branch for a leading wildcard
unfoldable pub leading_start : List Bytes → Bytes → Start
unfolding first_nonempty
leading_start parts text = elim (first_nonempty parts) [
  | none ↦ start_at 0
  | some first ↦ elim (slice_from (length first) text) [
    | none ↦ panic
    | some tail ↦ elim (find first tail) [ none ↦ refuse | some i ↦ start_at (i + length first) ]
  ]
]

-- the branch without one; the test of `starts_with` is skipped for an empty first part
unfoldable pub anchored_start : List Bytes → Bytes → Start
anchored_start [] text = start_at 0
anchored_start (first ∷ parts) text =
    if has_prefix first text then start_at (length first) else refuse

-- the loop over `parts[1..]`, from a position: where it stops, or `none` for `return false`
unfoldable pub match_rest : List Bytes → Bytes → ℕ → Option ℕ
match_rest [] text pos = some pos
match_rest ([] ∷ parts) text pos = match_rest parts text pos
match_rest ((c ∷ part) ∷ parts) text pos = elim (find (c ∷ part) (drop pos text)) [
  | none ↦ none
  | some i ↦ match_rest parts text (pos + (i + length (c ∷ part)))
]

unfoldable pub finish : Bytes → Bytes → Option ℕ → Bool
finish pattern text none = false
finish pattern text (some pos) = if ends_with star pattern then true else nat_eq pos (length text)

-- the loop and the end of the function, after the part before the loop
unfoldable pub from_start : Bytes → Bytes → Start → Option Bool
unfolding match_rest finish
from_start pattern text panic = none
from_start pattern text refuse = some false
from_start pattern text (start_at pos) =
    some (finish pattern text (match_rest (after_first (split star pattern)) text pos))

unfoldable pub glob_match : Bytes → Bytes → Option Bool
unfolding leading_start anchored_start from_start
glob_match pattern text =
    if pattern == (star ∷ [])
    then some true
    else from_start pattern text (
        if starts_with_star pattern
        then leading_start (split star pattern) text
        else anchored_start (split star pattern) text)
