-- ===== src/Policy/Typed/Glob.antt =====
-- The glob matching of crates/kms-core/src/policy.rs beside that of crates/kms-policy/src/engine.rs.
use mathlib.Core.Path.{subst}
use gm_kms.Base.{
  ℕ, none, some, [], ◌∷◌, bytes_Eq, ◌+◌, refl, inl, inr, Bytes, List, Option, false, has_prefix,
  split, ◌≡◌, Option-cases, true, find, drop, nat_eq, arith, length, Bool-cases, ◌==◌, ◌∙◌, ap,
}
use gm_kms.Policy.Glob.{
  star, starts_with_star, after_first, anchored_start, match_rest, finish, from_start, start_at,
  refuse,
}
use gm_kms.Policy.Typed.{match_parts, at_end, glob_match}
use gm_kms.Policy.Glob.Sound.{
  Matches, split_first, rest_sound, grow, skip_leading, lone_star, glob_match_sound,
}

at_end-finish : (p t : Bytes) (o : Option ℕ) → at_end p t o ≡ finish p t o
unfolding at_end finish
at_end-finish p t none = refl
at_end-finish p t (some n) = refl

-- after the first part the two loops are the same
match_parts-match_rest :
    (ps : List Bytes) (t : Bytes) (n : ℕ) → match_parts false ps t n ≡ match_rest ps t n
unfolding match_parts match_rest
match_parts-match_rest [] t n = refl
match_parts-match_rest ([] ∷ ps) t n = match_parts-match_rest ps t n
match_parts-match_rest ((c ∷ q) ∷ ps) t n = elim (Option-cases (find (c ∷ q) (drop n t))) [
  | inl missing ↦ rw (match_parts, match_rest, missing) refl
  | inr (i, found) ↦
      rw (match_parts, match_rest, found) (match_parts-match_rest ps t (n + (i + length (c ∷ q))))
]

-- a part is found at the start exactly if it is a prefix
find-start : (p t : Bytes) → has_prefix p t ≡ true → find p t ≡ some 0
find-start p [] h = rw h
find-start p (d ∷ t) h = rw (find, h)

find-later : (p t : Bytes) {i : ℕ} → has_prefix p t ≡ false → find p t ≡ some i → nat_eq i 0 ≡ false
find-later p [] h e = ground arith
find-later p (d ∷ t) h e = ground arith

not_anchored :
    (c : ℕ) (q : Bytes) (rest : List Bytes) (t : Bytes)
    → has_prefix (c ∷ q) t ≡ false
    → match_parts true ((c ∷ q) ∷ rest) t 0 ≡ none
unfolding match_parts
not_anchored c q rest t missing = elim (Option-cases (find (c ∷ q) t)) [
  | inl nowhere ↦ rw (match_parts, nowhere) refl
  | inr (i, found) ↦ rw (match_parts, found, find-later (c ∷ q) t missing found) refl
]

anchored :
    (p t first : Bytes) (rest : List Bytes)
    → split star p ≡ first ∷ rest
    → from_start p t (anchored_start (first ∷ rest) t)
      ≡ some (at_end p t (match_parts true (first ∷ rest) t 0))
unfolding from_start anchored_start match_parts at_end
anchored p t [] rest parts =
    ground (arith, at_end-finish p t (match_rest rest t 0), match_parts-match_rest rest t 0)
anchored p t (c ∷ q) rest parts = elim (Bool-cases (has_prefix (c ∷ q) t)) [
  | inl found ↦ ground (
    arith,
    find-start (c ∷ q) t found,
    at_end-finish p t (match_rest rest t (length (c ∷ q))),
    match_parts-match_rest rest t (length (c ∷ q)),
  )
  | inr missing ↦ ground (arith, not_anchored c q rest t missing)
]

-- On a pattern that does not start with a star the two functions named glob_match agree, and that
-- of the policy engine does not panic.
pub glob_match_agrees :
    (p t : Bytes)
    → starts_with_star p ≡ false
    → gm_kms.Policy.Glob.glob_match p t ≡ some (glob_match p t)
unfolding glob_match gm_kms.Policy.Glob.glob_match
glob_match_agrees p t plain = elim (Bool-cases (p == (star ∷ []))) [
  | inl lone ↦ rw lone refl
  | inr more ↦
      let (first, rest, parts) = split_first star p in ground (arith, anchored p t first rest parts)
]

-- the typed function from the second part on
leading :
    (p t : Bytes)
    → starts_with_star p ≡ true
    → match_parts false (split star p) t 0 ≡ match_rest (after_first (split star p)) t 0
unfolding match_parts
leading [] t h = absurd (ground arith)
leading (c ∷ p) t h = rw h (match_parts-match_rest (split star p) t 0)

-- A text that the glob matching of kms-core accepts is an instance of the pattern.
pub glob_match_typed_sound : (p t : Bytes) → glob_match p t ≡ true → Matches p t
unfolding glob_match
glob_match_typed_sound p t h = elim (Bool-cases (starts_with_star p)) [
  | inl star_first ↦ elim (Bool-cases (p == (star ∷ []))) [
    | inl lone ↦ rw ((bytes_Eq.test_iff p (star ∷ [])).0 lone) (lone_star t)
    | inr more ↦ grow p t 0 star_first (
        subst (λ q. Matches q t) (skip_leading p star_first)
          (rest_sound p t 0 (
            ground (
              arith,
              leading p t star_first,
              at_end-finish p t (match_rest (after_first (split star p)) t 0),
            ))))
  ]
  | inr plain ↦ glob_match_sound p t (glob_match_agrees p t plain ∙ ap some h)
]
