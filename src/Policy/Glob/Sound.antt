-- ===== src/Policy/Glob/Sound.antt =====
-- What `glob_match` of crates/kms-policy/src/engine.rs accepts, against wildcard matching as such.
use mathlib.Core.Option.{some-injective}
use mathlib.Core.Path.{subst}
use gm_kms.Base.{
  ◌==◌, drop-drop, refl, ◌∙◌, ℕ, Bytes, List, ◌∷◌, [], prepend, split, Bool, ◌++◌, false, ◌≡◌,
  Bool-cases, true, if-cases, ends_with, drop, some, nat_eq, ap, arith, find, length, Option-cases,
  nat_eq_iff, ◌+◌, inl, OccursAt, inr, find-OccursAt, drop-length, take-drop, has_prefix,
  has_prefix-split, bytes_Eq,
}
use gm_kms.Policy.Glob.{
  star, starts_with_star, after_first, leading_start, anchored_start, match_rest, finish,
  glob_match, Start, panic, refuse, start_at, from_start,
}

-- the text is an instance of the pattern: a star stands for any text
pub data Matches : Bytes → Bytes → Type 0 where
  done : Matches [] []
  same : {c : ℕ} {p t : Bytes} → Matches p t → Matches (c ∷ p) (c ∷ t)
  skip : {p t : Bytes} → Matches p t → Matches (star ∷ p) t
  take : {c : ℕ} {p t : Bytes} → Matches (star ∷ p) t → Matches (star ∷ p) (c ∷ t)

take_all :
    {p : Bytes} (gap : Bytes) {t : Bytes} → Matches (star ∷ p) t → Matches (star ∷ p) (gap ++ t)
take_all [] h = h
take_all (c ∷ gap) h = take (take_all gap h)

same_all : (q : Bytes) {p t : Bytes} → Matches p t → Matches (q ++ p) (q ++ t)
same_all [] h = h
same_all (c ∷ q) h = same (same_all q h)

pub lone_star : (t : Bytes) → Matches (star ∷ []) t
lone_star [] = skip done
lone_star (c ∷ t) = take (lone_star t)

-- a pattern from its parts
abbrev tail_of : List Bytes → Bytes
tail_of [] = []
tail_of (q ∷ qs) = star ∷ (q ++ tail_of qs)

abbrev joined : List Bytes → Bytes
joined [] = []
joined (q ∷ qs) = q ++ tail_of qs

joined-prepend : (c : ℕ) (ps : List Bytes) → joined (prepend c ps) ≡ c ∷ joined ps
joined-prepend c [] = refl
joined-prepend c (p ∷ ps) = refl

-- a text always has a first part
pub split_first : (sep : ℕ) (p : Bytes) → (q : Bytes) × (qs : List Bytes) × (split sep p ≡ q ∷ qs)
split_first sep [] = ([], [], refl)
split_first sep (c ∷ p) =
    let (q, qs, e) = split_first sep p in
    if-cases (λ ps. (q' : Bytes) × (qs' : List Bytes) × (ps ≡ q' ∷ qs')) (nat_eq c sep)
      (λ here. ([], split sep p, refl)) (λ there. (c ∷ q, qs, ap (prepend c) e))

tail_of-split : (p : Bytes) → tail_of (split star p) ≡ star ∷ joined (split star p)
tail_of-split p = let (q, qs, e) = split_first star p in rw e

joined-split : (p : Bytes) → joined (split star p) ≡ p
joined-split [] = refl
joined-split (c ∷ p) =
    if-cases (λ ps. joined ps ≡ c ∷ p) (nat_eq c star)
      (λ here. ground (arith, tail_of-split p, joined-split p))
      (λ there. joined-prepend c (split star p) ∙ ap (λ t. c ∷ t) (joined-split p))

-- the last part is empty
abbrev last_empty : List Bytes → Bool
last_empty [] = false
last_empty ([] ∷ []) = true
last_empty ((c ∷ p) ∷ []) = false
last_empty (p ∷ q ∷ qs) = last_empty (q ∷ qs)

last_empty-after_first :
    (ps : List Bytes) → last_empty (after_first ps) ≡ true → last_empty ps ≡ true
last_empty-after_first [] h = h
last_empty-after_first (p ∷ []) h = cc
last_empty-after_first ([] ∷ q ∷ qs) h = h
last_empty-after_first ((c ∷ p) ∷ q ∷ qs) h = h

after_first-prepend : (c : ℕ) (ps : List Bytes) → after_first (prepend c ps) ≡ after_first ps
after_first-prepend c [] = refl
after_first-prepend c (p ∷ ps) = refl

-- a pattern that ends with a star
ends_with-last_empty :
    (p : Bytes) → ends_with star p ≡ true → last_empty (after_first (split star p)) ≡ true
ends_with-last_empty [] h = cc
ends_with-last_empty (c ∷ []) h = rw h
ends_with-last_empty (c ∷ d ∷ t) h =
    let rest = ends_with-last_empty (d ∷ t) h in
    if-cases (λ ps. last_empty (after_first ps) ≡ true) (nat_eq c star)
      (λ here. last_empty-after_first (split star (d ∷ t)) rest)
      (λ there. ap last_empty (after_first-prepend c (split star (d ∷ t))) ∙ rest)

-- The parts after the first match what is left, wherever the search starts.
data Ends : List Bytes → Bytes → ℕ → Type 0 where
  at_star : {ps : List Bytes} {t : Bytes} {n : ℕ} → last_empty ps ≡ true → Ends ps t n
  at_end : {ps : List Bytes} {t : Bytes} {n : ℕ} → drop n t ≡ [] → Ends ps t n

Ends-later :
    (q : Bytes) (p : Bytes) (ps : List Bytes) {t : Bytes} {n : ℕ}
    → Ends (q ∷ p ∷ ps) t n
    → Ends (p ∷ ps) t n
Ends-later [] p ps (at_star h) = at_star h
Ends-later (c ∷ q) p ps (at_star h) = at_star h
Ends-later q p ps (at_end h) = at_end h

Ends-last : (c : ℕ) (q : Bytes) {t : Bytes} {n : ℕ} → Ends ((c ∷ q) ∷ []) t n → Ends [] t n
Ends-last c q (at_star h) = at_star h
Ends-last c q (at_end h) = at_end h

Ends-next :
    (c : ℕ) (q : Bytes) (ps : List Bytes) {t : Bytes} {n : ℕ}
    → Ends ((c ∷ q) ∷ ps) t n
    → Ends ps t n
Ends-next c q [] h = Ends-last c q h
Ends-next c q (p ∷ ps) h = Ends-later (c ∷ q) p ps h

found_next :
    (q t : Bytes) (pos i : ℕ) {p : Bytes}
    → find q (drop pos t) ≡ some i
    → Matches p (drop (pos + (i + length q)) t)
    → Matches (star ∷ (q ++ p)) (drop pos t)
found_next q t pos i {p} found rest =
    let (gap, e) : OccursAt q (drop pos t) (some i) =
      subst (OccursAt q (drop pos t)) found (find-OccursAt q (drop pos t)) in
    let rest : Matches p (drop (i + length q) (drop pos t)) =
      rw (drop-drop pos (i + length q) t) rest in
    rw e (take_all gap (skip (same_all q rest)))

match_rest_sound :
    (ps : List Bytes) (t : Bytes) (pos : ℕ) {end : ℕ}
    → match_rest ps t pos ≡ some end
    → Ends ps t end
    → Matches (tail_of ps) (drop pos t)
unfolding match_rest
match_rest_sound [] t pos e (at_star h) = cc
match_rest_sound [] t pos {end} e (at_end h) = rw (some-injective pos end e, h) done
match_rest_sound ([] ∷ []) t pos e h = lone_star (drop pos t)
match_rest_sound ([] ∷ p ∷ ps) t pos e h =
    skip (match_rest_sound (p ∷ ps) t pos e (Ends-later [] p ps h))
match_rest_sound ((c ∷ q) ∷ ps) t pos {end} e h = elim (Option-cases (find (c ∷ q) (drop pos t))) [
  | inl missing ↦ absurd (ground arith)
  | inr (i, found) ↦
      let next : ℕ = pos + (i + length (c ∷ q)) in
      let rest : Matches (tail_of ps) (drop next t) =
        match_rest_sound ps t next (rw (match_rest, found) at e) (Ends-next c q ps h) in
      found_next (c ∷ q) t pos i found rest
]

finish-Ends :
    (p t : Bytes) (end : ℕ) → finish p t (some end) ≡ true → Ends (after_first (split star p)) t end
unfolding finish
finish-Ends p t end h = elim (Bool-cases (ends_with star p)) [
  | inl last ↦ at_star (ends_with-last_empty p last)
  | inr last ↦ at_end (rw (end_of (rw last at h)) (drop-length t))
]
  where
    end_of : nat_eq end (length t) ≡ true → end ≡ length t
    end_of e = (nat_eq_iff end (length t)).0 e

-- a search from some position that ends well
pub rest_sound :
    (p t : Bytes) (pos : ℕ)
    → finish p t (match_rest (after_first (split star p)) t pos) ≡ true
    → Matches (tail_of (after_first (split star p))) (drop pos t)
unfolding finish
rest_sound p t pos h = elim (Option-cases (match_rest (after_first (split star p)) t pos)) [
  | inl missing ↦ absurd (ground arith)
  | inr (end, e) ↦ match_rest_sound _ t pos e (finish-Ends p t end (rw e at h))
]

pub skip_leading :
    (p : Bytes) → starts_with_star p ≡ true → tail_of (after_first (split star p)) ≡ p
skip_leading [] h = cc
skip_leading (c ∷ p) h = ground (arith, joined-split (c ∷ p), ap tail_of (after_star c p h))
  where
    after_star :
        (c : ℕ) (p : Bytes) → nat_eq c star ≡ true → after_first (split star (c ∷ p)) ≡ split star p
    after_star c p e = rw e

pub grow :
    (p t : Bytes) (pos : ℕ) → starts_with_star p ≡ true → Matches p (drop pos t) → Matches p t
grow [] t pos h found = absurd (ground arith)
grow (c ∷ p) t pos h found =
    let (gap, whole) = take-drop pos t in
    let starred : Matches (star ∷ p) (drop pos t) = rw ((nat_eq_iff c star).0 h) at found in
    rw ((nat_eq_iff c star).0 h, whole) (take_all gap starred)

-- where the two branches start, and what they leave behind
leading_sound :
    (p t : Bytes) (s : Start)
    → starts_with_star p ≡ true
    → from_start p t s ≡ some true
    → Matches p t
unfolding from_start
leading_sound p t panic h e = absurd (ground arith)
leading_sound p t refuse h e = absurd (ground arith)
leading_sound p t (start_at pos) h e = grow p t pos h (
    subst (λ q. Matches q (drop pos t)) (skip_leading p h)
      (rest_sound p t pos (some-injective _ true e)))

anchored_parts :
    (p t first : Bytes) (rest : List Bytes)
    → split star p ≡ first ∷ rest
    → from_start p t (anchored_start (first ∷ rest) t) ≡ some true
    → Matches p t
unfolding from_start anchored_start
anchored_parts p t first rest parts h = elim (Bool-cases (has_prefix first t)) [
  | inl found ↦
      let after : Matches (tail_of (after_first (split star p))) (drop (length first) t) =
        rest_sound p t (length first) (some-injective _ true (rw (anchored_start, found) at h)) in
      let whole : first ++ tail_of rest ≡ p = ground (arith, joined-split p) in
      rw (← whole, has_prefix-split first t found) (same_all first (rw parts at after))
  | inr missing ↦ absurd (ground arith)
]

-- A text that `glob_match` accepts is an instance of the pattern, with each star standing for some
-- text.
pub glob_match_sound : (p t : Bytes) → glob_match p t ≡ some true → Matches p t
unfolding glob_match
glob_match_sound p t h = elim (Bool-cases (p == (star ∷ []))) [
  | inl lone ↦ rw ((bytes_Eq.test_iff p (star ∷ [])).0 lone) (lone_star t)
  | inr more ↦ elim (Bool-cases (starts_with_star p)) [
    | inl leading ↦ leading_sound p t (leading_start (split star p) t) leading (ground arith)
    | inr plain ↦
        let (first, rest, parts) = split_first star p in
        anchored_parts p t first rest parts (ground arith)
  ]
]
