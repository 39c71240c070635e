-- ===== src/Core/Shamir/Interpolation.antt =====
-- crates/kms-core/src/shamir.rs: an interpolation at zero recovers the constant coefficient.
use gm_kms.Base.{
  ℕ, suc, [], ◌∷◌, ◌++◌, ◌+◌, ◌*◌, ◌%◌, ◌^◌, ◌<◌, ◌≡◌, List, All, All-imp, All-push, map, length,
  length-push, refl, arith, ap, sym, ◌∙◌,
}
use mathlib.Core.List.{append_assoc}
use gm_kms.Core.Shamir.{add_mod, mul_mod, fraction, inv_mod, interpolate_from, share_at}
use gm_kms.Core.Shamir.Differences.{
  ◌~◌, by_multiples, add_cong, mul_cong, product, IsInverse, IsDistinct, weight, difference,
  difference_ext, value,
}
use gm_kms.Core.Shamir.Field.{
  IsField, reduced, mul_mod_lem, add_mod_lem, inverse, evaluate_polynomial_lem,
}
use gm_kms.Core.Shamir.Fractions.{itself, AllBelow}
use gm_kms.Core.Shamir.Coefficients.{coefficient_lem}

-- n is the prime less one
module _ (n : ℕ) (small : suc n < 2 ^ 63) (more : 1 < suc n) (field : IsField (suc n)) where
  abbrev pub v : ℕ → ℕ → ℕ
  v = inverse n small

  product_append :
      (h : ℕ → ℕ) (pre post : List ℕ)
      → product n h (pre ++ post) ≡ product n h pre * product n h post
  product_append h [] post = omega arith
  product_append h (y ∷ pre) post =
      ap (λ k. h y * k) (product_append h pre post)
      ∙ grouped (h y) (product n h pre) (product n h post)
    where
      grouped : (u w k : ℕ) → u * (w * k) ≡ u * w * k
      grouped u w k = omega arith

  -- x divides the product of all: its share of the numerator
  numerator_lem : (x a b : ℕ) → IsInverse n v 0 x → (◌~◌) n (a * b) (a * (x * b) * (n * v 0 x))
  numerator_lem x a b inverse = sym (
      ap (λ k. k % suc n) (turned (v 0 x))
      ∙ (mul_cong n _ _ _ 1 refl inverse ∙ by_multiples n (a * b * 1) (a * b) 0 0 (omega arith)))
    where
      turned : (w : ℕ) → a * (x * b) * (n * w) ≡ a * b * ((0 + n * x) * w)
      turned w = omega arith

  -- what the share of x adds, all being the product of the x of the block
  abbrev pub summand : List ℕ → ℕ → ℕ → ℕ
  summand cs all x = value n v cs x * (all * (n * v 0 x))

  -- the weight of a prefix that takes one more share
  weight_push : (pre : List ℕ) (x z : ℕ) → weight n v z (pre ++ x ∷ []) ≡ weight n v z pre * v x z
  weight_push pre x z =
      product_append (λ y. v y z) pre (x ∷ []) ∙ ap (λ k. weight n v z pre * k) (times_one (v x z))
    where
      times_one : (k : ℕ) → k * 1 ≡ k
      times_one k = omega arith

  -- one turn of the outer loop
  turn_lem :
      (cs : List ℕ) (x : ℕ) (pre post : List ℕ) (all acc : ℕ) (block : List ℕ) (i : ℕ)
      → pre ++ x ∷ post ≡ block
      → length pre ≡ i
      → product n (itself n small) pre * (x * product n (itself n small) post) ≡ all
      → acc < suc n
      → x < suc n
      → AllBelow n small pre
      → AllBelow n small post
      → IsInverse n v 0 x
      → All (λ y. IsInverse n v y x) pre
      → All (λ y. IsInverse n v y x) post
      → let s = share_at (suc n) 0 cs x in
        let f = fraction (suc n) x i 0 (map (share_at (suc n) 0 cs) block) (1, 1) in
        (◌~◌) n
          (add_mod (suc n) acc (mul_mod (suc n) s.y (mul_mod (suc n) f.0 (inv_mod (suc n) f.1))))
          (acc + summand cs all x * weight n v x pre * weight n v x post)
  turn_lem cs x pre post all acc block i whole place e hacc hx bpre bpost izero ipre ipost =
      let a = product n (itself n small) pre in
      let b = product n (itself n small) post in
      let w = weight n v x pre in
      let u = weight n v x post in
      rw (sym whole, sym place)
        (add_mod_lem n small acc _ hacc (reduced n small _)
          ∙ add_cong n acc acc _ (summand cs all x * w * u) refl (
              mul_mod_lem n small _ _
              ∙ (mul_cong n _ (value n v cs x) _ (all * (n * v 0 x) * (w * u))
                    (evaluate_polynomial_lem n small cs x).0
                    (coefficient_lem n small more field cs x pre post hx bpre bpost ipre ipost
                      ∙ mul_cong n (a * b) (all * (n * v 0 x)) (w * u) (w * u)
                          (numerator_lem x a b izero ∙ ap (λ k. k * (n * v 0 x) % suc n) e) refl)
                  ∙ ap (λ k. k % suc n) (grouped (value n v cs x) (all * (n * v 0 x)) w u))))
    where
      grouped : (g h w u : ℕ) → g * (h * (w * u)) ≡ g * h * w * u
      grouped g h w u = omega arith

  pub sum_lem :
      (cs pre post : List ℕ) (all acc : ℕ) (block : List ℕ) (i : ℕ)
      → pre ++ post ≡ block
      → length pre ≡ i
      → product n (itself n small) pre * product n (itself n small) post ≡ all
      → acc < suc n
      → AllBelow n small pre
      → AllBelow n small post
      → All (IsInverse n v 0) post
      → All (λ x. All (λ y. IsInverse n v y x) pre) post
      → IsDistinct n v post
      → let r =
          interpolate_from
            (suc n)
            (map (share_at (suc n) 0 cs) block)
            i
            (map (share_at (suc n) 0 cs) post)
            acc in
        ((◌~◌) n r (acc + difference n v (λ x. summand cs all x * weight n v x pre) post))
        × (r < suc n)
  unfolding interpolate_from
  sum_lem cs pre [] all acc block i whole place e hacc bpre bpost izero ipre distinct =
      (by_multiples n acc (acc + 0) 0 0 (omega arith), hacc)
  sum_lem cs pre (x ∷ post) all acc block i whole place e hacc bpre bpost izero ipre distinct =
      let c = share_at (suc n) 0 cs in
      let g = λ (z : ℕ). summand cs all z * weight n v z pre in
      let forward = All-imp (λ z p. p.0) post distinct.0 in
      let (p, below) =
        sum_lem cs (pre ++ x ∷ []) post all _ block (i + 1) (append_assoc pre (x ∷ []) post ∙ whole)
          (length_pushed ∙ ap (λ k. k + 1) place) (product_pushed ∙ e) (reduced n small _)
          (All-push (λ y. y < suc n) pre x bpre bpost.0) bpost.1 izero.1
          (pushed post ipre.1 forward) distinct.1 in
      let t =
        turn_lem cs x pre post all acc block i whole place e hacc bpost.0 bpre bpost.1 izero.0
          ipre.0 (All-imp (λ z p. p.1) post distinct.0) in
      (
        p
            ∙ (add_cong n _ _ _ _ t (ap (λ k. k % suc n) (difference_ext n v _ _ post weighed))
                ∙ ap (λ k. k % suc n) (grouped acc _ _)),
        below,
      )
    where
      grouped : (a b c : ℕ) → a + b + c ≡ a + (b + c)
      grouped a b c = omega arith

      weighed :
          (z : ℕ)
          → summand cs all z * weight n v z (pre ++ x ∷ [])
            ≡ summand cs all z * weight n v z pre * v x z
      weighed z =
          ap (λ k. summand cs all z * k) (weight_push pre x z)
          ∙ tripled (summand cs all z) (weight n v z pre) (v x z)
        where
          tripled : (a b c : ℕ) → a * (b * c) ≡ a * b * c
          tripled a b c = omega arith

      length_pushed : length (pre ++ x ∷ []) ≡ length pre + 1
      length_pushed = length-push pre x ∙ plus_one (length pre)
        where
          plus_one : (k : ℕ) → suc k ≡ k + 1
          plus_one k = omega arith

      product_pushed :
          product n (itself n small) (pre ++ x ∷ []) * product n (itself n small) post
          ≡ product n (itself n small) pre * (x * product n (itself n small) post)
      product_pushed =
          ap (λ k. k * product n (itself n small) post)
            (product_append (itself n small) pre (x ∷ []))
          ∙ grouped (product n (itself n small) pre) (product n (itself n small) post)
        where
          grouped : (a b : ℕ) → a * (x * 1) * b ≡ a * (x * b)
          grouped a b = omega arith

      pushed :
          (zs : List ℕ)
          → All (λ z. All (λ y. IsInverse n v y z) pre) zs
          → All (IsInverse n v x) zs
          → All (λ z. All (λ y. IsInverse n v y z) (pre ++ x ∷ [])) zs
      pushed [] h k = tt
      pushed (z ∷ zs) (h, hs) (k, ks) =
          (All-push (λ y. IsInverse n v y z) pre x h k, pushed zs hs ks)
