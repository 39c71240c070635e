-- ===== src/Core/Shamir/Fractions.antt =====
-- crates/kms-core/src/shamir.rs: the Lagrange coefficients that the inner loop of an interpolation computes.
use gm_kms.Base.{
  ℕ, suc, [], ◌∷◌, ◌++◌, ◌+◌, ◌*◌, ◌%◌, ◌^◌, ◌<◌, ◌≤◌, ◌≡◌, ◌⊎◌, inl, inr, true, false, List, All,
  map, length, refl, arith, ap, ◌∙◌, nat_eq,
}
use gm_kms.Core.Shamir.{Share, mul_mod, sub_mod, fraction, share_at}
use gm_kms.Core.Shamir.Differences.{◌~◌, diff, by_multiples, mul_cong, product}
use gm_kms.Core.Shamir.Field.{reduced, mul_mod_lem, sub_mod_lem}

-- n is the prime less one
module _ (n : ℕ) (small : suc n < 2 ^ 63) where
  abbrev pub itself : ℕ → ℕ
  itself y = y

  abbrev pub AllBelow : List ℕ → Type 0
  AllBelow xs = All (λ y. y < suc n) xs

  -- the shares before or after index i
  fraction_apart :
      (cs : List ℕ) (xi i j : ℕ) (ys : List ℕ) (a b : ℕ)
      → xi < suc n
      → AllBelow ys
      → (i < j) ⊎ (j + length ys ≤ i)
      → b < suc n
      → let f = fraction (suc n) xi i j (map (share_at (suc n) 0 cs) ys) (a, b) in
        ((◌~◌) n f.0 (a * product n itself ys))
        × ((◌~◌) n f.1 (b * product n (λ y. diff n y xi) ys))
        × (f.1 < suc n)
  unfolding fraction
  fraction_apart cs xi i j [] a b hx h apart hb =
      (by_multiples n a (a * 1) 0 0 (omega arith), by_multiples n b (b * 1) 0 0 (omega arith), hb)
  fraction_apart cs xi i j (y ∷ ys) a b hx h apart hb =
      let other : nat_eq i j ≡ false = ground arith in
      let (p, q, below) =
        fraction_apart cs xi i (j + 1) ys (mul_mod (suc n) a y)
          (mul_mod (suc n) b (sub_mod (suc n) y xi)) hx h.1 (later apart) (reduced n small _) in
      rw (fraction, other)
        (
          p
              ∙ (mul_cong n _ (a * y) _ (product n itself ys) (mul_mod_lem n small a y) refl
                  ∙ ap (λ k. k % suc n) (gathered a y (product n itself ys))),
          q
              ∙ (mul_cong n _ (b * diff n y xi) _ (product n (λ y. diff n y xi) ys)
                    (mul_mod_lem n small b (sub_mod (suc n) y xi)
                      ∙ mul_cong n b b _ (diff n y xi) refl (sub_mod_lem n small y xi h.0 hx))
                    refl
                  ∙ ap (λ k. k % suc n)
                      (gathered b (diff n y xi) (product n (λ y. diff n y xi) ys))),
          below,
        )
    where
      gathered : (u v w : ℕ) → u * v * w ≡ u * (v * w)
      gathered u v w = omega arith

      later : (i < j) ⊎ (j + suc (length ys) ≤ i) → (i < j + 1) ⊎ (j + 1 + length ys ≤ i)
      later (inl p) = inl (omega arith)
      later (inr p) = inr (omega arith)

  fraction_append :
      (cs : List ℕ) (xi i j : ℕ) (ys rest : List ℕ) (acc : ℕ × ℕ)
      → fraction (suc n) xi i j (map (share_at (suc n) 0 cs) (ys ++ rest)) acc
        ≡ fraction
            (suc n)
            xi
            i
            (j + length ys)
            (map (share_at (suc n) 0 cs) rest)
            (fraction (suc n) xi i j (map (share_at (suc n) 0 cs) ys) acc)
  unfolding fraction
  fraction_append cs xi i j [] rest acc =
      ap (λ k. fraction (suc n) xi i k (map (share_at (suc n) 0 cs) rest) acc) (add_none j)
    where
      add_none : (j : ℕ) → j ≡ j + 0
      add_none j = omega arith
  fraction_append cs xi i j (y ∷ ys) rest acc =
      fraction_append cs xi i (j + 1) ys rest _
      ∙ ap
          (λ k.
            fraction (suc n) xi i k (map (share_at (suc n) 0 cs) rest)
              (fraction (suc n) xi i j (map (share_at (suc n) 0 cs) (y ∷ ys)) acc))
          (counted (length ys))
    where
      counted : (l : ℕ) → j + 1 + l ≡ j + suc l
      counted l = omega arith

  -- the index itself is left out
  fraction_self :
      (cs : List ℕ) (xi i : ℕ) (s : Share) (rest : List Share) (acc : ℕ × ℕ)
      → fraction (suc n) xi i i (s ∷ rest) acc ≡ fraction (suc n) xi i (i + 1) rest acc
  unfolding fraction
  fraction_self cs xi i s rest acc = let same : nat_eq i i ≡ true = ground arith in rw same refl

  -- numerator and denominator of the coefficient of x
  pub fraction_lem :
      (cs : List ℕ) (x : ℕ) (pre post : List ℕ)
      → x < suc n
      → 1 < suc n
      → AllBelow pre
      → AllBelow post
      → let f =
          fraction
            (suc n)
            x
            (length pre)
            0
            (map (share_at (suc n) 0 cs) (pre ++ x ∷ post))
            (1, 1) in
        ((◌~◌) n f.0 (product n itself pre * product n itself post))
        × ((◌~◌) n f.1 (product n (λ y. diff n y x) pre * product n (λ y. diff n y x) post))
        × (f.1 < suc n)
  fraction_lem cs x pre post hx more hpre hpost =
      let i = length pre in
      let before = fraction (suc n) x i 0 (map (share_at (suc n) 0 cs) pre) (1, 1) in
      let (p, q, below) = fraction_apart cs x i 0 pre 1 1 hx hpre (inr (omega arith)) more in
      let (p', q', below') =
        fraction_apart cs x i (i + 1) post before.0 before.1 hx hpost (inl (omega arith)) below in
      rw (fraction_append cs x i 0 pre (x ∷ post) (1, 1)) (
        rw
          (
            zero_add i,
            fraction_self cs x i (share_at (suc n) 0 cs x) (map (share_at (suc n) 0 cs) post)
                before,
          )
          (
            p'
                ∙ mul_cong n _ (product n itself pre) _ (product n itself post)
                    (p ∙ ap (λ k. k % suc n) (one_mul (product n itself pre))) refl,
            q'
                ∙ mul_cong n _ (product n (λ y. diff n y x) pre) _
                    (product n (λ y. diff n y x) post)
                    (q ∙ ap (λ k. k % suc n) (one_mul (product n (λ y. diff n y x) pre))) refl,
            below',
          ))
    where
      zero_add : (i : ℕ) → 0 + i ≡ i
      zero_add i = omega arith

      one_mul : (i : ℕ) → 1 * i ≡ i
      one_mul i = omega arith
