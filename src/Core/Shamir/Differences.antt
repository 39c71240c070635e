-- ===== src/Core/Shamir/Differences.antt =====
-- Divided differences of polynomials modulo a number, for the interpolation of
-- crates/kms-core/src/shamir.rs. A difference a - b is a + n * b, where n is the modulus less one.
use native.Mathlib.Nat.{add-mod, div-add-mod', mul_comm, mul-one, add-mul-mod_self_right}
use mathlib.Core.Path.{ap₂}
use gm_kms.Base.{
  All-imp, ℕ, suc, [], ◌∷◌, ◌+◌, ◌*◌, ◌%◌, ◌/◌, ◌<◌, ◌≡◌, List, All, length, refl, arith, ap, sym,
  ◌∙◌,
}

-- n is the modulus less one
module _ (n : ℕ) where
  infix 4 ◌~◌
  abbrev pub ◌~◌ : ℕ → ℕ → Type 0
  a ~ b = a % suc n ≡ b % suc n

  pub add_cong : (a b c d : ℕ) → a ~ b → c ~ d → a + c ~ b + d
  add_cong a b c d p q = rw (add-mod a c (suc n), add-mod b d (suc n), p, q) refl

  -- a number that differs by a multiple of the modulus
  pub add_multiple : (a k : ℕ) → a + k * suc n ~ a
  add_multiple a k = add-mul-mod_self_right a k (suc n)

  mul_reduced : (a c : ℕ) → a * c ~ (a % suc n) * c
  mul_reduced a c =
      ap (λ x. x % suc n)
        (ap (λ x. x * c) (sym (div-add-mod' a (suc n))) ∙ split (a / suc n) (a % suc n))
      ∙ add_multiple (a % suc n * c) (a / suc n * c)
    where
      split : (q r : ℕ) → (q * suc n + r) * c ≡ r * c + q * c * suc n
      split q r = omega arith

  pub mul_cong : (a b c d : ℕ) → a ~ b → c ~ d → a * c ~ b * d
  mul_cong a b c d p q =
      mul_reduced a c
      ∙ (ap (λ x. x * c % suc n) p
          ∙ (sym (mul_reduced b c)
              ∙ (ap (λ x. x % suc n) (mul_comm b c)
                  ∙ (mul_reduced c b
                      ∙ (ap (λ x. x * b % suc n) q
                          ∙ (sym (mul_reduced d b) ∙ ap (λ x. x % suc n) (mul_comm d b)))))))

  abbrev pub product : (ℕ → ℕ) → List ℕ → ℕ
  product h [] = 1
  product h (y ∷ ys) = h y * product h ys

  -- a - b, modulo
  abbrev pub diff : ℕ → ℕ → ℕ
  diff a b = a + n * b

  -- two numbers that agree after multiples of the modulus are added
  pub by_multiples : (a b k l : ℕ) → a + k * suc n ≡ b + l * suc n → a ~ b
  by_multiples a b k l e = sym (add_multiple a k) ∙ (ap (λ x. x % suc n) e ∙ add_multiple b l)

  pub diff_self : (a c : ℕ) → diff a a * c ~ 0
  diff_self a c = by_multiples (diff a a * c) 0 0 (a * c) (omega arith)

  module _ (v : ℕ → ℕ → ℕ) where
    -- v y x is an inverse of y - x
    abbrev pub IsInverse : ℕ → ℕ → Type 0
    IsInverse y x = diff y x * v y x ~ 1

    abbrev pub weight : ℕ → List ℕ → ℕ
    weight x ys = product (λ y. v y x) ys

    -- The sum of f x / ∏ (y - x) over the x of a list, with the other y of the list.
    abbrev pub difference : (ℕ → ℕ) → List ℕ → ℕ
    difference f [] = 0
    difference f (a ∷ ys) = f a * weight a ys + difference (λ x. f x * v a x) ys

    difference_cong :
        (f g : ℕ → ℕ) (ys : List ℕ) → All (λ x. f x ~ g x) ys → difference f ys ~ difference g ys
    difference_cong f g [] h = refl
    difference_cong f g (a ∷ ys) (h, hs) =
        add_cong _ _ _ _ (mul_cong (f a) (g a) (weight a ys) (weight a ys) h refl) (
          difference_cong (λ x. f x * v a x) (λ x. g x * v a x) ys
            (All-imp (λ x p. mul_cong (f x) (g x) (v a x) (v a x) p refl) ys hs))

    pub difference_ext :
        (f g : ℕ → ℕ) (ys : List ℕ) → ((x : ℕ) → f x ≡ g x) → difference f ys ≡ difference g ys
    difference_ext f g ys h = ap (λ k. difference k ys) (λ i x. h x i)

    difference_add :
        (f g : ℕ → ℕ) (ys : List ℕ)
        → difference (λ x. f x + g x) ys ≡ difference f ys + difference g ys
    difference_add f g [] = refl
    difference_add f g (a ∷ ys) =
        let e =
          difference_ext (λ x. (f x + g x) * v a x) (λ x. f x * v a x + g x * v a x) ys
            (λ x. omega arith) in
        let h = difference_add (λ x. f x * v a x) (λ x. g x * v a x) ys in omega (arith, e, h)

    pub difference_scale :
        (c : ℕ) (f : ℕ → ℕ) (ys : List ℕ) → difference (λ x. c * f x) ys ≡ c * difference f ys
    difference_scale c f [] = omega arith
    difference_scale c f (a ∷ ys) =
        let e =
          difference_ext (λ x. c * f x * v a x) (λ x. c * (f x * v a x)) ys (λ x. omega arith) in
        let h = difference_scale c (λ x. f x * v a x) ys in omega (arith, e, h)

    difference_swap :
        (f : ℕ → ℕ) (a b : ℕ) (ys : List ℕ) → difference f (a ∷ b ∷ ys) ≡ difference f (b ∷ a ∷ ys)
    difference_swap f a b ys =
        let e =
          difference_ext (λ x. f x * v a x * v b x) (λ x. f x * v b x * v a x) ys
            (λ x. omega arith) in
        omega (arith, e)

    -- a factor that vanishes at the first member
    difference_factor :
        (g : ℕ → ℕ) (a : ℕ) (ys : List ℕ)
        → All (IsInverse a) ys
        → difference (λ x. diff x a * g x) (a ∷ ys) ~ n * difference g ys
    difference_factor g a ys h =
        add_cong _ 0 _ (n * difference g ys) (vanishes (g a) (weight a ys)) (
          difference_cong (λ x. diff x a * g x * v a x) (λ x. n * g x) ys
            (All-imp (λ x p. moved x p) ys h)
          ∙ ap (λ k. k % suc n) (difference_scale n g ys))
        ∙ ap (λ k. k % suc n) (zero_add (n * difference g ys))
      where
        zero_add : (k : ℕ) → 0 + k ≡ k
        zero_add k = omega arith

        vanishes : (c w : ℕ) → diff a a * c * w ~ 0
        vanishes c w = by_multiples (diff a a * c * w) 0 0 (a * c * w) (omega arith)

        turned : (x d w : ℕ) → (x + n * a) * d * w ~ n * ((a + n * x) * w) * d
        turned x d w =
            by_multiples ((x + n * a) * d * w) (n * ((a + n * x) * w) * d) (n * x * d * w)
              (x * d * w) (omega arith)

        moved : (x : ℕ) → IsInverse a x → diff x a * g x * v a x ~ n * g x
        moved x p =
            turned x (g x) (v a x)
            ∙ (mul_cong (n * (diff a x * v a x)) (n * 1) (g x) (g x)
                  (mul_cong n n (diff a x * v a x) 1 refl p) refl
                ∙ ap (λ k. k * g x % suc n) (mul-one n))

    -- the differences of all pairs are invertible
    abbrev pub IsDistinct : List ℕ → Type 0
    IsDistinct [] = Unit
    IsDistinct (y ∷ ys) = All (λ x. IsInverse y x × IsInverse x y) ys × IsDistinct ys

    forward :
        (a : ℕ) (ys : List ℕ) → All (λ x. IsInverse a x × IsInverse x a) ys → All (IsInverse a) ys
    forward a ys h = All-imp (λ x p. p.0) ys h

    cancel_diff : (a b d : ℕ) → IsInverse b a → diff b a * d ~ 0 → d ~ 0
    cancel_diff a b d inverse h =
        sym (ap (λ k. k % suc n) (one_mul d))
        ∙ (sym (mul_cong (diff b a * v b a) 1 d d inverse refl)
            ∙ (ap (λ k. k % suc n) (turned (diff b a) (v b a) d)
                ∙ (mul_cong (v b a) (v b a) (diff b a * d) 0 refl h
                    ∙ ap (λ k. k % suc n) (none (v b a)))))
      where
        one_mul : (d : ℕ) → 1 * d ≡ d
        one_mul d = omega arith

        turned : (u w d : ℕ) → u * w * d ≡ w * (u * d)
        turned u w d = omega arith

        none : (w : ℕ) → w * 0 ≡ 0
        none w = omega arith

    pub everywhere : (P : ℕ → Type 0) → ((x : ℕ) → P x) → (ys : List ℕ) → All P ys
    everywhere P h [] = tt
    everywhere P h (y ∷ ys) = (h y, everywhere P h ys)

    abbrev one : ℕ → ℕ
    one x = 1

    -- two differences of the constant, by taking either of the first two members away
    one_relation :
        (a b : ℕ) (ys : List ℕ)
        → IsDistinct (a ∷ b ∷ ys)
        → diff b a * difference one (a ∷ b ∷ ys)
          ~ n * difference one (b ∷ ys) + n * (n * difference one (a ∷ ys))
    one_relation a b ys ((ab, la), (lb, rest)) =
        ap (λ k. k % suc n) (sym (difference_scale (diff b a) one (a ∷ b ∷ ys)))
        ∙ (difference_cong (λ x. diff b a * one x) (λ x. diff x a * one x + n * (diff x b * one x))
              (a ∷ b ∷ ys) (everywhere _ split (a ∷ b ∷ ys))
            ∙ (ap (λ k. k % suc n)
                  (difference_add (λ x. diff x a * one x) (λ x. n * (diff x b * one x))
                    (a ∷ b ∷ ys))
                ∙ add_cong _ (n * difference one (b ∷ ys)) _ (n * (n * difference one (a ∷ ys)))
                    (difference_factor one a (b ∷ ys) (ab.0, forward a ys la))
                    (ap (λ k. k % suc n) (difference_scale n (λ x. diff x b * one x) (a ∷ b ∷ ys))
                      ∙ mul_cong n n _ (n * difference one (a ∷ ys)) refl (
                          ap (λ k. k % suc n) (difference_swap (λ x. diff x b * one x) a b ys)
                          ∙ difference_factor one b (a ∷ ys) (ab.1, forward b ys lb)))))
      where
        split : (x : ℕ) → diff b a * one x ~ diff x a * one x + n * (diff x b * one x)
        split x =
            by_multiples (diff b a * 1) (diff x a * 1 + n * (diff x b * 1)) (n * b + x) b
              (omega arith)

    nothing : (d : ℕ) → d ~ 0 → n * d ~ 0
    nothing d h = mul_cong n n d 0 refl h ∙ by_multiples (n * 0) 0 0 0 (omega arith)

    difference_one :
        (a b : ℕ) (ys : List ℕ) → IsDistinct (a ∷ b ∷ ys) → difference one (a ∷ b ∷ ys) ~ 0
    difference_one a b [] ((ab, la), h) = cancel_diff a b _ ab.1 (
        one_relation a b [] ((ab, la), h)
        ∙ by_multiples (n * (1 * 1 + 0) + n * (n * (1 * 1 + 0))) 0 0 n (omega arith))
    difference_one a b (c ∷ ys) ((ab, (ac, la)), ((bc, lb), h)) = cancel_diff a b _ ab.1 (
        one_relation a b (c ∷ ys) ((ab, (ac, la)), ((bc, lb), h))
        ∙ add_cong _ 0 _ 0 (nothing _ (difference_one b c ys ((bc, lb), h)))
            (nothing _ (nothing _ (difference_one a c ys ((ac, la), h)))))

    -- the value of a polynomial, the constant coefficient first
    abbrev pub value : List ℕ → ℕ → ℕ
    value [] x = 0
    value (c ∷ cs) x = c + x * value cs x

    -- The sum vanishes for a polynomial with fewer coefficients than the list has members.
    pub difference_value :
        (cs ys : List ℕ) → length cs < length ys → IsDistinct ys → difference (value cs) ys ~ 0
    difference_value [] ys small h =
        ap (λ k. k % suc n) (difference_scale 0 (λ x. 0) ys ∙ none (difference (λ x. 0) ys))
      where
        none : (d : ℕ) → 0 * d ≡ 0
        none d = omega arith
    difference_value (c ∷ cs) [] small h = absurd (omega arith)
    difference_value (c ∷ cs) (a ∷ []) small h = absurd (omega arith)
    difference_value (c ∷ cs) (a ∷ b ∷ ys) small h =
        let constant = difference_one a b ys h in
        let below = difference_value cs (b ∷ ys) (omega arith) h.1 in
        let same = difference_value cs (a ∷ b ∷ ys) (omega arith) h in
        difference_cong (value (c ∷ cs)) (λ x. c * one x + (diff x a * value cs x + a * value cs x))
          (a ∷ b ∷ ys) (everywhere _ split (a ∷ b ∷ ys))
        ∙ (ap (λ k. k % suc n) expanded
            ∙ (add_cong _ (c * 0) _ (n * 0 + a * 0) (mul_cong c c _ 0 refl constant) (
                  add_cong _ (n * 0) _ (a * 0)
                    (difference_factor (value cs) a (b ∷ ys) (forward a (b ∷ ys) h.0)
                      ∙ mul_cong n n _ 0 refl below)
                    (mul_cong a a _ 0 refl same))
                ∙ by_multiples (c * 0 + (n * 0 + a * 0)) 0 0 0 (omega arith)))
      where
        split : (x : ℕ) → c + x * value cs x ~ c * one x + (diff x a * value cs x + a * value cs x)
        split x = spread x (value cs x)
          where
            spread : (x g : ℕ) → c + x * g ~ c * 1 + ((x + n * a) * g + a * g)
            spread x g =
                by_multiples (c + x * g) (c * 1 + ((x + n * a) * g + a * g)) (a * g) 0 (omega arith)

        expanded :
            difference (λ x. c * one x + (diff x a * value cs x + a * value cs x)) (a ∷ b ∷ ys)
            ≡ c * difference one (a ∷ b ∷ ys)
              + (difference (λ x. diff x a * value cs x) (a ∷ b ∷ ys)
                  + a * difference (value cs) (a ∷ b ∷ ys))
        expanded =
            difference_add (λ x. c * one x) (λ x. diff x a * value cs x + a * value cs x)
              (a ∷ b ∷ ys)
            ∙ ap₂ ◌+◌ (difference_scale c one (a ∷ b ∷ ys)) (
                difference_add (λ x. diff x a * value cs x) (λ x. a * value cs x) (a ∷ b ∷ ys)
                ∙ ap (λ k. difference (λ x. diff x a * value cs x) (a ∷ b ∷ ys) + k)
                    (difference_scale a (value cs) (a ∷ b ∷ ys)))
