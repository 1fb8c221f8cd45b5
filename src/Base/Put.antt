-- ===== src/Base/Put.antt =====
-- Reading back what was copied into a buffer.
use Prim.Native.Nat.{ℕ, zero, suc, ◌+◌, ◌-◌, ◌≤◌, ◌<◌}
use Prim.Native.Nat.add
use mathlib.Core.Path.{◌≡◌, refl, ap}
use mathlib.Core.Logic.{◌⊎◌}
use mathlib.Core.List.{List, [], ◌∷◌, ◌++◌}
use native.Mathlib.Omega.{arith}
use native.Mathlib.Nat.{zero-add}
use tun_rs.Base.Lists.{length, get_or, take, drop, put}

module _ {ℓ} {A : Type ℓ} where
  -- A copy to the front.
  pub put_front :
      (l src : List A) → length src ≤ length l → put l 0 src ≡ src ++ drop (length src) l
  put_front l [] h = refl
  put_front [] (s ∷ src) h = absurd (omega arith)
  put_front (x ∷ l) (s ∷ src) h = ap (λ t. s ∷ t) (put_front l src (omega arith))

  -- Outside the copied range nothing changes.
  pub get_or-put_outside :
      (l : List A) (k : ℕ) (src : List A) (i : ℕ) (d : A)
      → (i < k) ⊎ (k + length src ≤ i)
      → get_or (put l k src) i d ≡ get_or l i d
  get_or-put_outside l k [] i d h = refl
  get_or-put_outside [] k (s ∷ src) i d h = refl
  get_or-put_outside (x ∷ l) zero (s ∷ src) zero d h = absurd (omega arith)
  get_or-put_outside (x ∷ l) zero (s ∷ src) (suc i) d h =
      get_or-put_outside l zero src i d (omega arith)
  get_or-put_outside (x ∷ l) (suc k) (s ∷ src) zero d h = refl
  get_or-put_outside (x ∷ l) (suc k) (s ∷ src) (suc i) d h =
      get_or-put_outside l k (s ∷ src) i d (omega arith)

  -- Inside it the copy is read.
  pub get_or-put_inside :
      (l : List A) (k : ℕ) (src : List A) (i : ℕ) (d : A)
      → k ≤ i
      → i < k + length src
      → i < length l
      → get_or (put l k src) i d ≡ get_or src (i - k) d
  get_or-put_inside l k [] i d h p q = absurd (omega arith)
  get_or-put_inside [] k (s ∷ src) i d h p q = absurd (omega arith)
  get_or-put_inside (x ∷ l) zero (s ∷ src) zero d h p q = refl
  get_or-put_inside (x ∷ l) zero (s ∷ src) (suc i) d h p q =
      let shift : suc i - 0 ≡ suc (i - 0) = omega arith in
      rw shift (get_or-put_inside l zero src i d (omega arith) (omega arith) (omega arith))
  get_or-put_inside (x ∷ l) (suc k) (s ∷ src) zero d h p q = absurd (omega arith)
  get_or-put_inside (x ∷ l) (suc k) (s ∷ src) (suc i) d h p q =
      let shift : suc i - suc k ≡ i - k = omega arith in
      rw shift (get_or-put_inside l k (s ∷ src) i d (omega arith) (omega arith) (omega arith))

  -- A suffix of the result, where the copy starts in the suffix; a prefix, where it starts behind.
  pub drop-put : (n k : ℕ) (l src : List A) → drop n (put l (n + k) src) ≡ put (drop n l) k src
  drop-put zero k l src = rw (zero-add k)
  drop-put (suc n) k l [] = refl
  drop-put (suc n) k [] (s ∷ src) = refl
  drop-put (suc n) k (x ∷ l) (s ∷ src) = rw (add.suc n k) (drop-put n k l (s ∷ src))

  pub take-put : (n k : ℕ) (l src : List A) → n ≤ k → take n (put l k src) ≡ take n l
  take-put zero k l src h = refl
  take-put (suc n) k l [] h = refl
  take-put (suc n) k [] (s ∷ src) h = refl
  take-put (suc n) zero (x ∷ l) (s ∷ src) h = absurd (omega arith)
  take-put (suc n) (suc k) (x ∷ l) (s ∷ src) h =
      ap (λ t. x ∷ t) (take-put n k l (s ∷ src) (omega arith))

  -- A second copy of the same length to the same place.
  pub put-put :
      (l : List A) (k : ℕ) (src src' : List A)
      → length src ≡ length src'
      → put (put l k src) k src' ≡ put l k src'
  put-put l k [] [] e = refl
  put-put l k [] (s ∷ src) e = absurd (omega arith)
  put-put l k (s ∷ src) [] e = absurd (omega arith)
  put-put [] k (s ∷ src) (s' ∷ src') e = refl
  put-put (x ∷ l) zero (s ∷ src) (s' ∷ src') e =
      ap (λ t. s' ∷ t) (put-put l zero src src' (omega arith))
  put-put (x ∷ l) (suc k) (s ∷ src) (s' ∷ src') e =
      ap (λ t. x ∷ t) (put-put l k (s ∷ src) (s' ∷ src') e)

  -- A copy that ends before a suffix does not change the suffix; one inside a prefix stays inside it.
  pub drop-put_below :
      (n k : ℕ) (l src : List A) → k + length src ≤ n → drop n (put l k src) ≡ drop n l
  drop-put_below n k l [] h = refl
  drop-put_below n k [] (s ∷ src) h = refl
  drop-put_below zero k (x ∷ l) (s ∷ src) h = absurd (omega arith)
  drop-put_below (suc n) zero (x ∷ l) (s ∷ src) h = drop-put_below n zero l src (omega arith)
  drop-put_below (suc n) (suc k) (x ∷ l) (s ∷ src) h = drop-put_below n k l (s ∷ src) (omega arith)

  pub take-put_inside :
      (n k : ℕ) (l src : List A) → k + length src ≤ n → take n (put l k src) ≡ put (take n l) k src
  take-put_inside n k l [] h = refl
  take-put_inside zero k l (s ∷ src) h = absurd (omega arith)
  take-put_inside (suc n) k [] (s ∷ src) h = refl
  take-put_inside (suc n) zero (x ∷ l) (s ∷ src) h =
      ap (λ t. s ∷ t) (take-put_inside n zero l src (omega arith))
  take-put_inside (suc n) (suc k) (x ∷ l) (s ∷ src) h =
      ap (λ t. x ∷ t) (take-put_inside n k l (s ∷ src) (omega arith))

  -- What was copied is read back as a slice.
  pub take-drop-put :
      (k : ℕ) (l src : List A)
      → k + length src ≤ length l
      → take (length src) (drop k (put l k src)) ≡ src
  take-drop-put k l [] h = refl
  take-drop-put k [] (s ∷ src) h = absurd (omega arith)
  take-drop-put zero (x ∷ l) (s ∷ src) h = ap (λ t. s ∷ t) (take-drop-put zero l src (omega arith))
  take-drop-put (suc k) (x ∷ l) (s ∷ src) h = take-drop-put k l (s ∷ src) (omega arith)

  -- Two entries written one after the other.
  pub put_pair :
      (l : List A) (k : ℕ) (a b : A)
      → put (put l k (a ∷ [])) (k + 1) (b ∷ []) ≡ put l k (a ∷ b ∷ [])
  put_pair [] k a b = refl
  put_pair (x ∷ []) zero a b = refl
  put_pair (x ∷ y ∷ l) zero a b = refl
  put_pair (x ∷ l) (suc k) a b = rw (add.suc k 1) (ap (λ t. x ∷ t) (put_pair l k a b))

  pub get_or-put_pair :
      (l : List A) (k : ℕ) (a b d : A)
      → k + 2 ≤ length l
      → (get_or (put l k (a ∷ b ∷ [])) k d ≡ a) × (get_or (put l k (a ∷ b ∷ [])) (k + 1) d ≡ b)
  get_or-put_pair [] k a b d h = absurd (omega arith)
  get_or-put_pair (x ∷ []) k a b d h = absurd (omega arith)
  get_or-put_pair (x ∷ y ∷ l) zero a b d h = (refl, refl)
  get_or-put_pair (x ∷ y ∷ l) (suc k) a b d h =
      rw (add.suc k 1) (get_or-put_pair (y ∷ l) k a b d (omega arith))

  pub get_or-put_quad :
      (l : List A) (k : ℕ) (a b c e d : A)
      → k + 4 ≤ length l
      → (get_or (put l k (a ∷ b ∷ c ∷ e ∷ [])) k d ≡ a)
        × (get_or (put l k (a ∷ b ∷ c ∷ e ∷ [])) (k + 1) d ≡ b)
        × (get_or (put l k (a ∷ b ∷ c ∷ e ∷ [])) (k + 2) d ≡ c)
        × (get_or (put l k (a ∷ b ∷ c ∷ e ∷ [])) (k + 3) d ≡ e)
  get_or-put_quad [] k a b c e d h = absurd (omega arith)
  get_or-put_quad (x ∷ []) k a b c e d h = absurd (omega arith)
  get_or-put_quad (x ∷ y ∷ []) k a b c e d h = absurd (omega arith)
  get_or-put_quad (x ∷ y ∷ z ∷ []) k a b c e d h = absurd (omega arith)
  get_or-put_quad (x ∷ y ∷ z ∷ w ∷ l) zero a b c e d h = (refl, refl, refl, refl)
  get_or-put_quad (x ∷ y ∷ z ∷ w ∷ l) (suc k) a b c e d h =
      rw (add.suc k 1, add.suc k 2, add.suc k 3)
        (get_or-put_quad (y ∷ z ∷ w ∷ l) k a b c e d (omega arith))
