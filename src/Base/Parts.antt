-- ===== src/Base/Parts.antt =====
-- Parts of joined lists, and a part of a part.
use Prim.Native.Nat.{ℕ, zero, suc, ◌+◌, ◌≤◌}
use mathlib.Core.Path.{◌≡◌, refl, ap}
use mathlib.Core.List.{List, [], ◌∷◌, ◌++◌}
use native.Mathlib.Omega.{arith}
use native.Mathlib.Nat.{zero-add, suc-add}
use tun_rs.Base.Lists.{length, take, drop}

module _ {ℓ} {A : Type ℓ} where
  pub take-append : (k : ℕ) (xs ys : List A) → k ≤ length xs → take k (xs ++ ys) ≡ take k xs
  take-append zero xs ys h = refl
  take-append (suc k) [] ys h = absurd (omega arith)
  take-append (suc k) (x ∷ xs) ys h = ap (λ t. x ∷ t) (take-append k xs ys (omega arith))

  pub take_front : (xs ys : List A) → take (length xs) (xs ++ ys) ≡ xs
  take_front [] ys = refl
  take_front (x ∷ xs) ys = ap (λ t. x ∷ t) (take_front xs ys)

  pub drop_front : (xs ys : List A) → drop (length xs) (xs ++ ys) ≡ ys
  drop_front [] ys = refl
  drop_front (x ∷ xs) ys = drop_front xs ys

  take_short : (k n : ℕ) (xs : List A) → k ≤ n → take k (take n xs) ≡ take k xs
  take_short zero n xs h = refl
  take_short (suc k) zero xs h = absurd (omega arith)
  take_short (suc k) (suc n) [] h = refl
  take_short (suc k) (suc n) (x ∷ xs) h = ap (λ t. x ∷ t) (take_short k n xs (omega arith))

  -- A part that ends before `n` is a part of the first `n`.
  pub take-drop-take :
      (k p n : ℕ) (xs : List A) → p + k ≤ n → take k (drop p (take n xs)) ≡ take k (drop p xs)
  take-drop-take k zero n xs h = take_short k n xs (omega arith)
  take-drop-take k (suc p) zero xs h = absurd (omega arith)
  take-drop-take k (suc p) (suc n) [] h = refl
  take-drop-take k (suc p) (suc n) (x ∷ xs) h = take-drop-take k p n xs (omega arith)

  pub drop-append : (k : ℕ) (xs ys : List A) → k ≤ length xs → drop k (xs ++ ys) ≡ drop k xs ++ ys
  drop-append zero xs ys h = refl
  drop-append (suc k) [] ys h = absurd (omega arith)
  drop-append (suc k) (x ∷ xs) ys h = drop-append k xs ys (omega arith)

  pub drop-append_past : (k : ℕ) (xs ys : List A) → drop (length xs + k) (xs ++ ys) ≡ drop k ys
  drop-append_past k [] ys = rw (zero-add k) refl
  drop-append_past k (x ∷ xs) ys = rw (suc-add (length xs) k) (drop-append_past k xs ys)
