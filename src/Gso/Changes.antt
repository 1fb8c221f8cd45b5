-- ===== src/Gso/Changes.antt =====
-- Buffers that differ in one range at most.
use tun_rs.Base.{
  ℕ, ◌+◌, ◌-◌, ◌≤◌, ◌<◌, ◌⊎◌, ◌≡◌, refl, ap, ◌∙◌, List, length, get_or, take, drop, put, IsBytes,
  arith, length-put, drop-drop,
}
use tun_rs.Base.Bytes.{IsBytes-put}
use tun_rs.Base.Put.{drop-put_below, take-put, get_or-put_outside}

-- `out'` is `out` with changes to the bytes from `lo` to `hi` alone.
pub record Changes (lo hi : ℕ) (out out' : List ℕ) : Type 0 where
  pub same_length : length out' ≡ length out
  pub bytes : IsBytes out → IsBytes out'
  pub before : take lo out' ≡ take lo out
  pub behind : drop hi out' ≡ drop hi out
  pub outside : (i : ℕ) → (i < lo) ⊎ (hi ≤ i) → get_or out' i 0 ≡ get_or out i 0

pub Changes-put :
    (lo hi k : ℕ) (out src : List ℕ)
    → lo ≤ k
    → k + length src ≤ hi
    → IsBytes src
    → Changes lo hi out (put out k src)
Changes-put lo hi k out src h g bs = record {
  same_length = length-put out k src;
  bytes = λ b. IsBytes-put out k src b bs;
  before = take-put lo k out src h;
  behind = drop-put_below hi k out src g;
  outside = λ i away. get_or-put_outside out k src i 0 (omega arith);
}

pub Changes-refl : (lo hi : ℕ) (out : List ℕ) → Changes lo hi out out
Changes-refl lo hi out = record {
  same_length = refl;
  bytes = λ b. b;
  before = refl;
  behind = refl;
  outside = λ i away. refl;
}

pub Changes-trans :
    {lo hi : ℕ} {a b c : List ℕ} → Changes lo hi a b → Changes lo hi b c → Changes lo hi a c
Changes-trans p q = record {
  same_length = q.same_length ∙ p.same_length;
  bytes = λ b. q.bytes (p.bytes b);
  before = q.before ∙ p.before;
  behind = q.behind ∙ p.behind;
  outside = λ i away. q.outside i away ∙ p.outside i away;
}

pub Changes-weaken :
    {lo hi : ℕ} {a b : List ℕ} (hi' : ℕ) → hi ≤ hi' → Changes lo hi a b → Changes 0 hi' a b
Changes-weaken {lo} {hi} {a} {b} hi' h c =
    let e : hi + (hi' - hi) ≡ hi' = omega arith in
    record {
      same_length = c.same_length;
      bytes = c.bytes;
      before = refl;
      behind =
          rw (← e, ← drop-drop (hi' - hi) hi b, ← drop-drop (hi' - hi) hi a)
            (ap (drop (hi' - hi)) c.behind);
      outside = λ i away. c.outside i (omega arith);
    }
