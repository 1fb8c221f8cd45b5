-- ===== src/Freebsd/Search.antt =====
-- The search for a free device.
use tun_rs.Base.{
  is_os_error, ℕ, zero, suc, ◌+◌, ◌<◌, ◌≡◌, refl, ◌∙◌, ◌⊎◌, inl, inr, true, false, Bool-cases,
  IoError, no_free_device, arith,
}
use tun_rs.Builder.Device.{Layer}
use tun_rs.Freebsd.{Freebsd, search_free}

module _ {W : Type 0} (sys : Freebsd W) (layer : Layer) where
  abbrev pub Busy : ℕ ⊎ IoError → Type 0
  Busy (inl fd) = ⊥
  Busy (inr e) = is_os_error sys.ebusy e ≡ true

  abbrev pub Settled : ℕ ⊎ IoError → Type 0
  Settled (inl fd) = Unit
  Settled (inr e) = is_os_error sys.ebusy e ≡ false

  -- The state after `k` indices from `i` on have been opened, and that each of them was busy.
  abbrev pub after : ℕ → ℕ → W → W
  after zero i world = world
  after (suc k) i world = after k (i + 1) (sys.open_dev layer i world).1

  abbrev pub AllBusy : ℕ → ℕ → W → Type 0
  AllBusy zero i world = Unit
  AllBusy (suc k) i world =
      Busy (sys.open_dev layer i world).0 × AllBusy k (i + 1) (sys.open_dev layer i world).1

  -- What a search of `left` indices from `i` on answers: there is a first index that is not busy, and the
  -- answer is what opening that one answers; or all are busy, and the answer says so.
  abbrev pub FirstFree : ℕ → ℕ → W → (ℕ ⊎ IoError) × W → Type 0
  FirstFree left i world result =
      ((k j : ℕ) × (j ≡ i + k)
        × (k < left)
        × AllBusy k i world
        × Settled (sys.open_dev layer j (after k i world)).0
        × (result ≡ sys.open_dev layer j (after k i world)))
      ⊎ (AllBusy left i world × (result ≡ (inr no_free_device, after left i world)))

  stops :
      (left i : ℕ) (world : W)
      → Settled (sys.open_dev layer i world).0
      → search_free sys layer (suc left) i world ≡ sys.open_dev layer i world
      → FirstFree (suc left) i world (search_free sys layer (suc left) i world)
  stops left i world free same = inl (0, i, omega arith, omega arith, tt, free, same)

  goes_on :
      (left i : ℕ) (world : W)
      → Busy (sys.open_dev layer i world).0
      → search_free sys layer (suc left) i world
        ≡ search_free sys layer left (i + 1) (sys.open_dev layer i world).1
      → FirstFree left
          (i + 1)
          (sys.open_dev layer i world).1
          (search_free sys layer left (i + 1) (sys.open_dev layer i world).1)
      → FirstFree (suc left) i world (search_free sys layer (suc left) i world)
  goes_on left i world busy same (inl (k, j, place, few, all, free, found)) =
      inl (suc k, j, omega (arith, place), omega (arith, few), (busy, all), free, same ∙ found)
  goes_on left i world busy same (inr (all, none_free)) = inr ((busy, all), same ∙ none_free)

  -- A search opens one index after the other. It ends at the first that is not busy, with what opening it
  -- answers, be it a descriptor or another error; or all are busy, and it says that no device is free.
  pub search_free-FirstFree :
      (left i : ℕ) (world : W) → FirstFree left i world (search_free sys layer left i world)
  unfolding search_free
  search_free-FirstFree zero i world = inr (tt, refl)
  search_free-FirstFree (suc left) i world =
      first (sys.open_dev layer i world).0 refl
        (search_free-FirstFree left (i + 1) (sys.open_dev layer i world).1)
    where
      first :
          (answer : ℕ ⊎ IoError)
          → (sys.open_dev layer i world).0 ≡ answer
          → FirstFree left
              (i + 1)
              (sys.open_dev layer i world).1
              (search_free sys layer left (i + 1) (sys.open_dev layer i world).1)
          → FirstFree (suc left) i world (search_free sys layer (suc left) i world)
      first (inl fd) e later = stops left i world (rw e tt) (rw (e, search_free) refl)
      first (inr x) e later = elim (Bool-cases (is_os_error sys.ebusy x)) [
        | inl busy ↦ goes_on left i world (rw e busy) (ground (arith, e, busy)) later
        | inr free ↦ stops left i world (rw e free) (rw (e, search_free) (rw free refl))
      ]
