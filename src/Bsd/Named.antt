-- ===== src/Bsd/Named.antt =====
-- The name that goes with a descriptor.
use tun_rs.Base.{
  starts_with, is_os_error, ℕ, zero, suc, ◌+◌, ◌<◌, ◌≤◌, ◌≡◌, refl, true, false, Bool-cases, List,
  ◌++◌, drop, Option, none, some, ◌⊎◌, inl, inr, IoError, arith,
}
use tun_rs.Builder.Device.{Layer, layer_2, layer_3}
use tun_rs.Freebsd.{device_prefix}
use tun_rs.Device.Config.{and_then, given}
use tun_rs.Bsd.{
  Bsd, create_dev, makedev_dev, or_exists, if_not_found, open_and_makedev_dev, with_name, if_busy,
  search_name,
}
use tun_rs.Bsd.Openbsd.{open_create_dev, create_tuntap}
use tun_rs.Bsd.Netbsd.{create_tun}

module _ {W : Type 0} (sys : Bsd W) where
  -- A descriptor that is answered is what opening the node of that index has answered, last of all.
  abbrev pub Opened : Layer → ℕ → (ℕ ⊎ IoError) × W → Type 0
  Opened layer i (inl fd, w) = (w0 : W) × (sys.open_dev layer i w0 ≡ (inl fd, w))
  Opened layer i (inr e, w) = Unit

  -- A descriptor is that of the node whose index the name has; the name is the one that was given.
  abbrev pub Named : Option (List ℕ) → Layer → ((ℕ × List ℕ) ⊎ IoError) × W → Type 0
  Named none layer (inl (fd, name), w) =
      (i : ℕ) × (sys.parse_u32 (drop 3 name) ≡ inl i) × Opened layer i (inl fd, w)
  Named (some dev_name) layer (inl (fd, name), w) =
      (i : ℕ) × (name ≡ dev_name)
      × (sys.parse_u32 (drop 3 name) ≡ inl i)
      × Opened layer i (inl fd, w)
  Named given_name layer (inr e, w) = Unit

  abbrev pub Busy : ℕ ⊎ IoError → Type 0
  Busy (inl fd) = ⊥
  Busy (inr e) = is_os_error sys.ebusy e ≡ true

  abbrev pub Settles : ℕ ⊎ IoError → Type 0
  Settles (inl fd) = Unit
  Settles (inr e) = is_os_error sys.ebusy e ≡ false

  -- The device of an index: its name, and how it is opened.
  module _ (layer : Layer) (open_node : List ℕ → ℕ → W → (ℕ ⊎ IoError) × W) where
    abbrev pub name_at : ℕ → List ℕ
    name_at i = device_prefix layer ++ sys.print i

    abbrev pub tried : ℕ → W → (ℕ ⊎ IoError) × W
    tried i world = open_node (name_at i) i world

    -- The state after `k` indices from `i` on have been tried, and that each of them was busy.
    abbrev pub after : ℕ → ℕ → W → W
    after zero i world = world
    after (suc k) i world = after k (i + 1) (tried i world).1

    abbrev pub AllBusy : ℕ → ℕ → W → Type 0
    AllBusy zero i world = Unit
    AllBusy (suc k) i world = Busy (tried i world).0 × AllBusy k (i + 1) (tried i world).1

    -- What a search of `left` indices from `i` on answers: there is a first index that is not busy, and
    -- the answer is what trying that one answers, with its name; or all are busy, and the answer is the
    -- last error of the system.
    abbrev pub Searched : ℕ → ℕ → W → ((ℕ × List ℕ) ⊎ IoError) × W → Type 0
    Searched left i world result =
        ((k j : ℕ) × (j ≡ i + k)
          × (k < left)
          × AllBusy k i world
          × Settles (tried j (after k i world)).0
          × (result ≡ with_name sys (name_at j) (tried j (after k i world))))
        ⊎ (AllBusy left i world
            × (result ≡ (inr (sys.last_os_error (after left i world)), after left i world)))

    if_busy-Searched :
        (left i : ℕ) (world : W) (x : (ℕ ⊎ IoError) × W)
        → tried i world ≡ x
        → Searched left (i + 1) x.1 (search_name sys layer open_node left (i + 1) x.1)
        → Searched
            (suc left)
            i
            world
            (if_busy sys (name_at i) x (search_name sys layer open_node left (i + 1)))
    if_busy-Searched left i world (inl fd, w) same later =
        inl (0, i, omega arith, omega arith, tt, rw same tt, rw same refl)
    if_busy-Searched left i world (inr e, w) same later =
        elim (Bool-cases (is_os_error sys.ebusy e)) [
          | inr free ↦ inl (0, i, omega arith, omega arith, tt, rw same free, rw (same, free) refl)
          | inl busy ↦ goes_on busy later
        ]
      where
        goes_on :
            is_os_error sys.ebusy e ≡ true
            → Searched left (i + 1) w (search_name sys layer open_node left (i + 1) w)
            → Searched
                (suc left)
                i
                world
                (if_busy sys (name_at i) (inr e, w) (search_name sys layer open_node left (i + 1)))
        goes_on busy (inl (k, j, place, few, all, free, found)) = inl (
          suc k,
          j,
          omega (arith, place),
          omega (arith, few),
          (rw same busy, rw same all),
          rw same free,
          rw (busy, same) found,
        )
        goes_on busy (inr (all, none_free)) =
            inr ((rw same busy, rw same all), rw (busy, same) none_free)

    search_name-Searched :
        (left i : ℕ) (world : W)
        → Searched left i world (search_name sys layer open_node left i world)
    unfolding search_name
    search_name-Searched zero i world = inr (tt, refl)
    search_name-Searched (suc left) i world =
        if_busy-Searched left i world (tried i world) refl
          (search_name-Searched left (i + 1) (tried i world).1)

  open_dev-Opened : (layer : Layer) (i : ℕ) (w : W) → Opened layer i (sys.open_dev layer i w)
  open_dev-Opened layer i w = answer (sys.open_dev layer i w) refl
    where
      answer : (x : (ℕ ⊎ IoError) × W) → sys.open_dev layer i w ≡ x → Opened layer i x
      answer (inl fd, w1) same = (w, same)
      answer (inr e, w1) same = tt

  and_then-Opened :
      (layer : Layer) (i : ℕ) (step : Option IoError × W) (later : W → (ℕ ⊎ IoError) × W)
      → ((w : W) → Opened layer i (later w))
      → Opened layer i (and_then step later)
  and_then-Opened layer i (none, w) later all = all w
  and_then-Opened layer i (some e, w) later all = tt

  if_not_found-Opened :
      (layer : Layer) (i : ℕ) (x : (ℕ ⊎ IoError) × W) (later : W → (ℕ ⊎ IoError) × W)
      → Opened layer i x
      → ((w : W) → Opened layer i (later w))
      → Opened layer i (if_not_found sys x later)
  if_not_found-Opened layer i (inl fd, w) later h all = h
  if_not_found-Opened layer i (inr e, w) later h all =
      elim (Bool-cases (is_os_error sys.enoent e)) [
        | inl missing ↦ rw missing (all w)
        | inr other ↦ rw other tt
      ]

  open_and_makedev_dev-Opened :
      (layer : Layer) (name : List ℕ) (i : ℕ) (w : W)
      → Opened layer i (open_and_makedev_dev sys layer name i w)
  unfolding open_and_makedev_dev
  open_and_makedev_dev-Opened layer name i w =
      if_not_found-Opened layer i (sys.open_dev layer i w) _ (open_dev-Opened layer i w) (λ w1.
        and_then-Opened layer i (makedev_dev sys name w1) (sys.open_dev layer i)
          (open_dev-Opened layer i))

  open_create_dev-Opened :
      (layer : Layer) (name : List ℕ) (i : ℕ) (w : W)
      → Opened layer i (open_create_dev sys layer name i w)
  unfolding open_create_dev
  open_create_dev-Opened layer name i w =
      if_not_found-Opened layer i (sys.open_dev layer i w) _ (open_dev-Opened layer i w) (λ w1.
        and_then-Opened layer i (or_exists sys (create_dev sys name w1))
          (open_and_makedev_dev sys layer name i) (open_and_makedev_dev-Opened layer name i))

  with_name-Named :
      (layer : Layer) (name : List ℕ) (i : ℕ) (x : (ℕ ⊎ IoError) × W)
      → sys.parse_u32 (drop 3 name) ≡ inl i
      → Opened layer i x
      → Named (some name) layer (with_name sys name x)
  with_name-Named layer name i (inl fd, w) parsed opened = (i, refl, parsed, opened)
  with_name-Named layer name i (inr e, w) parsed opened = tt

  if_busy-Named :
      (layer : Layer) (name : List ℕ) (i : ℕ) (x : (ℕ ⊎ IoError) × W)
      (later : W → ((ℕ × List ℕ) ⊎ IoError) × W)
      → sys.parse_u32 (drop 3 name) ≡ inl i
      → Opened layer i x
      → ((w : W) → Named none layer (later w))
      → Named none layer (if_busy sys name x later)
  if_busy-Named layer name i (inl fd, w) later parsed opened all = (i, parsed, opened)
  if_busy-Named layer name i (inr e, w) later parsed opened all =
      elim (Bool-cases (is_os_error sys.ebusy e)) [
        | inl busy ↦ rw busy (all w)
        | inr other ↦ rw other tt
      ]

  module _ (parse_print : (i : ℕ) → i < 256 → sys.parse_u32 (sys.print i) ≡ inl i) where
    parse-device_prefix :
        (layer : Layer) (i : ℕ)
        → i < 256
        → sys.parse_u32 (drop 3 (device_prefix layer ++ sys.print i)) ≡ inl i
    parse-device_prefix layer_2 i h = parse_print i h
    parse-device_prefix layer_3 i h = parse_print i h

    search_name-Named :
        (layer : Layer) (open_node : List ℕ → ℕ → W → (ℕ ⊎ IoError) × W)
        → ((name : List ℕ) (i : ℕ) (w : W) → Opened layer i (open_node name i w))
        → (left i : ℕ) (w : W) → left + i ≤ 256
        → Named none layer (search_name sys layer open_node left i w)
    unfolding search_name
    search_name-Named layer open_node opens zero i w h = tt
    search_name-Named layer open_node opens (suc left) i w h =
        if_busy-Named layer (device_prefix layer ++ sys.print i) i
          (open_node (device_prefix layer ++ sys.print i) i w)
          (search_name sys layer open_node left (i + 1))
          (parse-device_prefix layer i (omega (arith, h)))
          (opens (device_prefix layer ++ sys.print i) i w)
          (λ w1. search_name-Named layer open_node opens left (i + 1) w1 (omega (arith, h)))

    given-Named :
        (layer : Layer) (name : List ℕ) (opened : ℕ → W → (ℕ ⊎ IoError) × W) (w : W)
        → ((i : ℕ) → Opened layer i (opened i w))
        → Named
            (some name)
            layer
            (given (sys.parse_u32 (drop 3 name)) (λ i w1. with_name sys name (opened i w1)) w)
    given-Named layer name opened w opens = answer (sys.parse_u32 (drop 3 name)) refl
      where
        answer :
            (x : ℕ ⊎ IoError)
            → sys.parse_u32 (drop 3 name) ≡ x
            → Named (some name) layer (given x (λ i w1. with_name sys name (opened i w1)) w)
        answer (inr e) same = tt
        answer (inl i) same = with_name-Named layer name i (opened i w) same (opens i)

    create_tuntap-given :
        (layer : Layer) (name : List ℕ) (w : W)
        → starts_with name (device_prefix layer) ≡ true
        → create_tuntap sys layer (some name) w
          ≡ given
              (sys.parse_u32 (drop 3 name))
              (λ i w1. with_name sys name (open_create_dev sys layer name i w1))
              w
    unfolding create_tuntap
    create_tuntap-given layer name w h = answer (sys.parse_u32 (drop 3 name)) refl
      where
        answer :
            (x : ℕ ⊎ IoError)
            → sys.parse_u32 (drop 3 name) ≡ x
            → create_tuntap sys layer (some name) w
              ≡ given x (λ i w1. with_name sys name (open_create_dev sys layer name i w1)) w
        answer (inr e) same = rw (h, same) refl
        answer (inl i) same = rw (h, same) refl

    create_tuntap-Named :
        (layer : Layer) (dev_name : Option (List ℕ)) (w : W)
        → Named dev_name layer (create_tuntap sys layer dev_name w)
    unfolding create_tuntap
    create_tuntap-Named layer none w =
        search_name-Named layer (open_create_dev sys layer) (open_create_dev-Opened layer) 256 0 w
          (omega arith)
    create_tuntap-Named layer (some name) w =
        elim (Bool-cases (starts_with name (device_prefix layer))) [
          | inl h ↦ rw (create_tuntap-given layer name w h) (
              given-Named layer name (open_create_dev sys layer name) w
                (λ i. open_create_dev-Opened layer name i w))
          | inr h ↦ rw h tt
        ]

    create_tun-Named :
        (dev_name : Option (List ℕ)) (w : W) → Named dev_name layer_3 (create_tun sys dev_name w)
    unfolding create_tun
    create_tun-Named none w =
        search_name-Named layer_3 (open_and_makedev_dev sys layer_3)
          (open_and_makedev_dev-Opened layer_3) 256 0 w (omega arith)
    create_tun-Named (some name) w =
        given-Named layer_3 name (open_and_makedev_dev sys layer_3 name) w
          (λ i. open_and_makedev_dev-Opened layer_3 name i w)

    -- If an index below 256 that is printed parses back, a device that OpenBSD's `create_tuntap` answers,
    -- or NetBSD's `create_tun`, has the descriptor of the node whose index stands in its name, as opening
    -- that node has answered last of all; and the name that was given, if one was. If none was, the
    -- indices from 0 to 255 are tried in order: the answer is that of the first that is not busy, be it a
    -- device or another error, and only if all 256 are busy it is the last error of the system.
    pub create-Named :
        (layer : Layer) (dev_name : Option (List ℕ)) (w : W)
        → Named dev_name layer (create_tuntap sys layer dev_name w)
          × Named dev_name layer_3 (create_tun sys dev_name w)
          × Searched layer (open_create_dev sys layer) 256 0 w (create_tuntap sys layer none w)
          × Searched layer_3 (open_and_makedev_dev sys layer_3) 256 0 w (create_tun sys none w)
    unfolding create_tuntap create_tun
    create-Named layer dev_name w = (
      create_tuntap-Named layer dev_name w,
      create_tun-Named dev_name w,
      search_name-Searched layer (open_create_dev sys layer) 256 0 w,
      search_name-Searched layer_3 (open_and_makedev_dev sys layer_3) 256 0 w,
    )
