-- ===== src/Macos/Open/Cleanup.antt =====
-- What a set-up that fails leaves behind.
use tun_rs.Base.{ℕ, suc, ◌≡◌, true, List, Option, none, some, ◌⊎◌, inl, inr, IoError}
use tun_rs.Macos.Open.{BpfRequest, Darwin, Feth}

-- How many interfaces there are, and how many descriptors are open.
pub record Counts (W : Type 0) : Type 0 where
  pub interfaces : W → ℕ
  pub descriptors : W → ℕ

module _ {W : Type 0} (counts : Counts W) where
  abbrev pub At : ℕ → ℕ → W → Type 0
  At i d w = (counts.interfaces w ≡ i) × (counts.descriptors w ≡ d)

  -- A result that is an error leaves so many.
  abbrev pub Leaves : {A : Type 0} → ℕ → ℕ → (A ⊎ IoError) × W → Type 0
  Leaves i d (inl a, w) = Unit
  Leaves i d (inr e, w) = At i d w

  -- A descriptor that is answered is one more.
  abbrev pub Acquires : ℕ → ℕ → (ℕ ⊎ IoError) × W → Type 0
  Acquires i d (inl fd, w) = At i (suc d) w
  Acquires i d (inr e, w) = At i d w

  -- An interface that is created is one more.
  abbrev pub Makes : ℕ → ℕ → (Option IoError × List ℕ) × W → Type 0
  Makes i d ((none, name), w) = At (suc i) d w
  Makes i d ((some e, name), w) = At i d w

-- A system that can be counted: a call that opens a descriptor adds one where it succeeds, SIOCIFCREATE an
-- interface; destroying and closing take one away; and nothing else changes the numbers.
pub record Ledger {W : Type 0} (sys : Darwin W) (counts : Counts W) : Type 0 where
  pub opens_socket : (i d : ℕ) (w : W) → At counts i d w → Acquires counts i d (sys.ndrv_socket w)
  pub opens_bpf :
      (i d : ℕ) (w : W) (minor : ℕ)
      → At counts i d w
      → Acquires counts i d (sys.open_bpf_call minor w)
  pub creates :
      (i d : ℕ) (w : W) (fd : ℕ) (name : List ℕ)
      → At counts i d w
      → Makes counts i d (sys.siocifcreate fd name w)
  pub destroys :
      (i d : ℕ) (w : W) (name : List ℕ)
      → At counts (suc i) d w
      → At counts i d (sys.ifconfig_destroy name w)
  pub closes :
      (i d : ℕ) (w : W) (fd : ℕ) → At counts i (suc d) w → At counts i d (sys.close_fd fd w)
  pub peers :
      (i d : ℕ) (w : W) (peer dev : List ℕ)
      → At counts i d w
      → At counts i d (sys.ifconfig_peer peer dev w).1
  pub binds :
      (i d : ℕ) (w : W) (fd : ℕ) (name : List ℕ)
      → At counts i d w
      → At counts i d (sys.bind_ndrv fd name w).1
  pub connects :
      (i d : ℕ) (w : W) (fd : ℕ) (name : List ℕ)
      → At counts i d w
      → At counts i d (sys.connect_ndrv fd name w).1
  pub requests :
      (i d : ℕ) (w : W) (fd : ℕ) (request : BpfRequest)
      → At counts i d w
      → At counts i d (sys.bpf_ioctl fd request w).1

module _ {W : Type 0} (sys : Darwin W) (counts : Counts W) (laws : Ledger sys counts) where
  -- An interface that `create_feth` answers is one more, and is destroyed when it is dropped.
  abbrev Creates : ℕ → ℕ → (Feth ⊎ IoError) × W → Type 0
  Creates i d (inl f, w) = At counts (suc i) d w × (f.is_drop ≡ true)
  Creates i d (inr e, w) = At counts i d w
