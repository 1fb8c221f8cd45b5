-- ===== src/Gro/Batch.antt =====
-- What a batch of `handle_gro` leaves in `to_write`.
use tun_rs.Base.{◌≢◌, drop, ℕ, zero, suc, ◌+◌, ◌≤◌, ◌⊎◌, ◌≡◌, Bool, List, [], ◌∷◌, ◌++◌, ok}
use tun_rs.Checksum.{CpuFeatures}
use tun_rs.Virtio.{Endian}
use tun_rs.Gro.{ExpandBuffer, nth, GroResult, coalesced, packet_is_gro_candidate}
use tun_rs.Gro.Handle.{GroState, evaluate}

-- `new` is a part of the numbers from `from` up to below `until`, in order.
abbrev pub Ascending : ℕ → ℕ → List ℕ → Type 0
Ascending from until [] = from ≤ until
Ascending from until (x ∷ new) = (from ≤ x) × Ascending (x + 1) until new

module _ {B : Type 0} (e : ExpandBuffer B) (cpu : CpuFeatures) (order : Endian) (offset : ℕ)
    (can_udp_gro : Bool) where
  -- What the tests of receive offload say of the packet `i`, and the state that they leave: in it, the
  -- packet has been joined to another one if the verdict is `coalesced`.
  abbrev pub IsVerdict : ℕ → GroState B → GroResult → GroState B → Type 0
  IsVerdict i g result g1 =
      (b : B) × (nth g.bufs i ≡ ok b)
      × (evaluate e cpu order offset can_udp_gro
            (packet_is_gro_candidate (drop offset (e.as_ref b)) can_udp_gro) i g
          ≡ ok (result, g1))

  -- The packet stands for itself: its index is added, and its buffer may be written.
  abbrev pub passed_on : ℕ → List B → GroState B → GroState B
  passed_on i bufs g = record g { bufs = bufs; to_write = g.to_write ++ i ∷ [] }

  -- The indices that rounds from `i` on add: those of the packets that are not joined, and no other.
  pub data Passes : ℕ → ℕ → GroState B → List ℕ → Type 0 where
    none_left : {i : ℕ} {g : GroState B} → Passes zero i g []
    joins :
        {rounds i : ℕ} {g g1 : GroState B} {new : List ℕ}
        → IsVerdict i g coalesced g1
        → Passes rounds (i + 1) g1 new
        → Passes (suc rounds) i g new
    stands :
        {rounds i : ℕ} {g g1 : GroState B} {new : List ℕ} (result : GroResult) (bufs : List B)
        → IsVerdict i g result g1
        → result ≢ coalesced
        → Passes rounds (i + 1) (passed_on i bufs g1) new
        → Passes (suc rounds) i g (i ∷ new)

  Handled : ℕ → GroState B → GroState B → Type 0
  Handled i g g' =
      (IsVerdict i g coalesced g' × (g'.to_write ≡ g.to_write))
      ⊎ ((result : GroResult) × (g1 : GroState B) × (bufs : List B) × IsVerdict i g result g1
          × (result ≢ coalesced)
          × (g1.to_write ≡ g.to_write)
          × (passed_on i bufs g1 ≡ g'))

  -- What the rounds from `i` on add.
  Adds : ℕ → ℕ → ℕ → GroState B → GroState B → Type 0
  Adds rounds i until g g' =
      (new : List ℕ) × (g'.to_write ≡ g.to_write ++ new)
      × Ascending i until new
      × Passes rounds i g new
