-- ===== src/Gro/Merge/Verdict.antt =====
-- What `tcp_packets_can_coalesce` and `udp_packets_can_coalesce` have established when they answer that
-- a packet joins.
use tun_rs.Gso.{udp_h_len}
use tun_rs.Base.{
  ◌>>=◌, if◌then◌else◌, ◌==◌, ◌||◌, ℕ, ◌+◌, ◌-◌, ◌*◌, ◌%◌, ◌≤◌, ◌<◌, ◌⊎◌, ◌≡◌, ◌≢◌, refl, ◌∙◌, Bool,
  true, false, not, List, length, length-drop, take, drop, sym, ok_eq, as_u32, Outcome, ok, slice,
  slice_from, bind_ok, arith, ltb,
}
use tun_rs.Gro.{
  ExpandBuffer, CanCoalesce, can_prepend, can_append, unavailable, remainder,
  ip_headers_can_coalesce,
}
use tun_rs.Gro.Flow.{TcpGroItem, UdpGroItem}
use tun_rs.Gro.Flow.Keys.{bytes_eq_sound}
use tun_rs.Gro.Candidate.{Agree, ip_headers_lem}
use tun_rs.Gro.Merge.{
  packet_at, tcp_seq_can_coalesce, tcp_packets_can_coalesce, tcp_options_differ,
  udp_packets_can_coalesce,
}

-- The packet continues what the item holds, or the item continues the packet; segments stay of one
-- size but for a smaller last one, and PSH stands on the last one only.
abbrev pub TcpAdjacent : CanCoalesce → List ℕ → ℕ → ℕ → Bool → ℕ → TcpGroItem → Type 0
TcpAdjacent unavailable target headers seq psh_set gso_size item = Unit
TcpAdjacent can_append target headers seq psh_set gso_size item =
    (seq ≡ as_u32 (item.sent_seq + (item.num_merged + 1) * item.gso_size))
    × (item.psh_set ≡ false)
    × (gso_size ≤ item.gso_size)
    × (0 < item.gso_size)
    × ((length target - headers) % item.gso_size ≡ 0)
TcpAdjacent can_prepend target headers seq psh_set gso_size item =
    (as_u32 (seq + gso_size) ≡ item.sent_seq)
    × (psh_set ≡ false)
    × (item.gso_size ≤ gso_size)
    × ((gso_size ≡ item.gso_size) ⊎ (item.num_merged ≡ 0))

tcp_seq_lem :
    (target : List ℕ) (iph_len tcph_len seq : ℕ) (psh_set : Bool) (gso_size : ℕ) (item : TcpGroItem)
    (mode : CanCoalesce)
    → tcp_seq_can_coalesce target iph_len tcph_len seq psh_set gso_size item ≡ ok mode
    → TcpAdjacent mode target (iph_len + tcph_len) seq psh_set gso_size item
unfolding tcp_seq_can_coalesce remainder slice_from
tcp_seq_lem target iph_len tcph_len seq psh_set gso_size item unavailable h = tt
tcp_seq_lem target iph_len tcph_len seq psh_set gso_size item can_append h =
    ground (arith, length-drop (iph_len + tcph_len) target)
tcp_seq_lem target iph_len tcph_len seq psh_set gso_size item can_prepend h = ground arith

-- The bytes of a packet from one place up to another.
abbrev pub part : List ℕ → ℕ → ℕ → List ℕ
part l lo hi = take (hi - lo) (drop lo l)

slice-part :
    (l : List ℕ) (lo hi : ℕ) {bytes : List ℕ} → slice l lo hi ≡ ok bytes → part l lo hi ≡ bytes
unfolding slice
slice-part l lo hi h = ground (arith, h)

options_same :
    (pkt : List ℕ) (iph_len tcph_len : ℕ) (item : TcpGroItem) (target : List ℕ)
    → tcp_options_differ pkt iph_len tcph_len item target ≡ ok false
    → 20 < tcph_len
    → part pkt (iph_len + 20) (iph_len + tcph_len)
      ≡ part target (item.iph_len + 20) (item.iph_len + tcph_len)
unfolding tcp_options_differ
options_same pkt iph_len tcph_len item target h long =
    let with_options : ltb 20 tcph_len ≡ true = ground arith in
    let (mine, at_mine, h1) =
      bind_ok (slice pkt (iph_len + 20) (iph_len + tcph_len)) _
        (rw (with_options, tcp_options_differ) at h) in
    let (theirs, at_theirs, h2) =
      bind_ok (slice target (item.iph_len + 20) (item.iph_len + tcph_len)) _ h1 in
    slice-part pkt (iph_len + 20) (iph_len + tcph_len) at_mine
    ∙ bytes_eq_sound mine theirs (ground (arith, ok_eq h2))
    ∙ sym (slice-part target (item.iph_len + 20) (item.iph_len + tcph_len) at_theirs)

-- A verdict other than `unavailable` comes from behind the guard.
passed :
    (c : Bool) (r : Outcome CanCoalesce) (mode : CanCoalesce)
    → (if c then ok unavailable else r) ≡ ok mode
    → mode ≢ unavailable
    → (c ≡ false) × (r ≡ ok mode)
passed true r mode h other = absurd (other (ground arith))
passed false r mode h other = (refl, h)

udp_size_lem :
    (target : List ℕ) (iph_len gso_size item_size : ℕ) (mode : CanCoalesce)
    → (do
      payload ← slice_from target (iph_len + udp_h_len)
      over ← remainder (length payload) item_size
      ok (
          if not (over == 0)
          then unavailable
          else (if ltb item_size gso_size then unavailable else can_append)))
      ≡ ok mode
    → mode ≢ unavailable
    → (mode ≡ can_append)
      × ((length target - (iph_len + 8)) % item_size ≡ 0)
      × (gso_size ≤ item_size)
      × (0 < item_size)
unfolding remainder slice_from
udp_size_lem target iph_len gso_size item_size mode h other =
    ground (arith, length-drop (iph_len + 8) target)

module _ {B : Type 0} (e : ExpandBuffer B) (bufs_offset : ℕ) where
  -- When `tcp_packets_can_coalesce` answers that a packet is to be appended to or put before an item,
  -- the item's packet is there; the TCP headers have one length and, byte for byte, the same options;
  -- the IP headers agree in version, class or type of service, fragment flags and hop limit (`Agree`);
  -- and the sequence numbers, PSH flags and sizes fit for that side (`TcpAdjacent`).
  pub tcp_verdict_lem :
      (pkt : List ℕ) (iph_len tcph_len seq : ℕ) (psh_set : Bool) (gso_size : ℕ) (item : TcpGroItem)
      (bufs : List B) (mode : CanCoalesce)
      → tcp_packets_can_coalesce e bufs_offset pkt iph_len tcph_len seq psh_set gso_size item bufs
        ≡ ok mode
      → mode ≢ unavailable
      → (target : List ℕ) × (packet_at e bufs_offset bufs item.bufs_index ≡ ok target)
        × (tcph_len ≡ item.tcph_len)
        × (20 < tcph_len
            → part pkt (iph_len + 20) (iph_len + tcph_len)
              ≡ part target (item.iph_len + 20) (item.iph_len + tcph_len))
        × Agree pkt target
        × TcpAdjacent mode target (iph_len + tcph_len) seq psh_set gso_size item
  unfolding tcp_packets_can_coalesce
  tcp_verdict_lem pkt iph_len tcph_len seq psh_set gso_size item bufs mode h other =
      let (target, found, rest) = bind_ok (packet_at e bufs_offset bufs item.bufs_index) _ h in
      let same = passed (not (tcph_len == item.tcph_len)) _ mode rest other in
      let (differ, tested, rest2) =
        bind_ok (tcp_options_differ pkt iph_len tcph_len item target) _ same.1 in
      let agree = passed (differ || not (ip_headers_can_coalesce pkt target)) _ mode rest2 other in
      (
        target,
        found,
        ground (arith, same.0),
        options_same pkt iph_len tcph_len item target (tested ∙ ground (arith, agree.0)),
        (ip_headers_lem pkt target).0 (ground (arith, agree.0)),
        tcp_seq_lem target iph_len tcph_len seq psh_set gso_size item mode agree.1,
      )

  -- When `udp_packets_can_coalesce` does not answer `unavailable`, it answers that the packet is to be
  -- appended; then the item's packet is there, the IP headers agree, what the item holds is a multiple
  -- of its segment size, and the packet's payload is no larger.
  pub udp_verdict_lem :
      (pkt : List ℕ) (iph_len gso_size : ℕ) (item : UdpGroItem) (bufs : List B) (mode : CanCoalesce)
      → udp_packets_can_coalesce e bufs_offset pkt iph_len gso_size item bufs ≡ ok mode
      → mode ≢ unavailable
      → (mode ≡ can_append)
        × (target : List ℕ) × (packet_at e bufs_offset bufs item.bufs_index ≡ ok target)
        × (ip_headers_can_coalesce pkt target ≡ true)
        × ((length target - (iph_len + 8)) % item.gso_size ≡ 0)
        × (gso_size ≤ item.gso_size)
        × (0 < item.gso_size)
  unfolding udp_packets_can_coalesce
  udp_verdict_lem pkt iph_len gso_size item bufs mode h other =
      let (target, found, rest) = bind_ok (packet_at e bufs_offset bufs item.bufs_index) _ h in
      let agree = passed (not (ip_headers_can_coalesce pkt target)) _ mode rest other in
      let size = udp_size_lem target iph_len gso_size item.gso_size mode agree.1 other in
      (size.0, target, found, ground (arith, agree.0), size.1, size.2, size.3)
