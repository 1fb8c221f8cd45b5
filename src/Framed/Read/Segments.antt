-- ===== src/Framed/Read/Segments.antt =====
-- The stream of a device with offload: the segments of one read come out as the frames, in order.
use tun_rs.Base.{
  ℕ, zero, suc, ◌+◌, ◌-◌, ◌≤◌, ◌≡◌, refl, ap, subst, List, [], ◌∷◌, length, length-take,
  length-drop, take, drop, set, map, get_elem?, none, some, ok, ok_eq, bind_ok, fail_if, leb, slice,
  slice_from, length_below_hdr, arith,
}
use tun_rs.Checksum.{CpuFeatures}
use tun_rs.Virtio.{VirtioNetHdr, Endian, decode, virtio_net_hdr_len}
use tun_rs.Gro.{nth}
use tun_rs.Gso.{Split}
use tun_rs.Device.{handle_virtio_read}
use tun_rs.Framed.Splitter.{PacketSplitter, resize, truncate_all, handle, next}

-- The segments that the splitter still has to hand out, and that it has room for them.
abbrev pub waiting : PacketSplitter → List (List ℕ)
waiting s = take (s.recv_num - s.recv_index) (drop s.recv_index s.bufs)

abbrev pub IsSplitter : PacketSplitter → Type 0
IsSplitter s = s.recv_num ≤ length s.bufs

-- The first `num` buffers, cut to their sizes.
abbrev pub segments_of : ℕ → List (List ℕ) → List ℕ → List (List ℕ)
segments_of zero bufs sizes = []
segments_of (suc num) [] sizes = []
segments_of (suc num) (buf ∷ bufs) [] = []
segments_of (suc num) (buf ∷ bufs) (size ∷ sizes) = take size buf ∷ segments_of num bufs sizes

truncate_all_lem :
    (num : ℕ) (bufs : List (List ℕ)) (sizes : List ℕ) (out : List (List ℕ))
    → truncate_all num bufs sizes ≡ ok out
    → (take num out ≡ segments_of num bufs sizes) × (num ≤ length out)
unfolding truncate_all
truncate_all_lem zero bufs sizes out h = (refl, omega arith)
truncate_all_lem (suc num) [] sizes out h = absurd (ground arith)
truncate_all_lem (suc num) (buf ∷ bufs) [] out h = absurd (ground arith)
truncate_all_lem (suc num) (buf ∷ bufs) (size ∷ sizes) out h =
    let (rest, more, last) = bind_ok (truncate_all num bufs sizes) _ h in
    let (front, room) = truncate_all_lem num bufs sizes rest more in
    subst
      (λ o.
        (take (suc num) o ≡ segments_of (suc num) (buf ∷ bufs) (size ∷ sizes))
        × (suc num ≤ length o))
      (ok_eq last) (ap (λ t. take size buf ∷ t) front, omega (arith, room))

slice_front_is :
    (l : List ℕ) (hi : ℕ) (front : List ℕ) → slice l 0 hi ≡ ok front → front ≡ take hi l
unfolding slice
slice_front_is l hi front h = let same : hi - 0 ≡ hi = omega arith in ground (arith, h, same)

slice_from_is : (l : List ℕ) (lo : ℕ) (rest : List ℕ) → slice_from l lo ≡ ok rest → rest ≡ drop lo l
unfolding slice_from
slice_from_is l lo rest h = ground (arith, h)

module _ (cpu : CpuFeatures) (order : Endian) where
  -- That `r` has to hand out the segments that `handle_virtio_read` makes of the packet behind the header.
  abbrev pub Made : PacketSplitter → List ℕ → PacketSplitter → Type 0
  Made s input r =
      (split : Split) × ((hdr : VirtioNetHdr) × (decode order (take virtio_net_hdr_len input)
          ≡ ok hdr)
        × (handle_virtio_read cpu hdr (drop virtio_net_hdr_len input)
              (map (resize s.recv_buffer_size) s.bufs) s.sizes 0
            ≡ ok split))
      × (waiting r ≡ segments_of split.count split.out_bufs split.sizes)

  -- When `handle` returns, the splitter has to hand out exactly the segments that
  -- `handle_virtio_read` made of the packet behind the header, each cut to its size, in order.
  pub handle-waiting :
      (s : PacketSplitter) (input : List ℕ) (r : PacketSplitter × List ℕ)
      → handle cpu order s input ≡ ok r
      → IsSplitter r.0 × Made s input r.0
  unfolding handle
  handle-waiting s input r h =
      let bufs = map (resize s.recv_buffer_size) s.bufs in
      let (_, _, h1) =
        bind_ok (fail_if (leb (length input) virtio_net_hdr_len) length_below_hdr) _ h in
      let (front, at_front, h2) = bind_ok (slice input 0 virtio_net_hdr_len) _ h1 in
      let (hdr, decoded, h3) = bind_ok (decode order front) _ h2 in
      let (packet, behind_it, h4) = bind_ok (slice_from input virtio_net_hdr_len) _ h3 in
      let (split, splits, h5) = bind_ok (handle_virtio_read cpu hdr packet bufs s.sizes 0) _ h4 in
      let (out, cut, h6) = bind_ok (truncate_all split.count split.out_bufs split.sizes) _ h5 in
      let (same, room) = truncate_all_lem split.count split.out_bufs split.sizes out cut in
      let whole : split.count - 0 ≡ split.count = omega arith in
      let packet_is = slice_from_is input virtio_net_hdr_len packet behind_it in
      subst (λ t. IsSplitter t.0 × Made s input t.0) (ok_eq h6)
        (
          room,
          (
            split,
            (
              hdr,
              subst (λ l. decode order l ≡ ok hdr)
                  (slice_front_is input virtio_net_hdr_len front at_front) decoded,
              subst (λ l. handle_virtio_read cpu hdr l bufs s.sizes 0 ≡ ok split) packet_is splits,
            ),
            rw whole same,
          ),
        )

set_behind :
    {A : Type 0} (xs : List A) (i : ℕ) (v : A) → drop (suc i) (set xs i v) ≡ drop (suc i) xs
set_behind [] i v = refl
set_behind (x ∷ xs) zero v = refl
set_behind (x ∷ xs) (suc i) v = set_behind xs i v

one_of :
    {A : Type 0} (n i : ℕ) (xs : List A) (p : A) (ps : List A)
    → take n (drop i xs) ≡ p ∷ ps
    → (k : ℕ) × (n ≡ suc k) × (get_elem? xs i ≡ some p) × (take k (drop (suc i) xs) ≡ ps)
one_of zero i xs p ps h = absurd (ground arith)
one_of (suc k) zero [] p ps h = absurd (ground arith)
one_of (suc k) (suc i) [] p ps h = absurd (ground arith)
one_of (suc k) zero (x ∷ xs) p ps h = (k, refl, ground (arith, h), ground (arith, h))
one_of (suc k) (suc i) (x ∷ xs) p ps h = one_of (suc k) i xs p ps h

-- Taking the first waiting segment, whatever is left in its buffer.
pub next_lem :
    (s : PacketSplitter) (p : List ℕ) (ps : List (List ℕ))
    → waiting s ≡ p ∷ ps
    → next s ≡ ok (some p, record s { recv_index = s.recv_index + 1 })
unfolding next nth
next_lem s p ps h =
    let (k, size, found, _) = one_of (s.recv_num - s.recv_index) s.recv_index s.bufs p ps h in
    ground (arith, size, found)

pub next_waiting :
    (s : PacketSplitter) (p rest : List ℕ) (ps : List (List ℕ))
    → waiting s ≡ p ∷ ps
    → waiting (record s { recv_index = s.recv_index + 1; bufs = set s.bufs s.recv_index rest }) ≡ ps
next_waiting s p rest ps h =
    let (k, size, _, later) = one_of (s.recv_num - s.recv_index) s.recv_index s.bufs p ps h in
    let one_on : s.recv_index + 1 ≡ suc s.recv_index = omega arith in
    let fewer : s.recv_num - suc s.recv_index ≡ k = omega (arith, size) in
    rw (one_on, fewer, set_behind s.bufs s.recv_index rest) later

pub next-none : (s : PacketSplitter) → IsSplitter s → waiting s ≡ [] → next s ≡ ok (none, s)
unfolding next nth
next-none s room h =
    let empty : length (waiting s) ≡ 0 = rw h refl in
    let all : s.recv_num ≤ s.recv_index = omega (
      arith,
      room,
      empty,
      length-take (s.recv_num - s.recv_index) (drop s.recv_index s.bufs),
      length-drop s.recv_index s.bufs,
    ) in
    ground (arith, all)
