-- ===== src/Device.antt =====
-- src/platform/linux/device.rs: receiving and sending batches of packets (`recv_multiple0`,
-- `handle_virtio_read`, `send_multiple0`). The read and the write of the file descriptor are
-- parameters, and so are the constants of libc.
pub mod Virtio
pub mod Receive
pub mod Send
pub mod Open
pub mod Config
mod Tests
mod OpenTests
use tun_rs.Base.{
  ℕ, zero, suc, ◌+◌, ◌-◌, ◌*◌, ◌/◌, ◌%◌, Bool, true, false, not, ◌&&◌, ◌||◌, List, [], ◌∷◌, ◌++◌,
  ltb, leb, ◌==◌, if◌then◌else◌, length, take, drop, put, set, as_u16, add64, sub64, bit_and,
  Option, none, some, Outcome, ok, err, panic, ◌>>=◌, ◌>>◌, fail_if, at, slice, slice_from, write,
  IoError, sizes_too_short, too_many_buffers, invalid_offset, zero_gso_size, bufs_error,
  length_below_hdr, read_overflows, unsupported_gso_type, version_gso_type, invalid_ip_version,
  packet_too_short, tcp_header_len_invalid, packet_below_hdr_len, hdr_len_below_csum_start,
  csum_end_past_packet, os_error,
}
use tun_rs.Checksum.{CpuFeatures}
use tun_rs.Virtio.{
  VirtioNetHdr, Endian, decode, virtio_net_hdr_len, virtio_net_hdr_gso_none,
  virtio_net_hdr_f_needs_csum, virtio_net_hdr_gso_tcpv4, virtio_net_hdr_gso_tcpv6,
  virtio_net_hdr_gso_udp_l4,
}
use tun_rs.Gso.{Split, gso_split, gso_none_checksum}
use tun_rs.Gro.{ExpandBuffer, nth}
use tun_rs.Gro.Handle.{GroState, handle_gro}
use tun_rs.Gro.Table.{reset}

-- `offset > buf.as_ref().len()` for one of the buffers.
unfoldable pub offset_beyond : ℕ → List (List ℕ) → Bool
offset_beyond offset [] = false
offset_beyond offset (buf ∷ bufs) = ltb (length buf) offset || offset_beyond offset bufs

-- A packet that is not segmented goes to the first buffer.
unfoldable pub deliver : List ℕ → List (List ℕ) → List ℕ → ℕ → Outcome Split
deliver input bufs sizes offset = do
  first ← nth bufs 0
  room ← slice_from first offset
  fail_if (ltb (length room) (length input)) read_overflows
  _ ← nth sizes 0
  filled ← write first offset input
  ok (record {
    input = input;
    out_bufs = set bufs 0 filled;
    sizes = set sizes 0 (length input);
    count = 1;
  })

-- The checks of the segmentation type, up to the IP version, which it returns.
unfoldable pub check_gso_type : VirtioNetHdr → List ℕ → Outcome ℕ
check_gso_type hdr input = do
  let tcpv4 = hdr.gso_type == virtio_net_hdr_gso_tcpv4
  let tcpv6 = hdr.gso_type == virtio_net_hdr_gso_tcpv6
  let udp = hdr.gso_type == virtio_net_hdr_gso_udp_l4
  fail_if (hdr.gso_size == 0) zero_gso_size
  fail_if (not tcpv4 && (not tcpv6 && not udp)) (unsupported_gso_type hdr.gso_type)
  first ← at input 0
  let ip_version = first / 16
  fail_if (ip_version == 4 && (not tcpv4 && not udp)) (version_gso_type 4 hdr.gso_type)
  fail_if (ip_version == 6 && (not tcpv6 && not udp)) (version_gso_type 6 hdr.gso_type)
  fail_if (not (ip_version == 4) && not (ip_version == 6)) (invalid_ip_version ip_version)
  ok ip_version

-- `hdr.hdr_len`, from the transport header instead of the kernel's value.
unfoldable pub transport_hdr_len : VirtioNetHdr → List ℕ → Outcome ℕ
transport_hdr_len hdr input =
    if hdr.gso_type == virtio_net_hdr_gso_udp_l4 then ok (as_u16 (hdr.csum_start + 8)) else (do
      fail_if (leb (length input) (hdr.csum_start + 12)) packet_too_short
      offset ← at input (hdr.csum_start + 12)
      let tcp_h_len = offset / 16 * 4
      fail_if (ltb tcp_h_len 20 || ltb 60 tcp_h_len) (tcp_header_len_invalid tcp_h_len)
      ok (as_u16 (hdr.csum_start + tcp_h_len)))

module _ (cpu : CpuFeatures) where
  unfoldable pub handle_virtio_read :
      VirtioNetHdr → List ℕ → List (List ℕ) → List ℕ → ℕ → Outcome Split
  unfolding offset_beyond deliver check_gso_type transport_hdr_len
  handle_virtio_read hdr input bufs sizes offset = do
    fail_if (ltb (length sizes) (length bufs)) sizes_too_short
    fail_if (ltb 65535 (length bufs)) too_many_buffers
    fail_if (offset_beyond offset bufs) invalid_offset
    if hdr.gso_type == virtio_net_hdr_gso_none
        then (do
          packet ←
              (if not (bit_and hdr.flags virtio_net_hdr_f_needs_csum == 0)
                then gso_none_checksum cpu input hdr.csum_start hdr.csum_offset
                else ok input)
          deliver packet bufs sizes offset)
        else (do
          ip_version ← check_gso_type hdr input
          hdr_len ← transport_hdr_len hdr input
          fail_if (ltb (length input) hdr_len) packet_below_hdr_len
          fail_if (ltb hdr_len hdr.csum_start) hdr_len_below_csum_start
          fail_if (leb (length input) (as_u16 (hdr.csum_start + hdr.csum_offset) + 1))
              csum_end_past_packet
          gso_split cpu input (record hdr { hdr_len = hdr_len }) bufs sizes offset
              (ip_version == 6))

  -- `read_f(&self.tun, buf)`: the length that it returns and what it leaves in the buffer.
  module _ (order : Endian) (read_f : List ℕ → Outcome (ℕ × List ℕ)) (vnet_hdr : Bool) where
    -- Without offload, one packet goes to the first buffer.
    unfoldable pub recv_plain : List ℕ → List (List ℕ) → List ℕ → ℕ → Outcome Split
    recv_plain original_buffer bufs sizes offset = do
      first ← nth bufs 0
      fail_if (ltb (length first) offset) invalid_offset
      (len, filled) ← read_f (drop offset first)
      ok (record {
        input = original_buffer;
        out_bufs = set bufs 0 (take offset first ++ filled);
        sizes = set sizes 0 len;
        count = 1;
      })

    unfoldable pub recv_multiple : List ℕ → List (List ℕ) → List ℕ → ℕ → Outcome Split
    unfolding handle_virtio_read recv_plain
    recv_multiple original_buffer bufs sizes offset = do
      fail_if (length bufs == 0 || not (length bufs == length sizes)) bufs_error
      if vnet_hdr
          then (do
            (len, buffer) ← read_f original_buffer
            fail_if (leb len virtio_net_hdr_len) length_below_hdr
            front ← slice buffer 0 virtio_net_hdr_len
            hdr ← decode order front
            packet ← slice buffer virtio_net_hdr_len len
            handle_virtio_read hdr packet bufs sizes offset)
          else recv_plain original_buffer bufs sizes offset

-- `gro_table.reset()`.
abbrev pub cleared_table : {B : Type 0} → GroState B → GroState B
cleared_table g = record g {
  tcp_table = reset g.tcp_table;
  udp_table = reset g.udp_table;
  to_write = [];
}

-- The numbers from `from` on, as many as `n`.
abbrev pub indices : ℕ → ℕ → List ℕ
indices from zero = []
indices from (suc n) = from ∷ indices (from + 1) n

-- What a write of the file descriptor answers.
pub data Written : Type 0 where
  wrote : ℕ → Written
  failed : IoError → Written

-- `e.raw_os_error() == Some(libc::EBADFD)`.
unfoldable pub is_ebadfd : ℕ → IoError → Bool
is_ebadfd ebadfd (os_error code) = code == ebadfd
is_ebadfd ebadfd _ = false

-- `write_f`, on the state `W` of whatever receives the packets.
module _ {W : Type 0} (write_f : W → List ℕ → Written × W) (ebadfd : ℕ) where
  module _ {B : Type 0} (e : ExpandBuffer B) (bufs : List B) (offset : ℕ) where
    -- `for buf_idx in &gro_table.to_write`, with the last error and the total so far.
    unfoldable pub write_packets : List ℕ → W → Option IoError → ℕ → Outcome ℕ × W
    unfolding is_ebadfd
    write_packets [] world none total = (ok total, world)
    write_packets [] world (some error) total = (err error, world)
    write_packets (index ∷ rest) world error total = elim (nth bufs index) [
      | ok b ↦
          if ltb (length (e.as_ref b)) offset
          then (err invalid_offset, world)
          else (let (answer, world1) = write_f world (drop offset (e.as_ref b)) in
              elim answer [
                | wrote n ↦ write_packets rest world1 error (add64 total n)
                | failed code ↦
                    let going = write_packets rest world1 (some code) total in
                    if is_ebadfd ebadfd code then (err code, world1) else going
              ])
      | _ ↦ (panic, world)
    ]

  module _ {B : Type 0} (e : ExpandBuffer B) (cpu : CpuFeatures) (order : Endian)
      (vnet_hdr udp_gso : Bool) where
    -- The buffers and the table of a call, the packets handed over, and what the call returns. What
    -- the tables hold afterwards is not kept: the next call resets them.
    unfoldable pub send_multiple : GroState B → ℕ → W → Outcome ℕ × W
    unfolding write_packets
    send_multiple g offset world =
        let table = cleared_table g in
        if length g.bufs == 0
        then (ok 0, world)
        else (if ltb 65535 (length g.bufs)
            then (err too_many_buffers, world)
            else (if vnet_hdr
                then elim (handle_gro e cpu order offset udp_gso table) [
                  | ok g1 ↦
                      write_packets e g1.bufs (sub64 offset virtio_net_hdr_len) g1.to_write world
                        none 0
                  | err error ↦ (err error, world)
                  | panic ↦ (panic, world)
                ]
                else write_packets e g.bufs offset (indices 0 (length g.bufs)) world none 0))
