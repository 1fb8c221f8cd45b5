-- ===== src/Gro/Flow.antt =====
-- src/platform/linux/offload.rs: the keys of flows, the items that the tables keep for a flow, and
-- `insert` and `lookup_or_insert`, which return the table that they leave.
pub mod Keys
use tun_rs.Base.{
  ℕ, ◌+◌, ◌-◌, ◌*◌, Bool, true, false, ◌&&◌, List, [], ◌∷◌, ◌++◌, ◌==◌, if◌then◌else◌, length,
  replicate, bit_and, not, Option, none, some, Outcome, ok, panic, ◌>>=◌, at, slice, slice_from,
  write, read_u16, read_u32,
}
use tun_rs.Gro.{narrow, tcp_flag_psh}
use tun_rs.Gro.Table.{GroTable, find_flow, insert_item}
use tun_rs.Gso.{tcp_flags_offset, udp_h_len}

-- `==` on byte slices.
abbrev pub bytes_eq : List ℕ → List ℕ → Bool
bytes_eq [] [] = true
bytes_eq [] (y ∷ ys) = false
bytes_eq (x ∷ xs) [] = false
bytes_eq (x ∷ xs) (y ∷ ys) = x == y && bytes_eq xs ys

abbrev pub bool_eq : Bool → Bool → Bool
bool_eq a b = if a then b else not b

pub record TcpFlowKey : Type 0 where
  pub src_addr : List ℕ
  pub dst_addr : List ℕ
  pub src_port : ℕ
  pub dst_port : ℕ
  pub rx_ack : ℕ
  pub is_v6 : Bool

pub record UdpFlowKey : Type 0 where
  pub src_addr : List ℕ
  pub dst_addr : List ℕ
  pub src_port : ℕ
  pub dst_port : ℕ
  pub is_v6 : Bool

-- The derived `PartialEq` of the keys.
unfoldable pub tcp_key_eq : TcpFlowKey → TcpFlowKey → Bool
tcp_key_eq a b =
    bytes_eq a.src_addr b.src_addr
    && (bytes_eq a.dst_addr b.dst_addr
        && (a.src_port == b.src_port
            && (a.dst_port == b.dst_port && (a.rx_ack == b.rx_ack && bool_eq a.is_v6 b.is_v6))))

unfoldable pub udp_key_eq : UdpFlowKey → UdpFlowKey → Bool
udp_key_eq a b =
    bytes_eq a.src_addr b.src_addr
    && (bytes_eq a.dst_addr b.dst_addr
        && (a.src_port == b.src_port && (a.dst_port == b.dst_port && bool_eq a.is_v6 b.is_v6)))

pub record TcpGroItem : Type 0 where
  pub key : TcpFlowKey
  pub sent_seq : ℕ
  pub bufs_index : ℕ
  pub num_merged : ℕ
  pub gso_size : ℕ
  pub iph_len : ℕ
  pub tcph_len : ℕ
  pub psh_set : Bool

pub record UdpGroItem : Type 0 where
  pub key : UdpFlowKey
  pub bufs_index : ℕ
  pub num_merged : ℕ
  pub gso_size : ℕ
  pub iph_len : ℕ
  pub c_sum_known_invalid : Bool

-- An address, padded to sixteen bytes.
unfoldable pub padded_addr : List ℕ → ℕ → ℕ → Outcome (List ℕ)
padded_addr pkt from until = do addr ← slice pkt from until; write (replicate 16 0) 0 addr

-- `TcpFlowKey::new` and `UdpFlowKey::new`.
unfoldable pub tcp_flow_key : List ℕ → ℕ → ℕ → ℕ → Outcome TcpFlowKey
unfolding padded_addr
tcp_flow_key pkt src_addr_offset dst_addr_offset tcph_offset = do
  let addr_size = dst_addr_offset - src_addr_offset
  src ← padded_addr pkt src_addr_offset dst_addr_offset
  dst ← padded_addr pkt dst_addr_offset (dst_addr_offset + addr_size)
  src_port ← read_u16 pkt tcph_offset
  dst_port ← read_u16 pkt (tcph_offset + 2)
  rx_ack ← read_u32 pkt (tcph_offset + 8)
  ok (record {
    src_addr = src;
    dst_addr = dst;
    src_port = src_port;
    dst_port = dst_port;
    rx_ack = rx_ack;
    is_v6 = addr_size == 16;
  })

unfoldable pub udp_flow_key : List ℕ → ℕ → ℕ → ℕ → Outcome UdpFlowKey
unfolding padded_addr
udp_flow_key pkt src_addr_offset dst_addr_offset udph_offset = do
  let addr_size = dst_addr_offset - src_addr_offset
  src ← padded_addr pkt src_addr_offset dst_addr_offset
  dst ← padded_addr pkt dst_addr_offset (dst_addr_offset + addr_size)
  src_port ← read_u16 pkt udph_offset
  dst_port ← read_u16 pkt (udph_offset + 2)
  ok (record {
    src_addr = src;
    dst_addr = dst;
    src_port = src_port;
    dst_port = dst_port;
    is_v6 = addr_size == 16;
  })

abbrev pub TcpTable : Type 0
TcpTable = GroTable TcpFlowKey TcpGroItem

abbrev pub UdpTable : Type 0
UdpTable = GroTable UdpFlowKey UdpGroItem

unfoldable pub tcp_item : List ℕ → TcpFlowKey → ℕ → ℕ → ℕ → Outcome TcpGroItem
tcp_item pkt key tcph_offset tcph_len bufs_index = do
  index ← narrow 65535 bufs_index
  payload ← slice_from pkt (tcph_offset + tcph_len)
  gso_size ← narrow 65535 (length payload)
  iph_len ← narrow 255 tcph_offset
  tcph ← narrow 255 tcph_len
  seq ← read_u32 pkt (tcph_offset + 4)
  flags ← at pkt (tcph_offset + tcp_flags_offset)
  ok (record {
    key = key;
    sent_seq = seq;
    bufs_index = index;
    num_merged = 0;
    gso_size = gso_size;
    iph_len = iph_len;
    tcph_len = tcph;
    psh_set = not (bit_and flags tcp_flag_psh == 0);
  })

unfoldable pub tcp_insert : TcpTable → List ℕ → ℕ → ℕ → ℕ → ℕ → ℕ → Outcome TcpTable
unfolding tcp_flow_key tcp_item insert_item
tcp_insert table pkt src_addr_offset dst_addr_offset tcph_offset tcph_len bufs_index = do
  key ← tcp_flow_key pkt src_addr_offset dst_addr_offset tcph_offset
  item ← tcp_item pkt key tcph_offset tcph_len bufs_index
  ok (insert_item tcp_key_eq table key item)

unfoldable pub tcp_lookup_or_insert :
    TcpTable → List ℕ → ℕ → ℕ → ℕ → ℕ → ℕ → Outcome (Option (List TcpGroItem) × TcpTable)
unfolding tcp_insert
tcp_lookup_or_insert table pkt src_addr_offset dst_addr_offset tcph_offset tcph_len bufs_index = do
  key ← tcp_flow_key pkt src_addr_offset dst_addr_offset tcph_offset
  elim (find_flow tcp_key_eq table.items_by_flow key) [
    | some items ↦ ok (some items, table)
    | none ↦ do
      inserted ←
          tcp_insert table pkt src_addr_offset dst_addr_offset tcph_offset tcph_len bufs_index
      ok (none, inserted)
  ]

unfoldable pub udp_insert : UdpTable → List ℕ → ℕ → ℕ → ℕ → ℕ → Bool → Outcome UdpTable
unfolding udp_flow_key insert_item
udp_insert table pkt src_addr_offset dst_addr_offset udph_offset bufs_index c_sum_known_invalid = do
  key ← udp_flow_key pkt src_addr_offset dst_addr_offset udph_offset
  index ← narrow 65535 bufs_index
  payload ← slice_from pkt (udph_offset + udp_h_len)
  gso_size ← narrow 65535 (length payload)
  iph_len ← narrow 255 udph_offset
  ok (
      insert_item udp_key_eq table key (record {
        key = key;
        bufs_index = index;
        num_merged = 0;
        gso_size = gso_size;
        iph_len = iph_len;
        c_sum_known_invalid = c_sum_known_invalid;
      }))

unfoldable pub udp_lookup_or_insert :
    UdpTable → List ℕ → ℕ → ℕ → ℕ → ℕ → Outcome (Option (List UdpGroItem) × UdpTable)
unfolding udp_insert
udp_lookup_or_insert table pkt src_addr_offset dst_addr_offset udph_offset bufs_index = do
  key ← udp_flow_key pkt src_addr_offset dst_addr_offset udph_offset
  elim (find_flow udp_key_eq table.items_by_flow key) [
    | some items ↦ ok (some items, table)
    | none ↦ do
      inserted ← udp_insert table pkt src_addr_offset dst_addr_offset udph_offset bufs_index false
      ok (none, inserted)
  ]
