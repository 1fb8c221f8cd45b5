-- ===== src/Gro/Kept.antt =====
-- `handle_gro` with the state that an error leaves agrees with `handle_gro`.
use tun_rs.Base.{
  Bool, ℕ, zero, suc, ◌+◌, ◌≡◌, ap, false, length, ltb, none, ok, fail_if, bind_ok, ok_eq,
  too_many_buffers, arith,
}
use tun_rs.Checksum.{CpuFeatures}
use tun_rs.Virtio.{Endian}
use tun_rs.Gro.{ExpandBuffer}
use tun_rs.Gro.Accounting.{apply_tcp_coalesce_accounting, apply_udp_coalesce_accounting}
use tun_rs.Gro.Handle.{
  GroState, handle_packet, handle_packets, handle_gro, packets_kept, account_kept, handle_gro_kept,
}

module _ {B : Type 0} (e : ExpandBuffer B) (cpu : CpuFeatures) (order : Endian) (offset : ℕ)
    (can_udp_gro : Bool) where
  packets_kept_lem :
      (rounds i : ℕ) (g g' : GroState B)
      → handle_packets e cpu order offset can_udp_gro rounds i g ≡ ok g'
      → packets_kept e cpu order offset can_udp_gro rounds i g ≡ ok (none, g')
  unfolding handle_packets packets_kept
  packets_kept_lem zero i g g' h = ap (λ s. ok (none, s)) (ok_eq h)
  packets_kept_lem (suc rounds) i g g' h =
      let (g1, first, h1) = bind_ok (handle_packet e cpu order offset can_udp_gro i g) _ h in
      rw (first, packets_kept) (packets_kept_lem rounds (i + 1) g1 g' h1)

  -- When `handle_gro` returns a state, the version that keeps the state of an error returns it too.
  pub handle_gro_kept-handle_gro :
      (g g' : GroState B)
      → handle_gro e cpu order offset can_udp_gro g ≡ ok g'
      → handle_gro_kept e cpu order offset can_udp_gro g ≡ ok (none, g')
  unfolding handle_gro handle_gro_kept account_kept
  handle_gro_kept-handle_gro g g' h =
      let (_, few, h1) = bind_ok (fail_if (ltb 65535 (length g.bufs)) too_many_buffers) _ h in
      let (g1, handled_all, h2) =
        bind_ok (handle_packets e cpu order offset can_udp_gro (length g.bufs) 0 g) _ h1 in
      let small : ltb 65535 (length g.bufs) ≡ false = ground (arith, few) in
      let (bufs1, tcp, h3) =
        bind_ok (apply_tcp_coalesce_accounting e cpu order offset g1.bufs g1.tcp_table) _ h2 in
      let (bufs2, udp, h4) =
        bind_ok (apply_udp_coalesce_accounting e cpu order offset bufs1 g1.udp_table) _ h3 in
      rw (small, packets_kept_lem (length g.bufs) 0 g g1 handled_all, tcp, udp)
        (ap (λ s. ok (none, s)) (ok_eq h4))
