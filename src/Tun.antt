-- ===== src/Tun.antt =====
-- src/platform/unix/tun.rs and src/platform/unix/fd.rs: sending and receiving where four bytes of packet
-- information stand before each packet, as on macOS and the BSDs. The file descriptor and the constants
-- of libc are parameters; a call acts on the state `W` of what is behind the descriptor.
pub mod Vectored
mod Tests
use tun_rs.Base.{
  ℕ, ◌+◌, ◌-◌, ◌/◌, Bool, true, false, List, [], ◌∷◌, ltb, ◌==◌, if◌then◌else◌, length, replicate,
  be32_bytes, ◌⊎◌, inl, inr, IoError, zero_length_data, ip_version_data, invalid_input,
}

-- A write answers how many bytes it took; a read also what is in the buffers afterwards.
pub record FileDescriptor (W : Type 0) : Type 0 where
  pub write_call : W → List ℕ → (ℕ ⊎ IoError) × W
  pub writev_call : W → List (List ℕ) → (ℕ ⊎ IoError) × W
  pub read_call : W → List ℕ → ((ℕ × List ℕ) ⊎ IoError) × W
  pub readv_call : W → List (List ℕ) → ((ℕ × List (List ℕ)) ⊎ IoError) × W

-- PACKET_INFORMATION_LENGTH.
abbrev pub packet_information_length : ℕ
packet_information_length = 4

unfoldable pub is_ipv6 : List ℕ → Bool ⊎ IoError
is_ipv6 [] = inr zero_length_data
is_ipv6 (first ∷ buf) =
    let version = first / 16 in
    if version == 4
    then inl false
    else (if version == 6 then inl true else inr (ip_version_data version))

-- AF_INET and AF_INET6.
module _ (af_inet af_inet6 : ℕ) where
  unfoldable pub generate_packet_information : Bool → List ℕ
  generate_packet_information ipv6 = be32_bytes (if ipv6 then af_inet6 else af_inet)

  -- `bufs.iter().find(|b| !b.is_empty()).map_or(&[][..], |b| &**b)`.
  unfoldable pub first_filled : List (List ℕ) → List ℕ
  first_filled [] = []
  first_filled ([] ∷ bufs) = first_filled bufs
  first_filled ((x ∷ buf) ∷ bufs) = x ∷ buf

  module _ {W : Type 0} (fd : FileDescriptor W) (max_iov : ℕ) (ignore_packet_info : Bool) where
    -- `Fd::writev` and `Fd::readv`.
    unfoldable pub writev : W → List (List ℕ) → (ℕ ⊎ IoError) × W
    writev world bufs =
        if ltb max_iov (length bufs) then (inr invalid_input, world) else fd.writev_call world bufs

    unfoldable pub readv : W → List (List ℕ) → ((ℕ × List (List ℕ)) ⊎ IoError) × W
    readv world bufs =
        if ltb max_iov (length bufs) then (inr invalid_input, world) else fd.readv_call world bufs

    -- `Ok(len.saturating_sub(PIL))`.
    abbrev pub without_information : (ℕ ⊎ IoError) × W → (ℕ ⊎ IoError) × W
    without_information (inl len, world) = (inl (len - packet_information_length), world)
    without_information (inr error, world) = (inr error, world)

    unfoldable pub send : W → List ℕ → (ℕ ⊎ IoError) × W
    unfolding is_ipv6 generate_packet_information writev
    send world buf =
        if ignore_packet_info
        then elim (is_ipv6 buf) [
          | inr error ↦ (inr error, world)
          | inl ipv6 ↦
              without_information (writev world (generate_packet_information ipv6 ∷ buf ∷ []))
        ]
        else fd.write_call world buf

    unfoldable pub send_vectored : W → List (List ℕ) → (ℕ ⊎ IoError) × W
    unfolding is_ipv6 generate_packet_information writev first_filled
    send_vectored world bufs =
        if ignore_packet_info
        then (if ltb (max_iov - 1) (length bufs)
            then (inr invalid_input, world)
            else elim (is_ipv6 (first_filled bufs)) [
              | inr error ↦ (inr error, world)
              | inl ipv6 ↦
                  without_information (writev world (generate_packet_information ipv6 ∷ bufs))
            ])
        else writev world bufs

    -- The length and the buffer after a read behind the packet information.
    abbrev pub behind_information :
        List ℕ → ((ℕ × List (List ℕ)) ⊎ IoError) × W → ((ℕ × List ℕ) ⊎ IoError) × W
    behind_information buf (inl (len, head ∷ filled ∷ rest), world) =
        (inl (len - packet_information_length, filled), world)
    behind_information buf (inl (len, bufs), world) =
        (inl (len - packet_information_length, buf), world)
    behind_information buf (inr error, world) = (inr error, world)

    unfoldable pub recv : W → List ℕ → ((ℕ × List ℕ) ⊎ IoError) × W
    unfolding readv
    recv world buf =
        if ignore_packet_info
        then behind_information buf (readv world (replicate packet_information_length 0 ∷ buf ∷ []))
        else fd.read_call world buf

    -- The same for the buffers of a vectored read.
    abbrev pub behind_information_vectored :
        List (List ℕ) → ((ℕ × List (List ℕ)) ⊎ IoError) × W → ((ℕ × List (List ℕ)) ⊎ IoError) × W
    behind_information_vectored bufs (inl (len, head ∷ filled), world) =
        (inl (len - packet_information_length, filled), world)
    behind_information_vectored bufs (inl (len, []), world) =
        (inl (len - packet_information_length, bufs), world)
    behind_information_vectored bufs (inr error, world) = (inr error, world)

    unfoldable pub recv_vectored : W → List (List ℕ) → ((ℕ × List (List ℕ)) ⊎ IoError) × W
    unfolding readv
    recv_vectored world bufs =
        if ignore_packet_info
        then (if ltb (max_iov - 1) (length bufs)
            then (inr invalid_input, world)
            else behind_information_vectored bufs
                (readv world (replicate packet_information_length 0 ∷ bufs)))
        else readv world bufs
