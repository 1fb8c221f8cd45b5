-- ===== src/Tun/Vectored.antt =====
-- Sending a packet in pieces, and what is received of a packet that was sent.
use tun_rs.Base.{
  ℕ, suc, ◌-◌, ◌≤◌, ◌<◌, ◌≡◌, refl, sym, ap, ◌∙◌, Bool, true, false, List, [], ◌∷◌, ◌++◌, length,
  ltb, ◌⊎◌, inl, inr, IoError, arith,
}
use tun_rs.Tun.{
  FileDescriptor, is_ipv6, generate_packet_information, first_filled, writev, without_information,
  send, send_vectored,
}

abbrev pub concat : List (List ℕ) → List ℕ
concat [] = []
concat (buf ∷ bufs) = buf ++ concat bufs

-- That a packet written in pieces is the packet written at once.
abbrev pub Gathers : {W : Type 0} → FileDescriptor W → Type 0
Gathers {W} fd =
    (world : W) (bufs : List (List ℕ))
    → fd.writev_call world bufs ≡ fd.write_call world (concat bufs)

Version-cases : (r : Bool ⊎ IoError) → ((v : Bool) × (r ≡ inl v)) ⊎ ((e : IoError) × (r ≡ inr e))
Version-cases (inl v) = inl (v, refl)
Version-cases (inr e) = inr (e, refl)

module _ (af_inet af_inet6 : ℕ) where
  version_of_first :
      (bufs : List (List ℕ)) → is_ipv6 (first_filled af_inet af_inet6 bufs) ≡ is_ipv6 (concat bufs)
  unfolding is_ipv6 first_filled
  version_of_first [] = refl
  version_of_first ([] ∷ bufs) = version_of_first bufs
  version_of_first ((x ∷ buf) ∷ bufs) = refl

  append_nil : (xs : List ℕ) → xs ++ [] ≡ xs
  append_nil [] = refl
  append_nil (x ∷ xs) = ap (λ t. x ∷ t) (append_nil xs)

  pieces :
      {W : Type 0} (fd : FileDescriptor W) (max_iov : ℕ) (world : W) (head : List ℕ)
      (bufs : List (List ℕ))
      → Gathers fd
      → length bufs < max_iov
      → 2 ≤ max_iov
      → writev af_inet af_inet6 fd max_iov true world (head ∷ bufs)
        ≡ writev af_inet af_inet6 fd max_iov true world (head ∷ concat bufs ∷ [])
  unfolding writev
  pieces fd max_iov world head bufs gathers few two =
      let room : ltb max_iov (suc (length bufs)) ≡ false = ground arith in
      let room_of_two : ltb max_iov 2 ≡ false = ground arith in
      rw (room, room_of_two)
        (gathers world (head ∷ bufs)
          ∙ ap (λ t. fd.write_call world (head ++ t)) (sym (append_nil (concat bufs)))
          ∙ sym (gathers world (head ∷ concat bufs ∷ [])))

  -- With packet information to be added and fewer pieces than the system takes buffers, of which it
  -- takes at least two: `send_vectored` does what `send` does with the pieces joined, errors included,
  -- on a descriptor that writes the pieces as one.
  pub send_vectored-send :
      {W : Type 0} (fd : FileDescriptor W) (max_iov : ℕ) (world : W) (bufs : List (List ℕ))
      → Gathers fd
      → length bufs < max_iov
      → 2 ≤ max_iov
      → send_vectored af_inet af_inet6 fd max_iov true world bufs
        ≡ send af_inet af_inet6 fd max_iov true world (concat bufs)
  unfolding send_vectored send
  send_vectored-send fd max_iov world bufs gathers few two =
      let room : ltb (max_iov - 1) (length bufs) ≡ false = ground arith in
      elim (Version-cases (is_ipv6 (concat bufs))) [
        | inl (ipv6, version) ↦
            rw (room, version_of_first bufs, version)
              (ap (without_information af_inet af_inet6 fd max_iov true) (
                pieces fd max_iov world (generate_packet_information af_inet af_inet6 ipv6) bufs
                  gathers few two))
        | inr (error, version) ↦ rw (room, version_of_first bufs, version) refl
      ]
