-- ===== src/Tun/Tests.antt =====
-- A packet in three pieces, written to a descriptor that keeps what it is given.
use tun_rs.Base.{ℕ, ◌≡◌, refl, true, List, [], ◌∷◌, ◌++◌, length, inl, inr, would_block, arith}
use tun_rs.Tun.{FileDescriptor, send, send_vectored}
use tun_rs.Tun.Vectored.{concat, send_vectored-send}

abbrev log_fd : FileDescriptor (List (List ℕ))
log_fd = record {
  write_call = λ log packet. (inl (length packet), log ++ packet ∷ []);
  writev_call = λ log bufs. (inl (length (concat bufs)), log ++ concat bufs ∷ []);
  read_call = λ log buf. (inr would_block, log);
  readv_call = λ log bufs. (inr would_block, log);
}

-- The first piece is empty.
abbrev pieces : List (List ℕ)
pieces = [] ∷ (0x45 ∷ 1 ∷ []) ∷ (2 ∷ []) ∷ []

vectored_run :
    send_vectored 2 30 log_fd 1024 true [] pieces
    ≡ (inl 3, (0 ∷ 0 ∷ 0 ∷ 2 ∷ 0x45 ∷ 1 ∷ 2 ∷ []) ∷ [])
unfolding send_vectored
vectored_run = refl

send_vectored-send_example :
    send_vectored 2 30 log_fd 1024 true [] pieces
    ≡ send 2 30 log_fd 1024 true [] (0x45 ∷ 1 ∷ 2 ∷ [])
send_vectored-send_example =
    send_vectored-send 2 30 log_fd 1024 [] pieces (λ world bufs. refl) (omega arith) (omega arith)
