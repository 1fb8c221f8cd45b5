-- ===== src/Async/Tests.antt =====
-- Polls that wait, and batches with a device that keeps what it is given.
use tun_rs.Base.{
  ℕ, ◌≡◌, refl, List, [], ◌∷◌, ◌++◌, length, none, some, ◌⊎◌, inl, inr, IoError, would_block,
}
use tun_rs.Device.{Written, wrote}
use tun_rs.Framed.{ready, pending}
use tun_rs.Async.{Readiness, poll_tokio, poll_async_io}
use tun_rs.Async.Polls.{Blocked, Decides, device_first, poll_tokio-Decides}

-- Ready for nothing, and then for a packet of nine bytes.
abbrev rounds : List (Readiness × (ℕ ⊎ IoError))
rounds = (ready none, inr would_block) ∷ (ready none, inl 9) ∷ []

polled : poll_tokio rounds ≡ some (ready (inl 9))
unfolding poll_tokio
polled = refl

poll_tokio-Decides_example :
    (before after : List (Readiness × (ℕ ⊎ IoError))) × (round : Readiness × (ℕ ⊎ IoError))
    × (rounds ≡ before ++ round ∷ after)
    × Blocked before
    × Decides round (ready (inl 9))
poll_tokio-Decides_example = poll_tokio-Decides rounds (ready (inl 9)) polled

polled_async_io :
    poll_async_io (device_first (inr would_block) pending rounds) ≡ some (ready (inl 9))
unfolding poll_async_io
polled_async_io = refl

abbrev keep : List (List ℕ) → List ℕ → Written × List (List ℕ)
keep log packet = (wrote (length packet), log ++ packet ∷ [])
