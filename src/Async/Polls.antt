-- ===== src/Async/Polls.antt =====
-- What a poll over a reactor rests on, and that the two reactors give the same answers.
use tun_rs.Base.{
  ℕ, ◌≡◌, refl, ap, true, false, Bool-cases, List, [], ◌∷◌, ◌++◌, none, some, ◌⊎◌, inl, inr,
  IoError, arith,
}
use tun_rs.Framed.{Poll, ready, pending}
use tun_rs.Interrupt.{is_would_block}
use tun_rs.Async.{Readiness, poll_tokio, poll_async_io}

-- In each of these rounds the reactor said that the device is ready, and the device had nothing.
abbrev pub Blocked : List (Readiness × (ℕ ⊎ IoError)) → Type 0
Blocked [] = Unit
Blocked ((ready none, inr error) ∷ rounds) = (is_would_block error ≡ true) × Blocked rounds
Blocked (_ ∷ rounds) = ⊥

-- The round settles what the poll answers: pending if the reactor is, so that it wakes the task, its error,
-- or what the device answered if that is not WouldBlock.
abbrev pub Decides : Readiness × (ℕ ⊎ IoError) → Poll (ℕ ⊎ IoError) → Type 0
Decides (pending, answer) result = result ≡ pending
Decides (ready (some error), answer) result = result ≡ ready (inr error)
Decides (ready none, inl n) result = result ≡ ready (inl n)
Decides (ready none, inr error) result =
    (is_would_block error ≡ false) × (result ≡ ready (inr error))

some_eq : {A : Type 0} {a b : A} → some a ≡ some b → b ≡ a
some_eq h = ground (arith, h)

-- A poll that answers has had rounds in which the device would block, and then one that settles the
-- answer: no bytes that the device gave are dropped, and pending is what the reactor itself answered.
pub poll_tokio-Decides :
    (rounds : List (Readiness × (ℕ ⊎ IoError))) (result : Poll (ℕ ⊎ IoError))
    → poll_tokio rounds ≡ some result
    → (before after : List (Readiness × (ℕ ⊎ IoError))) × (round : Readiness × (ℕ ⊎ IoError))
      × (rounds ≡ before ++ round ∷ after)
      × Blocked before
      × Decides round result
unfolding poll_tokio
poll_tokio-Decides [] result h = absurd (ground (arith, h))
poll_tokio-Decides ((pending, answer) ∷ rounds) result h =
    ([], rounds, (pending, answer), refl, tt, some_eq h)
poll_tokio-Decides ((ready (some error), answer) ∷ rounds) result h =
    ([], rounds, (ready (some error), answer), refl, tt, some_eq h)
poll_tokio-Decides ((ready none, inl n) ∷ rounds) result h =
    ([], rounds, (ready none, inl n), refl, tt, some_eq h)
poll_tokio-Decides ((ready none, inr error) ∷ rounds) result h =
    elim (Bool-cases (is_would_block error)) [
      | inl blocks ↦
          let (before, after, round, same, waited, settles) =
            poll_tokio-Decides rounds result (rw blocks at h) in
          (
            (ready none, inr error) ∷ before,
            after,
            round,
            ap (λ t. (ready none, inr error) ∷ t) same,
            (blocks, waited),
            settles,
          )
      | inr fails ↦
          ([], rounds, (ready none, inr error), refl, tt, (fails, some_eq (rw fails at h)))
    ]

-- The same answers of the device and the reactor, where the device is asked first, and `last` is what the
-- reactor would answer after them.
abbrev pub device_first :
    (ℕ ⊎ IoError) → Readiness → List (Readiness × (ℕ ⊎ IoError)) → List ((ℕ ⊎ IoError) × Readiness)
device_first answer last [] = (answer, last) ∷ []
device_first answer last ((readiness, later) ∷ rounds) =
    (answer, readiness) ∷ device_first later last rounds

-- When the device has nothing at first, the poll over async-io answers what the poll over tokio does with
-- the same answers of the device and the reactor after that.
pub poll_async_io-poll_tokio :
    (rounds : List (Readiness × (ℕ ⊎ IoError))) (error : IoError) (last : Readiness)
    (result : Poll (ℕ ⊎ IoError))
    → is_would_block error ≡ true
    → poll_tokio rounds ≡ some result
    → poll_async_io (device_first (inr error) last rounds) ≡ some result
unfolding poll_tokio poll_async_io
poll_async_io-poll_tokio [] error last result blocks h = absurd (ground (arith, h))
poll_async_io-poll_tokio ((pending, answer) ∷ rounds) error last result blocks h = rw blocks h
poll_async_io-poll_tokio ((ready (some x), answer) ∷ rounds) error last result blocks h =
    rw blocks h
poll_async_io-poll_tokio ((ready none, inl n) ∷ []) error last result blocks h = rw blocks h
poll_async_io-poll_tokio ((ready none, inl n) ∷ (r ∷ rounds)) error last result blocks h =
    rw blocks h
poll_async_io-poll_tokio ((ready none, inr x) ∷ rounds) error last result blocks h =
    elim (Bool-cases (is_would_block x)) [
      | inl waits ↦ rw blocks (poll_async_io-poll_tokio rounds x last result waits (rw waits at h))
      | inr fails ↦ rw blocks (ends rounds fails (rw fails at h))
    ]
  where
    ends :
        (rest : List (Readiness × (ℕ ⊎ IoError)))
        → is_would_block x ≡ false
        → some (ready (inr x)) ≡ some result
        → poll_async_io (device_first (inr x) last rest) ≡ some result
    ends [] fails same = rw fails same
    ends ((p, b) ∷ rest) fails same = rw fails same
