-- ===== src/Interrupt/Tests.antt =====
-- A run of an event with a pipe that counts its bytes.
use tun_rs.Base.{
  true, false, ℕ, ◌+◌, ◌-◌, ◌<◌, ◌≡◌, refl, List, [], ◌∷◌, ltb, if◌then◌else◌, some, inl, inr, err,
  would_block, interrupted, arith,
}
use tun_rs.Interrupt.{Pipe, InterruptEvent, new_event, value, poll_ready, read_interruptible}
use tun_rs.Interrupt.Runs.{
  IsPipe, Step, triggers, resets, IsEvent, run, readable, spurious, run-read_interruptible,
}

-- A read takes three bytes at most, and the pipe has room for 64.
abbrev counter : Pipe ℕ
counter = record {
  write_pipe = λ n. if ltb 56 n then (inr would_block, n) else (inl 8, n + 8);
  read_pipe = λ n. if ltb 0 n then (inl (n - (n - 3)), n - 3) else (inr would_block, n);
}

write_counted :
    (n : ℕ) → n ≡ 0 → ((counter.write_pipe n).0 ≡ inl 8) × ((counter.write_pipe n).1 ≡ 8)
write_counted n h = ground (arith, h)

read_counted :
    (n : ℕ) → n ≡ 0 → ((counter.read_pipe n).0 ≡ inr would_block) × ((counter.read_pipe n).1 ≡ 0)
read_counted n h = ground (arith, h)

read_three :
    (n : ℕ) → 0 < n → (m : ℕ) × ((counter.read_pipe n).0 ≡ inl m) × ((counter.read_pipe n).1 < n)
read_three n h =
    let some_bytes : ltb 0 n ≡ true = ground (arith, h) in
    (n - (n - 3), rw some_bytes refl, rw some_bytes (omega (arith, h)))

abbrev counter_laws : IsPipe counter
counter_laws = record {
  held = λ n. n;
  write_empty = write_counted;
  read_empty = read_counted;
  read_some = read_three;
}

abbrev fresh : InterruptEvent ℕ
fresh = new_event 0

abbrev steps : List Step
steps = triggers 15 ∷ triggers 2 ∷ resets ∷ triggers 7 ∷ triggers 9 ∷ []

run-read_interruptible_example :
    (event' : InterruptEvent ℕ) × (run counter counter_laws fresh steps ≡ some event')
    × (value event' ≡ 7)
    × IsEvent counter counter_laws event'
    × (read_interruptible (
          spurious counter counter_laws 2
            ((poll_ready false (readable counter counter_laws event'), inl 0) ∷ []))
        ≡ some (err interrupted))
run-read_interruptible_example =
    run-read_interruptible counter counter_laws steps fresh 2 (inl 0)
      (omega arith, (omega arith, (omega arith, (omega arith, tt)))) (inl (refl, refl))
