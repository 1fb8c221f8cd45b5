-- ===== src/Interrupt/Runs.antt =====
-- An event over any run of triggers and resets, and what a read that waits for it answers.
use tun_rs.Base.{
  ℕ, zero, suc, ◌<◌, ◌≡◌, ◌≢◌, refl, ap, ◌∙◌, Bool, true, false, not, List, [], ◌∷◌, ltb, ◌==◌,
  if◌then◌else◌, Option, none, some, ◌⊎◌, inl, inr, Outcome, err, IoError, would_block, interrupted,
  fd_error, arith,
}
use tun_rs.Interrupt.{
  Pipe, InterruptEvent, is_would_block, trigger_value, drain_pipe, reset_event, PollAnswer,
  poll_ready, read_interruptible, value,
}

-- What a non-blocking pipe does: `held` are the bytes in it. An empty pipe has room for eight bytes; a
-- read takes at least one byte when there is one, and would block when there is none.
pub record IsPipe {P : Type 0} (ops : Pipe P) : Type 0 where
  pub held : P → ℕ
  pub write_empty :
      (p : P) → held p ≡ 0 → ((ops.write_pipe p).0 ≡ inl 8) × (held (ops.write_pipe p).1 ≡ 8)
  pub read_empty :
      (p : P)
      → held p ≡ 0
      → ((ops.read_pipe p).0 ≡ inr would_block) × (held (ops.read_pipe p).1 ≡ 0)
  pub read_some :
      (p : P)
      → 0 < held p
      → (n : ℕ) × ((ops.read_pipe p).0 ≡ inl n) × (held (ops.read_pipe p).1 < held p)

-- A step of some thread.
pub data Step : Type 0 where
  triggers : ℕ → Step
  resets : Step

-- What the value of the event is meant to be: the first trigger since the last reset counts.
abbrev pub meant : ℕ → List Step → ℕ
meant v [] = v
meant v (triggers val ∷ steps) = meant (if v == 0 then val else v) steps
meant v (resets ∷ steps) = meant 0 steps

abbrev pub NonZero : List Step → Type 0
NonZero [] = Unit
NonZero (triggers val ∷ steps) = (val ≢ 0) × NonZero steps
NonZero (resets ∷ steps) = NonZero steps

Zero-cases : (n : ℕ) → (n ≡ 0) ⊎ (0 < n)
Zero-cases zero = inl refl
Zero-cases (suc n) = inr (omega arith)

abbrev fails : Bool → IoError → IoError → Option (Outcome ℕ)
fails b e e' = some (err (if b then e else e'))

either : (b : Bool) → fails (not b) interrupted fd_error ≡ fails b fd_error interrupted
either true = refl
either false = refl

module _ {P : Type 0} (ops : Pipe P) (laws : IsPipe ops) where
  -- The event is triggered exactly when eight bytes are in the pipe, and otherwise the pipe is empty.
  abbrev pub IsEvent : InterruptEvent P → Type 0
  IsEvent event =
      ((event.state ≡ 0) × (laws.held event.pipe ≡ 0))
      ⊎ ((event.state ≢ 0) × (laws.held event.pipe ≡ 8))

  -- The steps one after the other, each of which has to answer `Ok(())`, a reset within nine reads.
  unfoldable pub run : InterruptEvent P → List Step → Option (InterruptEvent P)
  unfolding trigger_value reset_event
  run event [] = some event
  run event (triggers val ∷ steps) =
      let rest = run (trigger_value ops event val).1 steps in
      elim (trigger_value ops event val).0 [ none ↦ rest | some error ↦ none ]
  run event (resets ∷ steps) = elim (reset_event ops 9 event) [
    | some (none, event1) ↦ run event1 steps
    | _ ↦ none
  ]

  drain_pipe_lem :
      (fuel : ℕ) (p : P)
      → laws.held p < fuel
      → (p' : P) × (drain_pipe ops fuel p ≡ some (none, p')) × (laws.held p' ≡ 0)
  unfolding drain_pipe is_would_block
  drain_pipe_lem zero p h = absurd (omega arith)
  drain_pipe_lem (suc fuel) p h = elim (Zero-cases (laws.held p)) [
    | inl empty ↦
        let (answer, still) = laws.read_empty p empty in
        ((ops.read_pipe p).1, rw (answer, drain_pipe) refl, still)
    | inr some_bytes ↦
        let (n, answer, fewer) = laws.read_some p some_bytes in
        let (p', drains, empty) =
          drain_pipe_lem fuel (ops.read_pipe p).1 (omega (arith, h, fewer)) in
        (p', rw (answer, drain_pipe) drains, empty)
  ]

  at_most : (event : InterruptEvent P) → IsEvent event → laws.held event.pipe < 9
  at_most event (inl (clear, empty)) = omega (arith, empty)
  at_most event (inr (is_set, full)) = omega (arith, full)

  reset_event_lem :
      (event : InterruptEvent P)
      → IsEvent event
      → (event' : InterruptEvent P) × (reset_event ops 9 event ≡ some (none, event'))
        × (event'.state ≡ 0)
        × IsEvent event'
  unfolding reset_event
  reset_event_lem event sound =
      let (p', drains, empty) = drain_pipe_lem 9 event.pipe (at_most event sound) in
      (record { state = 0; pipe = p' }, rw (drains, reset_event) refl, refl, inl (refl, empty))

  trigger_value_lem :
      (event : InterruptEvent P) (val : ℕ)
      → val ≢ 0
      → IsEvent event
      → ((trigger_value ops event val).0 ≡ none)
        × ((trigger_value ops event val).1.state ≡ (if event.state == 0 then val else event.state))
        × IsEvent (trigger_value ops event val).1
  unfolding trigger_value
  trigger_value_lem event val some_value (inl (clear, empty)) =
      let (answer, full) = laws.write_empty event.pipe empty in
      let positive : (val == 0) ≡ false = ground arith in
      let unset : (event.state == 0) ≡ true = ground arith in
      (
        rw (positive, unset, answer) refl,
        rw (positive, unset, answer) refl,
        rw (positive, unset, answer) (inr (some_value, full)),
      )
  trigger_value_lem event val some_value (inr (is_set, full)) =
      let positive : (val == 0) ≡ false = ground arith in
      let triggered : (event.state == 0) ≡ false = ground arith in
      (
        rw (positive, triggered) refl,
        rw (positive, triggered) refl,
        rw (positive, triggered) (inr (is_set, full)),
      )

  -- Over any steps with values that are not zero, from an event in step with its pipe: every step
  -- answers `Ok(())`, each reset within nine reads; the value is that of the first trigger since the
  -- last reset, or zero; the event is in step with its pipe again.
  pub run_lem :
      (steps : List Step) (event : InterruptEvent P)
      → NonZero steps
      → IsEvent event
      → (event' : InterruptEvent P) × (run event steps ≡ some event')
        × (value event' ≡ meant (value event) steps)
        × IsEvent event'
  unfolding run
  run_lem [] event values sound = (event, refl, refl, sound)
  run_lem (triggers val ∷ steps) event values sound =
      let (answer, state, sound1) = trigger_value_lem event val values.0 sound in
      let (event', runs, means, sound') =
        run_lem steps (trigger_value ops event val).1 values.1 sound1 in
      (event', rw (answer, run) runs, means ∙ ap (λ v. meant v steps) state, sound')
  run_lem (resets ∷ steps) event values sound =
      let (event1, answer, state, sound1) = reset_event_lem event sound in
      let (event', runs, means, sound') = run_lem steps event1 values sound1 in
      (event', rw (answer, run) runs, means ∙ ap (λ v. meant v steps) state, sound')

  -- What `poll` says of the event: that its pipe can be read when there are bytes in it.
  abbrev pub readable : InterruptEvent P → Bool
  readable event = ltb 0 (laws.held event.pipe)

  readable_lem :
      (event : InterruptEvent P) → IsEvent event → readable event ≡ not (value event == 0)
  readable_lem event (inl (clear, empty)) =
      let unset : (event.state == 0) ≡ true = ground arith in
      let no_bytes : ltb 0 (laws.held event.pipe) ≡ false = ground arith in
      rw (unset, no_bytes) refl
  readable_lem event (inr (is_set, full)) =
      let triggered : (event.state == 0) ≡ false = ground arith in
      let some_bytes : ltb 0 (laws.held event.pipe) ≡ true = ground arith in
      rw (triggered, some_bytes) refl

  -- Rounds in which `poll` says that the device is ready and the read would block all the same.
  abbrev pub spurious : ℕ → List (PollAnswer × (ℕ ⊎ IoError)) → List (PollAnswer × (ℕ ⊎ IoError))
  spurious zero later = later
  spurious (suc n) later = (poll_ready true false, inr would_block) ∷ spurious n later

  waits :
      (n : ℕ) (set : Bool) (answer : ℕ ⊎ IoError)
      → read_interruptible (spurious n ((poll_ready false set, answer) ∷ []))
        ≡ some (err (if set then interrupted else fd_error))
  unfolding read_interruptible is_would_block
  waits zero true answer = refl
  waits zero false answer = refl
  waits (suc n) set answer = waits n set answer

  -- Over any steps with values that are not zero, from an event in step with its pipe: the steps answer
  -- `Ok(())` and leave an event in step with its pipe, whose value is that of the first trigger since
  -- the last reset, or zero; and a read that waits for the device, however often the device is ready in
  -- vain, answers `Interrupted` as soon as `poll` reports what the pipe holds, exactly when that value
  -- is not zero.
  pub run-read_interruptible :
      (steps : List Step) (event : InterruptEvent P) (n : ℕ) (answer : ℕ ⊎ IoError)
      → NonZero steps
      → IsEvent event
      → (event' : InterruptEvent P) × (run event steps ≡ some event')
        × (value event' ≡ meant (value event) steps)
        × IsEvent event'
        × (read_interruptible (spurious n ((poll_ready false (readable event'), answer) ∷ []))
            ≡ some (err (if meant (value event) steps == 0 then fd_error else interrupted)))
  run-read_interruptible steps event n answer values sound =
      let (event', runs, means, sound') = run_lem steps event values sound in
      (
        event',
        runs,
        means,
        sound',
        waits n (readable event') answer
            ∙ ap (λ b. some (err (if b then interrupted else fd_error)))
                (readable_lem event' sound' ∙ ap (λ v. not (v == 0)) means)
            ∙ either (meant (value event) steps == 0),
      )
