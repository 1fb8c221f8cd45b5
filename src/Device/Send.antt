-- ===== src/Device/Send.antt =====
-- The loop of `send_multiple0` against a description of what a batch hands to the device.
use tun_rs.Base.{
  sub64, subst, ℕ, suc, ◌+◌, ◌-◌, ◌≤◌, ◌<◌, ◌⊎◌, inl, inr, ◌≡◌, refl, sym, ◌∙◌, ap, Bool, true,
  false, if◌then◌else◌, Bool-cases, List, [], ◌∷◌, length, take, drop, add64, Option, none, some,
  Outcome, ok, err, IoError, arith,
}
use tun_rs.Checksum.{CpuFeatures}
use tun_rs.Virtio.{Endian, virtio_net_hdr_len}
use tun_rs.Gro.{ExpandBuffer, nth}
use tun_rs.Gro.Handle.{GroState, handle_gro}
use tun_rs.Device.{
  Written, wrote, failed, is_ebadfd, indices, write_packets, cleared_table, send_multiple,
}

module _ {W : Type 0} (write_f : W → List ℕ → Written × W) where
  -- The state of the receiver, and its answers, when packets are handed over one after the other.
  abbrev pub offers : W → List (List ℕ) → W
  offers world [] = world
  offers world (packet ∷ packets) = offers (write_f world packet).1 packets

  abbrev pub answers : W → List (List ℕ) → List Written
  answers world [] = []
  answers world (packet ∷ packets) =
      (write_f world packet).0 ∷ answers (write_f world packet).1 packets

abbrev settle : Option IoError → ℕ → Outcome ℕ
settle none total = ok total
settle (some error) total = err error

-- The last error if there is one, and the sum of what was written otherwise.
abbrev pub verdict : Option IoError → ℕ → List Written → Outcome ℕ
verdict error total [] = settle error total
verdict error total (wrote n ∷ rest) = verdict error (add64 total n) rest
verdict error total (failed code ∷ rest) = verdict (some code) total rest

Written-cases : (w : Written) → ((n : ℕ) × (w ≡ wrote n)) ⊎ ((code : IoError) × (w ≡ failed code))
Written-cases (wrote n) = inl (n, refl)
Written-cases (failed code) = inr (code, refl)

-- What the later rounds answer is what the rounds answer.
further :
    {W : Type 0} (ebadfd : ℕ) {n k : ℕ} {now later : Outcome ℕ × W}
    → now ≡ later
    → (n ≤ k) ⊎ ((code : IoError) × (is_ebadfd ebadfd code ≡ true) × (later.0 ≡ err code))
    → (suc n ≤ suc k) ⊎ ((code : IoError) × (is_ebadfd ebadfd code ≡ true) × (now.0 ≡ err code))
further ebadfd step (inl enough) = inl (omega arith)
further ebadfd step (inr (code, fatal, answer)) = inr (code, fatal, ap (λ r. r.0) step ∙ answer)

-- No answer is EBADFD.
abbrev pub Usable : ℕ → List Written → Type 0
Usable ebadfd [] = Unit
Usable ebadfd (wrote n ∷ rest) = Usable ebadfd rest
Usable ebadfd (failed code ∷ rest) = (is_ebadfd ebadfd code ≡ false) × Usable ebadfd rest

module _ {B : Type 0} (e : ExpandBuffer B) (bufs : List B) (offset : ℕ) where
  -- `packets` are the buffers of these indices, from the offset on.
  abbrev pub Packets : List ℕ → List (List ℕ) → Type 0
  Packets [] [] = Unit
  Packets [] (p ∷ packets) = ⊥
  Packets (i ∷ rest) [] = ⊥
  Packets (i ∷ rest) (p ∷ packets) =
      ((b : B) × (nth bufs i ≡ ok b)
        × (offset ≤ length (e.as_ref b))
        × (drop offset (e.as_ref b) ≡ p))
      × Packets rest packets

module _ {W : Type 0} (write_f : W → List ℕ → Written × W) (ebadfd : ℕ) {B : Type 0}
    (e : ExpandBuffer B) (bufs : List B) (offset : ℕ) where
  -- One round of the loop, for each answer.
  round_wrote :
      (i : ℕ) (rest p : List ℕ) (world : W) (error : Option IoError) (total : ℕ) (b : B) (n : ℕ)
      → nth bufs i ≡ ok b
      → offset ≤ length (e.as_ref b)
      → drop offset (e.as_ref b) ≡ p
      → (write_f world p).0 ≡ wrote n
      → write_packets write_f ebadfd e bufs offset (i ∷ rest) world error total
        ≡ write_packets write_f ebadfd e bufs offset rest (write_f world p).1 error (add64 total n)
  unfolding write_packets
  round_wrote i rest p world error total b n found reach same answer =
      rw (← same) (ground (arith, found, at_place))
    where
      at_place : (write_f world (drop offset (e.as_ref b))).0 ≡ wrote n
      at_place = rw same answer

  round_failed :
      (i : ℕ) (rest p : List ℕ) (world : W) (error : Option IoError) (total : ℕ) (b : B)
      (code : IoError)
      → nth bufs i ≡ ok b
      → offset ≤ length (e.as_ref b)
      → drop offset (e.as_ref b) ≡ p
      → (write_f world p).0 ≡ failed code
      → write_packets write_f ebadfd e bufs offset (i ∷ rest) world error total ≡ (
          if is_ebadfd ebadfd code
          then (err code, (write_f world p).1)
          else write_packets write_f ebadfd e bufs offset rest
              (write_f world p).1
              (some code)
              total)
  unfolding write_packets
  round_failed i rest p world error total b code found reach same answer =
      rw (← same) (ground (arith, found, at_place))
    where
      at_place : (write_f world (drop offset (e.as_ref b))).0 ≡ failed code
      at_place = rw same answer

  -- While no write answers EBADFD, every packet of the indices is handed over once and in order, the
  -- total is the sum of what was written, and the last error, if any, is returned instead.
  pub write_packets_lem :
      (index : List ℕ) (packets : List (List ℕ)) (world : W) (error : Option IoError) (total : ℕ)
      → Packets e bufs offset index packets
      → Usable ebadfd (answers write_f world packets)
      → write_packets write_f ebadfd e bufs offset index world error total
        ≡ (verdict error total (answers write_f world packets), offers write_f world packets)
  unfolding write_packets
  write_packets_lem [] [] world none total h u = refl
  write_packets_lem [] [] world (some x) total h u = refl
  write_packets_lem (i ∷ rest) (p ∷ packets) world error total ((b, found, reach, same), h) u =
      elim (Written-cases (write_f world p).0) [
        | inl (n, answer) ↦
            round_wrote i rest p world error total b n found reach same answer
            ∙ write_packets_lem rest packets (write_f world p).1 error (add64 total n) h (
                subst (λ w. Usable ebadfd (w ∷ answers write_f (write_f world p).1 packets)) answer
                  u)
            ∙ ap
                (λ w. (
                  verdict error total (w ∷ answers write_f (write_f world p).1 packets),
                  offers write_f world (p ∷ packets),
                ))
                (sym answer)
        | inr (code, answer) ↦
            let usable =
              subst (λ w. Usable ebadfd (w ∷ answers write_f (write_f world p).1 packets)) answer
                u in
            round_failed i rest p world error total b code found reach same answer
            ∙ rw usable.0
                (write_packets_lem rest packets (write_f world p).1 (some code) total h usable.1)
            ∙ ap
                (λ w. (
                  verdict error total (w ∷ answers write_f (write_f world p).1 packets),
                  offers write_f world (p ∷ packets),
                ))
                (sym answer)
      ]
  write_packets_lem [] (p ∷ packets) world error total h u = elim h [ ]
  write_packets_lem (i ∷ rest) [] world error total h u = elim h [ ]

  -- Whatever the answers, what is handed over is a beginning of the packets in order: all of them, or
  -- those up to the first EBADFD, which is then returned.
  pub write_packets_prefix :
      (index : List ℕ) (packets : List (List ℕ)) (world : W) (error : Option IoError) (total : ℕ)
      → Packets e bufs offset index packets
      → (k : ℕ) × ((write_packets write_f ebadfd e bufs offset index world error total).1
          ≡ offers write_f world (take k packets))
        × ((length packets ≤ k)
            ⊎ ((code : IoError) × (is_ebadfd ebadfd code ≡ true)
                × ((write_packets write_f ebadfd e bufs offset index world error total).0
                    ≡ err code)))
  unfolding write_packets
  write_packets_prefix [] [] world none total h = (0, refl, inl (omega arith))
  write_packets_prefix [] [] world (some x) total h = (0, refl, inl (omega arith))
  write_packets_prefix (i ∷ rest) (p ∷ packets) world error total ((b, found, reach, same), h) =
      elim (Written-cases (write_f world p).0) [
        | inl (n, answer) ↦
            let (k, prefix, why) =
              write_packets_prefix rest packets (write_f world p).1 error (add64 total n) h in
            let step = round_wrote i rest p world error total b n found reach same answer in
            (suc k, ap (λ r. r.1) step ∙ prefix, further ebadfd step why)
        | inr (code, answer) ↦
            let step = round_failed i rest p world error total b code found reach same answer in
            elim (Bool-cases (is_ebadfd ebadfd code)) [
              | inl fatal ↦
                  let stop = step ∙ rw fatal refl in
                  (1, ap (λ r. r.1) stop, inr (code, fatal, ap (λ r. r.0) stop))
              | inr usable ↦
                  let going = step ∙ rw usable refl in
                  let (k, prefix, why) =
                    write_packets_prefix rest packets (write_f world p).1 (some code) total h in
                  (suc k, ap (λ r. r.1) going ∙ prefix, further ebadfd going why)
            ]
      ]
  write_packets_prefix [] (p ∷ packets) world error total h = elim h [ ]
  write_packets_prefix (i ∷ rest) [] world error total h = elim h [ ]

  -- Every buffer reaches to the offset, and what the buffers hold behind it.
  abbrev pub AllReach : List B → Type 0
  AllReach [] = Unit
  AllReach (b ∷ rest) = (offset ≤ length (e.as_ref b)) × AllReach rest

  abbrev pub behind : List B → List (List ℕ)
  behind [] = []
  behind (b ∷ rest) = drop offset (e.as_ref b) ∷ behind rest

  indices-Packets :
      (from : ℕ) (rest : List B)
      → ((j : ℕ) → nth bufs (from + j) ≡ nth rest j)
      → AllReach rest
      → Packets e bufs offset (indices from (length rest)) (behind rest)
  unfolding nth
  indices-Packets from [] same reach = tt
  indices-Packets from (b ∷ rest) same reach =
      let here : from ≡ from + 0 = omega arith in
      (
        (b, rw here (same 0), reach.0, refl),
        indices-Packets (from + 1) rest
            (λ j. let next : from + 1 + j ≡ from + suc j = omega arith in rw next (same (suc j)))
            reach.1,
      )

  module _ (cpu : CpuFeatures) (order : Endian) (udp_gso : Bool) (world : W) where
    -- Without offload, for one to 65535 buffers that all reach to the offset and no EBADFD,
    -- `send_multiple0` hands every packet over once and in order, whatever errors the others meet, and
    -- returns the sum of what was written or the last error.
    pub send_multiple_plain :
        (g : GroState B)
        → g.bufs ≡ bufs
        → 0 < length bufs
        → length bufs ≤ 65535
        → AllReach bufs
        → Usable ebadfd (answers write_f world (behind bufs))
        → send_multiple write_f ebadfd e cpu order false udp_gso g offset world ≡ (
          verdict none 0 (answers write_f world (behind bufs)),
          offers write_f world (behind bufs),
        )
    unfolding send_multiple
    send_multiple_plain g same some_bufs few reach usable =
        let sent =
          write_packets_lem (indices 0 (length bufs)) (behind bufs) world none 0
            (indices-Packets 0 bufs (λ j. let zero_on : 0 + j ≡ j = omega arith in rw zero_on refl)
              reach)
            usable in
        rw same (ground (arith, sent))

-- With offload, for one to 65535 buffers, an offset with room for the `virtio` header that fits 64 bits,
-- and no EBADFD: once `handle_gro` has succeeded and its packets reach to the header,
-- `send_multiple0` hands over the packets that it left in `to_write`, from the `virtio` header on, each
-- once and in order, and returns the sum of what was written or the last error.
pub send_multiple_offload :
    {W : Type 0} (write_f : W → List ℕ → Written × W) (ebadfd : ℕ) {B : Type 0} (e : ExpandBuffer B)
    (cpu : CpuFeatures) (order : Endian) (udp_gso : Bool) (world : W) (g g1 : GroState B)
    (offset : ℕ) (packets : List (List ℕ))
    → 0 < length g.bufs
    → length g.bufs ≤ 65535
    → virtio_net_hdr_len ≤ offset
    → offset < 18446744073709551616
    → handle_gro e cpu order offset udp_gso (cleared_table g) ≡ ok g1
    → Packets e g1.bufs (offset - virtio_net_hdr_len) g1.to_write packets
    → Usable ebadfd (answers write_f world packets)
    → send_multiple write_f ebadfd e cpu order true udp_gso g offset world
      ≡ (verdict none 0 (answers write_f world packets), offers write_f world packets)
unfolding send_multiple
send_multiple_offload write_f ebadfd e cpu order udp_gso world g g1 offset packets some_bufs few
      above below joined held usable =
    let sent =
      write_packets_lem write_f ebadfd e g1.bufs (offset - virtio_net_hdr_len) g1.to_write packets
        world none 0 held usable in
    let front : sub64 offset virtio_net_hdr_len ≡ offset - virtio_net_hdr_len = omega arith in
    ground (arith, joined, front, sent)
