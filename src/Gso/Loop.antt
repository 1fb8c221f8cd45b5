-- ===== src/Gso/Loop.antt =====
-- The loop of `gso_split` over the output buffers.
use tun_rs.Base.{
  ℕ, zero, suc, ◌+◌, ◌-◌, ◌*◌, ◌≤◌, ◌<◌, ◌⊎◌, inl, inr, ◌≡◌, ◌≢◌, refl, sym, ap, false, ltb, ◌||◌,
  Bool-cases, List, [], ◌∷◌, ◌++◌, length, take, drop, IsBytes, Outcome, ok, panic, arith,
  length-drop, ltb→lt, min, drop-take-append, drop-drop, drop-all, take-clamp, take-append-drop,
}
use tun_rs.Base.Bytes.{IsBytes-drop}
use tun_rs.Checksum.{CpuFeatures}
use tun_rs.Gso.{Plan, Split, segments, fill_segment}
use tun_rs.Gso.Pseudo.{IsPlan}
use tun_rs.Gso.SegmentSpec.{IsSegment, Fills}
use tun_rs.Gso.Segment.{fill_segment-Fills}

-- Every output buffer holds bytes.
abbrev pub AllBytes : List (List ℕ) → Type 0
AllBytes [] = Unit
AllBytes (buf ∷ bufs) = IsBytes buf × AllBytes bufs

-- Every output buffer has room for a segment of full size behind the offset.
abbrev pub AllRoom : ℕ → List (List ℕ) → Type 0
AllRoom need [] = Unit
AllRoom need (buf ∷ bufs) = (need ≤ length buf) × AllRoom need bufs

-- Where the segment from `from` on ends.
abbrev pub segment_end : Plan → ℕ → ℕ
segment_end plan from = min (from + plan.hdr.gso_size) (length plan.input)

wide_room :
    (offset : ℕ) (buf : List ℕ) (need : ℕ)
    → (ltb (length buf) offset || ltb (length buf - offset) need) ≡ false
    → offset + need ≤ length buf
wide_room offset buf need h = ground arith

roomy :
    (offset : ℕ) (buf : List ℕ) (need : ℕ)
    → offset + need ≤ length buf
    → (ltb (length buf) offset || ltb (length buf - offset) need) ≡ false
roomy offset buf need h = ground arith

module _ (cpu : CpuFeatures) (plan : Plan) (out_offset : ℕ) where
  -- The first `rounds` buffers hold the segments from number `i` on, which take the input from `from`
  -- to its end; each size is the length of its segment.
  abbrev pub Holds : ℕ → ℕ → ℕ → List (List ℕ) → List ℕ → Type 0
  Holds zero i from bufs sizes = length plan.input ≤ from
  Holds (suc rounds) i from [] sizes = ⊥
  Holds (suc rounds) i from (buf ∷ bufs) [] = ⊥
  Holds (suc rounds) i from (buf ∷ bufs) (size ∷ sizes) =
      (from < length plan.input)
      × (size ≡ plan.hdr.hdr_len + (segment_end plan from - from))
      × IsSegment cpu plan i from (segment_end plan from) (drop out_offset buf)
      × Holds rounds (i + 1) (from + plan.hdr.gso_size) bufs sizes

  -- A normal return of the loop.
  pub record Done (i from : ℕ) (result : Outcome Split) : Type 0 where
    pub split : Split
    pub rounds : ℕ
    pub returns : result ≡ ok split
    pub same_input : split.input ≡ plan.input
    pub counted : split.count ≡ i + rounds
    pub holds : Holds rounds i from split.out_bufs split.sizes

  module _ (v : IsPlan plan) where
    filled :
        (i from : ℕ) (buf : List ℕ)
        → IsBytes buf
        → from < length plan.input
        → out_offset + (plan.hdr.hdr_len + (segment_end plan from - from)) ≤ length buf
        → Fills cpu plan i from
            (segment_end plan from)
            (drop out_offset buf)
            (fill_segment cpu plan i from (segment_end plan from) (drop out_offset buf))
    filled i from buf bytes more room =
        fill_segment-Fills cpu plan i from (segment_end plan from) (drop out_offset buf) v
          (IsBytes-drop out_offset buf bytes) (omega arith) (omega arith)
          (omega (arith, length-drop out_offset buf)) (omega (arith, v.hdr.gso_size_u16))

    -- With bytes in the buffers, room in each, sizes for each, and buffers for the rest of the input,
    -- the loop returns.
    pub segments-Done :
        (bufs : List (List ℕ)) (sizes : List ℕ) (i from : ℕ)
        → AllBytes bufs
        → AllRoom (out_offset + plan.hdr.hdr_len + plan.hdr.gso_size) bufs
        → length bufs ≤ length sizes
        → length plan.input ≤ from + length bufs * plan.hdr.gso_size
        → Done i from (segments cpu plan out_offset bufs sizes i from)
    unfolding segments
    segments-Done [] sizes i from bytes room enough fits = record {
      split = record { input = plan.input; out_bufs = []; sizes = sizes; count = i };
      rounds = 0;
      returns = ground arith;
      same_input = refl;
      counted = omega arith;
      holds = omega arith;
    }
    segments-Done (buf ∷ bufs) [] i from bytes room enough fits = absurd (omega arith)
    segments-Done (buf ∷ bufs) (size ∷ sizes) i from bytes room enough fits =
        elim (Bool-cases (ltb from (length plan.input))) [
          | inl more ↦
              let lt = ltb→lt from (length plan.input) more in
              let now = filled i from buf bytes.0 lt (omega arith) in
              let later =
                segments-Done bufs sizes (i + 1) (from + plan.hdr.gso_size) bytes.1 room.1
                  (omega arith) (omega arith) in
              record {
                split = record later.split {
                  out_bufs = (take out_offset buf ++ now.out') ∷ later.split.out_bufs;
                  sizes = (plan.hdr.hdr_len + (segment_end plan from - from)) ∷ later.split.sizes;
                };
                rounds = suc later.rounds;
                returns = rw (
                  more,
                  roomy out_offset buf (plan.hdr.hdr_len + (segment_end plan from - from))
                      (omega arith),
                  now.returns,
                  later.returns,
                );
                same_input = later.same_input;
                counted = omega (arith, later.counted);
                holds = (
                  lt,
                  refl,
                  rw (drop-take-append out_offset buf now.out' (omega arith)) now.segment,
                  later.holds,
                );
              }
          | inr over ↦ record {
            split = record {
              input = plan.input;
              out_bufs = buf ∷ bufs;
              sizes = size ∷ sizes;
              count = i;
            };
            rounds = 0;
            returns = rw over;
            same_input = refl;
            counted = omega arith;
            holds = ground arith;
          }
        ]

    -- Whatever room there is, the loop does not panic.
    pub segments-ne-panic :
        (bufs : List (List ℕ)) (sizes : List ℕ) (i from : ℕ)
        → AllBytes bufs
        → length bufs ≤ length sizes
        → segments cpu plan out_offset bufs sizes i from ≢ panic
    unfolding segments
    segments-ne-panic [] sizes i from bytes enough = ground arith
    segments-ne-panic (buf ∷ bufs) [] i from bytes enough = absurd (omega arith)
    segments-ne-panic (buf ∷ bufs) (size ∷ sizes) i from bytes enough =
        let need = plan.hdr.hdr_len + (segment_end plan from - from) in
        elim (Bool-cases (ltb from (length plan.input))) [
          | inr over ↦ rw over (ground arith)
          | inl more ↦
              elim (Bool-cases
                (ltb (length buf) out_offset || ltb (length buf - out_offset) need)) [
                  | inl tight ↦ rw (more, tight) (ground arith)
                  | inr wide ↦
                      let now =
                        filled i from buf bytes.0 (ltb→lt from (length plan.input) more)
                          (wide_room out_offset buf need wide) in
                      rw (more, wide, now.returns)
                        (ground (
                          arith,
                          segments-ne-panic bufs sizes (i + 1) (from + plan.hdr.gso_size) bytes.1
                              (omega arith),
                        ))
                ]
        ]

  -- The rounds are as many as the rest of the input needs.
  pub Holds-rounds :
      (rounds i from : ℕ) (bufs : List (List ℕ)) (sizes : List ℕ)
      → Holds rounds i from bufs sizes
      → (length plan.input ≤ from + rounds * plan.hdr.gso_size)
        × (from + rounds * plan.hdr.gso_size < length plan.input + plan.hdr.gso_size ⊎ (rounds ≡ 0))
  Holds-rounds zero i from bufs sizes h = (omega arith, inr refl)
  Holds-rounds (suc rounds) i from [] sizes h = elim h [ ]
  Holds-rounds (suc rounds) i from (buf ∷ bufs) [] h = elim h [ ]
  Holds-rounds (suc rounds) i from (buf ∷ bufs) (size ∷ sizes) h =
      let r = Holds-rounds rounds (i + 1) (from + plan.hdr.gso_size) bufs sizes h.3 in
      let none_left = λ (e : rounds ≡ 0). ap (λ (t : ℕ). t * plan.hdr.gso_size) e in
      (
        omega arith,
        inl (elim r.1 [ inl some ↦ omega arith | inr none ↦ omega (arith, none_left none) ]),
      )

  -- The payloads of the first `rounds` buffers, one after the other.
  abbrev pub payloads : ℕ → List (List ℕ) → List ℕ → List ℕ
  payloads zero bufs sizes = []
  payloads (suc rounds) [] sizes = []
  payloads (suc rounds) (buf ∷ bufs) [] = []
  payloads (suc rounds) (buf ∷ bufs) (size ∷ sizes) =
      take (size - plan.hdr.hdr_len) (drop plan.hdr.hdr_len (drop out_offset buf))
      ++ payloads rounds bufs sizes

  -- They make up the rest of the input.
  pub Holds-payloads :
      (rounds i from : ℕ) (bufs : List (List ℕ)) (sizes : List ℕ)
      → Holds rounds i from bufs sizes
      → payloads rounds bufs sizes ≡ drop from plan.input
  Holds-payloads zero i from bufs sizes h = sym (drop-all from plan.input h)
  Holds-payloads (suc rounds) i from [] sizes h = elim h [ ]
  Holds-payloads (suc rounds) i from (buf ∷ bufs) [] h = elim h [ ]
  Holds-payloads (suc rounds) i from (buf ∷ bufs) (size ∷ sizes) h =
      let rest = drop from plan.input in
      let until = segment_end plan from in
      let data_len : size - plan.hdr.hdr_len ≡ until - from = omega arith in
      let same =
        take-clamp plan.hdr.gso_size (until - from) rest
          (omega (arith, length-drop from plan.input)) in
      rw
        (
          data_len,
          h.2.payload,
          same,
          Holds-payloads rounds (i + 1) (from + plan.hdr.gso_size) bufs sizes h.3,
          ← drop-drop plan.hdr.gso_size from plan.input,
        )
        (take-append-drop plan.hdr.gso_size rest)
