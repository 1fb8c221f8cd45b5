-- ===== src/Framed/Read/Stream.antt =====
-- `poll_next` on a device with offload: the segments of one read come out as the frames, in order.
use tun_rs.Base.{
  ℕ, suc, ◌+◌, ◌≤◌, ◌<◌, ◌≡◌, refl, List, [], ◌∷◌, length, length-set, take, set, false, ltb,
  Option, none, some, ◌⊎◌, inl, Outcome, ok, ◌>>=◌, IoError, arith,
}
use tun_rs.Checksum.{CpuFeatures}
use tun_rs.Virtio.{Endian}
use tun_rs.Framed.{Poll, ready, pending, Decoder, decode_eof, bytes_codec_decoder}
use tun_rs.Framed.Splitter.{PacketSplitter, handle}
use tun_rs.Framed.Read.{
  ReadState, DeviceRead, Refused, stream_item, decode_next, take_packet, poll_read, poll_next,
}
use tun_rs.Framed.Read.Segments.{
  waiting, IsSplitter, handle-waiting, next_lem, next_waiting, next-none,
}

-- The state of a device with offload.
abbrev pub reading : ℕ → List ℕ → PacketSplitter → ReadState
reading size rd splitter = record {
  recv_buffer_size = size;
  rd = rd;
  packet_splitter = some splitter;
}

-- The splitter once a segment is taken and `rest` is left of it.
abbrev pub taken : PacketSplitter → List ℕ → PacketSplitter
taken s rest = record s { recv_index = s.recv_index + 1; bufs = set s.bufs s.recv_index rest }

module _ {C Item Error : Type 0} (d : Decoder C Item Error) where
  pub decode_next_lem :
      (s : PacketSplitter) (codec codec1 : C) (p rest : List ℕ) (ps : List (List ℕ))
      (answer : Option Item ⊎ Error)
      → waiting s ≡ p ∷ ps
      → decode_eof d codec p ≡ (answer, rest, codec1)
      → decode_next d s codec ≡ ok (stream_item answer, taken s rest, codec1)
  unfolding decode_next
  decode_next_lem s codec codec1 p rest ps answer h decodes = rw (next_lem s p ps h, decodes) refl

  module _ (cpu : CpuFeatures) (order : Endian) (refused : PacketSplitter → List ℕ → Refused) where
    -- While segments wait, a poll decodes the next one and does not read the device.
    pub poll_first :
        (size : ℕ) (rd : List ℕ) (s : PacketSplitter) (codec codec1 : C) (received : DeviceRead)
        (p rest : List ℕ) (ps : List (List ℕ)) (frame : Item)
        → waiting s ≡ p ∷ ps
        → decode_eof d codec p ≡ (inl (some frame), rest, codec1)
        → poll_next d cpu order refused (reading size rd s) codec received
          ≡ ok (ready (some (inl frame)), reading size rd (taken s rest), codec1)
    unfolding poll_next
    poll_first size rd s codec codec1 received p rest ps frame h decodes =
        rw (decode_next_lem s codec codec1 p rest ps (inl (some frame)) h decodes) refl

    take_packet_lem :
        (size : ℕ) (rd : List ℕ) (s : PacketSplitter) (codec codec1 : C) (split : PacketSplitter)
        (input p rest : List ℕ) (ps : List (List ℕ)) (answer : Option Item ⊎ Error)
        → handle cpu order s rd ≡ ok (split, input)
        → waiting split ≡ p ∷ ps
        → decode_eof d codec p ≡ (answer, rest, codec1)
        → take_packet d cpu order refused (reading size rd s) codec
          ≡ ok (ready (stream_item answer), reading size input (taken split rest), codec1)
    unfolding take_packet
    take_packet_lem size rd s codec codec1 split input p rest ps answer splits h decodes =
        ground (arith, splits, decode_next_lem split codec codec1 p rest ps answer h decodes)

    decode_next-none :
        (s : PacketSplitter) (codec : C)
        → IsSplitter s
        → waiting s ≡ []
        → decode_next d s codec ≡ ok (none, s, codec)
    unfolding decode_next
    decode_next-none s codec room drained = rw (next-none s room drained) refl

    -- Once none waits, a poll reads the device, and a packet that is read and can be split gives its
    -- first segment.
    pub poll_next_reads :
        (size : ℕ) (rd : List ℕ) (s : PacketSplitter) (codec codec1 : C) (len : ℕ) (spare : List ℕ)
        (split : PacketSplitter) (input p rest : List ℕ) (ps : List (List ℕ)) (frame : Item)
        → IsSplitter s
        → waiting s ≡ []
        → len ≤ length spare
        → handle cpu order s (take len spare) ≡ ok (split, input)
        → waiting split ≡ p ∷ ps
        → decode_eof d codec p ≡ (inl (some frame), rest, codec1)
        → poll_next d cpu order refused
            (reading size rd s)
            codec
            (record { spare = spare; answer = ready (inl len) })
          ≡ ok (ready (some (inl frame)), reading size input (taken split rest), codec1)
    unfolding poll_next poll_read
    poll_next_reads size rd s codec codec1 len spare split input p rest ps frame room drained fits
          splits h decodes =
        let within : ltb (length spare) len ≡ false = ground arith in
        ground (
          arith,
          within,
          decode_next-none s codec room drained,
          take_packet_lem size (take len spare) s codec codec1 split input p rest ps
              (inl (some frame)) splits h decodes,
        )

    -- Polls one after the other.
    abbrev pub polls :
        ReadState
        → C
        → List DeviceRead
        → Outcome (List (Poll (Option (Item ⊎ Error))) × ReadState × C)
    polls state codec [] = ok ([], state, codec)
    polls state codec (received ∷ later) = do
      (answer, state1, codec1) ← poll_next d cpu order refused state codec received
      (answers, state2, codec2) ← polls state1 codec1 later
      ok (answer ∷ answers, state2, codec2)

-- No segment is empty, and what the bytes codec makes of them.
abbrev pub NonEmpty : List (List ℕ) → Type 0
NonEmpty [] = Unit
NonEmpty (p ∷ ps) = (0 < length p) × NonEmpty ps

abbrev pub frames : List (List ℕ) → List (Poll (Option (List ℕ ⊎ IoError)))
frames [] = []
frames (p ∷ ps) = ready (some (inl p)) ∷ frames ps

bytes_frame :
    (p : List ℕ) → 0 < length p → decode_eof bytes_codec_decoder tt p ≡ (inl (some p), [], tt)
unfolding decode_eof
bytes_frame [] h = absurd (omega arith)
bytes_frame (x ∷ p) h = refl

module _ (cpu : CpuFeatures) (order : Endian) (refused : PacketSplitter → List ℕ → Refused) where
  drains :
      (size : ℕ) (rd : List ℕ) (ps : List (List ℕ)) (s : PacketSplitter) (later : List DeviceRead)
      → IsSplitter s
      → waiting s ≡ ps
      → NonEmpty ps
      → length later ≡ length ps
      → (s' : PacketSplitter) × (polls bytes_codec_decoder cpu order refused
            (reading size rd s)
            tt
            later
          ≡ ok (frames ps, reading size rd s', tt))
        × (waiting s' ≡ [])
        × IsSplitter s'
  drains size rd [] s [] room h some_bytes same = (s, refl, h, room)
  drains size rd (p ∷ ps) s (received ∷ later) room h some_bytes same =
      let decodes = bytes_frame p some_bytes.0 in
      let (s', ran, empty, still) =
        drains size rd ps (taken s []) later
          (omega (arith, room, length-set s.bufs s.recv_index [])) (next_waiting s p [] ps h)
          some_bytes.1 (omega (arith, same)) in
      let polled =
        poll_first bytes_codec_decoder cpu order refused size rd s tt tt received p [] ps p h
          decodes in
      (s', rw (polled, ran) refl, empty, still)
  drains size rd [] s (received ∷ later) room h some_bytes same = absurd (omega (arith, same))
  drains size rd (p ∷ ps) s [] room h some_bytes same = absurd (omega (arith, same))

  -- For the bytes codec on a device with offload whose splitter has handed out everything: when the
  -- device reads a packet that fits the buffer and that `handle` splits into one or more segments, none
  -- of them empty, then that poll and the next polls, one for each segment, answer the segments in
  -- order, whatever the device would have answered to the others, and the splitter is drained again.
  pub poll_next-waiting :
      (size : ℕ) (rd : List ℕ) (s split : PacketSplitter) (input : List ℕ) (len : ℕ)
      (spare : List ℕ) (segments : List (List ℕ)) (later : List DeviceRead)
      → IsSplitter s
      → waiting s ≡ []
      → len ≤ length spare
      → handle cpu order s (take len spare) ≡ ok (split, input)
      → waiting split ≡ segments
      → NonEmpty segments
      → length segments ≡ suc (length later)
      → (s' : PacketSplitter) × (polls bytes_codec_decoder cpu order refused
            (reading size rd s)
            tt
            (record { spare = spare; answer = ready (inl len) } ∷ later)
          ≡ ok (frames segments, reading size input s', tt))
        × (waiting s' ≡ [])
        × IsSplitter s'
  poll_next-waiting size rd s split input len spare [] later room drained fits splits h some_bytes
        same =
      absurd (omega (arith, same))
  poll_next-waiting size rd s split input len spare (p ∷ ps) later room drained fits splits h
        some_bytes same =
      let decodes = bytes_frame p some_bytes.0 in
      let first =
        poll_next_reads bytes_codec_decoder cpu order refused size rd s tt tt len spare split input
          p [] ps p room drained fits splits h decodes in
      let (s', ran, empty, still) =
        drains size input ps (taken split []) later
          (omega (
            arith,
            (handle-waiting cpu order s (take len spare) (split, input) splits).0,
            length-set split.bufs split.recv_index [],
          ))
          (next_waiting split p [] ps h) some_bytes.1 (omega (arith, same)) in
      (s', rw (first, ran) refl, empty, still)

module _ {C Item Error : Type 0} (d : Decoder C Item Error) (cpu : CpuFeatures) (order : Endian)
    (refused : PacketSplitter → List ℕ → Refused) where
  -- When the decoder takes the whole of a waiting segment and finds no frame in it, the same poll reads
  -- the device although the segments `ps` still wait: when the device has nothing, the poll answers
  -- pending; when it reads a packet that can be split, the splitter's segments become those of the new
  -- packet, of which the first is decoded, and `ps` are never decoded.
  pub poll_next-drops :
      (size : ℕ) (rd : List ℕ) (s : PacketSplitter) (codec codec1 codec2 : C) (len : ℕ)
      (spare : List ℕ) (split : PacketSplitter) (input p q rest : List ℕ) (ps qs : List (List ℕ))
      (answer : Option Item ⊎ Error)
      → waiting s ≡ p ∷ ps
      → decode_eof d codec p ≡ (inl none, [], codec1)
      → len ≤ length spare
      → handle cpu order (taken s []) (take len spare) ≡ ok (split, input)
      → waiting split ≡ q ∷ qs
      → decode_eof d codec1 q ≡ (answer, rest, codec2)
      → (poll_next d cpu order refused
            (reading size rd s)
            codec
            (record { spare = spare; answer = pending })
          ≡ ok (pending, reading size [] (taken s []), codec1))
        × (poll_next d cpu order refused
              (reading size rd s)
              codec
              (record { spare = spare; answer = ready (inl len) })
            ≡ ok (ready (stream_item answer), reading size input (taken split rest), codec2))
        × (waiting (taken split rest) ≡ qs)
  unfolding poll_next poll_read
  poll_next-drops size rd s codec codec1 codec2 len spare split input p q rest ps qs answer h
        decodes fits splits more decodes_next =
      let within : ltb (length spare) len ≡ false = ground arith in
      let first = decode_next_lem d s codec codec1 p [] ps (inl none) h decodes in
      (
        ground (arith, first),
        ground (
          arith,
          within,
          first,
          take_packet_lem d cpu order refused size (take len spare) (taken s []) codec1 codec2 split
              input q rest qs answer splits more decodes_next,
        ),
        next_waiting split q rest qs more,
      )
