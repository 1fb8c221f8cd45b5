-- ===== src/Framed/Tests.antt =====
-- Runs of a framed device on small packets, and its theorems at concrete inputs: the stream.
use tun_rs.Base.{
  ℕ, ◌≡◌, refl, List, [], ◌∷◌, ◌++◌, length, take, replicate, get_or, ◌==◌, if◌then◌else◌, Outcome,
  ok, none, some, inl, IoError, arith, at, slice, slice_from, write, write_at, read_u16, read_u32,
  write_u16, write_u32,
}
use tun_rs.Virtio.{little, hdr_bytes, decode}
use tun_rs.Gso.{gso_split}
use tun_rs.Gso.Tests.{cpu, udp_packet, udp_hdr, three_sizes}
use tun_rs.Gro.{nth}
use tun_rs.Device.{handle_virtio_read}
use tun_rs.Framed.{ready, pending, Decoder, decode_eof, bytes_codec_decoder}
use tun_rs.Framed.Splitter.{PacketSplitter, handle}
use tun_rs.Framed.Read.{DeviceRead, Refused, poll_next}
use tun_rs.Framed.Read.Segments.{waiting, IsSplitter}
use tun_rs.Framed.Read.Stream.{
  reading, taken, polls, NonEmpty, frames, poll_next-waiting, poll_next-drops,
}

-- A splitter with room for three segments, and what an error would leave.
abbrev three : PacketSplitter
three = record {
  bufs = replicate 3 (replicate 30 0);
  sizes = three_sizes;
  recv_index = 0;
  recv_num = 0;
  recv_buffer_size = 30;
}

abbrev keeps : PacketSplitter → List ℕ → Refused
keeps s input = record { bufs = s.bufs; sizes = s.sizes; input = input }

abbrev spare_room : List ℕ
spare_room = hdr_bytes little udp_hdr ++ (udp_packet ++ replicate 5 0)

abbrev handled : Outcome (PacketSplitter × List ℕ)
handled = handle cpu little three (take 43 spare_room)

abbrev made_or : PacketSplitter → Outcome (PacketSplitter × List ℕ) → PacketSplitter × List ℕ
made_or s (ok r) = r
made_or s _ = (s, [])

handled_facts :
    (handled ≡ ok (made_or three handled))
    × NonEmpty (waiting (made_or three handled).0)
    × (length (waiting (made_or three handled).0) ≡ 3)
unfolding handle handle_virtio_read gso_split decode nth slice slice_from write write_at at read_u16
    read_u32 write_u16 write_u32
handled_facts = (refl, omega arith, refl)

abbrev nothing : DeviceRead
nothing = record { spare = []; answer = pending }

poll_next-waiting_example :
    (s' : PacketSplitter) × (polls bytes_codec_decoder cpu little keeps
        (reading 30 [] three)
        tt
        (record { spare = spare_room; answer = ready (inl 43) } ∷ nothing ∷ nothing ∷ [])
      ≡ ok
          (frames (waiting (made_or three handled).0), reading 30 (made_or three handled).1 s', tt))
    × (waiting s' ≡ [])
    × IsSplitter s'
poll_next-waiting_example =
    poll_next-waiting cpu little keeps 30 [] three (made_or three handled).0
      (made_or three handled).1 43 spare_room (waiting (made_or three handled).0)
      (nothing ∷ nothing ∷ []) (omega arith) refl (omega arith) handled_facts.0 refl handled_facts.1
      handled_facts.2

-- A decoder that takes packets that begin with 9 and makes no frame of them.
abbrev skips_nine : Decoder Unit (List ℕ) IoError
skips_nine = record {
  decode = λ codec buf. (inl (if get_or buf 0 0 == 9 then none else some buf), [], codec);
  from_io = λ error. error;
}

abbrev two_waiting : PacketSplitter
two_waiting = record {
  bufs = (9 ∷ 9 ∷ []) ∷ (1 ∷ 2 ∷ []) ∷ [];
  sizes = 2 ∷ 2 ∷ [];
  recv_index = 0;
  recv_num = 2;
  recv_buffer_size = 4;
}

-- A packet of one byte that is not segmented.
abbrev short_read : List ℕ
short_read = replicate 10 0 ++ 7 ∷ []

abbrev replaced : PacketSplitter
replaced = record {
  bufs = (7 ∷ []) ∷ (1 ∷ 2 ∷ 0 ∷ 0 ∷ []) ∷ [];
  sizes = 1 ∷ 2 ∷ [];
  recv_index = 0;
  recv_num = 1;
  recv_buffer_size = 4;
}

short_handled : handle cpu little (taken two_waiting []) short_read ≡ ok (replaced, short_read)
unfolding handle handle_virtio_read decode nth slice slice_from write
short_handled = refl

nine_taken : decode_eof skips_nine tt (9 ∷ 9 ∷ []) ≡ (inl none, [], tt)
unfolding decode_eof
nine_taken = refl

seven_decoded : decode_eof skips_nine tt (7 ∷ []) ≡ (inl (some (7 ∷ [])), [], tt)
unfolding decode_eof
seven_decoded = refl

-- The packet 1 2 is never decoded.
poll_next-drops_example :
    (poll_next skips_nine cpu little keeps
        (reading 4 [] two_waiting)
        tt
        (record { spare = short_read; answer = pending })
      ≡ ok (pending, reading 4 [] (taken two_waiting []), tt))
    × (poll_next skips_nine cpu little keeps
          (reading 4 [] two_waiting)
          tt
          (record { spare = short_read; answer = ready (inl 11) })
        ≡ ok (ready (some (inl (7 ∷ []))), reading 4 short_read (taken replaced []), tt))
    × (waiting (taken replaced []) ≡ [])
poll_next-drops_example =
    poll_next-drops skips_nine cpu little keeps 4 [] two_waiting tt tt tt 11 short_read replaced
      short_read (9 ∷ 9 ∷ []) (7 ∷ []) [] ((1 ∷ 2 ∷ []) ∷ []) [] (inl (some (7 ∷ []))) refl
      nine_taken (omega arith) short_handled refl seven_decoded
