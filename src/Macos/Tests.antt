-- ===== src/Macos/Tests.antt =====
-- A read of two records, with a header of four bytes, and what becomes of its packets.
use tun_rs.Base.{
  IoError, Outcome, ℕ, ◌+◌, ◌-◌, ◌≡◌, refl, List, [], ◌∷◌, ◌++◌, drop, get_or, replicate, none,
  some, inl, inr, ok, err, would_block, timed_out, arith,
}
use tun_rs.Framed.{pending}
use tun_rs.Interrupt.{poll_timeout}
use tun_rs.Macos.Tap.{
  Bpf, Tap, push_records, recv_to_buffer, copy_packet, recv, scatter_packet, read_interruptible,
}
use tun_rs.Macos.Tap.Records.{Fit, push_records_bounds}
use tun_rs.Macos.Tap.Queue.{recv_each, copies, recv_each-Laid, read_interruptible-queued}
use tun_rs.Macos.Tap.Scatter.{joined, scatter_packet_lem, scatter_packet_empty_first}
use tun_rs.Macos.Tap.Multiple.{recv_multiple}
use tun_rs.Macos.Tap.Stored.{spread, recv_multiple-recv_to_buffer}
use tun_rs.Macos.Select.{Waiting, poll_recv}
use tun_rs.Macos.Select.Tasks.{KeepsTask, poll_recv_pending}

-- A record is 4 bytes of header, of which the first is the packet's length and the second 4, and the packet.
abbrev two_records : List ℕ
two_records = 3 ∷ 4 ∷ 0 ∷ 0 ∷ 7 ∷ 8 ∷ 9 ∷ 0 ∷ 1 ∷ 4 ∷ 0 ∷ 0 ∷ 5 ∷ 0 ∷ 0 ∷ []

abbrev packet_a : List ℕ
packet_a = 7 ∷ 8 ∷ 9 ∷ []

abbrev packet_b : List ℕ
packet_b = 5 ∷ []

-- The state counts the reads.
abbrev bpf : Bpf ℕ
bpf = record {
  bpf_hdr_size = 4;
  hdr_of = λ bytes. record { bh_caplen = get_or bytes 0 0; bh_hdrlen = get_or bytes 1 0 };
  read_bpf = λ reads. (inl (13, two_records), reads + 1);
}

abbrev empty_tap : Tap ℕ
empty_tap = record { buffer = []; world = 0 }

abbrev two_buffers : List (List ℕ)
two_buffers = replicate 4 0 ∷ replicate 2 0 ∷ []

run_recv_each :
    recv_each bpf empty_tap two_buffers
    ≡ (ok (3, 7 ∷ 8 ∷ 9 ∷ 0 ∷ []) ∷ ok (1, 5 ∷ 0 ∷ []) ∷ [], record { buffer = []; world = 1 })
unfolding recv_each recv recv_to_buffer
run_recv_each = refl

recv_each-Laid_example :
    recv_each bpf empty_tap two_buffers
    ≡ (copies bpf two_buffers (packet_a ∷ packet_b ∷ []), record { buffer = []; world = 1 })
recv_each-Laid_example =
    recv_each-Laid bpf 0 1 packet_a (packet_b ∷ []) 13 two_records two_buffers refl (omega arith)
      (
        3 ∷ 4 ∷ 0 ∷ 0 ∷ [],
        0 ∷ 1 ∷ 4 ∷ 0 ∷ 0 ∷ 5 ∷ [],
        refl,
        omega arith,
        refl,
        omega arith,
        (1 ∷ 4 ∷ 0 ∷ 0 ∷ [], [], refl, omega arith, refl, omega arith, omega arith),
      )
      refl

push_records_bounds_example :
    (packets : List (List ℕ)) × (push_records bpf 14 two_records 13 0 [] ≡ ok ([] ++ packets))
    × Fit packets (13 - 0)
push_records_bounds_example =
    push_records_bounds bpf 14 two_records 13 0 [] (omega arith) (omega arith) (omega arith)

recv_multiple-recv_to_buffer_example :
    (packets : List (List ℕ)) × (recv_to_buffer bpf empty_tap
      ≡ (ok tt, record { buffer = [] ++ packets; world = 1 }))
    × (recv_multiple bpf empty_tap two_buffers (0 ∷ 0 ∷ [])
        ≡ (spread packets two_buffers (0 ∷ 0 ∷ []), record { buffer = []; world = 1 }))
recv_multiple-recv_to_buffer_example =
    recv_multiple-recv_to_buffer bpf empty_tap two_buffers (0 ∷ 0 ∷ []) 13 two_records 1
      (omega arith) refl (omega arith) (omega arith) (omega arith)

scatter_packet_lem_example :
    (filled : List (List ℕ)) × (scatter_packet bpf ((1 ∷ 2 ∷ []) ∷ (3 ∷ 4 ∷ []) ∷ []) packet_a
      ≡ ok (3, filled))
    × (joined filled ≡ packet_a ++ drop 3 (1 ∷ 2 ∷ 3 ∷ 4 ∷ []))
scatter_packet_lem_example =
    scatter_packet_lem bpf ((1 ∷ 2 ∷ []) ∷ (3 ∷ 4 ∷ []) ∷ []) packet_a (omega arith) (omega arith)
      (omega arith)

-- With an empty buffer in front, the packet is lost and the call answers zero.
empty_first : scatter_packet bpf ([] ∷ two_buffers) packet_a ≡ ok (0, [] ∷ two_buffers)
empty_first = scatter_packet_empty_first bpf two_buffers packet_a (omega arith)

-- The packet waits, and the call fails.
times_out :
    read_interruptible bpf
      (poll_timeout ∷ [])
      (record { buffer = packet_a ∷ []; world = 0 })
      (replicate 4 0)
    ≡ some (err timed_out, record { buffer = packet_a ∷ []; world = 0 })
unfolding read_interruptible
times_out = refl

abbrev waiting_tap : Tap ℕ
waiting_tap = record { buffer = packet_a ∷ []; world = 0 }

abbrev failure : Outcome (ℕ × List ℕ)
failure = err timed_out

read_interruptible-queued_example :
    ((e : IoError) × (failure ≡ err e))
    × (waiting_tap ≡ waiting_tap)
    × (recv bpf (record { buffer = packet_a ∷ []; world = 0 }) (replicate 4 0)
        ≡ (copy_packet bpf (replicate 4 0) packet_a, record { buffer = []; world = 0 }))
read_interruptible-queued_example =
    read_interruptible-queued bpf (poll_timeout ∷ []) packet_a [] 0 (replicate 4 0) failure
      waiting_tap ((λ h. ground (arith, h)), tt) times_out

-- Tasks are numbers, counted by the state, and always pending; the device has nothing.
abbrev idle : Waiting ℕ ℕ
idle = record {
  try_recv = λ started. (inr would_block, started);
  try_send = λ started. (inr would_block, started);
  unblock_readable = λ started. (started, started + 1);
  unblock_writable = λ started. (started, started + 1);
  poll_task = λ task started. (pending, started);
}

waiting_run :
    poll_recv idle 1 (record { recv_task_lock = none; send_task_lock = none }) 7
    ≡ some (pending, record { recv_task_lock = some 7; send_task_lock = none }, 8)
unfolding poll_recv
waiting_run = refl

poll_recv_pending_example :
    KeepsTask idle
      (record { recv_task_lock = none; send_task_lock = none })
      (record { recv_task_lock = some 7; send_task_lock = none })
      8
poll_recv_pending_example =
    poll_recv_pending idle 1 (record { recv_task_lock = none; send_task_lock = none })
      (record { recv_task_lock = some 7; send_task_lock = none }) 7 8 waiting_run
