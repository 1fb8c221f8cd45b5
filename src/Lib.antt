-- ===== src/Lib.antt =====
-- tun-rs: the data path of TUN devices, their offload on Linux, and what surrounds it.
--
-- A device that is opened with offload exchanges packets that stand behind a `virtio_net` header. On the
-- way from the kernel, a packet larger than the link is cut into segments (`gso_split`), and one that is
-- not cut gets the checksum that the kernel left out (`gso_none_checksum`). Both rest on the Internet
-- checksum, which has a scalar and two vector variants. On the way to the kernel, the packets of a batch
-- are joined where they follow one another in a flow (`handle_gro`), through tables that last for one
-- batch. A device reads and writes batches through these (`recv_multiple0`, `send_multiple0`), and a
-- framed device makes a stream and a sink of frames out of them, which are polled and keep their state
-- between the polls. Around these stand the interruption of a waiting read, the packet information of
-- other systems, socket addresses, and the builder of a device. A device is opened and configured by
-- calls of the system; over the reactor of an asynchronous runtime, or on macOS over tasks on other
-- threads, its reads and writes become polls. The TAP device of macOS reads several packets at once and
-- keeps them in a queue.
--
-- Which file models which part, of src/platform/linux where no other path is named:
--   * Checksum.antt: checksum.rs. `checksum_no_fold_scalar`, `checksum_no_fold_avx2`,
--     `checksum_no_fold_sse41`, the dispatcher `checksum_no_fold`, `checksum` and
--     `pseudo_header_checksum_no_fold`. What `is_x86_feature_detected!` answers is a parameter. The
--     intrinsics are written on the bytes of a register in the order of memory.
--   * Virtio.antt: `VirtioNetHdr`, its constants, `decode` and `encode` of offload.rs. The byte order of
--     the target is a parameter.
--   * Gso.antt: `gso_split` and `gso_none_checksum` of offload.rs. `plan_split` is the part before the
--     loop, `segments` the loop, and `fill_segment` the round from `let out = ...` on.
--   * Gro.antt and Gro/: receive offload of offload.rs, which joins packets of a flow. Gro.antt has the
--     tests on one or two packets and the trait `ExpandBuffer` as a parameter; Gro/Table.antt the flow
--     tables; Gro/Flow.antt the keys and items with `insert` and `lookup_or_insert`; Gro/Merge.antt
--     `udp_packets_can_coalesce`, `tcp_packets_can_coalesce` and `coalesce_udp_packets`;
--     Gro/TcpMerge.antt `coalesce_tcp_packets`; Gro/Receive.antt and Gro/Evaluate.antt `tcp_gro` and
--     `udp_gro`; Gro/Accounting.antt the headers of the joined packets; Gro/Handle.antt `handle_gro`
--     and `GROTable::apply_gro`.
--   * Device.antt and Device/: device.rs. `handle_virtio_read`, `recv_multiple0` and `send_multiple0`. The
--     read and the write of the file descriptor (`read_f`, `write_f`) and the number of EBADFD are
--     parameters; `write_f` acts on the state of whatever receives the packets.
--     Device/Open.antt has `new`, `from_tun` and `try_clone`, Device/Config.antt the calls that
--     configure a device. TUNSETIFF and the other ioctls, netlink, and the numbers of libc are
--     parameters, with the numbers of Linux as an instance (`linux`).
--   * Async.antt and Async/: src/async_device/unix. `poll_tokio` and `poll_async_io` are the loops of the
--     polls over the two reactors, by what the reactor and the device answer in each round;
--     `async_recv_multiple` and `async_send_multiple` have the awaited read and write as parameters.
--   * Macos.antt, Macos/: Macos/Tap.antt and Macos/Tap/Multiple.antt are src/platform/macos/tap/mod.rs,
--     with the layout of `bpf_hdr` and what a read answers as parameters; Macos/Open.antt has `Tap::new`
--     and the unit of a name of src/platform/macos/tuntap.rs; Macos/Select.antt is
--     src/async_device/macos/select_io.rs, with the system calls and the tasks as parameters.
--   * Freebsd.antt, Freebsd/: src/platform/freebsd/device.rs. Opening a device and dropping it, and in
--     Freebsd/Network.antt its addresses, with the system calls and the ipnet and route crates as parameters.
--   * Bsd.antt, Bsd/: src/platform/openbsd/device.rs and src/platform/netbsd/device.rs. Bsd.antt has what
--     both do to open a node and to make one that is missing, Bsd/Openbsd.antt and Bsd/Netbsd.antt `new`
--     and `from_tun` of each. The system calls and the MAKEDEV script are parameters.
--   * Framed.antt and Framed/: src/async_device/async_framed.rs as it is built for Linux.
--     Framed/Splitter.antt `PacketSplitter`; Framed/Read.antt `ReadState` and
--     `DeviceFramedReadInner::poll_next`; Framed/Arena.antt `PacketArena`; Framed/Write.antt
--     `WriteState` and `DeviceFramedWriteInner`; Framed/Whole.antt `DeviceFramed`, its halves and `split`.
--     What one `poll_recv_uninit` answers and what it writes is an argument of the poll, `poll_send` acts
--     on the state of the receiver, and the codec (`Decoder`, `Encoder`) and `BytesMut` are records of
--     operations. What a refused read leaves in the splitter's buffers is a parameter, too.
--   * Interrupt.antt and Interrupt/: src/platform/unix/interrupt.rs. `InterruptEvent`, the waits for a
--     device and an event, and the loops around them. The pipe and the answers of `poll` and of the
--     device are parameters.
--   * Tun.antt and Tun/: src/platform/unix/tun.rs where packet information stands before a packet, as on
--     macOS and the BSDs, and `readv` and `writev` of src/platform/unix/fd.rs. The system calls are
--     parameters.
--   * Sockaddr.antt and Sockaddr/: src/platform/unix/sockaddr.rs, with the byte order and the address
--     families as parameters.
--   * Builder.antt, Builder/: src/builder.rs. Builder.antt has the netmasks and prefix lengths, with the
--     parsing of a string as a parameter; Builder/Device.antt `DeviceBuilder` with the settings of Linux,
--     `build_config` and `config`, with the calls of the device as parameters.
--   * Base.antt: buffers as lists, machine words as numbers with their wrap-around, and `Outcome`: a
--     value, an error, or a panic from an index out of range.
--
-- A function that writes through `&mut` returns what the buffers hold afterwards; what they hold after
-- an error is not kept, but for `handle_gro`, whose version in Gro/Handle.antt that ends in `_kept`
-- has the state after an error for the arena that goes on with it. Sums that can leave their width
-- wrap, as the release profile does: the debug profile panics there. The recomputed pseudo-header of a
-- full segment stands in the round, not before the loop, which has no effect on its value. A hash map
-- is an association list, and its iteration takes the order of that list. The tables after
-- `send_multiple0` are not kept, since the next call resets them. Of the two accountings, the UDP one
-- runs only where the TCP one has not failed: the source runs it then too, and returns the same error.
--
-- Fuel: the loops over BPF records have one round more than the read has bytes, and each round passes
-- a header; running out of fuel counts as a panic. The loop that removes the addresses on FreeBSD has
-- more fuel than there are addresses, and the searches for a device have the 256 and 4999 rounds of
-- the source. The polls on macOS take fuel, since a device may be ready for ever and have nothing. The
-- loop of `InterruptEvent::reset` has nine reads, and a pipe that holds the eight bytes of one trigger
-- is empty after at most eight. The fold of `checksum` has eight rounds, and five are enough for 64
-- bits. The vector loops have one more round than the slice has bytes, and each takes 16 or 32 bytes
-- off. The loop of `gso_split` is recursion on the output buffers, the loops of sending are recursions
-- on the indices of packets, and the loops of receive offload are recursions on the items of a flow
-- and on the packets of a batch.
--
-- Not modelled: the configuration of macOS, NetBSD and OpenBSD devices, the devices of Windows, the
-- calls that only forward to a reactor, a device or one system call, the guards that cancel a wait on
-- macOS, and the settings of other systems than Linux in the builder.
pub mod Base
pub mod Checksum
pub mod Virtio
pub mod Gso
pub mod Gro
pub mod Device
pub mod Framed
pub mod Interrupt
pub mod Tun
pub mod Sockaddr
pub mod Builder
pub mod Macos
pub mod Async
pub mod Freebsd
pub mod Bsd
