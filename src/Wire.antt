-- ===== src/Wire.antt =====
-- The private protocol of the probes: what src/Ping.cpp puts into an echo request, and what
-- `socketReadHandler` of src/TaskWorker.cpp reads from a datagram.
pub mod RoundTrip
pub mod Echo
use async_ping.Prelude.{
  ℕ, ◌+◌, ◌*◌, ◌/◌, ◌%◌, ◌^◌, Bool, true, false, not, Option, none, some, ◌||◌, ◌==◌, ltb,
  if◌then◌else◌,
}
use async_ping.Prelude.Buffer.{Buffer, write16, write64, read16, read64}
use async_ping.IcmpPacket.{IcmpPacket, new_packet}

-- 2 bytes of thread id, 8 of task timestamp, 2 of ping index.
abbrev pub extra_proto_size : ℕ
extra_proto_size = 12

-- ICMP_MINLEN and ICMP_ECHOREPLY of netinet/ip_icmp.h.
abbrev pub icmp_min_len : ℕ
icmp_min_len = 8

abbrev pub icmp_echo_reply : ℕ
icmp_echo_reply = 0

-- `srcBuf`, written through casted pointers over what the stack holds.
unfoldable pub probe_payload : Buffer → (thread_id timestamp index : ℕ) → Buffer
unfolding write16 write64
probe_payload stack thread_id timestamp index =
    write16 (write64 (write16 stack 0 thread_id) 2 timestamp) 10 index

-- The packet of `Ping::start`.
unfoldable pub probe_packet :
    (stack mem : Buffer) (short_pid thread_id timestamp index : ℕ) → IcmpPacket
unfolding probe_payload new_packet
probe_packet stack mem short_pid thread_id timestamp index =
    new_packet mem 8 0 short_pid 0 extra_proto_size (probe_payload stack thread_id timestamp index)

-- What `socketReadHandler` does with a datagram: it drops it, for a reason that it logs, or calls
-- `onReceive`.
pub data Reception : Type 0 where
  recv_error too_short not_my_thread not_reply not_my_pid bad_address : Reception
  receive : (timestamp seq index : ℕ) → Reception

-- `nrecv` is what recvfrom returns (`none` for -1), `address_ok` whether inet_ntop succeeds.
unfoldable pub socket_read :
    (thread_id short_pid : ℕ) (nrecv : Option ℕ) (recv_packet : Buffer) (address_ok : Bool)
    → Reception
unfolding read16 read64
socket_read thread_id short_pid none recv_packet address_ok = recv_error
socket_read thread_id short_pid (some nrecv) recv_packet address_ok =
    let hlen = recv_packet 0 % 16 * 4 in
    let recv_thread_id = read16 recv_packet (hlen + icmp_min_len) in
    let task_timestamp = read64 recv_packet (hlen + icmp_min_len + 2) in
    let ping_index = read16 recv_packet (hlen + icmp_min_len + 10) in
    let id = read16 recv_packet (hlen + 4) in
    let seq = read16 recv_packet (hlen + 6) in
    if ltb hlen 20 || ltb nrecv (hlen + icmp_min_len + extra_proto_size)
    then too_short
    else if not (recv_thread_id == thread_id)
    then not_my_thread
    else if not (recv_packet hlen == icmp_echo_reply)
    then not_reply
    else if not (id == short_pid)
    then not_my_pid
    else if not address_ok
    then bad_address
    else receive task_timestamp seq ping_index
