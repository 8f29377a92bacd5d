-- ===== src/Tests/Packets.antt =====
-- A probe of src/Ping.cpp over zeroed memory, and its answer.
use async_ping.Prelude.{
  ℕ, ◌+◌, ◌-◌, ◌%◌, ◌≤◌, ◌≡◌, refl, true, false, ap, some, List, get_elem?, arith, ◌==◌,
  if◌then◌else◌, ltb,
}
use async_ping.Prelude.Buffer.{Buffer}
use async_ping.IcmpPacket.Constructors.{new_text_packet-eq-new_packet}
use async_ping.IcmpPacket.{IcmpPacket, new_text_packet, new_packet, fill_packet, calc_check_sum}
use async_ping.IcmpPacket.Checksum.{Verifies, new_packet-Verifies}
use async_ping.Prototype.{packet, shown, run}
use async_ping.Prototype
use async_ping.Prototype.Reply.{run-reply}
use async_ping.Wire.{probe_packet, receive, not_my_thread, socket_read}
use async_ping.Wire.RoundTrip.{IsReplyTo, socket_read-probe, socket_read-other}

abbrev pub zeros : Buffer
zeros i = 0

-- The letters a, b, c and so on.
abbrev letters : Buffer
letters i = 97 + i % 26

check_sum_run : calc_check_sum (fill_packet zeros 8 0 0x1234 0 12 letters) 21 ≡ 0x5d81
unfolding calc_check_sum fill_packet
check_sum_run = refl

new_packet-Verifies_example : Verifies (new_packet zeros 8 0 0x1234 0 12 letters)
new_packet-Verifies_example =
    new_packet-Verifies zeros letters 8 0 0x1234 0 12 (λ i. omega arith) (λ i. omega arith)
      (omega arith)

-- Process 77, thread 1, a time and ping 3.
abbrev probe : IcmpPacket
probe = probe_packet zeros zeros 77 1 1600000000000000 3

-- A 20-byte IP header, then the packet with type 0.
abbrev pub echo_of : IcmpPacket → Buffer
echo_of p i = if ltb i 20 then 5 else if i == 20 then 0 else p.buf (i - 20)

pub echo_of_lem : (p : IcmpPacket) (j : ℕ) → 4 ≤ j → echo_of p (20 + j) ≡ p.buf j
echo_of_lem p j h =
    let past : ltb (20 + j) 20 ≡ false = ground arith in
    let later : (20 + j == 20) ≡ false = ground arith in
    let e : 20 + j - 20 ≡ j = omega arith in rw (past, later) (ap p.buf e)

abbrev echo : Buffer
echo = echo_of probe

echo-IsReplyTo : IsReplyTo probe 20 41 echo
unfolding probe_packet new_packet
echo-IsReplyTo = record {
  header = refl;
  header_min = omega arith;
  reply_type = refl;
  echoed = λ j low high. echo_of_lem probe j low;
  whole = omega arith;
}

socket_read-probe_example : socket_read 1 77 (some 41) echo true ≡ receive 1600000000000000 0 3
socket_read-probe_example =
    socket_read-probe zeros zeros 77 1 1600000000000000 3 20 41 echo echo-IsReplyTo (omega arith)
      (omega arith) (omega arith) (omega arith)

socket_read-other_example : socket_read 0 77 (some 41) echo true ≡ not_my_thread
socket_read-other_example =
    socket_read-other zeros zeros 77 1 1600000000000000 3 20 41 echo echo-IsReplyTo 0 77 true
      (omega arith) (omega arith)

new_text_packet-eq-new_packet_example :
    new_text_packet zeros 8 0 6578 245 17 letters ≡ new_packet zeros 8 0 6578 245 17 letters
new_text_packet-eq-new_packet_example = new_text_packet-eq-new_packet zeros 8 0 6578 245 17 letters

greeting-IsReplyTo : IsReplyTo (packet zeros) 20 46 (echo_of (packet zeros))
unfolding packet new_text_packet
greeting-IsReplyTo = record {
  header = refl;
  header_min = omega arith;
  reply_type = refl;
  echoed = λ j low high. echo_of_lem (packet zeros) j low;
  whole = omega arith;
}

run-reply_example :
    (bytes : List ℕ) × (run true true (some 46) (echo_of (packet zeros)) ≡ shown bytes 6578 245)
    × (get_elem? bytes (8 + 4) ≡ get_elem? Prototype.letters 4)
run-reply_example =
    run-reply zeros 20 46 (echo_of (packet zeros)) 4 greeting-IsReplyTo (omega arith)
