-- ===== src/Prototype.antt =====
-- src/PingPrototype.cpp, a program of its own: it sends one packet and shows the datagram that comes
-- back. Addresses are left out, and what sendto returns, which is only printed.
pub mod Reply
use async_ping.Prelude.{
  ℕ, zero, suc, ◌+◌, ◌-◌, ◌*◌, ◌%◌, Bool, not, Option, none, some, List, [], ◌∷◌, ◌||◌, ltb,
  get_elem?, if◌then◌else◌,
}
use async_ping.Prelude.Buffer.{Buffer, read16}
use async_ping.IcmpPacket.{IcmpPacket, new_text_packet}
use async_ping.Wire.{icmp_min_len}

-- "Hello from xping."
abbrev pub letters : List ℕ
letters =
    72 ∷ 101 ∷ 108 ∷ 108 ∷ 111 ∷ 32 ∷ 102 ∷ 114 ∷ 111 ∷ 109 ∷ 32 ∷ 120 ∷ 112 ∷ 105 ∷ 110 ∷ 103 ∷ 46
    ∷ []

unfoldable pub content : Buffer
content k = elim (get_elem? letters k) [ none ↦ 0 | some c ↦ c ]

unfoldable pub packet : (mem : Buffer) → IcmpPacket
unfolding content new_text_packet
packet mem = new_text_packet mem 8 0 6578 245 17 content

-- Where it exits early, or the bytes behind the IP header, the identifier and the sequence number
-- that it prints.
pub data Outcome : Type 0 where
  no_proto no_socket too_short : Outcome
  shown : (bytes : List ℕ) (id seq : ℕ) → Outcome

-- `for (int i = hlen; i < nrecv; i ++)` with `rest` rounds to go.
unfoldable pub show_bytes : Buffer → (rest i : ℕ) → List ℕ
show_bytes b zero i = []
show_bytes b (suc rest) i = b i ∷ show_bytes b rest (i + 1)

-- `main`. When recvfrom fails (`none` for -1) it goes on, and finds the datagram too short.
unfoldable pub run : (proto_ok socket_ok : Bool) (nrecv : Option ℕ) → Buffer → Outcome
unfolding read16 show_bytes
run proto_ok socket_ok none recv_packet =
    if not proto_ok then no_proto else if not socket_ok then no_socket else too_short
run proto_ok socket_ok (some nrecv) recv_packet =
    let hlen = recv_packet 0 % 16 * 4 in
    if not proto_ok
    then no_proto
    else if not socket_ok
    then no_socket
    else if ltb hlen 20 || ltb nrecv (hlen + icmp_min_len)
    then too_short
    else shown (show_bytes recv_packet (nrecv - hlen) hlen) (read16 recv_packet (hlen + 4))
        (read16 recv_packet (hlen + 6))
