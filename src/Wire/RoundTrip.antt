-- ===== src/Wire/RoundTrip.antt =====
-- A probe that comes back is recognised by the worker that sent it, and by no other.
use async_ping.Prelude.{
  ℕ, ◌+◌, ◌*◌, ◌%◌, ◌^◌, ◌≤◌, ◌<◌, ◌≡◌, refl, ◌≢◌, ap, ◌∙◌, Bool, true, some, arith,
}
use async_ping.Prelude.Buffer.{
  Buffer, read16, read64, write16, write8, memcpy, write16_other, write8_other, memcpy_inside,
  read16-write16, read16-write16_mod, read16-write16_other, read16-write64_other, read64-write64,
  read16_cong, read64_cong, read64-write16_other,
}
use async_ping.IcmpPacket.{IcmpPacket, fill_packet, new_packet}
use async_ping.Wire.{probe_payload, probe_packet, receive, not_my_thread, socket_read}

-- The header and the content of the packet that leaves, behind the checksum.
module _ (stack mem : Buffer) (pid tid ts idx : ℕ) where
  content : Buffer
  content = (probe_packet stack mem pid tid ts idx).buf

  -- Stages of the constructor.
  copied : Buffer
  copied = memcpy mem 8 (probe_payload stack tid ts idx) 12

  typed : Buffer
  unfolding copied
  typed = write8 (write8 (write8 copied 20 0) 0 8) 1 0

  filled : Buffer
  unfolding typed
  filled = write16 (write16 typed 4 (pid % 2 ^ 16)) 6 0

  content_lem : (sum : ℕ) × (content ≡ write16 filled 2 sum)
  unfolding content filled probe_packet new_packet fill_packet
  content_lem = (_, refl)

  packet_payload : (k : ℕ) → k < 12 → content (8 + k) ≡ probe_payload stack tid ts idx k
  unfolding filled
  packet_payload k h =
      let written = content_lem in
      omega (
        arith,
        ap (λ b. b (8 + k)) written.1,
        write16_other filled 2 written.0 (8 + k) (omega arith) (omega arith),
        write16_other (write16 typed 4 (pid % 2 ^ 16)) 6 0 (8 + k) (omega arith) (omega arith),
        write16_other typed 4 (pid % 2 ^ 16) (8 + k) (omega arith) (omega arith),
        write8_other (write8 (write8 copied 20 0) 0 8) 1 0 (8 + k) (omega arith),
        write8_other (write8 copied 20 0) 0 8 (8 + k) (omega arith),
        write8_other copied 20 0 (8 + k) (omega arith),
        memcpy_inside mem 8 (probe_payload stack tid ts idx) 12 k h,
      )

  packet_id : pid < 2 ^ 16 → read16 content 4 ≡ pid
  unfolding filled
  packet_id h =
      let written = content_lem in
      omega (
        arith,
        ap (λ b. read16 b 4) written.1,
        read16-write16_other filled 2 written.0 4 (omega arith) (omega arith) (omega arith),
        read16-write16_other (write16 typed 4 (pid % 2 ^ 16)) 6 0 4 (omega arith) (omega arith)
            (omega arith),
        read16-write16_mod typed 4 (pid % 2 ^ 16),
      )

  packet_seq : read16 content 6 ≡ 0
  unfolding filled
  packet_seq =
      let written = content_lem in
      omega (
        arith,
        ap (λ b. read16 b 6) written.1,
        read16-write16_other filled 2 written.0 6 (omega arith) (omega arith) (omega arith),
        read16-write16_mod (write16 typed 4 (pid % 2 ^ 16)) 6 0,
      )

  payload_tid : tid < 2 ^ 16 → read16 (probe_payload stack tid ts idx) 0 ≡ tid
  unfolding probe_payload
  payload_tid h =
      read16-write16_other _ 10 idx 0 (omega arith) (omega arith) (omega arith)
      ∙ read16-write64_other _ 2 ts 0 (omega arith)
      ∙ read16-write16 stack 0 tid h

  payload_ts : ts < 2 ^ 64 → read64 (probe_payload stack tid ts idx) 2 ≡ ts
  unfolding probe_payload
  payload_ts h = read64-write16_other _ 10 idx 2 (omega arith) ∙ read64-write64 _ 2 ts h

  payload_idx : idx < 2 ^ 16 → read16 (probe_payload stack tid ts idx) 10 ≡ idx
  unfolding probe_payload
  payload_idx h = read16-write16 _ 10 idx h

-- A datagram that answers a packet: an IP header of `hlen` bytes, then an echo reply, which returns
-- the request's identifier, sequence number and data as they were (RFC 792).
pub record IsReplyTo (packet : IcmpPacket) (hlen nrecv : ℕ) (reply : Buffer) : Type 0 where
  pub header : reply 0 % 16 * 4 ≡ hlen
  pub header_min : 20 ≤ hlen
  pub reply_type : reply hlen ≡ 0
  pub echoed : (j : ℕ) → 4 ≤ j → j < packet.packet_size → reply (hlen + j) ≡ packet.buf j
  pub whole : hlen + packet.packet_size ≤ nrecv

module _ (stack mem : Buffer) (pid tid ts idx : ℕ) (hlen nrecv : ℕ) (reply : Buffer)
    (answer : IsReplyTo (probe_packet stack mem pid tid ts idx) hlen nrecv reply) where
  echoed_content : (j : ℕ) → 4 ≤ j → j < 21 → reply (hlen + j) ≡ content stack mem pid tid ts idx j
  unfolding content probe_packet new_packet
  echoed_content j p q = answer.echoed j p q

  reply_long : hlen + 20 ≤ nrecv
  unfolding probe_packet new_packet
  reply_long = let h = answer.whole in omega arith

  reply16 :
      (j : ℕ)
      → 4 ≤ j
      → j < 20
      → read16 reply (hlen + j) ≡ read16 (content stack mem pid tid ts idx) j
  reply16 j p q =
      let e : hlen + j + 1 ≡ hlen + (j + 1) = omega arith in
      read16_cong reply (content stack mem pid tid ts idx) (hlen + j) j
        (echoed_content j p (omega arith))
        (ap reply e ∙ echoed_content (j + 1) (omega arith) (omega arith))

  reply_payload : (k : ℕ) → k < 12 → reply (hlen + 8 + k) ≡ probe_payload stack tid ts idx k
  reply_payload k h =
      let e : hlen + 8 + k ≡ hlen + (8 + k) = omega arith in
      ap reply e
      ∙ echoed_content (8 + k) (omega arith) (omega arith)
      ∙ packet_payload stack mem pid tid ts idx k h

  reply_payload16 :
      (k : ℕ) → k < 11 → read16 reply (hlen + 8 + k) ≡ read16 (probe_payload stack tid ts idx) k
  reply_payload16 k h =
      let e : hlen + 8 + k + 1 ≡ hlen + 8 + (k + 1) = omega arith in
      read16_cong reply (probe_payload stack tid ts idx) (hlen + 8 + k) k
        (reply_payload k (omega arith)) (ap reply e ∙ reply_payload (k + 1) (omega arith))

  reply_tid : tid < 2 ^ 16 → read16 reply (hlen + 8) ≡ tid
  reply_tid h =
      let e : hlen + 8 ≡ hlen + 8 + 0 = omega arith in
      ap (read16 reply) e ∙ reply_payload16 0 (omega arith) ∙ payload_tid stack mem pid tid ts idx h

  reply_ts : ts < 2 ^ 64 → read64 reply (hlen + 8 + 2) ≡ ts
  reply_ts h =
      read64_cong reply (probe_payload stack tid ts idx) (hlen + 8 + 2) 2 (λ k p.
        let e : hlen + 8 + 2 + k ≡ hlen + 8 + (2 + k) = omega arith in
        ap reply e ∙ reply_payload (2 + k) (omega arith))
      ∙ payload_ts stack mem pid tid ts idx h

  -- A probe's answer is handed to `onReceive` with the task's timestamp and the ping's index, if
  -- the values fit their fields.
  pub socket_read-probe :
      pid < 2 ^ 16
      → tid < 2 ^ 16
      → ts < 2 ^ 64
      → idx < 2 ^ 16
      → socket_read tid pid (some nrecv) reply true ≡ receive ts 0 idx
  unfolding socket_read
  socket_read-probe hp ht hs hi = rw (answer.header) (
      ground (
        arith,
        reply_long,
        reply_tid ht,
        reply_ts hs,
        reply_payload16 10 (omega arith),
        payload_idx stack mem pid tid ts idx hi,
        reply16 4 (omega arith) (omega arith),
        packet_id stack mem pid tid ts idx hp,
        reply16 6 (omega arith) (omega arith),
        packet_seq stack mem pid tid ts idx,
        answer.header_min,
        answer.reply_type,
      ))

  -- A worker with another thread id drops it.
  pub socket_read-other :
      (other short_pid : ℕ) (address_ok : Bool)
      → tid < 2 ^ 16
      → other ≢ tid
      → socket_read other short_pid (some nrecv) reply address_ok ≡ not_my_thread
  unfolding socket_read
  socket_read-other other short_pid address_ok ht ne =
      rw (answer.header) (ground (arith, reply_long, reply_tid ht, answer.header_min))
