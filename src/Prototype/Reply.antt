-- ===== src/Prototype/Reply.antt =====
-- What the prototype shows of an answer to its packet.
use async_ping.Prelude.{
  ℕ, zero, suc, ◌+◌, ◌-◌, ◌≤◌, ◌<◌, ◌≡◌, refl, true, false, some, List, arith, ap, sym,
  get_elem?-lt, ◌∙◌, ltb, ◌||◌, get_elem?,
}
use async_ping.Prelude.Buffer.{
  Buffer, read16, write16, write8, memcpy, write16_other, write8_other, memcpy_inside,
  read16-write16_mod, read16-write16_other, read16_cong,
}
use async_ping.IcmpPacket.{IcmpPacket, new_text_packet, htons, calc_check_sum}
use async_ping.Wire.{icmp_min_len}
use async_ping.Wire.RoundTrip.{IsReplyTo}
use async_ping.Prototype.{letters, content, packet, shown, show_bytes, run}

get_elem?-show_bytes :
    (b : Buffer) (rest i k : ℕ) → k < rest → get_elem? (show_bytes b rest i) k ≡ some (b (i + k))
unfolding show_bytes
get_elem?-show_bytes b zero i k h = absurd (omega arith)
get_elem?-show_bytes b (suc rest) i zero h = ap (λ j. some (b j)) (omega arith)
get_elem?-show_bytes b (suc rest) i (suc k) h =
    get_elem?-show_bytes b rest (i + 1) k (omega arith) ∙ ap (λ j. some (b j)) (omega arith)

-- The packet before its checksum is stored.
copied : Buffer → Buffer
copied mem = write8 (write8 (write8 (memcpy mem 8 content 17) 25 0) 0 8) 1 0

with_id : Buffer → Buffer
with_id mem = write16 (copied mem) 4 6578

packet_buf :
    (mem : Buffer) → (sum : ℕ) × ((packet mem).buf ≡ write16 (write16 (with_id mem) 6 245) 2 sum)
unfolding copied with_id packet new_text_packet
packet_buf mem = (htons (calc_check_sum (write16 (with_id mem) 6 245) 26), refl)

packet_fields :
    (mem : Buffer) → (read16 (packet mem).buf 4 ≡ 6578) × (read16 (packet mem).buf 6 ≡ 245)
unfolding with_id
packet_fields mem =
    let (sum, e) = packet_buf mem in
    let last = write16 (with_id mem) 6 245 in
    (
      ap (λ b. read16 b 4) e
          ∙ read16-write16_other last 2 sum 4 (omega arith) (omega arith) (omega arith)
          ∙ read16-write16_other (with_id mem) 6 245 4 (omega arith) (omega arith) (omega arith)
          ∙ read16-write16_mod (copied mem) 4 6578,
      ap (λ b. read16 b 6) e
          ∙ read16-write16_other last 2 sum 6 (omega arith) (omega arith) (omega arith)
          ∙ read16-write16_mod (with_id mem) 6 245,
    )

packet_content : (mem : Buffer) (k : ℕ) → k < 17 → (packet mem).buf (8 + k) ≡ content k
unfolding copied with_id
packet_content mem k h =
    let (sum, e) = packet_buf mem in
    let text = memcpy mem 8 content 17 in
    ap (λ b. b (8 + k)) e
    ∙ write16_other (write16 (with_id mem) 6 245) 2 sum (8 + k) (omega arith) (omega arith)
    ∙ write16_other (with_id mem) 6 245 (8 + k) (omega arith) (omega arith)
    ∙ write16_other (copied mem) 4 6578 (8 + k) (omega arith) (omega arith)
    ∙ write8_other (write8 (write8 text 25 0) 0 8) 1 0 (8 + k) (omega arith)
    ∙ write8_other (write8 text 25 0) 0 8 (8 + k) (omega arith)
    ∙ write8_other text 25 0 (8 + k) (omega arith)
    ∙ memcpy_inside mem 8 content 17 k h

letters_lem : (k : ℕ) → k < 17 → get_elem? letters k ≡ some (content k)
unfolding content
letters_lem k h = let (c, at) = get_elem?-lt letters k h in rw at refl

-- Half-words of an answer are those of the packet.
echoed16 :
    (sent : IcmpPacket) (hlen nrecv : ℕ) (reply : Buffer) (j : ℕ)
    → IsReplyTo sent hlen nrecv reply
    → 4 ≤ j
    → j + 1 < sent.packet_size
    → read16 reply (hlen + j) ≡ read16 sent.buf j
echoed16 sent hlen nrecv reply j answer low high =
    let e : hlen + j + 1 ≡ hlen + (j + 1) = omega arith in
    read16_cong reply sent.buf (hlen + j) j (answer.echoed j low (omega arith))
      (ap reply e ∙ answer.echoed (j + 1) (omega arith) high)

-- Of an answer to its packet the prototype shows the identifier and the sequence number that it
-- sent, and the text stands behind the 8 bytes of the ICMP header.
pub run-reply :
    (mem : Buffer) (hlen nrecv : ℕ) (reply : Buffer) (k : ℕ)
    → IsReplyTo (packet mem) hlen nrecv reply
    → k < 17
    → (bytes : List ℕ) × (run true true (some nrecv) reply ≡ shown bytes 6578 245)
      × (get_elem? bytes (8 + k) ≡ get_elem? letters k)
unfolding run
run-reply mem hlen nrecv reply k answer h =
    let size : (packet mem).packet_size ≡ 26 = unfold packet new_text_packet in refl in
    let whole = answer.whole in
    let low = answer.header_min in
    let id : read16 reply (hlen + 4) ≡ 6578 =
      echoed16 (packet mem) hlen nrecv reply 4 answer (omega arith) (omega (arith, size))
      ∙ (packet_fields mem).0 in
    let seq : read16 reply (hlen + 6) ≡ 245 =
      echoed16 (packet mem) hlen nrecv reply 6 answer (omega arith) (omega (arith, size))
      ∙ (packet_fields mem).1 in
    let long : (ltb hlen 20 || ltb nrecv (hlen + icmp_min_len)) ≡ false =
      ground (arith, size, whole, low) in
    (
      show_bytes reply (nrecv - hlen) hlen,
      rw (answer.header) (rw (long, id, seq) refl),
      get_elem?-show_bytes reply (nrecv - hlen) hlen (8 + k) (omega (arith, size))
          ∙ ap some
              (answer.echoed (8 + k) (omega arith) (omega (arith, size)) ∙ packet_content mem k h)
          ∙ sym (letters_lem k h),
    )
