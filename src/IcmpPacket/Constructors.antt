-- ===== src/IcmpPacket/Constructors.antt =====
-- The three constructors of src/IcmpPacket.h against each other.
use async_ping.Prelude.{ℕ, ◌+◌, ◌-◌, ◌<◌, ◌≡◌, refl, arith, subst}
use async_ping.Prelude.Buffer.{Buffer, memcpy, memcpy_inside}
use async_ping.IcmpPacket.{
  IcmpPacket, icmp_header_size, fill_packet, new_packet, new_text_packet, copy_packet,
}

-- The constructor from a string builds the packet that the one from bytes builds.
pub new_text_packet-eq-new_packet :
    (mem : Buffer) (type code identifier seq size : ℕ) (content : Buffer)
    → new_text_packet mem type code identifier seq size content
      ≡ new_packet mem type code identifier seq size content
unfolding new_text_packet new_packet fill_packet
new_text_packet-eq-new_packet mem type code identifier seq size content =
    let same : icmp_header_size + size + 1 - 1 ≡ icmp_header_size + size = omega arith in
    rw same refl

-- Copying a packet keeps its size and each of its bytes.
pub copy_packet_lem :
    (mem : Buffer) (packet : IcmpPacket) (i : ℕ)
    → i < packet.packet_size
    → ((copy_packet mem packet.buf packet.packet_size).packet_size ≡ packet.packet_size)
      × ((copy_packet mem packet.buf packet.packet_size).buf i ≡ packet.buf i)
unfolding copy_packet
copy_packet_lem mem packet i h =
    let at : 0 + i ≡ i = omega arith in
    (
      refl,
      subst (λ j. memcpy mem 0 packet.buf packet.packet_size j ≡ packet.buf i) at
          (memcpy_inside mem 0 packet.buf packet.packet_size i h),
    )
