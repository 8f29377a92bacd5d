-- ===== src/IcmpPacket.antt =====
-- src/IcmpPacket.h: the ICMP echo request that a ping sends, built in a fresh buffer, and its
-- checksum. `mem` is what `new unsigned char[packetSize]` holds before the constructor writes.
pub mod Checksum
pub mod Constructors
use async_ping.Prelude.{ℕ, zero, suc, ◌+◌, ◌-◌, ◌*◌, ◌/◌, ◌%◌, ◌^◌}
use async_ping.Prelude.Buffer.{Buffer, write8, write16, memcpy}

abbrev pub icmp_header_size : ℕ
icmp_header_size = 8

-- ICMP_ECHO of netinet/ip_icmp.h.
abbrev pub icmp_echo : ℕ
icmp_echo = 8

pub record IcmpPacket : Type 0 where
  pub packet_size : ℕ
  pub buf : Buffer

-- The value that, stored by a little-endian host, has the bytes of `x` in network order.
abbrev pub htons : ℕ → ℕ
htons x = x % 256 * 256 + x / 256 % 256

-- `while (iter != dataEnd)`: `rest` is dataEnd - iter, and `sum` is an unsigned int.
unfoldable pub check_sum_loop : Buffer → (rest iter sum : ℕ) → ℕ
check_sum_loop buf zero iter sum = sum
check_sum_loop buf (suc zero) iter sum = (sum + buf iter * 2 ^ 8) % 2 ^ 32
check_sum_loop buf (suc (suc rest)) iter sum =
    check_sum_loop buf rest (iter + 2)
      (((sum + buf iter * 2 ^ 8) % 2 ^ 32 + buf (iter + 1)) % 2 ^ 32)

-- The high half is added to the low half, then the carry; the complement is cut to 16 bits.
unfoldable pub fold_complement : ℕ → ℕ
fold_complement sum =
    let folded = sum / 2 ^ 16 + sum % 2 ^ 16 in
    let carried = (folded + folded / 2 ^ 16) % 2 ^ 32 in (2 ^ 32 - 1 - carried) % 2 ^ 16

unfoldable pub calc_check_sum : Buffer → ℕ → ℕ
unfolding check_sum_loop fold_complement
calc_check_sum buf packet_size =
    let sum = buf 0 * 2 ^ 8 + buf 1 + buf 4 * 2 ^ 8 + buf 5 + buf 6 * 2 ^ 8 + buf 7 in
    fold_complement (check_sum_loop buf (packet_size - 1 - icmp_header_size) icmp_header_size sum)

-- The buffer before the checksum is stored. The argument `type` is not used.
unfoldable pub fill_packet : Buffer → (type code identifier seq size : ℕ) → Buffer → Buffer
unfolding write8 write16 memcpy
fill_packet mem type code identifier seq size src =
    let copied = memcpy mem icmp_header_size src size in
    let ended = write8 copied (icmp_header_size + size) 0 in
    let typed = write8 ended 0 icmp_echo in
    let coded = write8 typed 1 code in write16 (write16 coded 4 (identifier % 2 ^ 16)) 6 seq

-- The constructor from `size` bytes at `src`.
unfoldable pub new_packet : Buffer → (type code identifier seq size : ℕ) → Buffer → IcmpPacket
unfolding fill_packet calc_check_sum
new_packet mem type code identifier seq size src =
    let packet_size = icmp_header_size + size + 1 in
    let filled = fill_packet mem type code identifier seq size src in
    record {
      packet_size = packet_size;
      buf = write16 filled 2 (htons (calc_check_sum filled packet_size));
    }

-- The constructor from a string, here a buffer with its size.
unfoldable pub new_text_packet : Buffer → (type code identifier seq size : ℕ) → Buffer → IcmpPacket
unfolding write8 write16 memcpy calc_check_sum
new_text_packet mem type code identifier seq size content =
    let packet_size = icmp_header_size + size + 1 in
    let copied = memcpy mem icmp_header_size content size in
    let ended = write8 copied (packet_size - 1) 0 in
    let typed = write8 ended 0 icmp_echo in
    let coded = write8 typed 1 code in
    let filled = write16 (write16 coded 4 (identifier % 2 ^ 16)) 6 seq in
    record {
      packet_size = packet_size;
      buf = write16 filled 2 (htons (calc_check_sum filled packet_size));
    }

-- The constructor that copies `size` bytes as they are.
unfoldable pub copy_packet : Buffer → Buffer → ℕ → IcmpPacket
unfolding memcpy
copy_packet mem src size = record { packet_size = size; buf = memcpy mem 0 src size }
