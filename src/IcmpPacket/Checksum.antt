-- ===== src/IcmpPacket/Checksum.antt =====
-- The checksum of src/IcmpPacket.h against the rule that a receiver of RFC 792 applies: the words
-- of the whole packet, added with end-around carry, give 0xffff.
use async_ping.Prelude.{
  ℕ, zero, suc, ◌+◌, ◌-◌, ◌*◌, ◌/◌, ◌%◌, ◌^◌, ◌≤◌, ◌<◌, ◌≡◌, refl, ◌∙◌, ap, arith, ◌==◌,
  if◌then◌else◌,
}
use async_ping.Prelude.Buffer.{
  Buffer, IsBytes, write16, write16_low, write16_high, write16_other, write8-IsBytes,
  write16-IsBytes, memcpy-IsBytes,
}
use async_ping.IcmpPacket.{
  icmp_echo, IcmpPacket, htons, check_sum_loop, fold_complement, calc_check_sum, fill_packet,
  new_packet,
}

-- The big-endian 16-bit words of `n` bytes from offset `i`, added up; a byte at an even offset is
-- the high one of its word.
pub word_sum : Buffer → (i n : ℕ) → ℕ
word_sum b i zero = 0
word_sum b i (suc n) = (if i % 2 == 0 then b i * 256 else b i) + word_sum b (i + 1) n

word_sum_pair :
    (b : Buffer) (i n : ℕ)
    → i % 2 ≡ 0
    → word_sum b i (suc (suc n)) ≡ b i * 256 + b (i + 1) + word_sum b (i + 2) n
unfolding word_sum
word_sum_pair b i n even =
    let next : i + 1 + 1 ≡ i + 2 = omega arith in ground (arith, ap (λ k. word_sum b k n) next)

-- Only the bytes in range count.
word_sum_cong :
    (b c : Buffer) (i n : ℕ)
    → ((j : ℕ) → i ≤ j → j < i + n → b j ≡ c j)
    → word_sum b i n ≡ word_sum c i n
unfolding word_sum
word_sum_cong b c i zero same = refl
word_sum_cong b c i (suc n) same =
    ground
      (arith, same i, word_sum_cong b c (i + 1) n (λ j p q. same j (omega arith) (omega arith)))

-- A zero behind the end adds nothing.
word_sum_end : (b : Buffer) (i n : ℕ) → b (i + n) ≡ 0 → word_sum b i (suc n) ≡ word_sum b i n
unfolding word_sum
word_sum_end b i zero h = let e : i + 0 ≡ i = omega arith in ground (arith, ap b e)
word_sum_end b i (suc n) h =
    let e : i + suc n ≡ i + 1 + n = omega arith in ground (arith, ap b e, word_sum_end b (i + 1) n)

word_sum_bound : (b : Buffer) (i n : ℕ) → IsBytes b → i % 2 ≡ 0 → word_sum b i n ≤ 2 ^ 15 * (n + 1)
word_sum_bound b i zero h even = unfold word_sum in omega arith
word_sum_bound b i (suc zero) h even = unfold word_sum in ground (arith, h i)
word_sum_bound b i (suc (suc n)) h even =
    omega
      (arith, word_sum_pair b i n even, h i, h (i + 1), word_sum_bound b (i + 2) n h (omega arith))

-- One round of end-around carry.
abbrev add_carry : ℕ → ℕ
add_carry s = s / 2 ^ 16 + s % 2 ^ 16

-- The receiver's rule: all words, the checksum's too, add up to 0xffff.
pub Verifies : IcmpPacket → Type 0
Verifies p = add_carry (add_carry (word_sum p.buf 0 p.packet_size)) ≡ 0xffff

-- The loop adds the words, and does not wrap while its bytes fit.
check_sum_loop-word_sum :
    (b : Buffer) (rest i sum : ℕ)
    → IsBytes b
    → i % 2 ≡ 0
    → sum + 2 ^ 15 * (rest + 1) ≤ 2 ^ 32
    → check_sum_loop b rest i sum ≡ sum + word_sum b i rest
unfolding check_sum_loop word_sum
check_sum_loop-word_sum b zero i sum h even fits = omega arith
check_sum_loop-word_sum b (suc zero) i sum h even fits = ground (arith, h i)
check_sum_loop-word_sum b (suc (suc rest)) i sum h even fits =
    let a = h i in
    let c = h (i + 1) in
    let now : ((sum + b i * 2 ^ 8) % 2 ^ 32 + b (i + 1)) % 2 ^ 32 ≡ sum + b i * 256 + b (i + 1) =
      omega arith in
    check_sum_loop-word_sum b rest (i + 2) _ h (omega arith) (omega arith)
    ∙ omega (arith, word_sum_pair b i rest even)

-- The complement of a sum completes it: with the checksum added, the rounds of carry give 0xffff.
fold_complement_lem :
    (s : ℕ)
    → s + 2 ^ 16 ≤ 2 ^ 32
    → (add_carry (add_carry (s + fold_complement s)) ≡ 0xffff) × (fold_complement s < 2 ^ 16)
unfolding fold_complement
fold_complement_lem s h = (omega arith, omega arith)

-- The first eight bytes, and the rest.
word_sum_header :
    (b : Buffer) (n : ℕ)
    → word_sum b 0 (8 + n)
      ≡ b 0 * 256 + b 1 + b 2 * 256 + b 3 + b 4 * 256 + b 5 + b 6 * 256 + b 7 + word_sum b 8 n
word_sum_header b n =
    let e : 8 + n ≡ suc (suc (suc (suc (suc (suc (suc (suc n))))))) = omega arith in
    ap (word_sum b 0) e
    ∙ omega (
      arith,
      word_sum_pair b 0 (suc (suc (suc (suc (suc (suc n)))))) (omega arith),
      word_sum_pair b 2 (suc (suc (suc (suc n)))) (omega arith),
      word_sum_pair b 4 (suc (suc n)) (omega arith),
      word_sum_pair b 6 n (omega arith),
    )

fill_packet-IsBytes :
    (mem src : Buffer) (type code identifier seq size : ℕ)
    → IsBytes mem
    → IsBytes src
    → IsBytes (fill_packet mem type code identifier seq size src)
unfolding fill_packet
fill_packet-IsBytes mem src type code identifier seq size h k = write16-IsBytes _ 6 seq (
    write16-IsBytes _ 4 _ (
      write8-IsBytes _ 1 code (
        write8-IsBytes _ 0 icmp_echo
          (write8-IsBytes _ (8 + size) 0 (memcpy-IsBytes mem 8 src size h k)))))

fill_packet_end :
    (mem src : Buffer) (type code identifier seq size : ℕ)
    → fill_packet mem type code identifier seq size src (8 + size) ≡ 0
unfolding fill_packet
fill_packet_end mem src type code identifier seq size = ground arith

module _ (b : Buffer) (size : ℕ) (bytes : IsBytes b) (ended : b (8 + size) ≡ 0)
    (small : size ≤ 2 ^ 16) where
  -- The sum that the loop leaves: the words of the header less the checksum's, and of the content.
  header_words : ℕ
  header_words = b 0 * 2 ^ 8 + b 1 + b 4 * 2 ^ 8 + b 5 + b 6 * 2 ^ 8 + b 7

  calc_check_sum_lem :
      calc_check_sum b (8 + size + 1) ≡ fold_complement (header_words + word_sum b 8 size)
  unfolding calc_check_sum header_words
  calc_check_sum_lem =
      let rest : 8 + size + 1 - 1 - 8 ≡ size = omega arith in
      rw rest (
        ap fold_complement (
          check_sum_loop-word_sum b size 8 _ bytes (omega arith)
            (omega (arith, bytes 0, bytes 1, bytes 4, bytes 5, bytes 6, bytes 7))))

  words_with_sum :
      (c : ℕ)
      → c < 2 ^ 16
      → word_sum (write16 b 2 (htons c)) 0 (8 + size + 1) ≡ header_words + word_sum b 8 size + c
  unfolding header_words
  words_with_sum c h =
      let w : Buffer = write16 b 2 (htons c) in
      let e : 8 + size + 1 ≡ 8 + suc size = omega arith in
      ap (word_sum w 0) e
      ∙ omega (
        arith,
        word_sum_header w (suc size),
        word_sum_cong w b 8 (suc size) (λ j p q. write16_other b 2 _ j (omega arith) (omega arith)),
        word_sum_end b 8 size ended,
        write16_low b 2 (htons c),
        write16_high b 2 (htons c),
        write16_other b 2 (htons c) 0 (omega arith) (omega arith),
        write16_other b 2 (htons c) 1 (omega arith) (omega arith),
        write16_other b 2 (htons c) 4 (omega arith) (omega arith),
        write16_other b 2 (htons c) 5 (omega arith) (omega arith),
        write16_other b 2 (htons c) 6 (omega arith) (omega arith),
        write16_other b 2 (htons c) 7 (omega arith) (omega arith),
      )

  sum_fits : header_words + word_sum b 8 size + 2 ^ 16 ≤ 2 ^ 32
  unfolding header_words
  sum_fits = omega (
    arith,
    bytes 0,
    bytes 1,
    bytes 4,
    bytes 5,
    bytes 6,
    bytes 7,
    word_sum_bound b 8 size bytes (omega arith),
  )

-- Every packet that the constructor builds from at most 65536 bytes, whatever bytes the
-- fresh memory holds, passes the receiver's check.
pub new_packet-Verifies :
    (mem src : Buffer) (type code identifier seq size : ℕ)
    → IsBytes mem
    → IsBytes src
    → size ≤ 2 ^ 16
    → Verifies (new_packet mem type code identifier seq size src)
unfolding new_packet Verifies
new_packet-Verifies mem src type code identifier seq size hm hs small =
    let b = fill_packet mem type code identifier seq size src in
    let bytes = fill_packet-IsBytes mem src type code identifier seq size hm hs in
    let ended = fill_packet_end mem src type code identifier seq size in
    let s : ℕ = header_words b size bytes ended small + word_sum b 8 size in
    let done = fold_complement_lem s (sum_fits b size bytes ended small) in
    rw (calc_check_sum_lem b size bytes ended small)
      (rw (words_with_sum b size bytes ended small (fold_complement s) done.1) done.0)
