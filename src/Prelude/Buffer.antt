-- ===== src/Prelude/Buffer.antt =====
-- Byte buffers: the bytes at each offset, and the reads and writes through casted pointers that a
-- little-endian host makes (`*(unsigned short *)p`, `*(uint64_t *)p`, memcpy).
use async_ping.Prelude.{
  ℕ, ◌+◌, ◌-◌, ◌*◌, ◌/◌, ◌%◌, ◌^◌, ◌<◌, ◌≡◌, ◌≢◌, ◌≤◌, ◌∙◌, ap, sym, ◌&&◌, arith, leb, ltb, ◌==◌,
  if◌then◌else◌,
}

abbrev pub Buffer : Type 0
Buffer = ℕ → ℕ

-- Every byte is below 256.
abbrev pub IsBytes : Buffer → Type 0
IsBytes b = (i : ℕ) → b i < 256

unfoldable pub write8 : Buffer → ℕ → ℕ → Buffer
write8 b at v i = if i == at then v % 256 else b i

unfoldable pub write16 : Buffer → ℕ → ℕ → Buffer
unfolding write8
write16 b at v = write8 (write8 b at v) (at + 1) (v / 256)

unfoldable pub memcpy : Buffer → ℕ → Buffer → ℕ → Buffer
memcpy b at src n i = if leb at i && ltb i (at + n) then src (i - at) else b i

unfoldable pub read16 : Buffer → ℕ → ℕ
read16 b at = b at + b (at + 1) * 256

unfoldable pub read64 : Buffer → ℕ → ℕ
read64 b at =
    read16 b at
    + read16 b (at + 2) * 2 ^ 16
    + read16 b (at + 4) * 2 ^ 32
    + read16 b (at + 6) * 2 ^ 48

unfoldable pub write64 : Buffer → ℕ → ℕ → Buffer
write64 b at v =
    write16 (write16 (write16 (write16 b at v) (at + 2) (v / 2 ^ 16)) (at + 4) (v / 2 ^ 32))
      (at + 6) (v / 2 ^ 48)

pub write16_low : (b : Buffer) (at v : ℕ) → write16 b at v at ≡ v % 256
unfolding write16
write16_low b at v = ground arith

pub write16_high : (b : Buffer) (at v : ℕ) → write16 b at v (at + 1) ≡ v / 256 % 256
unfolding write16
write16_high b at v = ground arith

pub write16_other : (b : Buffer) (at v i : ℕ) → i ≢ at → i ≢ at + 1 → write16 b at v i ≡ b i
unfolding write16
write16_other b at v i h k = ground arith

pub write8_other : (b : Buffer) (at v i : ℕ) → i ≢ at → write8 b at v i ≡ b i
unfolding write8
write8_other b at v i h = ground arith

pub memcpy_inside :
    (b : Buffer) (at : ℕ) (src : Buffer) (n k : ℕ) → k < n → memcpy b at src n (at + k) ≡ src k
unfolding memcpy
memcpy_inside b at src n k h = let e : at + k - at ≡ k = omega arith in ground (arith, ap src e)

pub write8-IsBytes : (b : Buffer) (at v : ℕ) → IsBytes b → IsBytes (write8 b at v)
unfolding write8
write8-IsBytes b at v h i = ground (arith, h i)

pub write16-IsBytes : (b : Buffer) (at v : ℕ) → IsBytes b → IsBytes (write16 b at v)
unfolding write16
write16-IsBytes b at v h i = ground (arith, h i)

pub memcpy-IsBytes :
    (b : Buffer) (at : ℕ) (src : Buffer) (n : ℕ)
    → IsBytes b
    → IsBytes src
    → IsBytes (memcpy b at src n)
unfolding memcpy
memcpy-IsBytes b at src n h k i = ground (arith, h i, k (i - at))

-- A 16-bit value is read back.
pub read16-write16 : (b : Buffer) (at v : ℕ) → v < 2 ^ 16 → read16 (write16 b at v) at ≡ v
unfolding read16
read16-write16 b at v h = omega (arith, write16_low b at v, write16_high b at v)

pub read16-write16_other :
    (b : Buffer) (at v i : ℕ)
    → i ≢ at
    → i ≢ at + 1
    → i + 1 ≢ at
    → read16 (write16 b at v) i ≡ read16 b i
unfolding read16
read16-write16_other b at v i h k l =
    omega (arith, write16_other b at v i h k, write16_other b at v (i + 1) l (omega arith))

-- Of a value of any size the lower half-word is read back.
pub read16-write16_mod : (b : Buffer) (at v : ℕ) → read16 (write16 b at v) at ≡ v % 2 ^ 16
unfolding read16
read16-write16_mod b at v = omega (arith, write16_low b at v, write16_high b at v)

-- A 64-bit value is read back.
pub read64-write64 : (b : Buffer) (at v : ℕ) → v < 2 ^ 64 → read64 (write64 b at v) at ≡ v
unfolding read64 write64
read64-write64 b at v h =
    let w0 = write16 b at v in
    let w1 = write16 w0 (at + 2) (v / 2 ^ 16) in
    let w2 = write16 w1 (at + 4) (v / 2 ^ 32) in
    let other = read16-write16_other in
    omega (
      arith,
      read16-write16_mod b at v,
      other w0 (at + 2) (v / 2 ^ 16) at (omega arith) (omega arith) (omega arith),
      other w1 (at + 4) (v / 2 ^ 32) at (omega arith) (omega arith) (omega arith),
      other w2 (at + 6) (v / 2 ^ 48) at (omega arith) (omega arith) (omega arith),
      read16-write16_mod w0 (at + 2) (v / 2 ^ 16),
      other w1 (at + 4) (v / 2 ^ 32) (at + 2) (omega arith) (omega arith) (omega arith),
      other w2 (at + 6) (v / 2 ^ 48) (at + 2) (omega arith) (omega arith) (omega arith),
      read16-write16_mod w1 (at + 4) (v / 2 ^ 32),
      other w2 (at + 6) (v / 2 ^ 48) (at + 4) (omega arith) (omega arith) (omega arith),
      read16-write16_mod w2 (at + 6) (v / 2 ^ 48),
    )

-- Two writes apart from what is read.
pub read64-write16_other :
    (b : Buffer) (at v i : ℕ) → i + 8 ≤ at → read64 (write16 b at v) i ≡ read64 b i
unfolding read64
read64-write16_other b at v i h = omega (
  arith,
  read16-write16_other b at v i (omega arith) (omega arith) (omega arith),
  read16-write16_other b at v (i + 2) (omega arith) (omega arith) (omega arith),
  read16-write16_other b at v (i + 4) (omega arith) (omega arith) (omega arith),
  read16-write16_other b at v (i + 6) (omega arith) (omega arith) (omega arith),
)

pub read16-write64_other :
    (b : Buffer) (at v i : ℕ) → i + 2 ≤ at → read16 (write64 b at v) i ≡ read16 b i
unfolding write64
read16-write64_other b at v i h =
    read16-write16_other _ (at + 6) _ i (omega arith) (omega arith) (omega arith)
    ∙ read16-write16_other _ (at + 4) _ i (omega arith) (omega arith) (omega arith)
    ∙ read16-write16_other _ (at + 2) _ i (omega arith) (omega arith) (omega arith)
    ∙ read16-write16_other b at v i (omega arith) (omega arith) (omega arith)

-- Reads of equal bytes.
pub read16_cong :
    (b c : Buffer) (i j : ℕ) → b i ≡ c j → b (i + 1) ≡ c (j + 1) → read16 b i ≡ read16 c j
unfolding read16
read16_cong b c i j h k = omega arith

pub read64_cong :
    (b c : Buffer) (i j : ℕ) → ((k : ℕ) → k < 8 → b (i + k) ≡ c (j + k)) → read64 b i ≡ read64 c j
unfolding read64 read16
read64_cong b c i j h =
    let i0 : i + 0 ≡ i = omega arith in
    let j0 : j + 0 ≡ j = omega arith in
    omega (
      arith,
      ap b i0,
      ap c j0,
      ap (λ k. b (k + 1)) i0,
      ap (λ k. c (k + 1)) j0,
      at 0 (omega arith),
      at 2 (omega arith),
      at 4 (omega arith),
      at 6 (omega arith),
    )
  where
    at : (k : ℕ) → k ≤ 6 → (b (i + k) ≡ c (j + k)) × (b (i + k + 1) ≡ c (j + k + 1))
    at k p =
        let e : i + k + 1 ≡ i + (k + 1) = omega arith in
        let f : j + k + 1 ≡ j + (k + 1) = omega arith in
        (h k (omega arith), ap b e ∙ h (k + 1) (omega arith) ∙ sym (ap c f))
