-- ===== src/Common.antt =====
-- src/common/Common.cpp, and the text of a value in src/common/JsonValue.cpp.
pub mod Range
use async_ping.Prelude.{
  ℕ, zero, suc, ◌+◌, ◌-◌, ◌*◌, ◌/◌, ◌%◌, ◌^◌, leb, List, [], ◌∷◌, ◌==◌, if◌then◌else◌,
}

-- `getRandIntvalue` for numbers that are not negative, where `rand()` gives `r`, and RAND_MAX is
-- 2^31 - 1. The product of doubles is exact for ranges below 2^22.
unfoldable pub get_rand_intvalue : (r start end : ℕ) → ℕ
get_rand_intvalue r start end =
    if leb end start then start else let delta = end - start in start + r * delta / 2 ^ 31

-- `currentTime` where `gettimeofday` gives `sec` and `usec`.
unfoldable pub current_time : (sec usec : ℕ) → ℕ
current_time sec usec = (sec * 1000000 + usec) % 2 ^ 64

-- `toString` and `toFormatString` of a value that the writer prints as `jstring`.
unfoldable pub to_string : (jstring : List ℕ) → List ℕ
to_string [] = []
to_string (c ∷ []) = if c == 10 then [] else c ∷ []
to_string (c ∷ d ∷ jstring) = c ∷ to_string (d ∷ jstring)
