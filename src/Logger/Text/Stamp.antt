-- ===== src/Logger/Text/Stamp.antt =====
-- The time in a line of the log, and how it is read back.
use async_ping.Prelude.{
  ℕ, ◌+◌, ◌*◌, ◌-◌, ◌/◌, ◌%◌, ◌<◌, ◌≤◌, ◌≡◌, refl, inl, inr, true, false, Option, none, some, List,
  [], ◌∷◌, ◌++◌, arith, ltb, Bool-cases,
}
use async_ping.Logger.Text.{Tm, digits, decimal, padded, stamp}

abbrev pub two : ℕ → ℕ → ℕ
two a b = (a - 48) * 10 + (b - 48)

unfoldable pub read_stamp : List ℕ → Option Tm
read_stamp
      (z ∷ y₁ ∷ y₂ ∷ y₃ ∷ y₄ ∷ a ∷ m₁ ∷ m₂ ∷ b ∷ d₁ ∷ d₂ ∷ c ∷ h₁ ∷ h₂ ∷ d ∷ i₁ ∷ i₂ ∷ e ∷ s₁ ∷ s₂
        ∷ rest) =
    some (record {
      tm_year = two y₁ y₂ * 100 + two y₃ y₄ - 1900;
      tm_mon = two m₁ m₂ - 1;
      tm_mday = two d₁ d₂;
      tm_hour = two h₁ h₂;
      tm_min = two i₁ i₂;
      tm_sec = two s₁ s₂;
    })
read_stamp _ = none

-- The fields fit their digits.
pub record IsTm (t : Tm) : Type 0 where
  pub year : t.tm_year + 1900 < 10000
  pub mon : t.tm_mon + 1 < 100
  pub mday : t.tm_mday < 100
  pub hour : t.tm_hour < 100
  pub min : t.tm_min < 100
  pub sec : t.tm_sec < 100

padded_two : (n : ℕ) → n < 100 → padded 2 n ≡ (48 + n / 10) ∷ (48 + n % 10) ∷ []
unfolding padded decimal digits
padded_two n h = elim (Bool-cases (ltb n 10)) [
  | inl small ↦ let quotient : n / 10 ≡ 0 = ground arith in rw (small, quotient) refl
  | inr large ↦
      let top : ltb (n / 10) 10 ≡ true = ground arith in
      let same : n / 10 % 10 ≡ n / 10 = ground arith in rw (large, top, same) refl
]

padded_four :
    (n : ℕ)
    → 1900 ≤ n
    → n < 10000
    → padded 4 n ≡ (48 + n / 1000) ∷ (48 + n / 100 % 10) ∷ (48 + n / 10 % 10) ∷ (48 + n % 10) ∷ []
unfolding padded decimal digits
padded_four n low h =
    let a : ltb n 10 ≡ false = ground arith in
    let b : ltb (n / 10) 10 ≡ false = ground arith in
    let c : ltb (n / 10 / 10) 10 ≡ false = ground arith in
    let d : ltb (n / 10 / 10 / 10) 10 ≡ true = ground arith in
    let e : n / 10 / 10 ≡ n / 100 = omega arith in
    let f : n / 10 / 10 / 10 % 10 ≡ n / 1000 = omega arith in rw (a, b, c, d) (rw f (rw e refl))

module _ (t : Tm) (fits : IsTm t) where
  -- The nineteen characters.
  unfoldable shown : List ℕ
  shown =
      (48 + (t.tm_year + 1900) / 1000)
      ∷ (48 + (t.tm_year + 1900) / 100 % 10)
      ∷ (48 + (t.tm_year + 1900) / 10 % 10)
      ∷ (48 + (t.tm_year + 1900) % 10)
      ∷ 45
      ∷ (48 + (t.tm_mon + 1) / 10)
      ∷ (48 + (t.tm_mon + 1) % 10)
      ∷ 45
      ∷ (48 + t.tm_mday / 10)
      ∷ (48 + t.tm_mday % 10)
      ∷ 32
      ∷ (48 + t.tm_hour / 10)
      ∷ (48 + t.tm_hour % 10)
      ∷ 58
      ∷ (48 + t.tm_min / 10)
      ∷ (48 + t.tm_min % 10)
      ∷ 58
      ∷ (48 + t.tm_sec / 10)
      ∷ (48 + t.tm_sec % 10)
      ∷ []

  stamp_lem : stamp t ≡ shown
  unfolding stamp shown
  stamp_lem =
      rw
        (
          padded_four (t.tm_year + 1900) (omega arith) fits.year,
          padded_two (t.tm_mon + 1) fits.mon,
          padded_two t.tm_mday fits.mday,
          padded_two t.tm_hour fits.hour,
          padded_two t.tm_min fits.min,
          padded_two t.tm_sec fits.sec,
        )
        refl

  two_digits : (n : ℕ) → two (48 + n / 10) (48 + n % 10) ≡ n
  two_digits n = omega arith

  pub read_stamp_lem : (rest : List ℕ) → read_stamp (32 ∷ stamp t ++ rest) ≡ some t
  unfolding read_stamp shown
  read_stamp_lem rest =
      let year : two (48 + (t.tm_year + 1900) / 1000) (48 + (t.tm_year + 1900) / 100 % 10) * 100
            + two (48 + (t.tm_year + 1900) / 10 % 10) (48 + (t.tm_year + 1900) % 10)
            - 1900
          ≡ t.tm_year =
        omega arith in
      let mon : two (48 + (t.tm_mon + 1) / 10) (48 + (t.tm_mon + 1) % 10) - 1 ≡ t.tm_mon =
        omega arith in
      rw stamp_lem (λ i. some (record {
        tm_year = year i;
        tm_mon = mon i;
        tm_mday = two_digits t.tm_mday i;
        tm_hour = two_digits t.tm_hour i;
        tm_min = two_digits t.tm_min i;
        tm_sec = two_digits t.tm_sec i;
      }))
