-- ===== src/Singleton.antt =====
-- src/common/Singleton.h: `getInstance`, called by many threads at once. An object is the number of
-- objects made before it.
pub mod Once
use async_ping.Prelude.{ℕ, suc, ◌+◌, ◌≡◌, Option, none, some, ◌==◌, if◌then◌else◌}

-- Where a thread stands in `getInstance`: before the first test, before the lock, before the second
-- test, before the construction, before the unlock, and with the result.
pub data Place : Type 0 where
  outside waiting testing making leaving : Place
  returned : ℕ → Place

pub record Singleton : Type 0 where
  pub value : Option ℕ
  pub mutex : Option ℕ
  pub made : ℕ
  pub place : ℕ → Place

unfoldable pub go_to : Singleton → ℕ → Place → Singleton
go_to s t pl = record s { place = λ u. if u == t then pl else s.place u }

-- One step of the thread `t`.
pub data Step (s : Singleton) : Singleton → Type 0 where
  sees : (t v : ℕ) → s.place t ≡ outside → s.value ≡ some v → Step s (go_to s t (returned v))
  misses : (t : ℕ) → s.place t ≡ outside → s.value ≡ none → Step s (go_to s t waiting)
  locks :
      (t : ℕ)
      → s.place t ≡ waiting
      → s.mutex ≡ none
      → Step s (record (go_to s t testing) { mutex = some t })
  finds : (t v : ℕ) → s.place t ≡ testing → s.value ≡ some v → Step s (go_to s t leaving)
  enters : (t : ℕ) → s.place t ≡ testing → s.value ≡ none → Step s (go_to s t making)
  makes :
      (t : ℕ)
      → s.place t ≡ making
      → Step s (record (go_to s t leaving) { value = some s.made; made = s.made + 1 })
  unlocks :
      (t v : ℕ)
      → s.place t ≡ leaving
      → s.value ≡ some v
      → Step s (record (go_to s t (returned v)) { mutex = none })

pub data Run (s : Singleton) : Singleton → Type 0 where
  here : Run s s
  next : {t u : Singleton} → Run s t → Step t u → Run s u

-- No object, and every thread before its call.
unfoldable pub new_singleton : Singleton
new_singleton = record { value = none; mutex = none; made = 0; place = λ t. outside }
