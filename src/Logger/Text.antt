-- ===== src/Logger/Text.antt =====
-- The text of a line: `LogEventBody::dumpToFile` of src/Log.cpp. A character is its ASCII code.
-- `localtime` is libc's, and `text_of` gives the characters that a pointer leads to.
pub mod Stamp
pub mod Lines
use async_ping.Prelude.{
  ℕ, zero, suc, ◌+◌, ◌-◌, ◌/◌, ◌%◌, Bool, true, false, List, [], ◌∷◌, ◌++◌, ltb, length,
  if◌then◌else◌,
}
use async_ping.Logger.{
  LevelString, error, warn, info, debug, unknown, get_level_string, LogEventBody,
}

-- What the line uses of `struct tm`.
pub record Tm : Type 0 where
  pub tm_year : ℕ
  pub tm_mon : ℕ
  pub tm_mday : ℕ
  pub tm_hour : ℕ
  pub tm_min : ℕ
  pub tm_sec : ℕ

-- "ERROR", "WARN", "INFO", "DEBUG" and "UNKNOWN".
unfoldable pub level_text : LevelString → List ℕ
level_text error = 69 ∷ 82 ∷ 82 ∷ 79 ∷ 82 ∷ []
level_text warn = 87 ∷ 65 ∷ 82 ∷ 78 ∷ []
level_text info = 73 ∷ 78 ∷ 70 ∷ 79 ∷ []
level_text debug = 68 ∷ 69 ∷ 66 ∷ 85 ∷ 71 ∷ []
level_text unknown = 85 ∷ 78 ∷ 75 ∷ 78 ∷ 79 ∷ 87 ∷ 78 ∷ []

-- The last `fuel` digits of a number, without leading zeros.
unfoldable pub digits : (fuel n : ℕ) → List ℕ → List ℕ
digits zero n acc = acc
digits (suc fuel) n acc =
    let rest = digits fuel (n / 10) ((48 + n % 10) ∷ acc) in
    if ltb n 10 then (48 + n % 10) ∷ acc else rest

-- `%d`: an int has ten digits at most.
unfoldable pub decimal : ℕ → List ℕ
unfolding digits
decimal n = digits 10 n []

abbrev pub zeros : ℕ → List ℕ
zeros zero = []
zeros (suc n) = 48 ∷ zeros n

-- `%04d` and `%02d`.
unfoldable pub padded : (width n : ℕ) → List ℕ
unfolding decimal
padded width n = zeros (width - length (decimal n)) ++ decimal n

-- `%04d-%02d-%02d %02d:%02d:%02d`.
unfoldable pub stamp : Tm → List ℕ
unfolding padded
stamp t =
    padded 4 (t.tm_year + 1900)
    ++ (45 ∷ padded 2 (t.tm_mon + 1)
        ++ (45 ∷ padded 2 t.tm_mday
            ++ (32 ∷ padded 2 t.tm_hour ++ (58 ∷ padded 2 t.tm_min ++ (58 ∷ padded 2 t.tm_sec)))))

-- The line without its newline: `[%s] ` and the time, ` (%s:%d): %s`.
unfoldable pub line_text : (localtime : ℕ → Tm) (text_of : ℕ → List ℕ) → LogEventBody → List ℕ
unfolding level_text get_level_string stamp decimal
line_text localtime text_of b =
    91 ∷ level_text (get_level_string b.level)
    ++ (93 ∷ 32 ∷ stamp (localtime b.now)
        ++ (32 ∷ 40 ∷ text_of b.src_file_name
            ++ (58 ∷ decimal b.line ++ (41 ∷ 58 ∷ 32 ∷ b.content))))

unfoldable pub dump_to_file :
    (localtime : ℕ → Tm) (text_of : ℕ → List ℕ) (file : List ℕ) → LogEventBody → List ℕ
unfolding line_text
dump_to_file localtime text_of file b = file ++ (line_text localtime text_of b ++ 10 ∷ [])

-- What a new file holds after the lines.
unfoldable pub dump_all :
    (localtime : ℕ → Tm) (text_of : ℕ → List ℕ) (file : List ℕ) → List LogEventBody → List ℕ
unfolding dump_to_file
dump_all localtime text_of file [] = file
dump_all localtime text_of file (b ∷ bodies) =
    dump_all localtime text_of (dump_to_file localtime text_of file b) bodies
