-- ===== src/Logger/Text/Lines.antt =====
-- Reading a log file back: a line for each entry, with its level and its time.
use async_ping.Prelude.{
  ℕ, zero, suc, ◌+◌, ◌-◌, ◌/◌, ◌%◌, ◌≡◌, refl, inl, inr, false, Option, none, some, List, [], ◌∷◌,
  ◌++◌, append_assoc, append-nil, map, arith, length, ltb, All, ◌∙◌, sym, ap, ◌==◌, Bool-cases,
  if◌then◌else◌,
}
use async_ping.Logger.{
  LevelString, error, warn, info, debug, unknown, get_level_string, LogEventBody,
}
use async_ping.Logger.Text.{
  Tm, level_text, digits, decimal, zeros, padded, stamp, line_text, dump_to_file, dump_all,
}
use async_ping.Logger.Text.Stamp.{read_stamp, IsTm, read_stamp_lem}

-- The lines of a text, each up to its newline.
abbrev pub add_char : ℕ → List (List ℕ) → List (List ℕ)
add_char c [] = (c ∷ []) ∷ []
add_char c (l ∷ ls) = (c ∷ l) ∷ ls

unfoldable pub lines : List ℕ → List (List ℕ)
lines [] = []
lines (c ∷ text) = if c == 10 then [] ∷ lines text else add_char c (lines text)

-- The level is told by its first letter, behind the bracket.
unfoldable pub level_of : ℕ → LevelString
level_of c =
    if c == 69
    then error
    else if c == 87
    then warn
    else if c == 73
    then info
    else if c == 68
    then debug
    else unknown

-- What stands behind the first `]`.
unfoldable pub behind : List ℕ → List ℕ
behind [] = []
behind (c ∷ text) = if c == 93 then text else behind text

unfoldable pub read_line : List ℕ → Option (LevelString × Option Tm)
unfolding level_of behind read_stamp
read_line (a ∷ c ∷ text) = some (level_of c, read_stamp (behind text))
read_line _ = none

-- The head of a line, with its level and its time.
read_line_lem :
    (t : Tm) (fits : IsTm t) (l : LevelString) (rest : List ℕ)
    → read_line (91 ∷ level_text l ++ (93 ∷ 32 ∷ stamp t ++ rest)) ≡ some (l, some t)
unfolding read_line level_of behind level_text
read_line_lem t fits error rest = ap (λ r. some (error, r)) (read_stamp_lem t fits rest)
read_line_lem t fits warn rest = ap (λ r. some (warn, r)) (read_stamp_lem t fits rest)
read_line_lem t fits info rest = ap (λ r. some (info, r)) (read_stamp_lem t fits rest)
read_line_lem t fits debug rest = ap (λ r. some (debug, r)) (read_stamp_lem t fits rest)
read_line_lem t fits unknown rest = ap (λ r. some (unknown, r)) (read_stamp_lem t fits rest)

-- No newline.
pub data Plain : List ℕ → Type 0 where
  blank : Plain []
  char : {c : ℕ} {l : List ℕ} → (c == 10) ≡ false → Plain l → Plain (c ∷ l)

Plain-append : {l m : List ℕ} → Plain l → Plain m → Plain (l ++ m)
Plain-append blank k = k
Plain-append (char e h) k = char e (Plain-append h k)

lines-append : (l rest : List ℕ) → Plain l → lines (l ++ 10 ∷ rest) ≡ l ∷ lines rest
unfolding lines
lines-append [] rest h = refl
lines-append (c ∷ l) rest (char e h) = rw e (ap (add_char c) (lines-append l rest h))

digits-Plain : (fuel n : ℕ) (acc : List ℕ) → Plain acc → Plain (digits fuel n acc)
unfolding digits
digits-Plain zero n acc h = h
digits-Plain (suc fuel) n acc h = elim (Bool-cases (ltb n 10)) [
  | inl small ↦ rw small (char (ground arith) h)
  | inr large ↦ rw large (digits-Plain fuel (n / 10) ((48 + n % 10) ∷ acc) (char (ground arith) h))
]

decimal-Plain : (n : ℕ) → Plain (decimal n)
unfolding decimal
decimal-Plain n = digits-Plain 10 n [] blank

zeros-Plain : (n : ℕ) → Plain (zeros n)
zeros-Plain zero = blank
zeros-Plain (suc n) = char refl (zeros-Plain n)

padded-Plain : (width n : ℕ) → Plain (padded width n)
unfolding padded
padded-Plain width n = Plain-append (zeros-Plain (width - length (decimal n))) (decimal-Plain n)

level_text-Plain : (l : LevelString) → Plain (level_text l)
unfolding level_text
level_text-Plain error = search (blank, char)
level_text-Plain warn = search (blank, char)
level_text-Plain info = search (blank, char)
level_text-Plain debug = search (blank, char)
level_text-Plain unknown = search (blank, char) depth 10

ruleset plain_rules = (blank, char, Plain-append, decimal-Plain, padded-Plain, level_text-Plain)

stamp-Plain : (t : Tm) → Plain (stamp t)
unfolding stamp
stamp-Plain t = search plain_rules depth 24

module _ (localtime : ℕ → Tm) (text_of : ℕ → List ℕ) where
  -- Neither the name of the file nor the content breaks the line, and the time fits.
  pub record IsPlain (b : LogEventBody) : Type 0 where
    pub name : Plain (text_of b.src_file_name)
    pub content : Plain b.content
    pub time : IsTm (localtime b.now)

  line_text-Plain : (b : LogEventBody) → IsPlain b → Plain (line_text localtime text_of b)
  unfolding line_text
  line_text-Plain b h =
      let name = h.name in let content = h.content in search (plain_rules, stamp-Plain) depth 24

  read_line-line_text :
      (b : LogEventBody)
      → IsPlain b
      → read_line (line_text localtime text_of b)
        ≡ some (get_level_string b.level, some (localtime b.now))
  unfolding line_text
  read_line-line_text b h = read_line_lem (localtime b.now) h.time (get_level_string b.level) _

  texts : List LogEventBody → List ℕ
  texts [] = []
  texts (b ∷ bodies) = line_text localtime text_of b ++ 10 ∷ texts bodies

  dump_all_lem :
      (file : List ℕ) (bodies : List LogEventBody)
      → dump_all localtime text_of file bodies ≡ file ++ texts bodies
  unfolding dump_all dump_to_file texts
  dump_all_lem file [] = sym (append-nil file)
  dump_all_lem file (b ∷ bodies) =
      dump_all_lem (file ++ (line_text localtime text_of b ++ 10 ∷ [])) bodies
      ∙ append_assoc file (line_text localtime text_of b ++ 10 ∷ []) (texts bodies)
      ∙ ap (λ l. file ++ l) (append_assoc (line_text localtime text_of b) (10 ∷ []) (texts bodies))

  read_texts :
      (bodies : List LogEventBody)
      → All IsPlain bodies
      → map read_line (lines (texts bodies))
        ≡ map (λ b. some (get_level_string b.level, some (localtime b.now))) bodies
  unfolding texts lines
  read_texts [] h = refl
  read_texts (b ∷ bodies) h =
      ap (map read_line)
        (lines-append (line_text localtime text_of b) (texts bodies) (line_text-Plain b h.0))
      ∙ ap (λ r. r ∷ map read_line (lines (texts bodies))) (read_line-line_text b h.0)
      ∙ ap (λ l. some (get_level_string b.level, some (localtime b.now)) ∷ l)
          (read_texts bodies h.1)

  -- If neither contents nor file names have newlines and the times fit their digits, the new file
  -- that the lines are dumped to has one line for each, which shows its level and its time.
  pub read_line-dump_all :
      (bodies : List LogEventBody)
      → All IsPlain bodies
      → map read_line (lines (dump_all localtime text_of [] bodies))
        ≡ map (λ b. some (get_level_string b.level, some (localtime b.now))) bodies
  read_line-dump_all bodies h =
      ap (λ l. map read_line (lines l)) (dump_all_lem [] bodies) ∙ read_texts bodies h
