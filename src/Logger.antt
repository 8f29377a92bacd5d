-- ===== src/Logger.antt =====
-- src/Log.cpp: the logger. Any thread logs: it queues a line and then writes a byte to the pipe. The
-- logger's own thread writes one line to the file for each byte that it reads.
pub mod Run
pub mod Text
pub mod Shared
pub mod Concurrent
use async_ping.Prelude.{
  ℕ, zero, suc, ◌+◌, ◌-◌, Bool, true, false, Option, none, some, List, [], ◌∷◌, ◌++◌, ltb, ◌==◌,
  if◌then◌else◌,
}
use async_ping.Fifo

-- A level is its number, so that any number can arrive where the source casts.
abbrev pub level_error : ℕ
level_error = 10

abbrev pub level_warn : ℕ
level_warn = 20

abbrev pub level_info : ℕ
level_info = 30

abbrev pub level_debug : ℕ
level_debug = 40

abbrev pub log_line_buf_size : ℕ
log_line_buf_size = 8193

pub data LevelString : Type 0 where
  error warn info debug unknown : LevelString

unfoldable pub get_level_string : ℕ → LevelString
get_level_string level =
    if level == level_error
    then error
    else if level == level_warn
    then warn
    else if level == level_info
    then info
    else if level == level_debug
    then debug
    else unknown

-- One line: `content` is a string of characters, `src_file_name` a pointer.
pub record LogEventBody : Type 0 where
  pub content : List ℕ
  pub src_file_name : ℕ
  pub level : ℕ
  pub line : ℕ
  pub now : ℕ

-- `file` is what was written, `dumpToFile` for each, the latest at the end.
pub record Logger : Type 0 where
  pub log_level : ℕ
  pub log_queue : List LogEventBody
  pub pipe : ℕ
  pub file : List LogEventBody

unfoldable pub new_logger : Logger
new_logger = record { log_level = level_info; log_queue = []; pipe = 0; file = [] }

-- `vsnprintf` with the room `n`: at most `n - 1` characters, and the terminating zero.
unfoldable pub truncate : (n : ℕ) → List ℕ → List ℕ
truncate zero text = []
truncate (suc zero) text = []
truncate (suc (suc n)) [] = []
truncate (suc (suc n)) (c ∷ text) = c ∷ truncate (suc n) text

-- What `log` queues, where the format and its arguments give `text`: nothing above the level.
unfoldable pub make_body :
    Logger → (now level src_file_name line : ℕ) → List ℕ → Option LogEventBody
unfolding truncate
make_body l now level src_file_name line text =
    if ltb l.log_level level
    then none
    else some (record {
      content = truncate (log_line_buf_size - 1) text;
      src_file_name = src_file_name;
      level = level;
      line = line;
      now = now;
    })

-- `logQueue.pushHead(body)` of `log`.
unfoldable pub enqueue : Logger → LogEventBody → Logger
enqueue l body = record l { log_queue = Fifo.push_head body l.log_queue }

unfoldable pub notify : Logger → Logger
notify l = record l { pipe = l.pipe + 1 }

-- `log` of one thread, undisturbed.
unfoldable pub log : Logger → (now level src_file_name line : ℕ) → List ℕ → Logger
unfolding make_body enqueue notify
log l now level src_file_name line text = elim (make_body l now level src_file_name line text) [
  | none ↦ l
  | some body ↦ notify (enqueue l body)
]

unfoldable pub log_event_handler : Logger → Logger
log_event_handler l =
    let read = record l { pipe = l.pipe - 1 } in
    elim (Fifo.pop_tail l.log_queue) [
      | none ↦ read
      | some (body, rest) ↦ record read { log_queue = rest; file = l.file ++ body ∷ [] }
    ]
