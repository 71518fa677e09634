-- ===== src/Common/Log.antt =====
-- Src/Common/PrintLog.cpp: the log, and the buffer on the stack in which a line of it is put together.
pub mod Buffer
use shuchuang.Shared.{
  ℕ, ◌+◌, ◌-◌, ◌%◌, ◌^◌, String, Bool, true, false, Option, none, some, List, [], ◌∷◌, ◌++◌, length,
  take, ◌||◌, ◌==◌, nat_key, string_key, if◌then◌else◌,
}
use shuchuang.Shared.Int.{ℤ, pos, ltb_ℤ}

-- The level, the difference of the local time, and the path of the file: the three static variables.
pub record Logger : Type 0 where
  pub level : ℤ
  pub time_diff : ℤ
  pub path : Option String

-- `initPrintLogger`, where the local time is `utc_offset` ahead.
unfoldable pub init_print_logger : ℤ → String → Logger → Bool × Logger
init_print_logger utc_offset path l =
    (true, record l { time_diff = utc_offset; path = if path == "" then l.path else some path })

-- `setPrintLogLevel`: from LEVEL_FATAL to LEVEL_DEBUG.
unfoldable pub set_print_log_level : ℤ → Logger → Bool × Logger
set_print_log_level level l =
    if ltb_ℤ level (pos 1) || ltb_ℤ (pos 6) level
    then (false, l)
    else (true, record l { level = level })

-- The buffer, of 8192 bytes: `n` of the code, the text up to the first null, and the stretches of
-- memory that were written, each from its first byte to the one behind its last.
pub record Line : Type 0 where
  pub n : ℕ
  pub text : List ℕ
  pub touched : List (ℕ × ℕ)

-- `buffer[8191] = 0`.
abbrev pub empty_line : Line
empty_line = record { n = 0; text = []; touched = (8191, 8192) ∷ [] }

-- `sizeof(buffer) - 1 - n`, as an unsigned number of 64 bits.
unfoldable pub room : ℕ → ℕ
room n = (8191 + 2 ^ 64 - n) % 2 ^ 64

-- `n += snprintf(buffer + n, sizeof(buffer) - 1 - n, ...)`: what fits is written, with a null, and
-- the length of the whole is added. The text grows where it ends at this place.
unfoldable pub print : List ℕ → Line → Line
unfolding room
print bytes l =
    let fits = take (room l.n - 1) bytes in
    let rest = record l { n = l.n + length bytes } in
    if room l.n == 0 then rest else record rest {
      text = if length l.text == l.n then l.text ++ fits else l.text;
      touched = l.touched ++ (l.n, l.n + length fits + 1) ∷ [];
    }

-- `date` is "%02d-%02d %02d:%02d:%02d|", or nothing where the clock throws.
unfoldable pub print_message : List ℕ → List ℕ → List ℕ → Line
unfolding print
print_message date level message = print message (print (level ++ 32 ∷ []) (print date empty_line))

-- The macro LOG_MSG: the text that the logger gets, and the line at its end.
unfoldable pub log_msg : ℤ → List ℕ → List ℕ → List ℕ → Logger → Option (List ℕ × Line)
unfolding print_message
log_msg log_level date level message l =
    if ltb_ℤ l.level log_level
    then none
    else (let p = print_message date level message in some (p.text, print (10 ∷ []) p))

-- The six functions of the log, by their level.
pub data Severity : Type 0 where
  fatal error warn info trace debug : Severity

unfoldable pub level_of : Severity → ℤ
level_of fatal = pos 1
level_of error = pos 2
level_of warn = pos 3
level_of info = pos 4
level_of trace = pos 5
level_of debug = pos 6

unfoldable pub log_at : Severity → List ℕ → List ℕ → List ℕ → Logger → Option (List ℕ × Line)
unfolding log_msg level_of
log_at severity date name message l = log_msg (level_of severity) date name message l
