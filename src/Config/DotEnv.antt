-- ===== src/Config/DotEnv.antt =====
-- `loadDotEnv` of internal/config/config.go. A file is `none` if os.Open fails, else its text up to
-- the end of file or the first read error.
pub mod Precedence
pub mod Lines
use pulse_monitor.Config.Env.{Env, lookup_env, set_env}
use pulse_monitor.Prelude.{
  ℕ, ◌+◌, Bool, true, false, ◌&&◌, ◌||◌, List, [], ◌∷◌, reverse, Option, none, some, leb, ◌==◌,
  if◌then◌else◌,
}
use pulse_monitor.Text.{Text, codes, trim_space, text_eq, starts_with, cut, split_on, utf8_length}

-- The largest token of a bufio.Scanner, in bytes (bufio.MaxScanTokenSize).
abbrev pub max_token_size : ℕ
max_token_size = 65536

abbrev pub drop_cr_reversed : Text → Text
drop_cr_reversed [] = []
drop_cr_reversed (c ∷ s) = if c == b'\r' then reverse s else reverse (c ∷ s)

-- The carriage return at the end of a line is no part of it.
unfoldable pub drop_cr : Text → Text
drop_cr s = drop_cr_reversed (reverse s)

-- The pieces between newlines; the end of the file makes no empty line.
unfoldable pub raw_lines : List Text → List Text
raw_lines [] = []
raw_lines ([] ∷ []) = []
raw_lines ((c ∷ p) ∷ []) = (c ∷ p) ∷ []
raw_lines (p ∷ q ∷ ps) = p ∷ raw_lines (q ∷ ps)

pub record Scan : Type 0 where
  pub lines : List Text
  pub too_long : Bool

abbrev add_line : Text → Scan → Scan
add_line l s = record s { lines = l ∷ s.lines }

-- The loop `for scanner.Scan()`: it stops in front of the first line that does not fit the buffer.
unfoldable pub scan_raw : List Text → Scan
unfolding drop_cr
scan_raw [] = record { lines = []; too_long = false }
scan_raw (p ∷ ps) =
    let rest = add_line (drop_cr p) (scan_raw ps) in
    if leb max_token_size (utf8_length p) then record { lines = []; too_long = true } else rest

unfoldable pub scan : Text → Scan
unfolding scan_raw raw_lines
scan s = scan_raw (raw_lines (split_on b'\n' s))

abbrev is_quote_pair : ℕ → ℕ → Bool
is_quote_pair c d = (c == b'"' && d == b'"') || (c == b'\'' && d == b'\'')

-- What follows the first character, reversed.
abbrev pub unquote_between : ℕ → Text → Text → Text
unquote_between c s [] = c ∷ s
unquote_between c s (d ∷ m) = if is_quote_pair c d then reverse m else c ∷ s

-- One pair of surrounding quotes is removed.
unfoldable pub unquote : Text → Text
unquote [] = []
unquote (c ∷ s) = unquote_between c s (reverse s)

unfoldable pub assignment : Option (Text × Text) → Option (Text × Text)
unfolding unquote
assignment none = none
assignment (some (a, b)) = some (trim_space a, unquote (trim_space b))

abbrev comment_mark : Text
comment_mark = b'#' ∷ []

-- The key and value of a line; `none` for the lines that the loop skips.
unfoldable pub parse_line : Text → Option (Text × Text)
unfolding assignment
parse_line raw =
    let line = trim_space raw in
    if text_eq line [] || starts_with line comment_mark then none else assignment (cut b'=' line)

abbrev pub set_absent : Option Text → Text → Text → Env → Env
set_absent none k v env = set_env k v env
set_absent (some w) k v env = env

-- "Only set if not already present in the environment."
unfoldable pub assign : Option (Text × Text) → Env → Env
assign none env = env
assign (some (k, v)) env = set_absent (lookup_env k env) k v env

unfoldable pub assign_lines : List Text → Env → Env
unfolding assign parse_line
assign_lines [] env = env
assign_lines (l ∷ ls) env = assign_lines ls (assign (parse_line l) env)

pub data FileError : Type 0 where
  not_opened token_too_long : FileError

-- The environment afterwards, and the error that `Load` ignores.
unfoldable pub load_dot_env : Option Text → Env → Env × Option FileError
unfolding scan assign_lines
load_dot_env none env = (env, some not_opened)
load_dot_env (some file) env =
    let s = scan file in
    (assign_lines s.lines env, if s.too_long then some token_too_long else none)
