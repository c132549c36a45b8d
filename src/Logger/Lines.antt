-- ===== src/Logger/Lines.antt =====
-- The lines of the log: how `LogCout`, `LogPrint` and `LogVector` put them together. The time is an
-- argument (`CurrentTime`), and so is the text that `vsnprintf` makes of a format and what `<<` writes.
use nebula_toolkit.IniReader.{codes}
use nebula_toolkit.Logger.{LogGlobal, Levels, LogLevel, level_to_string, Sinks, emit}
use nebula_toolkit.Logger.Files.{to_string}
use nebula_toolkit.Prelude.{
  ℕ, zero, suc, ◌+◌, ◌≤◌, false, Option, some, List, [], ◌∷◌, ◌++◌, Bytes, length, take, ◌==◌,
  if◌then◌else◌, ◌≡◌, refl, ap, arith, length-append, length-take,
}

-- what stands before the text of a line
unfoldable pub line_head : Bytes → LogGlobal → LogLevel → Bytes → ℕ → Bytes
line_head now cfg level func line =
    now
    ++ codes " "
    ++ level_to_string level
    ++ (if cfg.print_func then codes "[" ++ func ++ codes " " else [])
    ++ (if cfg.print_line then codes "L" ++ to_string line ++ codes "] " else [])

abbrev pub concat : List Bytes → Bytes
concat [] = []
concat (arg ∷ args) = arg ++ concat args

-- the bytes before the first zero: what `<<` writes of a `char` array
abbrev pub c_string : Bytes → Bytes
c_string [] = []
c_string (b ∷ bytes) = if b == 0 then [] else b ∷ c_string bytes

-- `vsnprintf` into 1024 bytes: its last byte is a zero
abbrev pub formatted_buffer : Bytes → Bytes
formatted_buffer text = take 1023 text ++ 0 ∷ []

unfoldable pub log_cout :
    Levels → LogGlobal → LogLevel → Bytes → Bytes → ℕ → List Bytes → Sinks → Option Sinks
log_cout levels cfg level now func line args s =
    emit levels level (line_head now cfg level func line ++ concat args ++ codes "\n") s

unfoldable pub log_print :
    Levels → LogGlobal → LogLevel → Bytes → Bytes → ℕ → Bytes → Sinks → Option Sinks
log_print levels cfg level now func line text s =
    let buffer = formatted_buffer text in
    emit levels level (line_head now cfg level func line ++ c_string buffer ++ codes "\n") s

-- an element of a vector: `sizeof`, its conversion to `size_t`, and what `<<` writes of it
pub record Element : Type 0 where
  pub size : ℕ
  pub as_size : ℕ
  pub shown : Bytes

abbrev pub element_text : Element → Bytes
element_text e = if e.size == 1 then to_string e.as_size else e.shown

-- the elements after the first, each with its comma
abbrev pub more_elements : List Element → Bytes
more_elements [] = []
more_elements (e ∷ rest) = codes "," ++ element_text e ++ more_elements rest

abbrev pub elements_text : List Element → Bytes
elements_text [] = []
elements_text (e ∷ rest) = element_text e ++ more_elements rest

-- `LogVector` prints at every level and queues nothing.
unfoldable pub log_vector : LogGlobal → LogLevel → Bytes → Bytes → ℕ → List Element → Sinks → Sinks
log_vector cfg level now func line vector s = record s {
  printed = s.printed ++ line_head now cfg level func line ++ elements_text vector ++ codes "\n";
}

-- no byte of the text is zero
abbrev pub NoZero : Bytes → Type 0
NoZero [] = Unit {0}
NoZero (b ∷ bytes) = ((b == 0) ≡ false) × NoZero bytes

c_string-whole :
    (n : ℕ) (text : Bytes) → NoZero text → length text ≤ n → c_string (take n text ++ 0 ∷ []) ≡ text
c_string-whole zero [] z short = refl
c_string-whole (suc n) [] z short = refl
c_string-whole zero (b ∷ text) z short = absurd (omega arith)
c_string-whole (suc n) (b ∷ text) (nonzero, z) short =
    rw (nonzero, c_string-whole n text z (omega arith))

length-c_string : (text : Bytes) → length (c_string (text ++ 0 ∷ [])) ≤ length text
length-c_string [] = omega arith
length-c_string (b ∷ text) = ground (arith, length-c_string text)

concat_one : (text : Bytes) → concat (text ∷ []) ≡ text
concat_one [] = refl
concat_one (b ∷ text) = ap (λ u. b ∷ u) (concat_one text)

-- A format whose text has no zero byte and at most 1023 bytes: `LogPrint` does what `LogCout` does
-- with the text.
pub log_print-log_cout :
    (levels : Levels) (cfg : LogGlobal) (level : LogLevel) (now func : Bytes) (line : ℕ)
    (text : Bytes) (s : Sinks)
    → NoZero text
    → length text ≤ 1023
    → log_print levels cfg level now func line text s
      ≡ log_cout levels cfg level now func line (text ∷ []) s
unfolding log_print log_cout
log_print-log_cout levels cfg level now func line text s nonzero short =
    rw (c_string-whole 1023 text nonzero short, concat_one text)

-- A line that is printed is as long as it is, and one that is filtered is not printed.
length-emit :
    (levels : Levels) (level : LogLevel) (line : Bytes) (s s' : Sinks)
    → emit levels level line s ≡ some s'
    → length s'.printed ≤ length s.printed + length line
unfolding emit
length-emit levels level line s s' e = ground (arith, length-append s.printed line)

-- However long its text is, `LogPrint` prints at most what stands before the text, 1023 bytes of it, and
-- the end of the line.
pub log_print-IsBounded :
    (levels : Levels) (cfg : LogGlobal) (level : LogLevel) (now func : Bytes) (line : ℕ)
    (text : Bytes) (s s' : Sinks)
    → log_print levels cfg level now func line text s ≡ some s'
    → length s'.printed ≤ length s.printed + (length (line_head now cfg level func line) + 1024)
unfolding log_print
log_print-IsBounded levels cfg level now func line text s s' e =
    let buffer = c_string (formatted_buffer text) in
    let head = line_head now cfg level func line in
    let whole = length-emit levels level (head ++ buffer ++ codes "\n") s s' e in
    let cut = length-c_string (take 1023 text) in
    let few = length-take 1023 text in
    let outer = length-append (head ++ buffer) (codes "\n") in
    let inner = length-append head buffer in omega arith
