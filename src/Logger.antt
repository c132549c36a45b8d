-- ===== src/Logger.antt =====
-- Logger: include/logger/logger.hpp. Its configuration (`UpdateConfig`, `ShouldLog`, `LevelToString`)
-- and the way of a line through the ring buffer to the log file (the writing part of `LogCout` and
-- `LogPrint`, and the loop of `CustThreadProc`). The file that `CONFIG_PATH` names is an argument.
pub mod Reload
pub mod Pipeline
pub mod Flow
pub mod Files
pub mod Lines
pub mod Rounds
pub mod Monitor
pub mod Lifetime
mod Tests
use nebula_toolkit.IniReader.{get_bool, get_size, get_string, codes}
use nebula_toolkit.Prelude.{
  ℕ, ◌*◌, ◌%◌, ◌^◌, Bool, true, false, Option, none, some, List, [], ◌∷◌, ◌++◌, Bytes, length, take,
  min, ltb, ◌==◌, if◌then◌else◌, ◌>>=◌,
}
use nebula_toolkit.RingBuffer
use nebula_toolkit.RingBuffer.{RingBuffer, Vector, read_vector, available_to_read, is_empty}

pub record LogGlobal : Type 0 where
  pub max_file_size : ℕ
  pub print_line : Bool
  pub print_func : Bool
  pub print_time : Bool
  pub log_directory : Bytes

pub record LogAsync : Type 0 where
  pub ring_buffer_size_kb : ℕ
  pub batch_size_kb : ℕ
  pub max_flush_size : ℕ

-- `configs::LogLevel`
pub record Levels : Type 0 where
  pub msg : Bool
  pub info : Bool
  pub warn : Bool
  pub debug : Bool
  pub error : Bool

pub record Config : Type 0 where
  pub global : LogGlobal
  pub async : LogAsync
  pub level : Levels

-- the members' initial values
abbrev pub default_config : Config
default_config = record {
  global = record {
    max_file_size = 1024 * 1024;
    print_line = false;
    print_func = false;
    print_time = false;
    log_directory = [];
  };
  async = record {
    ring_buffer_size_kb = 64 * 1024;
    batch_size_kb = 4 * 1024;
    max_flush_size = 64 * 1024;
  };
  level = record { msg = false; info = false; warn = false; debug = false; error = false };
}

abbrev pub global_section : Bytes
global_section = codes "LOG_GLOBAL"

abbrev pub async_section : Bytes
async_section = codes "LOG_GLOBAL"

abbrev pub level_section : Bytes
level_section = codes "LOG_LEVEL"

-- `GetValue` into a member: the member afterwards
abbrev pub size_of : Bytes → Bytes → Option Bytes → ℕ → ℕ
size_of section key file old = (get_size section key file old).1

abbrev pub flag_of : Bytes → Bytes → Option Bytes → Bool → Bool
flag_of section key file old = (get_bool section key file old).1

unfoldable pub update_global : Option Bytes → LogGlobal → LogGlobal
update_global file g = record {
  max_file_size =
      size_of global_section (codes "max_file_size_kb") file g.max_file_size * 1024 % 2 ^ 64;
  print_line = flag_of global_section (codes "print_line") file g.print_line;
  print_func = flag_of global_section (codes "print_func") file g.print_func;
  print_time = flag_of global_section (codes "print_time") file g.print_time;
  log_directory = (get_string global_section (codes "log_directory") file g.log_directory).1;
}

unfoldable pub update_async : Option Bytes → LogAsync → LogAsync
update_async file a = record {
  ring_buffer_size_kb =
      size_of async_section (codes "ring_buffer_size_kb") file a.ring_buffer_size_kb;
  batch_size_kb = size_of async_section (codes "batch_size_kb") file a.batch_size_kb;
  max_flush_size = size_of async_section (codes "max_flush_size") file a.max_flush_size;
}

unfoldable pub update_level : Option Bytes → Levels → Levels
update_level file l = record {
  msg = flag_of level_section (codes "msg") file l.msg;
  info = flag_of level_section (codes "info") file l.info;
  warn = flag_of level_section (codes "warn") file l.warn;
  debug = flag_of level_section (codes "debug") file l.debug;
  error = flag_of level_section (codes "error") file l.error;
}

unfoldable pub update_config : Option Bytes → Config → Config
unfolding update_global update_async update_level
update_config file c = record {
  global = update_global file c.global;
  async = update_async file c.async;
  level = update_level file c.level;
}

-- `enum LogLevel`
pub data LogLevel : Type 0 where
  msg info warn debug error : LogLevel

unfoldable pub should_log : Levels → LogLevel → Bool
should_log c msg = c.msg
should_log c info = c.info
should_log c warn = c.warn
should_log c debug = c.debug
should_log c error = c.error

unfoldable pub level_to_string : LogLevel → Bytes
level_to_string msg = codes "[MSG] "
level_to_string info = codes "[INFO] "
level_to_string warn = codes "[WARN] "
level_to_string debug = codes "[DEBUG] "
level_to_string error = codes "[ERROR] "

-- What `LogCout`, `LogPrint` and `CustThreadProc` share: the ring buffer, the consumer's block
-- `read_buffer`, all that was printed, and all that was written to the log files, in order.
pub record Sinks : Type 0 where
  pub ring : RingBuffer
  pub read_buffer : Bytes
  pub printed : Bytes
  pub written : Bytes

abbrev pub is_msg : LogLevel → Bool
is_msg msg = true
is_msg _ = false

-- `LogCout` and `LogPrint` from the finished line on: print it, and queue it if it is no message
unfoldable pub emit : Levels → LogLevel → Bytes → Sinks → Option Sinks
unfolding should_log
emit levels level line s =
    let shown = record s { printed = s.printed ++ line } in
    if should_log levels level
    then (if is_msg level then some shown else do
      (_, r') ← RingBuffer.write s.ring line (length line)
      some (record shown { ring = r' }))
    else some s

-- `file.write(read_buffer.data(), n)`: a read past the block is undefined
abbrev pub file_write : Bytes → Bytes → ℕ → Option Bytes
file_write written block n = if ltb (length block) n then none else some (written ++ take n block)

-- one round of the loop of `CustThreadProc`; the file that `RotateFileIfNeeded` chooses is left out
unfoldable pub consume : ℕ → Sinks → Option Sinks
consume batch_size s = if is_empty s.ring then some s else do
  let n = min (available_to_read s.ring) batch_size
  if n == 0 then some s else do
    (_, v, r') ←
        read_vector s.ring
          (record { elem_size = 1; count = length s.read_buffer; bytes = s.read_buffer }) n
    w ← file_write s.written v.bytes n
    some (record s { ring = r'; read_buffer = v.bytes; written = w })
