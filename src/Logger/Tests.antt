-- ===== src/Logger/Tests.antt =====
-- Runs of the logger, and the theorems about it at concrete settings and queues.
use nebula_toolkit.IniReader.{codes, bytes_eq}
use mathlib.Core.Option
use nebula_toolkit.Logger.Files.Bounds.{CanOpen, IsBounded, log_of}
use nebula_toolkit.Logger.Files.{
  FileManager, new_manager, close_file, file_name, open_new_file, rotate_file_if_needed,
}
use nebula_toolkit.Logger.Flow.{Event, line, round, run, run-flow, Flows, moves}
use nebula_toolkit.Logger.Lines.{line_head, log_print, log_vector}
use nebula_toolkit.Logger.Pipeline.{consume_overruns}
use nebula_toolkit.RingBuffer.{read_vector}
use nebula_toolkit.Logger.{
  Sinks, Levels, LogGlobal, emit, level_to_string, info, debug, msg, consume, should_log,
  default_config,
}
use nebula_toolkit.Prelude.{
  ◌≡◌, refl, true, false, none, some, Option, Bytes, ℕ, ◌++◌, memcpy, List, [], ◌∷◌, arith,
}
use nebula_toolkit.Logger.Rounds.{cust_round, cust_rounds, cust_rounds-drain}
use nebula_toolkit.RingBuffer.Contents.{IsValid, contents}

-- a queue of six bytes that holds 5, 6, 7 and 8 round its end, and a block of three bytes
abbrev sinks : Sinks
sinks = record {
  ring = record { read_index = 4; write_index = 2; len = 4; buffer = 7 ∷ 8 ∷ 0 ∷ 0 ∷ 5 ∷ 6 ∷ [] };
  read_buffer = 0 ∷ 0 ∷ 0 ∷ [];
  printed = [];
  written = 1 ∷ [];
}

sinks-IsValid : IsValid sinks.ring
sinks-IsValid = omega arith

-- the batch size read again as 4, with a block of 3
consume_overruns_example : consume 4 sinks ≡ none
consume_overruns_example = consume_overruns 4 sinks sinks-IsValid (omega arith) (omega arith)

abbrev levels : Levels
levels = record { msg = true; info = true; warn = true; debug = false; error = true }

abbrev events : List Event
events =
    line info (9 ∷ 9 ∷ [])
    ∷ line debug (2 ∷ [])
    ∷ line msg (3 ∷ [])
    ∷ line info (4 ∷ [])
    ∷ round
    ∷ []

run-flow_example :
    Flows sinks (run levels 3 events sinks) (record {
      queued = 8 ∷ 9 ∷ 9 ∷ [];
      written = 1 ∷ 5 ∷ 6 ∷ 7 ∷ [];
      printed = 9 ∷ 9 ∷ 3 ∷ 4 ∷ [];
    })
unfolding moves should_log
run-flow_example = run-flow levels 3 events sinks sinks-IsValid (omega arith)

-- a disk on which every file has two bytes when it is opened
abbrev old_files : Unit {0} → Bytes → Option ℕ × Unit {0}
old_files d name = (some 2, d)

abbrev Always : Unit {0} → Type 0
Always d = Unit {0}

old_files-CanOpen : CanOpen old_files Always
old_files-CanOpen = record { opens = λ d name ready. (2, refl); stays = λ d name ready. tt }

-- On two days, the first round takes three bytes and the second the one that is left.
name_of_rounds :
    Option.map
      (λ (r : Unit {0} × FileManager × Sinks). close_file r.1.file r.1.earlier)
      (cust_rounds old_files
        (codes "logs")
        5
        3
        tt
        new_manager
        sinks
        (codes "2025-01-01" ∷ codes "2025-01-02" ∷ []))
    ≡ some (
        record { name = codes "logs/2025-01-02_0.log"; position = 3; appended = 8 ∷ [] }
        ∷ record { name = codes "logs/2025-01-01_0.log"; position = 5; appended = 5 ∷ 6 ∷ 7 ∷ [] }
        ∷ [])
unfolding cust_rounds cust_round rotate_file_if_needed open_new_file file_name bytes_eq read_vector
    memcpy
name_of_rounds = refl

abbrev all_levels : Levels
all_levels = record { msg = true; info = true; warn = true; debug = true; error = true }

abbrev with_func : LogGlobal
with_func = record default_config.global { print_func = true }

-- The bracket that print_func opens is closed only by print_line.
head_of_func :
    line_head (codes "12:00") with_func debug (codes "main") 42 ≡ codes "12:00 [DEBUG] [main "
unfolding line_head level_to_string
head_of_func = refl

-- at a level that is off, a vector is printed all the same
vector_of_level :
    (log_vector default_config.global info
      (codes "12:00")
      []
      3
      (record { size = 1; as_size = 255; shown = [] }
        ∷ record { size = 4; as_size = 2; shown = codes "-2" }
        ∷ [])
      sinks).printed
    ≡ codes "12:00 [INFO] 255,-2\n"
unfolding log_vector line_head level_to_string
vector_of_level = refl

-- what `LogPrint` leaves at the level MSG
abbrev after_print : Sinks
after_print = record sinks { printed = codes "12:00 [MSG] ready\n" }

after_print_runs :
    log_print all_levels default_config.global msg
      (codes "12:00")
      (codes "f")
      3
      (codes "ready")
      sinks
    ≡ some after_print
unfolding log_print emit line_head level_to_string should_log
after_print_runs = refl

-- Two rounds with batches of three bring the four bytes of the queue into the files.
cust_rounds-drain_example :
    (d' : Unit {0}) × (m' : FileManager) × (s' : Sinks) × (cust_rounds old_files
        (codes "logs")
        5
        3
        tt
        new_manager
        sinks
        (codes "2025-01-01" ∷ codes "2025-01-02" ∷ [])
      ≡ some (d', m', s'))
    × IsBounded 8 m'
    × IsValid s'.ring
    × (log_of m' ++ contents s'.ring ≡ 5 ∷ 6 ∷ 7 ∷ 8 ∷ [])
    × (s'.ring.len ≡ 0)
cust_rounds-drain_example =
    cust_rounds-drain old_files (codes "logs") 5 3 old_files-CanOpen (omega arith) tt new_manager
      sinks (codes "2025-01-01" ∷ codes "2025-01-02" ∷ []) tt sinks-IsValid (omega arith)
      (record { small = tt; in_step = tt })
