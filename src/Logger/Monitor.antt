-- ===== src/Logger/Monitor.antt =====
-- The constructor's `UpdateConfig` and the loop of `MonitorConfigChanges`. A round has what `stat` gives,
-- the time of the last change or `none` where it fails, and the file as it is then.
use nebula_toolkit.IniReader.RoundTrip.{Section, Sections, lookup}
use nebula_toolkit.IniReader.{codes}
use nebula_toolkit.Logger.{Config, default_config, update_config}
use nebula_toolkit.Logger.Reload.{file_of, reload, reload-max_file_size}
use nebula_toolkit.Prelude.{
  ℕ, zero, suc, ◌^◌, ◌≡◌, ◌∙◌, refl, ap, arith, Option, none, some, List, [], Bytes, ◌==◌, false,
  if◌then◌else◌, ==_refl,
}

pub record Monitor : Type 0 where
  pub last_mod : ℕ
  pub config : Config

-- the logger's constructor, up to the start of the thread
unfoldable pub start_monitor : Option Bytes → Monitor
start_monitor file = record { last_mod = 0; config = update_config file default_config }

unfoldable pub monitor_round : Option ℕ → Option Bytes → Monitor → Monitor
monitor_round none file w = w
monitor_round (some mtime) file w =
    if mtime == w.last_mod
    then w
    else record { last_mod = mtime; config = update_config file w.config }

-- rounds on a file that stays as it is
unfoldable pub monitor_rounds : ℕ → ℕ → Option Bytes → Monitor → Monitor
unfolding monitor_round
monitor_rounds zero mtime file w = w
monitor_rounds (suc n) mtime file w =
    monitor_round (some mtime) file (monitor_rounds n mtime file w)

-- A file that stays as it is is read once by the constructor and once by the thread.
pub monitor_rounds-reload :
    (n mtime : ℕ) (file : Option Bytes)
    → (mtime == 0) ≡ false
    → monitor_rounds (suc n) mtime file (start_monitor file)
      ≡ record { last_mod = mtime; config = reload 2 file default_config }
unfolding monitor_rounds monitor_round start_monitor reload
monitor_rounds-reload zero mtime file changed = rw changed refl
monitor_rounds-reload (suc n) mtime file changed =
    ap (monitor_round (some mtime) file) (monitor_rounds-reload n mtime file changed)
    ∙ (rw (==_refl mtime) refl)

-- Where the file has no max_file_size_kb and stays as it is, the limit on the size of a log file is 2 ^ 40
-- bytes after the first round of the thread and ever after, and not the 2 ^ 20 that are the default.
pub monitor-max_file_size :
    (n mtime : ℕ) (cfg : List Section)
    → Sections cfg
    → lookup (codes "LOG_GLOBAL") (codes "max_file_size_kb") cfg ≡ []
    → (mtime == 0) ≡ false
    → (monitor_rounds
        (suc n)
        mtime
        (file_of cfg)
        (start_monitor (file_of cfg))).config.global.max_file_size
      ≡ 2 ^ 40
monitor-max_file_size n mtime cfg ok none_there changed =
    ap (λ (w : Monitor). w.config.global.max_file_size)
      (monitor_rounds-reload n mtime (file_of cfg) changed)
    ∙ reload-max_file_size 2 cfg default_config ok none_there (omega arith)
