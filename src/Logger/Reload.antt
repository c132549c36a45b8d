-- ===== src/Logger/Reload.antt =====
-- What reading the configuration file does to the logger's settings, once and again.
use native.Mathlib.Nat.{
  add-mul-mod_self_right, div-add-mod', mod-eq_of_lt, add-mul, mul_assoc, mul_right_comm, add_comm,
  pow-suc, mul-one,
}
use mathlib.Core.Path.{subst}
use nebula_toolkit.IniReader.RoundTrip.{
  Section, Sections, render, unlines, lookup, get_processed_value-lookup,
}
use nebula_toolkit.IniReader.{codes, get_size, or_keep, stoul}
use nebula_toolkit.Logger.{
  Config, update_global, update_async, update_config, size_of, global_section, async_section,
}
use nebula_toolkit.Prelude.{
  ℕ, zero, suc, ◌+◌, ◌*◌, ◌/◌, ◌%◌, ◌^◌, ◌<◌, ◌≡◌, ◌∙◌, refl, sym, ap, false, Option, some, List,
  [], Bytes, length, ◌==◌, if◌then◌else◌,
}

abbrev pub file_of : List Section → Option Bytes
file_of cfg = some (unlines (render cfg))

-- the member keeps its value where the file has none for the key
size-missing :
    (section key : Bytes) (cfg : List Section) (old : ℕ)
    → Sections cfg
    → lookup section key cfg ≡ []
    → size_of section key (file_of cfg) old ≡ old
unfolding get_size
size-missing section key cfg old h none_there =
    subst
      (λ (raw : Bytes).
        (if length raw == 0 then (false, old) else or_keep section key (stoul raw) old).1 ≡ old)
      (sym (get_processed_value-lookup section key cfg h ∙ none_there)) refl

-- The settings of the asynchronous writer are read from the section LOG_GLOBAL: where that section
-- has none of the three keys, they keep their values, whatever the section LOG_ASYNC has.
pub update_config-async_kept :
    (cfg : List Section) (c : Config)
    → Sections cfg
    → lookup (codes "LOG_GLOBAL") (codes "ring_buffer_size_kb") cfg ≡ []
    → lookup (codes "LOG_GLOBAL") (codes "batch_size_kb") cfg ≡ []
    → lookup (codes "LOG_GLOBAL") (codes "max_flush_size") cfg ≡ []
    → (update_config (file_of cfg) c).async ≡ c.async
unfolding update_config update_async
update_config-async_kept cfg c h a b d =
    rw
      (
        size-missing async_section (codes "ring_buffer_size_kb") cfg c.async.ring_buffer_size_kb h
            a,
        size-missing async_section (codes "batch_size_kb") cfg c.async.batch_size_kb h b,
        size-missing async_section (codes "max_flush_size") cfg c.async.max_flush_size h d,
      )
      refl

-- `n` runs of `UpdateConfig` on the same file
unfoldable pub reload : ℕ → Option Bytes → Config → Config
reload zero file c = c
reload (suc n) file c = update_config file (reload n file c)

mul-mod : (x k m : ℕ) → x % m * k % m ≡ x * k % m
mul-mod x k m =
    sym (add-mul-mod_self_right (x % m * k) (x / m * k) m)
    ∙ ap (λ u. u % m)
        (ap (λ v. x % m * k + v) (mul_right_comm (x / m) k m)
          ∙ sym (add-mul (x % m) (x / m * m) k)
          ∙ ap (λ v. v * k) (add_comm (x % m) (x / m * m) ∙ div-add-mod' x m))

-- Where the file has no max_file_size_kb, every run of `UpdateConfig` multiplies the limit on the
-- size of a log file by 1024 again, modulo 2 ^ 64.
pub reload-max_file_size :
    (n : ℕ) (cfg : List Section) (c : Config)
    → Sections cfg
    → lookup (codes "LOG_GLOBAL") (codes "max_file_size_kb") cfg ≡ []
    → c.global.max_file_size < 2 ^ 64
    → (reload n (file_of cfg) c).global.max_file_size ≡ c.global.max_file_size * 1024 ^ n % 2 ^ 64
unfolding reload update_config update_global
reload-max_file_size zero cfg c h none_there small =
    sym (rw (mul-one c.global.max_file_size) (mod-eq_of_lt small))
reload-max_file_size (suc n) cfg c h none_there small =
    let old = (reload n (file_of cfg) c).global.max_file_size in
    ap (λ u. u * 1024 % 2 ^ 64)
      (size-missing global_section (codes "max_file_size_kb") cfg old h none_there)
    ∙ ap (λ u. u * 1024 % 2 ^ 64) (reload-max_file_size n cfg c h none_there small)
    ∙ mul-mod (c.global.max_file_size * 1024 ^ n) 1024 (2 ^ 64)
    ∙ ap (λ u. u % 2 ^ 64)
        (mul_assoc c.global.max_file_size (1024 ^ n) 1024
          ∙ ap (λ u. c.global.max_file_size * u) (sym (pow-suc 1024 n)))
