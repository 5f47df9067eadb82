-- ===== src/Common/Logger.antt =====
-- The loggers of common/logger.go. A writer is any value; the functions of the package color are the
-- parameter `colors`.
use Prim.Native.String.{◌++◌}
use text.Mathlib.Text.{find?}
use psk_db.Prelude.{String, Bool, is_some, if◌then◌else◌}

pub record Colors : Type 0 where
  pub blue_string : String → String
  pub cyan_string : String → String
  pub red_string : String → String

-- A *log.Logger, as log.New makes it; the flags are the same for all.
pub record LogLogger {ℓ} (W : Type ℓ) : Type ℓ where
  pub handle : W
  pub prefix : String

pub record Logger {ℓ} (W : Type ℓ) : Type ℓ where
  pub trace : LogLogger W
  pub info : LogLogger W
  pub warning : LogLogger W
  pub error : LogLogger W
  pub panic : LogLogger W

-- strings.Contains(name, part)
abbrev contains : String → String → Bool
contains name part = is_some (find? name part)

-- The name of the process, in its colour.
unfoldable pub colored_name : Colors → String → String
colored_name colors name =
    if contains name "SERVER"
    then colors.blue_string name
    else if contains name "CLIENT"
    then colors.cyan_string name
    else name

-- NewLogger
unfoldable pub new_logger {ℓ} :
    {W : Type ℓ} → Colors → String → (trace info warning error panic : W) → Logger W
unfolding colored_name
new_logger colors name trace_handle info_handle warning_handle error_handle panic_handle =
    let name' = colored_name colors name in
    record {
      trace = record { handle = trace_handle; prefix = name' ++ "[  TRACE  ]: " };
      info = record { handle = info_handle; prefix = name' ++ "[  INFO   ]: " };
      warning = record {
        handle = warning_handle;
        prefix = name' ++ colors.red_string "[ WARNING ]: ";
      };
      error = record { handle = error_handle; prefix = name' ++ colors.red_string "[  ERROR  ]: " };
      panic = record { handle = error_handle; prefix = name' ++ colors.red_string "[  PANIC  ]: " };
    }
