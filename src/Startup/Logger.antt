-- ===== src/Startup/Logger.antt =====
-- rust/common/src/logger.rs: which layers are registered, and with which filters. The formats of lines,
-- files and the subscriber are those of other crates.
use tantylla.Base.{String, Bool, Option, none, some, if◌then◌else◌}

pub record LoggerConfig : Type 0 where
  pub level : String
  pub file_path : Option String
  pub file_level : String

unfoldable pub default_config : LoggerConfig
default_config = record { level = "info"; file_path = none; file_level = "info" }

pub record Tracing : Type 1 where
  pub EnvFilter : Type 0
  pub Layer : Type 0
  -- the filter of the environment, if it has a readable one, and `EnvFilter::new`
  pub try_from_default_env : Option EnvFilter
  pub new_filter : String → EnvFilter
  -- whether `File::create` succeeds
  pub creates : String → Bool
  -- whether a subscriber was registered before
  pub registered : Bool

-- What is registered; `guard` is the file whose writer the caller keeps alive.
pub record Registered (tracing : Tracing) : Type 0 where
  pub extra_layer : Option tracing.Layer
  pub stdout_filter : tracing.EnvFilter
  pub file_layer : Option tracing.EnvFilter
  pub guard : Option String

-- `none` is a panic.
module _ (tracing : Tracing) where
  open tracing use {EnvFilter, Layer, try_from_default_env, new_filter, creates, registered}

  -- The filter of the environment comes before the configured one.
  unfoldable pub filter_of : String → EnvFilter
  filter_of level = elim try_from_default_env [ none ↦ new_filter level | some f ↦ f ]

  abbrev register : Registered tracing → Option (Registered tracing)
  register layers = if registered then none else some layers

  unfoldable pub init_logger_with_config_and_layer :
      LoggerConfig → Option Layer → Option (Registered tracing)
  unfolding filter_of
  init_logger_with_config_and_layer config extra_layer = elim config.file_path [
    | none ↦ register (record {
      extra_layer = extra_layer;
      stdout_filter = filter_of config.level;
      file_layer = none;
      guard = none;
    })
    | some file_path ↦
        if creates file_path
        then register (record {
          extra_layer = extra_layer;
          stdout_filter = filter_of config.level;
          file_layer = some (filter_of config.file_level);
          guard = some file_path;
        })
        else none
  ]

  unfoldable pub init_logger_with_config : LoggerConfig → Option (Registered tracing)
  unfolding init_logger_with_config_and_layer
  init_logger_with_config config = init_logger_with_config_and_layer config none

  -- `log_level.to_string().to_lowercase()` comes as a text.
  unfoldable pub init_logger : String → Option (Registered tracing)
  unfolding init_logger_with_config default_config
  init_logger level = init_logger_with_config (record default_config { level = level })

-- What the three binaries ask for.
abbrev pub debug_config : LoggerConfig
debug_config = record { level = "debug"; file_path = none; file_level = "info" }
