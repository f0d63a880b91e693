-- ===== src/Config/Tables.antt =====
-- The configuration domains: RotationConfig of config.py, StorageConfig of storage.py,
-- RedactionConfig of redaction.py and ExportConfig of otel_export.py.
use wisetraceloom.Prelude.{ℕ, some, none, Text, Bool, Option, false, codes, option_Eq, text_Eq}
use mathlib.Core.Option.{some, Option, none}
use mathlib.Core.Option
use wisetraceloom.Sql.{Sql}
use wisetraceloom.Config.{Rows, resolve, upsert, Bool, Text, ℕ}
use wisetraceloom.Config.Cache.{Process, get_cached, set_cached}

-- `F` is the type of floats.
pub record RotationConfig (F : Type 0) : Type 0 where
  pub log_file_path : Option Text
  pub max_size_mb : Option F
  pub rotation_interval : Option Text
  pub backup_count : ℕ
  pub compress_backups : Bool

pub record StorageConfig : Type 0 where
  pub checkpoint_interval_commits : ℕ
  pub retention_days : Option ℕ
  pub checkpoint_dir : Option Text

pub record RedactionConfig : Type 0 where
  pub presidio_spacy_model : Text

pub record ExportConfig : Type 0 where
  pub gen_ai_semconv_enabled : Bool

-- The columns of a row beside its keys: the settings and `updated_at`.
pub record Dated (C : Type 0) : Type 0 where
  pub settings : C
  pub updated_at : ℕ

abbrev pub ConfigTable : Type 0 → Type 0
ConfigTable C = Rows (Option Text) (Dated C)

module _ (sql : Sql) {F : Type 0} (fifty : F) where
  -- The built-in default is RotationConfig(max_size_mb=50.0, rotation_interval="midnight", …).
  abbrev pub default_rotation : RotationConfig F
  default_rotation = record {
    log_file_path = none;
    max_size_mb = some fifty;
    rotation_interval = some (codes "midnight");
    backup_count = 7;
    compress_backups = false;
  }

  unfoldable pub get_rotation_config :
      Option Text → ConfigTable (RotationConfig F) → RotationConfig F
  get_rotation_config tenant table =
      Option.get_or (Option.map (λ d. d.settings) (resolve sql tenant table)) default_rotation

module _ (sql : Sql) {F : Type 0} where
  unfoldable pub set_rotation_config :
      Option Text
      → RotationConfig F
      → ℕ
      → ConfigTable (RotationConfig F)
      → ConfigTable (RotationConfig F)
  set_rotation_config tenant config now table =
      upsert sql tenant (record { settings = config; updated_at = now }) table

module _ (sql : Sql) where
  abbrev pub default_storage : StorageConfig
  default_storage = record {
    checkpoint_interval_commits = 10;
    retention_days = some 30;
    checkpoint_dir = none;
  }

  unfoldable pub load_storage_config : ConfigTable StorageConfig → Option Text → StorageConfig
  load_storage_config table tenant =
      Option.get_or (Option.map (λ d. d.settings) (resolve sql tenant table)) default_storage

  unfoldable pub get_storage_config :
      Option Text
      → Process (Dated StorageConfig) StorageConfig
      → StorageConfig × Process (Dated StorageConfig) StorageConfig
  get_storage_config = get_cached load_storage_config

  unfoldable pub set_storage_config :
      Option Text
      → StorageConfig
      → ℕ
      → Process (Dated StorageConfig) StorageConfig
      → Process (Dated StorageConfig) StorageConfig
  set_storage_config tenant config now =
      set_cached sql tenant (record { settings = config; updated_at = now })

  unfoldable pub get_redaction_config : Option Text → ConfigTable RedactionConfig → RedactionConfig
  get_redaction_config tenant table =
      Option.get_or (Option.map (λ d. d.settings) (resolve sql tenant table))
        (record { presidio_spacy_model = codes "en_core_web_sm" })

  unfoldable pub set_redaction_config :
      Option Text → Text → ℕ → ConfigTable RedactionConfig → ConfigTable RedactionConfig
  set_redaction_config tenant model now table =
      upsert sql tenant
        (record { settings = record { presidio_spacy_model = model }; updated_at = now }) table

  unfoldable pub load_export_config : ConfigTable ExportConfig → Option Text → ExportConfig
  load_export_config table tenant =
      Option.get_or (Option.map (λ d. d.settings) (resolve sql tenant table))
        (record { gen_ai_semconv_enabled = false })

  unfoldable pub get_export_config :
      Option Text
      → Process (Dated ExportConfig) ExportConfig
      → ExportConfig × Process (Dated ExportConfig) ExportConfig
  get_export_config = get_cached load_export_config

  unfoldable pub set_export_config :
      Option Text
      → Bool
      → ℕ
      → Process (Dated ExportConfig) ExportConfig
      → Process (Dated ExportConfig) ExportConfig
  set_export_config tenant enabled now =
      set_cached sql tenant
        (record { settings = record { gen_ai_semconv_enabled = enabled }; updated_at = now })
