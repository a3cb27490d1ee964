-- ===== src/Config.antt =====
-- internal/config/config.go: the settings, their defaults and their validation.
-- Of a number that the code tests only by `<= 0` and `> 0`, 0 stands for every value that is not
-- positive. A `TargetMode` or a `ChunkStrategy` is a string in Go: `unset` is the empty one and
-- `other` is one that is none of the constants.
pub mod Validity
use existora2pg.Prelude.{
  ℕ, ◌+◌, ◌*◌, Bool, true, false, ◌||◌, Option, none, some, List, [], ◌∷◌, Text, codes, ltb, ◌==◌,
  text_eq, is_nil, if◌then◌else◌,
}
use existora2pg.Prelude.Dict.{lookup}

pub data ChunkStrategy : Type 0 where
  unset ora_hash rowid offset auto : ChunkStrategy
  other : Text → ChunkStrategy

pub data TargetMode : Type 0 where
  unset recreate truncate append skip truncate_partition : TargetMode
  other : Text → TargetMode

-- The tests `mode == config.TargetModeSkip` and so on.
abbrev pub is_skip : TargetMode → Bool
is_skip TargetMode.skip = true
is_skip _ = false

abbrev pub is_truncate_partition : TargetMode → Bool
is_truncate_partition TargetMode.truncate_partition = true
is_truncate_partition _ = false

abbrev pub is_unset : ChunkStrategy → Bool
is_unset ChunkStrategy.unset = true
is_unset _ = false

abbrev pub is_offset : ChunkStrategy → Bool
is_offset ChunkStrategy.offset = true
is_offset _ = false

abbrev pub is_ora_hash : ChunkStrategy → Bool
is_ora_hash ChunkStrategy.ora_hash = true
is_ora_hash _ = false

abbrev pub is_rowid_or_auto : ChunkStrategy → Bool
is_rowid_or_auto ChunkStrategy.rowid = true
is_rowid_or_auto ChunkStrategy.auto = true
is_rowid_or_auto _ = false

pub record RangeFilter : Type 0 where
  pub from : Text
  pub to : Text

pub record TableOverride : Type 0 where
  pub where_clause : Text
  pub partition_filter : List Text
  pub partition_range : Option RangeFilter
  pub target_name : Text
  pub target_mode : TargetMode
  pub skip_indexes : Bool
  pub index_mode : Text
  pub skip_constraints : Bool
  pub skip_validation : Bool
  pub batch_size : ℕ
  pub fetch_size : ℕ
  pub max_parallel : ℕ
  pub chunk_size : ℕ
  pub chunk_strategy : ChunkStrategy

-- The zero value, which a lookup of a missing key gives.
abbrev pub no_override : TableOverride
no_override = record {
  where_clause = [];
  partition_filter = [];
  partition_range = none;
  target_name = [];
  target_mode = TargetMode.unset;
  skip_indexes = false;
  index_mode = [];
  skip_constraints = false;
  skip_validation = false;
  batch_size = 0;
  fetch_size = 0;
  max_parallel = 0;
  chunk_size = 0;
  chunk_strategy = ChunkStrategy.unset;
}

-- ResolveTargetMode: both values of the global flag give `recreate`.
unfoldable pub resolve_target_mode : TargetMode → Bool → TargetMode
resolve_target_mode TargetMode.unset true = TargetMode.recreate
resolve_target_mode TargetMode.unset false = TargetMode.recreate
resolve_target_mode mode _ = mode

-- ResolveIndexMode
unfoldable pub resolve_index_mode : TableOverride → Text
resolve_index_mode o =
    if is_nil o.index_mode
    then if o.skip_indexes then codes "skip" else codes "create"
    else o.index_mode

pub record OracleConfig : Type 0 where
  pub dsn : Text
  pub schema : Text
  pub max_conns : ℕ

pub record PostgresConfig : Type 0 where
  pub dsn : Text
  pub schema : Text
  pub max_conns : ℕ
  pub drop_target : Bool
  pub unlogged : Bool

pub record MigrationConfig : Type 0 where
  pub workers : ℕ
  pub batch_size : ℕ
  pub max_batch_bytes : ℕ
  pub fetch_size : ℕ
  pub chunk_strategy : ChunkStrategy
  pub include_tables : List Text
  pub exclude_tables : List Text
  pub include_sequences : List Text
  pub table_overrides : List (Text × TableOverride)
  pub state_db_path : Text
  pub resume : Bool
  pub validate_after : Bool
  pub checksum_cols : Bool
  pub naming_convention : Text
  pub type_overrides : List (Text × Text)
  pub name_overrides : List (Text × Text)

pub record LoggingConfig : Type 0 where
  pub level : Text
  pub format : Text
  pub file : Text

pub record Config : Type 0 where
  pub oracle : OracleConfig
  pub postgres : PostgresConfig
  pub migration : MigrationConfig
  pub logging : LoggingConfig

abbrev pub found_or_zero : Option TableOverride → TableOverride
found_or_zero none = no_override
found_or_zero (some o) = o

-- `cfg.TableOverrides[name]`
unfoldable pub override_of : MigrationConfig → Text → TableOverride
unfolding lookup
override_of cfg name = found_or_zero (lookup name cfg.table_overrides)

abbrev default_max_workers : ℕ
default_max_workers = 8

abbrev default_batch_size : ℕ
default_batch_size = 50_000

abbrev default_fetch_size : ℕ
default_fetch_size = 5_000

-- `if x <= 0 { x = d }` and `if s == "" { s = d }`
abbrev positive_or : ℕ → ℕ → ℕ
positive_or x d = if x == 0 then d else x

abbrev text_or : Text → Text → Text
text_or s d = if is_nil s then d else s

abbrev strategy_or_auto : ChunkStrategy → ChunkStrategy
strategy_or_auto s = if is_unset s then ChunkStrategy.auto else s

-- `w := runtime.NumCPU()`, at most DefaultMaxWorkers
abbrev default_workers : ℕ → ℕ
default_workers num_cpu = if ltb default_max_workers num_cpu then default_max_workers else num_cpu

-- applyDefaults; the number of processors is an argument.
unfoldable pub apply_defaults : ℕ → Config → Config
apply_defaults num_cpu cfg =
    let w = positive_or cfg.migration.workers (default_workers num_cpu) in
    record {
      oracle = record cfg.oracle { max_conns = positive_or cfg.oracle.max_conns (w + 4) };
      postgres = record cfg.postgres { max_conns = positive_or cfg.postgres.max_conns (w * 2 + 4) };
      migration = record cfg.migration {
        workers = w;
        batch_size = positive_or cfg.migration.batch_size default_batch_size;
        fetch_size = positive_or cfg.migration.fetch_size default_fetch_size;
        max_batch_bytes = positive_or cfg.migration.max_batch_bytes 67_108_864;
        state_db_path = text_or cfg.migration.state_db_path (codes "./existora2pg_state.db");
        chunk_strategy = strategy_or_auto cfg.migration.chunk_strategy;
      };
      logging = record cfg.logging {
        level = text_or cfg.logging.level (codes "info");
        format = text_or cfg.logging.format (codes "text");
      };
    }

pub data Error : Type 0 where
  read_failed parse_failed no_oracle_dsn no_oracle_schema no_postgres_dsn workers_range : Error

-- validate; `none` is success.
unfoldable pub validate : Config → Option Error
validate cfg =
    if is_nil cfg.oracle.dsn
    then some no_oracle_dsn
    else if is_nil cfg.oracle.schema
    then some no_oracle_schema
    else if is_nil cfg.postgres.dsn
    then some no_postgres_dsn
    else if ltb cfg.migration.workers 1 || ltb 64 cfg.migration.workers
    then some workers_range
    else none

pub data Loaded : Type 0 where
  ok : Config → Loaded
  err : Error → Loaded

abbrev checked : Option Error → Config → Loaded
checked none cfg = ok cfg
checked (some e) cfg = err e

abbrev finished : ℕ → Option Config → Loaded
finished num_cpu none = err parse_failed
finished num_cpu (some cfg) = let full = apply_defaults num_cpu cfg in checked (validate full) full

abbrev parsed : ℕ → (Text → Option Config) → Option Text → Loaded
parsed num_cpu unmarshal none = err read_failed
parsed num_cpu unmarshal (some bytes) = finished num_cpu (unmarshal bytes)

-- Load; reading the file and the YAML decoder are arguments.
unfoldable pub load : (Text → Option Text) → (Text → Option Config) → ℕ → Text → Loaded
load read_file unmarshal num_cpu path = parsed num_cpu unmarshal (read_file path)
