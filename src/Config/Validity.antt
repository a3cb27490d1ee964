-- ===== src/Config/Validity.antt =====
-- Lemmas on Load, validate and applyDefaults of internal/config/config.go.
use existora2pg.Prelude.{
  ◌*◌, Option-cases, inl, inr, ap, ℕ, ◌+◌, ◌≤◌, ◌≡◌, refl, ◌≢◌, Option, none, some, [], ◌∷◌, Text,
  codes, arith,
}
use existora2pg.Config.{
  positive_or, text_or, strategy_or_auto, default_workers, finished, parsed, Config, ChunkStrategy,
  validate, apply_defaults, load, ok,
}

-- Everything that the rest of the program takes from a configuration without testing it again.
pub record IsUsable (cfg : Config) : Type 0 where
  pub has_oracle : cfg.oracle.dsn ≢ []
  pub has_schema : cfg.oracle.schema ≢ []
  pub has_postgres : cfg.postgres.dsn ≢ []
  pub some_worker : 1 ≤ cfg.migration.workers
  pub few_workers : cfg.migration.workers ≤ 64
  pub oracle_pool : 1 ≤ cfg.oracle.max_conns
  pub postgres_pool : 1 ≤ cfg.postgres.max_conns
  pub batches : 1 ≤ cfg.migration.batch_size
  pub fetches : 1 ≤ cfg.migration.fetch_size
  pub bytes : 1 ≤ cfg.migration.max_batch_bytes
  pub has_strategy : cfg.migration.chunk_strategy ≢ ChunkStrategy.unset
  pub has_path : cfg.migration.state_db_path ≢ []

validate-IsUsable :
    (num_cpu : ℕ) (cfg : Config)
    → validate (apply_defaults num_cpu cfg) ≡ none
    → IsUsable (apply_defaults num_cpu cfg)
unfolding validate apply_defaults
validate-IsUsable num_cpu cfg h = ground arith

finished-IsUsable :
    (num_cpu : ℕ) (o : Option Config) (cfg : Config) → finished num_cpu o ≡ ok cfg → IsUsable cfg
unfolding validate apply_defaults
finished-IsUsable num_cpu none cfg h = cc
finished-IsUsable num_cpu (some raw) cfg h = ground (arith, validate-IsUsable num_cpu raw)

-- A configuration that is loaded without an error is usable, whatever the file and the decoder.
pub load-IsUsable :
    (read_file : Text → Option Text) (unmarshal : Text → Option Config) (num_cpu : ℕ) (path : Text)
    (cfg : Config)
    → load read_file unmarshal num_cpu path ≡ ok cfg
    → IsUsable cfg
unfolding load
load-IsUsable read_file unmarshal num_cpu path cfg h = elim (Option-cases (read_file path)) [
  | inl missing ↦ cc (ap (parsed num_cpu unmarshal) missing)
  | inr (bytes, found) ↦
      finished-IsUsable num_cpu (unmarshal bytes) cfg (cc (ap (parsed num_cpu unmarshal) found))
]

positive_or_kept : (x d e : ℕ) → 1 ≤ d → positive_or (positive_or x d) e ≡ positive_or x d
positive_or_kept x d e h = ground arith

text_or_kept : (s : Text) (c : ℕ) (d e : Text) → text_or (text_or s (c ∷ d)) e ≡ text_or s (c ∷ d)
text_or_kept [] c d e = refl
text_or_kept (b ∷ s) c d e = refl

strategy_kept : (s : ChunkStrategy) → strategy_or_auto (strategy_or_auto s) ≡ strategy_or_auto s
strategy_kept ChunkStrategy.unset = refl
strategy_kept _ = refl

default_workers_pos : (n : ℕ) → 1 ≤ n → 1 ≤ default_workers n
default_workers_pos n h = ground arith

-- Defaults are filled in once: to fill them in again, on a machine with any number of processors,
-- changes nothing, if the first machine has a processor.
pub apply_defaults_idem :
    (n k : ℕ) (cfg : Config)
    → 1 ≤ n
    → apply_defaults k (apply_defaults n cfg) ≡ apply_defaults n cfg
unfolding apply_defaults
apply_defaults_idem n k cfg h =
    let m = cfg.migration in
    let w = positive_or m.workers (default_workers n) in
    let w' = positive_or w (default_workers k) in
    cc (
      positive_or_kept m.workers (default_workers n) (default_workers k) (default_workers_pos n h),
      positive_or_kept cfg.oracle.max_conns (w + 4) (w' + 4) (omega arith),
      positive_or_kept cfg.postgres.max_conns (w * 2 + 4) (w' * 2 + 4) (omega arith),
      positive_or_kept m.batch_size 50_000 50_000 (omega arith),
      positive_or_kept m.fetch_size 5_000 5_000 (omega arith),
      positive_or_kept m.max_batch_bytes 67_108_864 67_108_864 (omega arith),
      text_or_kept m.state_db_path b'.' (codes "/existora2pg_state.db")
          (codes "./existora2pg_state.db"),
      strategy_kept m.chunk_strategy,
      text_or_kept cfg.logging.level b'i' (codes "nfo") (codes "info"),
      text_or_kept cfg.logging.format b't' (codes "ext") (codes "text"),
    )
