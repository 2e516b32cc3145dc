-- ===== src/App/Engine.antt =====
-- `build_engine` of src/app/db.py: the options that it gives to SQLAlchemy's engine. An option that
-- is none is not passed.
use template_fastapi.Base.{
  Bool, true, false, Option, none, some, is_some, ◌≡◌, refl, ◌∙◌, arith, Passes, ◌⊎◌, ◌||◌,
  if◌then◌else◌,
}
use template_fastapi.Base.Int.{ℤ}
use template_fastapi.Settings.{
  Settings, production, PoolMode, null, local, external, PostgresSslMode, require, verify_ca,
  verify_full,
}
use template_fastapi.Settings.Checks
use template_fastapi.Settings.Production.{validate-IsSecured_iff}

-- `connect_args`, which go to asyncpg.
pub record ConnectArgs : Type 0 where
  pub ssl : Option PostgresSslMode
  pub timeout : Option ℤ
  pub command_timeout : Option ℤ
  pub unique_statement_names : Bool

pub data PoolClass : Type 0 where
  async_adapted_queue_pool : PoolClass
  null_pool : PoolClass

pub record EngineOptions : Type 0 where
  pub poolclass : PoolClass
  pub pool_pre_ping : Option Bool
  pub pool_size : Option ℤ
  pub max_overflow : Option ℤ
  pub pool_recycle : Option ℤ
  pub connect_args : Option ConnectArgs

abbrev pub is_external : PoolMode → Bool
is_external external = true
is_external _ = false

-- `if connect_args: ...`
abbrev pub unless_empty : ConnectArgs → Option ConnectArgs
unless_empty a =
    if is_some a.ssl || is_some a.timeout || is_some a.command_timeout || a.unique_statement_names
    then some a
    else none

abbrev pub connect_args_of : Settings → ConnectArgs
connect_args_of s = record {
  ssl = s.postgres_sslmode;
  timeout = s.db_connect_timeout;
  command_timeout = s.db_command_timeout;
  unique_statement_names = is_external s.db_pool_mode;
}

abbrev pub pooled : PoolMode → Settings → EngineOptions
pooled local s = record {
  poolclass = async_adapted_queue_pool;
  pool_pre_ping = some true;
  pool_size = s.db_pool_size;
  max_overflow = s.db_max_overflow;
  pool_recycle = s.db_pool_recycle;
  connect_args = unless_empty (connect_args_of s);
}
pooled _ s = record {
  poolclass = null_pool;
  pool_pre_ping = none;
  pool_size = none;
  max_overflow = none;
  pool_recycle = none;
  connect_args = unless_empty (connect_args_of s);
}

unfoldable pub build_engine : Settings → EngineOptions
build_engine s = pooled s.db_pool_mode s

-- The connection demands TLS.
abbrev pub IsEncrypted : EngineOptions → Type 0
IsEncrypted o =
    (a : ConnectArgs) × (o.connect_args ≡ some a)
    × ((a.ssl ≡ some require) ⊎ ((a.ssl ≡ some verify_ca) ⊎ (a.ssl ≡ some verify_full)))

pooled-args :
    (m : PoolMode) (s : Settings) → (pooled m s).connect_args ≡ unless_empty (connect_args_of s)
pooled-args null s = refl
pooled-args local s = refl
pooled-args external s = refl

-- In production, with settings that pass their validators, every connection to the database
-- demands TLS, whatever the pool.
pub build_engine-IsEncrypted :
    (py : Checks.Platform) (s : Settings)
    → s.mode ≡ production
    → Passes (Checks.validate py s)
    → IsEncrypted (build_engine s)
unfolding build_engine
build_engine-IsEncrypted py s prod h =
    let (fields, origin, published, secured) = (validate-IsSecured_iff py s prod).0 h in
    let tls = secured.postgres_tls in
    (connect_args_of s, pooled-args s.db_pool_mode s ∙ ground (arith, tls), tls)
