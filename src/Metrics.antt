-- ===== src/Metrics.antt =====
-- app/metrics.py: the gauges of the connection pool, which a scrape refreshes.
use unith_task.Prelude.{◌≡◌, refl, Option, none, some}
use unith_task.Prelude.Int.{ℤ}

pub record PoolGauges : Type 0 where
  pub db_pool_checked_out : ℤ
  pub db_pool_overflow : ℤ
  pub db_pool_size : ℤ

-- What the engine's pool answers; `none` where the call raises. `engine`: app.db.session can be
-- imported.
pub record Pool : Type 0 where
  pub engine : Option (Unit {0})
  pub checkedout : Option ℤ
  pub overflow : Option ℤ
  pub size : Option ℤ

set_size : Option ℤ → PoolGauges → PoolGauges
set_size none g = g
set_size (some n) g = record g { db_pool_size = n }

set_overflow : Option ℤ → Option ℤ → PoolGauges → PoolGauges
unfolding set_size
set_overflow none size g = g
set_overflow (some n) size g = set_size size (record g { db_pool_overflow = n })

set_checked_out : Option ℤ → Option ℤ → Option ℤ → PoolGauges → PoolGauges
unfolding set_overflow
set_checked_out none overflow size g = g
set_checked_out (some n) overflow size g =
    set_overflow overflow size (record g { db_pool_checked_out = n })

-- `_update_pool_metrics`: the first exception ends it, and is dropped.
unfoldable pub update_pool_metrics : Pool → PoolGauges → PoolGauges
unfolding set_checked_out
update_pool_metrics pool g = elim pool.engine [
  | none ↦ g
  | some x ↦ set_checked_out pool.checkedout pool.overflow pool.size g
]

-- Either every gauge is what the pool answered, or the last one keeps its value.
pub update_pool_metrics_lem :
    (a b : ℤ) (size : Option ℤ) (g : PoolGauges)
    → let pool : Pool = record {
      engine = some tt;
      checkedout = some a;
      overflow = some b;
      size = size;
    } in
      update_pool_metrics pool g ≡ record {
        db_pool_checked_out = a;
        db_pool_overflow = b;
        db_pool_size = elim size [ none ↦ g.db_pool_size | some n ↦ n ];
      }
unfolding update_pool_metrics
update_pool_metrics_lem a b none g = refl
update_pool_metrics_lem a b (some n) g = refl
