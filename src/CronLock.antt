-- ===== src/CronLock.antt =====
-- The lock of the scheduled jobs (apps/api/src/common/services/cron-lock.service.ts).
pub mod Exclusion
use vintage.Prelude.{ℕ, ◌+◌, Bool, true, false, Option, none, some, ltb, if◌then◌else◌}
use vintage.Prelude.Dict.{lookup, insert}
use vintage.World.Action.{Action, ok}

-- `5 * 60 * 1000`, the default `ttlMs`.
abbrev pub ttl_ms : ℕ
ttl_ms = 300000

-- `ON CONFLICT … WHERE lockedUntil < now`: the row may be written.
abbrev pub is_free : ℕ → Option ℕ → Bool
is_free now none = true
is_free now (some locked_until) = ltb locked_until now

-- The upsert is one statement of the database, so it is one step here; where it fails the service
-- lets the job run.
unfoldable pub acquire : ℕ → Action Bool
acquire id w =
    if is_free w.now (lookup id w.locks)
    then (ok true, record w { locks = insert id (w.now + ttl_ms) w.locks })
    else (ok false, w)
