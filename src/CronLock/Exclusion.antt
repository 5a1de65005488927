-- ===== src/CronLock/Exclusion.antt =====
-- `acquire` of apps/api/src/common/services/cron-lock.service.ts, asked twice.
use vintage.Prelude.{ℕ, ◌+◌, ◌≡◌, true, ltb, arith}
use vintage.Prelude.Dict.{lookup-insert}
use vintage.World.{World}
use vintage.World.Action.{ok}
use vintage.CronLock.{ttl_ms, acquire}

-- After a job got its lock, no instance gets the same lock until the time to live is over, and the
-- first that asks after that gets it.
pub acquire-exclusive :
    (id t : ℕ) (w : World)
    → (acquire id w).0 ≡ ok true
    → (acquire id (record (acquire id w).1 { now = t })).0 ≡ ok (ltb (w.now + ttl_ms) t)
unfolding acquire
acquire-exclusive id t w h = ground (arith, lookup-insert id id (w.now + ttl_ms) w.locks)
