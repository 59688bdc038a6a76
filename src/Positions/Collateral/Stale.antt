-- ===== src/Positions/Collateral/Stale.antt =====
-- With a cache, a second removal of collateral starts from what was there before the first.
use riabow_dex_backend.DecimalOps.{DecimalOps}
