-- ===== src/Discovery/Receive/Balance.antt =====
-- The counters of the reader of pkg/petlibro/discovery.go.
use ha_addon_petlibro_local.Prelude.{ℕ, ◌+◌, List, [], ◌∷◌, ◌==◌, if◌then◌else◌}
use ha_addon_petlibro_local.Discovery.Receive.{Reading, failed, packet}

-- The packets whose source has no address, which are rejected without being counted as received.
unfoldable pub unsourced : List Reading → ℕ
unsourced [] = 0
unsourced (failed done ∷ reads) = unsourced reads
unsourced (packet ip wire taken ∷ reads) =
    let rest = unsourced reads in if ip == 0 then 1 + rest else rest
