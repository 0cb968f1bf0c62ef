-- ===== src/Server/Discovery.antt =====
-- server/src/discovery.rs: the beacon that the server broadcasts.
use brewster.Common.{ℕ, List, [], ◌∷◌, replicate, copy_at}
use brewster.Common.Words.{le_bytes16}

-- `b"BRWS"`
abbrev pub beacon_magic : List ℕ
beacon_magic = 66 ∷ 82 ∷ 87 ∷ 83 ∷ []

unfoldable pub build_beacon : List ℕ → ℕ → ℕ → List ℕ
build_beacon ip telemetry_port http_port =
    copy_at
      (copy_at (copy_at (copy_at (replicate 12 0) 0 beacon_magic) 4 ip) 8
        (le_bytes16 telemetry_port))
      10 (le_bytes16 http_port)
