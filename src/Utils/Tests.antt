-- ===== src/Utils/Tests.antt =====
-- The theorems on alignment and codes at the values that the readers use.
use fuse_nx.Prelude.{◌+◌, ◌%◌, ◌^◌, ◌≤◌, ◌<◌, ◌≡◌, arith}
use fuse_nx.Utils.{align_down, align_up}
use fuse_nx.Utils.Laws.{align_floor_ceiling}

align_floor_ceiling_example :
    (align_down 64 0x1237 (2 ^ 4) % 2 ^ 4 ≡ 0)
    × (align_down 64 0x1237 (2 ^ 4) ≤ 0x1237)
    × (0x1237 < align_down 64 0x1237 (2 ^ 4) + 2 ^ 4)
    × (align_up 64 0x1237 (2 ^ 4) % 2 ^ 4 ≡ 0)
    × (0x1237 ≤ align_up 64 0x1237 (2 ^ 4))
    × (align_up 64 0x1237 (2 ^ 4) < 0x1237 + 2 ^ 4)
align_floor_ceiling_example = align_floor_ceiling 60 4 0x1237 (omega arith)
