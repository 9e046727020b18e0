-- ===== src/Hac.antt =====
-- include/fnx/hac.hpp: which format a file's first bytes are those of.
use fuse_nx.Prelude.{ℕ, true, false, List, Option, none, some}
use fuse_nx.Crypto.{Backend}
use fuse_nx.Crypto.Xts.{AesXts}
use fuse_nx.Formats.Pfs
use fuse_nx.Formats.Hfs
use fuse_nx.Romfs.Types
use fuse_nx.Xci
use fuse_nx.Nca

pub data Format : Type 0 where
  pfs hfs romfs nca xci unknown : Format

-- `match`: the tests in their order. The last one decrypts, with the static context of `decrypt_header`.
unfoldable pub match_format :
    Backend → List ℕ → Option AesXts → List ℕ → List ℕ → Option (Format × Option AesXts)
unfolding Pfs.matches Hfs.matches Types.matches Xci.matches Nca.matches
match_format b key ctx uninit bytes = elim (Pfs.matches bytes) [
  | true ↦ some (pfs, ctx)
  | false ↦ elim (Hfs.matches bytes) [
    | true ↦ some (hfs, ctx)
    | false ↦ elim (Types.matches bytes) [
      | true ↦ some (romfs, ctx)
      | false ↦ elim (Xci.matches bytes) [
        | true ↦ some (xci, ctx)
        | false ↦ elim (Nca.matches b key ctx uninit bytes) [
          | none ↦ none
          | some (true, ctx') ↦ some (nca, some ctx')
          | some (false, ctx') ↦ some (unknown, some ctx')
        ]
      ]
    ]
  ]
]
