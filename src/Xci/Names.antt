-- ===== src/Xci/Names.antt =====
-- The names of partitions and their types.
use fuse_nx.Prelude.{◌≡◌, refl, some}
use fuse_nx.Keyset.Titles.{bytes_eq}
use fuse_nx.Xci.{PartitionType, update, normal, secure, logo, partition_map, type_in, get_name}

-- The name that a partition tells is the one by which its type is found.
pub type_in-get_name : (t : PartitionType) → type_in partition_map (get_name t) ≡ some t
unfolding type_in get_name partition_map bytes_eq
type_in-get_name update = refl
type_in-get_name normal = refl
type_in-get_name secure = refl
type_in-get_name logo = refl
