-- ===== src/Fuse/Tests.antt =====
-- A listing of a small tree.
use fuse_nx.Prelude.{ℕ, ◌≡◌, refl, false, List, [], ◌∷◌, ◌++◌, some}
use fuse_nx.Keyset.Text.{codes}
use fuse_nx.Romfs.Types.{Run, ok}
use fuse_nx.Vfs.Tree.{Folder, FileSystem, get_folder}
use fuse_nx.Vfs.Every.{All}
use fuse_nx.Vfs.Toy.{toy, tree}
use fuse_nx.Fuse.{Reply, done, DirItem, regular, wrap_readdir}
use fuse_nx.Fuse.Agree.{IsFolder, IsFile, readdir_lists}

abbrev state_of : Run (Reply × List DirItem × FileSystem ℕ (Unit {0})) → FileSystem ℕ (Unit {0})
state_of (ok (reply, items, s)) = s
state_of _ = tree

abbrev root : Folder ℕ
root = record { name = []; processed = false; base = some 1; files = []; children = [] }

abbrev items : List DirItem
items =
    (codes "d", regular, 0x16d) ∷ (codes "d.x", regular, 0x124) ∷ (codes "g", regular, 0x124) ∷ []

list_tree :
    wrap_readdir toy (codes "/") tree
    ≡ ok (done 0, items, state_of (wrap_readdir toy (codes "/") tree))
unfolding wrap_readdir
list_tree = refl

readdir_lists_example :
    (done 0 ≡ done 0)
    × (folders : List DirItem) × (files : List DirItem) × (items ≡ folders ++ files)
    × All (IsFolder (codes "/") (state_of (wrap_readdir toy (codes "/") tree))) folders
    × All (IsFile (codes "/") (state_of (wrap_readdir toy (codes "/") tree))) files
unfolding get_folder
readdir_lists_example =
    readdir_lists toy (codes "/") 0 root tree (state_of (wrap_readdir toy (codes "/") tree))
      (done 0) items refl refl refl list_tree
