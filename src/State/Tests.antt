-- ===== src/State/Tests.antt =====
-- A new database, and calls on it.
use torbox_fuse_go.Base.{lookup, ℕ, ◌≡◌, refl, Bool, false, List, [], ◌∷◌, Str, str, ok}
use torbox_fuse_go.State.{Statement, FileRecord, Db, assign_inode, replace_files}
use torbox_fuse_go.State.Inodes.{InodesOk}
use torbox_fuse_go.State.Calls.{Call, replace, restart, assign, after_all, assign_inode-stable}
use torbox_fuse_go.State.Replace.{Replaced, replace_files-Replaced}

abbrev no_tables : Db
no_tables = record { inodes = []; files = []; hidden = []; next_inode = 1 }

abbrev never : Statement → Bool
never s = false

abbrev film : FileRecord
film = record {
  content_key = str "torrent:7:1";
  download_kind = str "torrent";
  download_id = str "7";
  file_id = str "1";
  path = str "/movies/Alien/alien.mkv";
  size = 900;
}

abbrev like : Str → Str → Bool
like pattern value = false

no_tables-InodesOk : InodesOk no_tables
unfolding lookup
no_tables-InodesOk = record { distinct = tt; below = tt; one_key = λ k j r s h h' e. absurd (cc) }

abbrev calls : List Call
calls =
    assign never (str "other") (str "/movies/B/b.mkv") ∷ replace never (film ∷ []) ∷ restart ∷ []

first_number : (assign_inode never no_tables film.content_key film.path).1 ≡ ok 1
unfolding assign_inode lookup
first_number = refl

assign_inode-stable_example :
    let later = after_all like (assign_inode never no_tables film.content_key film.path).0 calls in
    (assign_inode never later film.content_key (str "/elsewhere") ≡ (later, ok 1))
    × ((other path'' : Str) (m : ℕ)
        → (assign_inode never later other path'').1 ≡ ok m
        → m ≡ 1
        → other ≡ film.content_key)
assign_inode-stable_example =
    assign_inode-stable like never never no_tables film.content_key film.path (str "/elsewhere") 1
      calls no_tables-InodesOk first_number refl

replace_files-Replaced_example :
    Replaced no_tables (film ∷ []) (replace_files never no_tables (film ∷ []))
replace_files-Replaced_example = replace_files-Replaced never no_tables (film ∷ [])
