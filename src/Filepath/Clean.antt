-- ===== src/Filepath/Clean.antt =====
-- Runs of path/filepath and of `filePath` of internal/server/server.go.
use termdock.Base.{◌≡◌, refl}
use termdock.Base.Text.{codes}
use termdock.Filepath.{clean, join, base_name, file_path}

clean_test : clean (codes "/a/../../etc//./x/") ≡ codes "/etc/x"
unfolding clean
clean_test = refl

join_test : join (codes "/srv/") (codes "a/../b") ≡ codes "/srv/b"
unfolding join
join_test = refl

base_name_test : base_name (codes "/srv/b//") ≡ codes "b"
unfolding base_name
base_name_test = refl

file_path_test : file_path (codes "/srv") (codes "../x") ≡ codes "/x"
unfolding file_path
file_path_test = refl
