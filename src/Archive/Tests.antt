-- ===== src/Archive/Tests.antt =====
-- Runs on small archives.
use termdock.Base.{◌≡◌, refl, Bool, true, false, List, [], ◌∷◌, Option, none, some, arith, All}
use termdock.Base.Int.{pos, negsuc}
use termdock.Base.Text.{Text, text_eq, codes}
use termdock.Filepath.{file_path, dir_name, clean}
use termdock.Filepath.Parts.{IsPlain}
use termdock.Filepath.Rooted.{rooted, IsRooted, file_path-IsRooted}
use termdock.Archive.{
  Entry, Item, entry, too_large, unsafe_path, is_link, make_all, create, append, System, regular,
  extraction_target, extract_items, extract_tar_gz, unpack,
}
use termdock.Archive.Zip.{
  ZipFile, Letters, Found, extract_archive, write_file, extract_files, extract_zip,
}
use termdock.Archive.Unpacking.{IsConfined, extract_archive-IsConfined}
use termdock.Archive.Target.{target_in, extraction_target-inside}
use termdock.Archive.Extraction.{IsSafe, extract_tar_gz-IsSafe}

abbrev healthy : System
healthy = record {
  mkdir_fails = λ path. false;
  open_fails = λ path. false;
  copy_fails = λ path. none;
  close_fails = λ path. false;
}

abbrev regular_entry : Text → Entry
regular_entry name = record {
  name = name;
  size = pos 2;
  mode = 420;
  kind = regular;
  content = 7 ∷ 8 ∷ [];
}

abbrev items : List Item
items = entry (regular_entry (codes "d/./f")) ∷ entry (regular_entry (codes "../f")) ∷ []

abbrev archive : Text → Option (List Item)
archive path = some items

abbrev everywhere : Text → Bool
everywhere path = true

unpack_run :
    extract_tar_gz healthy (codes "/") (codes "a.tgz") everywhere archive (codes "srv/x/..") ≡ (
      some unsafe_path,
      make_all (codes "/srv/d") 493
          ∷ create (codes "/srv/d/f") 420
          ∷ append (codes "/srv/d/f") (7 ∷ 8 ∷ [])
          ∷ [],
    )
unfolding extract_tar_gz extract_items file_path extraction_target clean dir_name
unpack_run = refl

-- A size that the file cannot have.
too_large_run :
    unpack healthy
      (codes "/srv")
      (some (entry (record (regular_entry (codes "f")) { size = negsuc 0 }) ∷ []))
    ≡ (some too_large, [])
unfolding extract_items
too_large_run = refl

-- "./", the first entry of an archive of a directory.
dot_run : extraction_target (codes "/srv") (codes "./") ≡ none
unfolding extraction_target clean
dot_run = refl

extract_tar_gz-IsSafe_example :
    IsSafe
      (file_path (codes "/") (codes "srv"))
      (extract_tar_gz healthy (codes "/") (codes "a.tgz") everywhere archive (codes "srv")).1
extract_tar_gz-IsSafe_example =
    extract_tar_gz-IsSafe healthy (codes "/") (codes "a.tgz") (codes "srv") everywhere archive refl
      (ground arith, (ground arith, tt))

root_path : file_path (codes "/") (codes "/") ≡ codes "/"
unfolding file_path
root_path = refl

srv-IsPlain : All IsPlain (codes "srv" ∷ [])
srv-IsPlain = ((((ground arith, (ground arith, (ground arith, tt))), refl, refl), refl), tt)

extraction_target-inside_example :
    extraction_target (rooted (codes "srv" ∷ [])) (codes "a/../b")
    ≡ target_in (codes "srv" ∷ []) (codes "a/../b")
extraction_target-inside_example =
    extraction_target-inside (codes "srv" ∷ []) (codes "a/../b") srv-IsPlain

file_path-IsRooted_example : IsRooted (file_path (codes "/home") (codes "../../etc/./x"))
file_path-IsRooted_example = file_path-IsRooted (codes "/home") (codes "../../etc/./x") refl

-- Letters that are small already.
abbrev small : Letters
small = record { lower = λ text. text; equal_fold = text_eq }

abbrev zip_file : Text → Bool → ZipFile
zip_file name is_symlink = record {
  name = name;
  uncompressed_size = 2;
  mode = 33188;
  is_symlink = is_symlink;
  is_directory = false;
  opens = true;
  content = 7 ∷ 8 ∷ [];
}

abbrev found : Found
found = record {
  is_directory = everywhere;
  tar_items = archive;
  zip_files = λ path. some (zip_file (codes "f") false ∷ zip_file (codes "g") true ∷ []);
}

zip_run : extract_archive healthy small found (codes "/") (codes "a.zip") (codes "srv") ≡ (
  some is_link,
  make_all (codes "/srv") 493
      ∷ create (codes "/srv/f") 420
      ∷ append (codes "/srv/f") (7 ∷ 8 ∷ [])
      ∷ [],
)
unfolding extract_archive extract_zip extract_files write_file file_path extraction_target clean
    dir_name
zip_run = refl

extract_archive-IsConfined_example :
    IsConfined
      (file_path (codes "/") (codes "srv"))
      (extract_archive healthy small found (codes "/") (codes "a.zip") (codes "srv"))
extract_archive-IsConfined_example =
    extract_archive-IsConfined healthy small found (codes "/") (codes "a.zip") (codes "srv") refl
