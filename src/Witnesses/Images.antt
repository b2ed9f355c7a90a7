-- ===== src/Witnesses/Images.antt =====
-- The theorems on overlays and snapshots, at small file systems.
use clawstainer.Base.{
  ℕ, ◌+◌, String, Bool, true, false, ◌≡◌, refl, List, [], ◌∷◌, ◌==◌, if◌then◌else◌, inl, inr,
  Bool-cases,
}
use clawstainer.Errors.{Result, ok, err, other, is_ok}
use clawstainer.Examples.{running_output}
use clawstainer.Exec.{◌>>=◌, ignore, attempt, map_err, pure, lift}
use clawstainer.Image.Overlay.{teardown, when_exists, unmount, remove_machine_dir, clear_caches}
use clawstainer.Image.Overlay.Gone.{Removes, teardown_gone}
use clawstainer.Image.Paths.{FileHost, machine_dir}
use clawstainer.Image.Snapshot.Listed.{Lists, first, behind, list-Lists}
use clawstainer.Image.Snapshot.{
  SnapshotInfo, tarball, extracted_dir, snapshot_name, split_at_last_dot, strip_suffix, info,
  insert_sorted, sort_by_name, list_entries, list_all, list, create, extract,
}
use clawstainer.Image.Snapshot.Laws.{KeepsFiles, extract_twice, create-refused}

-- A file system of one directory, which is there or not.
abbrev one_dir : FileHost Bool
one_dir = record {
  run = λ cmd w. (ok running_output, w);
  exists = λ path w. w;
  is_symlink = λ path w. false;
  create_dir_all = λ path w. (ok tt, true);
  remove_dir_all = λ path w. (ok tt, false);
  remove_dir = λ path w. (ok tt, false);
  remove_file = λ path w. (ok tt, w);
  read_to_string = λ path w. (ok "", w);
  write = λ path text w. (ok tt, w);
  copy = λ from to w. (ok tt, w);
  symlink = λ to path w. (ok tt, w);
  metadata = λ path w. (ok (1, ""), w);
  read_dir = λ path w. (ok [], w);
  sleep = λ ms w. (ok tt, w);
  arch = "x86_64";
  project_dir = "/src";
}

one_dir-Removes : Removes one_dir
one_dir-Removes path w e = refl

teardown_gone_example : one_dir.exists (machine_dir "sb-a") (teardown one_dir "sb-a" true).1 ≡ false
unfolding teardown when_exists unmount remove_machine_dir clear_caches ◌>>=◌ ignore attempt map_err
    pure
teardown_gone_example = teardown_gone one_dir one_dir-Removes "sb-a" true refl

-- The tarball of one snapshot is there, and no command can be run.
abbrev no_tar : FileHost Bool
no_tar = record one_dir {
  run = λ cmd w. (err (other "No such file or directory"), w);
  exists = λ path w. if path == tarball "v1" then true else w;
}

no_tar_true : (path : String) → no_tar.exists path true ≡ true
no_tar_true path = elim (Bool-cases (path == tarball "v1")) [
  | inl here ↦ rw here refl
  | inr other_path ↦ rw other_path refl
]

no_tar-KeepsFiles : KeepsFiles no_tar
no_tar-KeepsFiles = record {
  created = λ dir w e. no_tar_true dir;
  create_keeps = λ dir path w e. no_tar_true path;
  not_run_keeps = λ cmd path w e failed. refl;
}

extract_twice_example :
    (is_ok (extract no_tar "v1" false).0 ≡ false)
    × ((extract no_tar "v1" (extract no_tar "v1" false).1).0 ≡ ok (extracted_dir "v1"))
extract_twice_example =
    extract_twice no_tar no_tar-KeepsFiles "v1" false (other "No such file or directory") refl refl
      refl refl

-- Every path is there, and each command counts.
abbrev counting : FileHost ℕ
counting = record {
  run = λ cmd w. (ok running_output, w + 1);
  exists = λ path w. true;
  is_symlink = λ path w. false;
  create_dir_all = λ path w. (ok tt, w);
  remove_dir_all = λ path w. (ok tt, w);
  remove_dir = λ path w. (ok tt, w);
  remove_file = λ path w. (ok tt, w);
  read_to_string = λ path w. (ok "", w);
  write = λ path text w. (ok tt, w);
  copy = λ from to w. (ok tt, w);
  symlink = λ to path w. (ok tt, w);
  metadata = λ path w. (ok (1, ""), w);
  read_dir = λ path w. (ok [], w);
  sleep = λ ms w. (ok tt, w);
  arch = "x86_64";
  project_dir = "/src";
}

abbrev Untouched : ℕ → Type 0
Untouched w = ◌≡◌ {A = ℕ} w 7

create-refused_example :
    (is_ok (create counting "sb-a" "v1" 7).0 ≡ false) × Untouched (create counting "sb-a" "v1" 7).1
create-refused_example =
    create-refused counting Untouched "sb-a" "v1" 7 (λ v p. refl) (record { keep = λ w p. p }) refl

-- A directory of two snapshots and another file.
abbrev some_files : List (Result String)
some_files = ok "notes.txt" ∷ ok "v1.2.tar.gz" ∷ ok "old.tar.gz" ∷ []

abbrev with_files : FileHost ℕ
with_files = record counting { read_dir = λ path w. (ok some_files, w) }

abbrev listed : List SnapshotInfo
listed =
    record { name = "old"; size_bytes = 1; created_at = "" }
    ∷ record { name = "v1.2"; size_bytes = 1; created_at = "" }
    ∷ []

list-Lists_example : Lists "v1.2" listed
unfolding list list_all list_entries info sort_by_name insert_sorted snapshot_name split_at_last_dot
    strip_suffix lift pure ◌>>=◌
list-Lists_example =
    list-Lists with_files "v1.2" some_files 0 listed refl refl (behind (first refl)) refl
