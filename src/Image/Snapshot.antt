-- ===== src/Image/Snapshot.antt =====
-- src/image/snapshot.rs: snapshots of a machine's overlay as tarballs.
pub mod Laws
pub mod Listed
use clawstainer.Base.{
  ℕ, String, Bool, true, false, Option, none, some, List, [], ◌∷◌, ◌++◌, ◌==◌, if◌then◌else◌,
  nat_eq, ◌&&◌, not,
}
use clawstainer.Errors.{Failure, claw, other, snapshot_failed, Result, ok, err}
use clawstainer.Exec.{Exec, pure, fail, lift, ignore, ◌>>=◌, ◌>>◌}
use clawstainer.Image.Paths.{FileHost, ◌^◌, ◌//◌, machine_dir, run_or}
use clawstainer.Runtime.Host.{context, success}
use Prim.Native.Char.{Char, code}
use Prim.Native.Nat.{Ordering}
use Prim.Native.String.{compare}

pub record SnapshotInfo : Type 0 where
  pub name : String
  pub size_bytes : ℕ
  pub created_at : String

abbrev pub snapshots_dir : String
snapshots_dir = "/var/lib/clawstainer/snapshots"

abbrev pub tarball : String → String
tarball name = snapshots_dir // (name ^ ".tar.gz")

abbrev pub extracted_dir : String → String
extracted_dir name = snapshots_dir // name

abbrev snapshot_error : String → Failure
snapshot_error msg = claw (snapshot_failed msg)

-- `extension` and `file_stem` of the name of a file: at its last dot, which is not the first
-- character.
abbrev put_left : Char → Option (String × String) → Option (String × String)
put_left c none = none
put_left c (some (a, b)) = some (String.◌∷◌ c a, b)

abbrev or_dot : Char → String → Option (String × String) → Option (String × String)
or_dot c s (some found) = put_left c (some found)
or_dot c s none = if nat_eq (code c) b'.' then some ("", s) else none

unfoldable pub split_at_last_dot : String → Option (String × String)
split_at_last_dot String.[] = none
split_at_last_dot (String.◌∷◌ c s) = or_dot c s (split_at_last_dot s)

-- `s.strip_suffix(suffix)`, for a suffix that is not empty.
abbrev or_suffix : Char → Bool → Option String → Option String
or_suffix c here (some rest) = some (String.◌∷◌ c rest)
or_suffix c here none = if here then some "" else none

unfoldable pub strip_suffix : String → String → Option String
strip_suffix suffix String.[] = none
strip_suffix suffix (String.◌∷◌ c s) =
    or_suffix c (String.◌∷◌ c s == suffix) (strip_suffix suffix s)

abbrev name_of_stem : String → Option String → String
name_of_stem stem none = stem
name_of_stem stem (some name) = name

abbrev name_of_parts : Option (String × String) → Option String
name_of_parts none = none
name_of_parts (some (stem, extension)) =
    if extension == "gz" && not (stem == "")
    then some (name_of_stem stem (strip_suffix ".tar" stem))
    else none

-- The name of the snapshot in a file of the directory; none for another file.
unfoldable pub snapshot_name : String → Option String
unfolding split_at_last_dot strip_suffix
snapshot_name file = name_of_parts (split_at_last_dot file)

-- `sort_by(|a, b| a.name.cmp(&b.name))`, which is stable.
abbrev goes_before : String → String → Bool
goes_before a b = elim (compare a b) [ Ordering.gt ↦ false | _ ↦ true ]

unfoldable pub insert_sorted : SnapshotInfo → List SnapshotInfo → List SnapshotInfo
insert_sorted x [] = x ∷ []
insert_sorted x (y ∷ ys) = if goes_before x.name y.name then x ∷ y ∷ ys else y ∷ insert_sorted x ys

unfoldable pub sort_by_name : List SnapshotInfo → List SnapshotInfo
unfolding insert_sorted
sort_by_name [] = []
sort_by_name (x ∷ xs) = insert_sorted x (sort_by_name xs)

module _ {W : Type 0} (files : FileHost W) where
  unfoldable pub info : String → String → Exec W SnapshotInfo
  info name path = do
    meta ← files.metadata path
    pure (record { name = name; size_bytes = meta.0; created_at = meta.1 })

  unfoldable pub write_tarball : String → String → Exec W SnapshotInfo
  write_tarball upper name = do
    run_or files "Failed to run tar" (snapshot_error "tar failed to create snapshot")
        ("tar" ∷ "-czf" ∷ tarball name ∷ "-C" ∷ upper ∷ "." ∷ [])
    info name (tarball name)

  unfoldable pub create_new : String → String → Exec W SnapshotInfo
  create_new upper name w =
      if files.exists (tarball name) w
      then (err (snapshot_error ("Snapshot '" ^ name ^ "' already exists")), w)
      else write_tarball upper name w

  unfoldable pub create : String → String → Exec W SnapshotInfo
  create id name w =
      let upper = machine_dir id // "upper" in
      if files.exists upper w
      then (context "Failed to create snapshots directory" (files.create_dir_all snapshots_dir)
            >> create_new upper name)
          w
      else (err (snapshot_error ("No overlay upper layer found for machine " ^ id)), w)

  abbrev push_info : Option String → String → List SnapshotInfo → Exec W (List SnapshotInfo)
  push_info none path rest = pure rest
  push_info (some name) path rest = do i ← info name path; pure (i ∷ rest)

  -- The entries in the order of the directory; an entry that cannot be read ends the loop.
  unfoldable pub list_entries : List (Result String) → Exec W (List SnapshotInfo)
  unfolding snapshot_name
  list_entries [] = pure []
  list_entries (entry ∷ entries) = do
    file ← lift entry
    here ← push_info (snapshot_name file) (snapshots_dir // file) []
    rest ← list_entries entries
    pure (here ++ rest)

  unfoldable pub list_all : Exec W (List SnapshotInfo)
  unfolding sort_by_name
  list_all = do
    entries ← files.read_dir snapshots_dir
    snapshots ← list_entries entries
    pure (sort_by_name snapshots)

  unfoldable pub list : Exec W (List SnapshotInfo)
  list w = if files.exists snapshots_dir w then list_all w else (ok [], w)

  abbrev clear : String → Exec W Unit
  clear dir w = if files.exists dir w then ignore (files.remove_dir_all dir) w else (ok tt, w)

  unfoldable pub delete_present : String → Exec W Unit
  delete_present name = do
    context "Failed to delete snapshot" (files.remove_file (tarball name))
    clear (extracted_dir name)

  unfoldable pub delete : String → Exec W Unit
  delete name w =
      if files.exists (tarball name) w
      then delete_present name w
      else (err (snapshot_error ("Snapshot '" ^ name ^ "' not found")), w)

  -- `tar` could be run: its directory goes again when it has failed.
  abbrev keep_if_ok : String → Bool → Exec W String
  keep_if_ok dir true = pure dir
  keep_if_ok dir false = do
    ignore (files.remove_dir_all dir)
    fail (snapshot_error "Failed to extract snapshot")

  unfoldable pub unpack : String → Exec W String
  unpack name = do
    let dir = extracted_dir name
    context "Failed to create snapshot extract dir" (files.create_dir_all dir)
    o ←
        context "Failed to extract snapshot"
          (files.run ("tar" ∷ "-xzf" ∷ tarball name ∷ "-C" ∷ dir ∷ []))
    keep_if_ok dir (success o)

  unfoldable pub unpack_once : String → Exec W String
  unpack_once name w =
      if files.exists (extracted_dir name) w then (ok (extracted_dir name), w) else unpack name w

  unfoldable pub extract : String → Exec W String
  extract name w =
      if files.exists (tarball name) w
      then unpack_once name w
      else (err (snapshot_error ("Snapshot '" ^ name ^ "' not found")), w)
