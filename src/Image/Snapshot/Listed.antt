-- ===== src/Image/Snapshot/Listed.antt =====
-- The snapshots that `list` of src/image/snapshot.rs shows.
use clawstainer.Base.{
  String, ◌≡◌, ap, sym, ◌∙◌, subst, true, some, List, [], ◌∷◌, ◌++◌, inl, inr, Bool-cases,
}
use clawstainer.Base.Put.{append_cancel}
use clawstainer.Errors.{Result, ok, result_inj}
use clawstainer.Exec.{lift, pure}
use clawstainer.Exec.Kept.{bind-eq-ok}
use clawstainer.Image.Paths.{FileHost, ◌//◌}
use clawstainer.Image.Snapshot.{
  SnapshotInfo, snapshots_dir, tarball, snapshot_name, goes_before, insert_sorted, sort_by_name,
  info, push_info, list_entries, list_all, list,
}
use clawstainer.Image.Snapshot.Laws.{snapshot_name-append}
use Prim.Native.String.{◌++◌ as append_text}

-- A snapshot of that name is in the list.
pub data Lists (name : String) : List SnapshotInfo → Type 0 where
  here : {i : SnapshotInfo} {is : List SnapshotInfo} → i.name ≡ name → Lists name (i ∷ is)
  later : {i : SnapshotInfo} {is : List SnapshotInfo} → Lists name is → Lists name (i ∷ is)

-- The entries of the directory have the file of that path.
pub data HasFile (path : String) : List (Result String) → Type 0 where
  first :
      {file : String} {entries : List (Result String)}
      → snapshots_dir // file ≡ path
      → HasFile path (ok file ∷ entries)
  behind :
      {entry : Result String} {entries : List (Result String)}
      → HasFile path entries
      → HasFile path (entry ∷ entries)

Lists-insert_sorted :
    (name : String) (i : SnapshotInfo) (is : List SnapshotInfo)
    → Lists name (i ∷ is)
    → Lists name (insert_sorted i is)
unfolding insert_sorted
Lists-insert_sorted name i [] l = l
Lists-insert_sorted name i (y ∷ ys) (here e) = elim (Bool-cases (goes_before i.name y.name)) [
  | inl before ↦ rw before (here e)
  | inr after ↦ rw after (later (Lists-insert_sorted name i ys (here e)))
]
Lists-insert_sorted name i (y ∷ ys) (later (here e)) =
    elim (Bool-cases (goes_before i.name y.name)) [
      | inl before ↦ rw before (later (here e))
      | inr after ↦ rw after (here e)
    ]
Lists-insert_sorted name i (y ∷ ys) (later (later l)) =
    elim (Bool-cases (goes_before i.name y.name)) [
      | inl before ↦ rw before (later (later l))
      | inr after ↦ rw after (later (Lists-insert_sorted name i ys (later l)))
    ]

Lists-sort_by_name :
    (name : String) (is : List SnapshotInfo) → Lists name is → Lists name (sort_by_name is)
unfolding sort_by_name
Lists-sort_by_name name [] l = elim l [ ]
Lists-sort_by_name name (i ∷ is) (here e) = Lists-insert_sorted name i (sort_by_name is) (here e)
Lists-sort_by_name name (i ∷ is) (later l) =
    Lists-insert_sorted name i (sort_by_name is) (later (Lists-sort_by_name name is l))

Lists-append_left :
    (name : String) (xs ys : List SnapshotInfo) → Lists name xs → Lists name (xs ++ ys)
Lists-append_left name [] ys l = elim l [ ]
Lists-append_left name (x ∷ xs) ys (here e) = here e
Lists-append_left name (x ∷ xs) ys (later l) = later (Lists-append_left name xs ys l)

Lists-append_right :
    (name : String) (xs ys : List SnapshotInfo) → Lists name ys → Lists name (xs ++ ys)
Lists-append_right name [] ys l = l
Lists-append_right name (x ∷ xs) ys l = later (Lists-append_right name xs ys l)

file_of_path :
    (file name : String) → snapshots_dir // file ≡ tarball name → file ≡ append_text name ".tar.gz"
file_of_path file name e =
    append_cancel "/" file (append_text name ".tar.gz") (append_cancel snapshots_dir _ _ e)

module _ {W : Type 0} (files : FileHost W) where
  push_info-Lists :
      (name path : String) (w : W) (pushed : List SnapshotInfo)
      → (push_info files (some name) path [] w).0 ≡ ok pushed
      → Lists name pushed
  unfolding info pure
  push_info-Lists name path w pushed done =
      let (i, read, listed) = bind-eq-ok (info files name path) (λ x. pure (x ∷ [])) w done in
      let (meta, found, made) =
        bind-eq-ok (files.metadata path)
          (λ m. pure (record { name = name; size_bytes = m.0; created_at = m.1 })) w read in
      subst (Lists name) (result_inj listed)
        (here (ap (λ (x : SnapshotInfo). x.name) (sym (result_inj made))))

  list_entries-Lists :
      (name : String) (entries : List (Result String)) (w : W) (listed : List SnapshotInfo)
      → HasFile (tarball name) entries
      → (list_entries files entries w).0 ≡ ok listed
      → Lists name listed
  unfolding list_entries lift pure
  list_entries-Lists name _ w listed (first {file} {entries} at_path) done =
      let named : snapshot_name file ≡ some name =
        rw (file_of_path file name at_path) (snapshot_name-append name) in
      let (f, same, pushing) = bind-eq-ok (lift (ok file)) _ w done in
      let (pushed, put, walking) =
        bind-eq-ok (push_info files (snapshot_name f) _ []) _ w pushing in
      let (rest, walked, joined) = bind-eq-ok (list_entries files entries) _ _ walking in
      subst (Lists name) (result_inj joined) (
        Lists-append_left name pushed rest (
          push_info-Lists name (snapshots_dir // f) w pushed (
            subst (λ x. (push_info files x (snapshots_dir // f) [] w).0 ≡ ok pushed)
              (subst (λ x. snapshot_name x ≡ some name) (result_inj same) named) put)))
  list_entries-Lists name _ w listed (behind {entry} {entries} has) done =
      let (f, same, pushing) = bind-eq-ok (lift entry) _ w done in
      let (pushed, put, walking) =
        bind-eq-ok (push_info files (snapshot_name f) _ []) _ w pushing in
      let (rest, walked, joined) = bind-eq-ok (list_entries files entries) _ _ walking in
      subst (Lists name) (result_inj joined)
        (Lists-append_right name pushed rest (list_entries-Lists name entries _ rest has walked))

  -- A list that succeeds, while the directory of the snapshots has the file that the snapshot is
  -- written to, has a snapshot of that name, whatever dots the name has.
  pub list-Lists :
      (name : String) (entries : List (Result String)) (w : W) (listed : List SnapshotInfo)
      → files.exists snapshots_dir w ≡ true
      → (files.read_dir snapshots_dir w).0 ≡ ok entries
      → HasFile (tarball name) entries
      → (list files w).0 ≡ ok listed
      → Lists name listed
  unfolding list list_all pure
  list-Lists name entries w listed there read has done =
      let (entries', read', rest) =
        bind-eq-ok (files.read_dir snapshots_dir) _ w (rw there at done) in
      let (found, walked, sorted) = bind-eq-ok (list_entries files entries') _ _ rest in
      subst (Lists name) (result_inj sorted) (
        Lists-sort_by_name name found (
          list_entries-Lists name entries' _ found
            (subst (HasFile (tarball name)) (result_inj (sym read ∙ read')) has) walked))
