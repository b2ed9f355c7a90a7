-- ===== src/Image/Snapshot/Laws.antt =====
-- The snapshots of src/image/snapshot.rs: their names, and what a failure leaves.
use clawstainer.Base.{
  String, true, false, ◌≡◌, refl, sym, ◌∙◌, some, List, [], ◌∷◌, inl, inr, Bool-cases, ◌==◌,
  eq-false_of_ne,
}
use clawstainer.Errors.{Failure, ok, err, is_ok, Result-cases}
use clawstainer.Exec.{map_err, ◌>>=◌}
use clawstainer.Exec.Kept.{Kept, Kept-map_err, bind_after, bind_failed}
use clawstainer.Image.Paths.{FileHost, ◌//◌, machine_dir}
use clawstainer.Image.Snapshot.{
  tarball, extracted_dir, snapshots_dir, split_at_last_dot, strip_suffix, snapshot_name, create_new,
  create, unpack, unpack_once, extract,
}
use clawstainer.Runtime.Host.{context}
use Prim.Native.String.{◌++◌}
use text.Mathlib.TextLemmas.{cons-append, append_assoc, cons-ne-nil}

split_at_last_dot-append : (stem : String) → split_at_last_dot (stem ++ ".gz") ≡ some (stem, "gz")
unfolding split_at_last_dot
split_at_last_dot-append String.[] = refl
split_at_last_dot-append (String.◌∷◌ c s) =
    rw (cons-append c s ".gz", split_at_last_dot-append s) refl

strip_suffix-append : (name : String) → strip_suffix ".tar" (name ++ ".tar") ≡ some name
unfolding strip_suffix
strip_suffix-append String.[] = refl
strip_suffix-append (String.◌∷◌ c s) = rw (cons-append c s ".tar", strip_suffix-append s) refl

stem_not_empty : (name : String) → ((name ++ ".tar") == "") ≡ false
stem_not_empty String.[] = refl
stem_not_empty (String.◌∷◌ c s) =
    rw (cons-append c s ".tar") (eq-false_of_ne _ "" (cons-ne-nil c (s ++ ".tar")))

-- Whatever dots the name has.
pub snapshot_name-append : (name : String) → snapshot_name (name ++ ".tar.gz") ≡ some name
unfolding snapshot_name
snapshot_name-append name =
    rw
      (
        sym (append_assoc name ".tar" ".gz"),
        split_at_last_dot-append (name ++ ".tar"),
        stem_not_empty name,
        strip_suffix-append name,
      )
      refl

module _ {W : Type 0} (files : FileHost W) where
  -- What a call that has made a directory, or a command that could not be run, leaves.
  pub record KeepsFiles : Type 0 where
    pub created :
        (dir : String) (w : W)
        → (files.create_dir_all dir w).0 ≡ ok tt
        → files.exists dir (files.create_dir_all dir w).1 ≡ true
    pub create_keeps :
        (dir path : String) (w : W)
        → files.exists path w ≡ true
        → files.exists path (files.create_dir_all dir w).1 ≡ true
    pub not_run_keeps :
        (cmd : List String) (path : String) (w : W) (e : Failure)
        → (files.run cmd w).0 ≡ err e
        → files.exists path (files.run cmd w).1 ≡ files.exists path w

  abbrev extract_command : String → List String
  extract_command name = "tar" ∷ "-xzf" ∷ tarball name ∷ "-C" ∷ extracted_dir name ∷ []

  abbrev made : String → W → W
  made name w = (files.create_dir_all (extracted_dir name) w).1

  unpack_not_run :
      (name : String) (w : W) (e : Failure)
      → (files.create_dir_all (extracted_dir name) w).0 ≡ ok tt
      → (files.run (extract_command name) (made name w)).0 ≡ err e
      → ((f : Failure) × ((unpack files name w).0 ≡ err f))
        × ((unpack files name w).1 ≡ (files.run (extract_command name) (made name w)).1)
  unfolding unpack map_err ◌>>=◌
  unpack_not_run name w e created failed = rw (created, failed) ((_, refl), refl)

  module _ (keeps : KeepsFiles) where
    -- When `tar` cannot be run, `extract` fails and leaves the directory that it has made: the next
    -- `extract` of the snapshot succeeds with that directory, though nothing was unpacked into it.
    pub extract_twice :
        (name : String) (w : W) (e : Failure)
        → files.exists (tarball name) w ≡ true
        → files.exists (extracted_dir name) w ≡ false
        → (files.create_dir_all (extracted_dir name) w).0 ≡ ok tt
        → (files.run (extract_command name) (made name w)).0 ≡ err e
        → (is_ok (extract files name w).0 ≡ false)
          × ((extract files name (extract files name w).1).0 ≡ ok (extracted_dir name))
    unfolding extract unpack_once
    extract_twice name w e there absent created failed =
        let ((f, stops), ends) = unpack_not_run name w e created failed in
        let w2 : W = (files.run (extract_command name) (made name w)).1 in
        let tarball_there : files.exists (tarball name) w2 ≡ true =
          keeps.not_run_keeps _ (tarball name) _ e failed
          ∙ keeps.create_keeps (extracted_dir name) (tarball name) w there in
        let dir_there : files.exists (extracted_dir name) w2 ≡ true =
          keeps.not_run_keeps _ (extracted_dir name) _ e failed
          ∙ keeps.created (extracted_dir name) w created in
        rw (there, absent, stops, ends) (refl, rw (tarball_there, dir_there) refl)

  create_new-refused :
      (P : W → Type 0) (upper name : String) (w : W)
      → ((v : W) → P v → files.exists (tarball name) v ≡ true)
      → P w
      → (is_ok (create_new files upper name w).0 ≡ false) × P (create_new files upper name w).1
  unfolding create_new
  create_new-refused P upper name w there p = rw (there w p) (refl, p)

  -- A snapshot is never written over: while its tarball is there, which making a directory does
  -- not change, `create` fails, and what making a directory keeps still holds.
  pub create-refused :
      (P : W → Type 0) (id name : String) (w : W)
      → ((v : W) → P v → files.exists (tarball name) v ≡ true)
      → Kept P (files.create_dir_all snapshots_dir)
      → P w
      → (is_ok (create files id name w).0 ≡ false) × P (create files id name w).1
  unfolding create
  create-refused P id name w there keeps p =
      let upper : String = machine_dir id // "upper" in
      let dir =
        context "Failed to create snapshots directory" (files.create_dir_all snapshots_dir) in
      let q = (Kept-map_err _ (files.create_dir_all snapshots_dir) keeps).keep w p in
      elim (Bool-cases (files.exists upper w)) [
        | inr absent ↦ rw absent (refl, p)
        | inl present ↦ elim (Result-cases (dir w).0) [
          | inl (_, made) ↦
              rw (present, bind_after dir (λ _. create_new files upper name) w made)
                (create_new-refused P upper name (dir w).1 there q)
          | inr (e, failed) ↦
              rw (present, bind_failed dir (λ _. create_new files upper name) w failed) (refl, q)
        ]
      ]
