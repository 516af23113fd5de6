-- ===== src/Upload/Disk/Undone.antt =====
-- What the rollback of an upload to the disk takes back.
use xhttp.Prelude.{◌≡◌, ◌≢◌, refl, ◌∙◌, String, Option, none, some}
use xhttp.Prelude.Int.{ℤ, pos}
use xhttp.Session.Action.{Error, Result, ok, err, crash}
use xhttp.Upload.Form.{Object}
use xhttp.Upload.Disk.{
  Os, Answer, answered, panicked, no_rollback, named, file_path, failed_copy, synced, created,
  in_directory, upload_path, upload_named, upload,
}

-- What is documented of os and io: `file b p` is what the file at the path `p` holds, if there is one,
-- and `path_of f` is the path of an open file. Every call leaves the other files alone.
pub record IsOs {S D F : Type 0} (os : Os S D F) (file : S → String → Option D)
    (path_of : F → String) : Type 0 where
  pub mkdir_all-keeps : (p q : String) (b : S) → file (os.mkdir_all p b).1 q ≡ file b q
  pub create-keeps : (p q : String) (b : S) → q ≢ p → file (os.create p b).1 q ≡ file b q
  pub create-path : (p : String) (b : S) (f : F) → (os.create p b).0 ≡ ok f → path_of f ≡ p
  pub copy-keeps :
      (f : F) (r : Option (D × ℤ)) (q : String) (b : S)
      → q ≢ path_of f
      → file (os.copy f r b).1 q ≡ file b q
  pub sync-keeps : (f : F) (q : String) (b : S) → file (os.sync f b).1 q ≡ file b q
  pub remove-keeps : (p q : String) (b : S) → q ≢ p → file (os.remove p b).1 q ≡ file b q
  pub removed : (p : String) (b : S) → (os.remove p b).0 ≡ none → file (os.remove p b).1 p ≡ none

module _ {S D F : Type 0} (os : Os S D F) (object_id : Object D → String)
    (file : S → String → Option D) (path_of : F → String) where
  -- The files other than the one at `p` are as they were in `b`, after the rollback too; and the file
  -- at `p` is gone where an upload without an error was rolled back without an error.
  abbrev pub Undone : String → S → Answer S × S → Type 0
  Undone p b (answered n rollback e, b') =
      ((q : String) → q ≢ p → file b' q ≡ file b q)
      × ((q : String) → q ≢ p → file (rollback b').1 q ≡ file b q)
      × (e ≡ none → (rollback b').0 ≡ none → file (rollback b').1 p ≡ none)
  Undone p b (panicked msg, b') = (q : String) → q ≢ p → file b' q ≡ file b q

  module _ (laws : IsOs os file path_of) where
    abbrev Kept : String → S → S → Type 0
    Kept p b b' = (q : String) → q ≢ p → file b' q ≡ file b q

    removed-Undone :
        (u : Object D) (b b' : S) (n : ℤ) (e : Option Error)
        → Kept (file_path os object_id u) b b'
        → Undone
            (file_path os object_id u)
            b
            (answered n (os.remove (file_path os object_id u)) e, b')
    removed-Undone u b b' n e kept = (
      kept,
      λ q other. laws.remove-keeps (file_path os object_id u) q b' other ∙ kept q other,
      λ _ gone. laws.removed (file_path os object_id u) b' gone,
    )

    synced-Undone :
        (u : Object D) (f : F) (b : S) (r : (ℤ × Option Error) × S)
        → Kept (file_path os object_id u) b r.1
        → Undone (file_path os object_id u) b (synced os object_id u f r)
    synced-Undone u f b ((n, none), c) kept =
        removed-Undone u b (os.sync f c).1 n (os.sync f c).0
          (λ q other. laws.sync-keeps f q c ∙ kept q other)
    synced-Undone u f b ((n, some e), c) kept =
        by_sync (os.sync f c).0 (λ q other. laws.sync-keeps f q c ∙ kept q other)
      where
        by_sync :
            (x : Option Error)
            → Kept (file_path os object_id u) b (os.sync f c).1
            → Undone
                (file_path os object_id u)
                b
                (failed_copy os object_id u n e x, (os.sync f c).1)
        by_sync none k = k
        by_sync (some e') k = removed-Undone u b (os.sync f c).1 n (some _) k

    refused-Undone :
        (p : String) (b b' : S) (e : Error)
        → Kept p b b'
        → Undone p b (answered (pos 0) no_rollback (some e), b')
    refused-Undone p b b' e kept = (kept, kept, λ fine. absurd (cc))

    created-Undone :
        (u : Object D) (b : S) (r : Result F × S)
        → Kept (file_path os object_id u) b r.1
        → ((f : F) → r.0 ≡ ok f → path_of f ≡ file_path os object_id u)
        → Undone (file_path os object_id u) b (created os object_id u r)
    created-Undone u b (ok f, c) kept at = synced-Undone u f b (os.copy f u.binary c) (λ q other.
        laws.copy-keeps f u.binary q c (λ same. other (same ∙ at f refl)) ∙ kept q other)
    created-Undone u b (err e, c) kept at = refused-Undone _ b c e kept
    created-Undone u b (crash msg, c) kept at = kept

    in_directory-Undone :
        (u : Object D) (b : S) (o : Option Error × S)
        → Kept (file_path os object_id u) b o.1
        → Undone (file_path os object_id u) b (in_directory os object_id u o)
    in_directory-Undone u b (none, c) kept =
        created-Undone u b (os.create (file_path os object_id u) c)
          (λ q other. laws.create-keeps (file_path os object_id u) q c other ∙ kept q other)
          (laws.create-path (file_path os object_id u) c)
    in_directory-Undone u b (some e, c) kept = refused-Undone _ b c e kept

    -- An upload and its rollback leave every file alone but the one at the path of the upload; that
    -- file is gone once an upload without an error was rolled back without an error.
    pub upload-Undone :
        (u : Object D) (b : S)
        → Undone (file_path os object_id (named os object_id u)) b (upload os object_id u b)
    unfolding upload upload_named
    upload-Undone u b =
        let v = named os object_id u in
        in_directory-Undone v b (os.mkdir_all (upload_path os object_id v) b)
          (λ q _. laws.mkdir_all-keeps (upload_path os object_id v) q b)
