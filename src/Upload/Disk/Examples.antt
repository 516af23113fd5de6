-- ===== src/Upload/Disk/Examples.antt =====
-- A disk whose files are a function of their paths. A path is a text as it was joined.
use Prim.Native.String.{◌++◌}
use xhttp.Prelude.{
  ◌≡◌, ◌≢◌, refl, String, Bool, true, false, Option, none, some, if◌then◌else◌, ◌==◌, eq_refl,
}
use xhttp.Prelude.Int.{ℤ, pos}
use xhttp.Session.Action.{Error, foreign, Result, ok, err}
use xhttp.Upload.Form.{Object, zero_object, eval_path}
use xhttp.Session.Handler.Kept.{different}
use xhttp.Prelude.Text.{itoa}
use xhttp.Upload.Disk.{Os, upload, file_path, named}
use xhttp.Upload.Disk.Laws.{IsRefused, upload-IsRefused}
use xhttp.Upload.Disk.Undone.{IsOs, Undone, upload-Undone}

abbrev Files : Type 0
Files = String → Option String

abbrev written : String → Option String → Files → Files
written p v b q = if q == p then v else b q

written-other :
    (p : String) (v : Option String) (b : Files) (q : String) → q ≢ p → written p v b q ≡ b q
written-other p v b q other = rw (different q p other) refl

abbrev created_at : Bool → String → Files → Result String × Files
created_at true p b = (err (foreign "no such file or directory"), b)
created_at false p b = (ok p, written p (some "") b)

abbrev copied : String → Option (String × ℤ) → Files → (ℤ × Option Error) × Files
copied f none b = ((pos 0, none), b)
copied f (some (d, n)) b = ((n, none), written f (some d) b)

abbrev disk : Os Files String String
disk = record {
  mkdir_all = λ p b. (none, b);
  create = λ p b. created_at (p == "") p b;
  copy = copied;
  sync = λ f b. (none, b);
  remove = λ p b. (none, written p none b);
  join = λ p q. if p == "" then q else p ++ ("/" ++ q);
  dir = λ p. p;
  error_text = λ e. "";
}

created_at-keeps : (t : Bool) (p q : String) (b : Files) → q ≢ p → (created_at t p b).1 q ≡ b q
created_at-keeps true p q b other = refl
created_at-keeps false p q b other = written-other p (some "") b q other

created_at-path : (t : Bool) (p f : String) (b : Files) → (created_at t p b).0 ≡ ok f → f ≡ p
created_at-path true p f b e = absurd (cc)
created_at-path false p f b e = cc

copied-keeps :
    (f : String) (r : Option (String × ℤ)) (q : String) (b : Files)
    → q ≢ f
    → (copied f r b).1 q ≡ b q
copied-keeps f none q b other = refl
copied-keeps f (some (d, n)) q b other = written-other f (some d) b q other

disk-IsOs : IsOs disk (λ b. b) (λ f. f)
disk-IsOs = record {
  mkdir_all-keeps = λ p q b. refl;
  create-keeps = λ p q b other. created_at-keeps (p == "") p q b other;
  create-path = λ p b f e. created_at-path (p == "") p f b e;
  copy-keeps = copied-keeps;
  sync-keeps = λ f q b. refl;
  remove-keeps = λ p q b other. written-other p none b q other;
  removed = λ p b _. rw (eq_refl p) refl;
}

abbrev no_files : Files
no_files p = none

-- The second of three chunks
abbrev chunk : Object String
chunk = record zero_object {
  filename = "a";
  chunk_offset = pos 1;
  chunks_total = pos 3;
  path = "up";
  binary = some ("bytes", pos 5);
}

upload-Undone_example :
    Undone disk
      (λ u. "")
      (λ b. b)
      (λ f. f)
      (file_path disk (λ u. "") (named disk (λ u. "") chunk))
      no_files
      (upload disk (λ u. "") chunk no_files)
upload-Undone_example = upload-Undone disk (λ u. "") (λ b. b) (λ f. f) disk-IsOs chunk no_files

written_test : (upload disk (λ u. "") chunk no_files).1 "tmp//up/a.1" ≡ some "bytes"
unfolding upload eval_path itoa
written_test = refl

abbrev whole : Object String
whole = record chunk { chunks_total = pos 1 }

upload-IsRefused_example : IsRefused disk (λ u. "") (upload disk (λ u. "") whole no_files).0
upload-IsRefused_example =
    upload-IsRefused disk (λ u. "") whole no_files refl
      (λ b. (foreign "no such file or directory", refl)) refl
