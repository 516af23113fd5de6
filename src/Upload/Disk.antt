-- ===== src/Upload/Disk.antt =====
-- handlers/chunkedupload/disk/function.go: Upload. os, io and path/filepath are parameters, and so is
-- `u.ID`, which names no field of Object; FormatInt with base 10 is itoa.
pub mod Laws
pub mod Undone
mod Examples
use Prim.Native.String.{◌++◌}
use xhttp.Prelude.{String, Option, none, some, List, [], ◌∷◌, if◌then◌else◌, ◌==◌}
use xhttp.Prelude.Int.{ℤ, pos, ltb_ℤ}
use xhttp.Prelude.Text.{itoa}
use xhttp.Session.Action.{Error, wraps, foreign, Result, ok, err, crash}
use xhttp.Upload.Form.{Object, eval_path, Cancel}

-- `S` is the state of the file system, `F` an open file. io.Copy answers how much it has copied, with
-- an error or none.
pub record Os (S D F : Type 0) : Type 0 where
  pub mkdir_all : String → S → Option Error × S
  pub create : String → S → Result F × S
  pub copy : F → Option (D × ℤ) → S → (ℤ × Option Error) × S
  pub sync : F → S → Option Error × S
  pub remove : String → S → Option Error × S
  pub join : String → String → String
  pub dir : String → String
  pub error_text : Error → String

-- The three results of Upload, or its panic.
pub data Answer (S : Type 0) : Type 0 where
  answered : ℤ → Cancel S → Option Error → Answer S
  panicked : String → Answer S

abbrev pub no_rollback : {S : Type 0} → Cancel S
no_rollback b = (none, b)

module _ {S D F : Type 0} (os : Os S D F) (object_id : Object D → String) where
  open os use {mkdir_all, create, copy, sync, remove, join, dir, error_text}

  abbrev pub named : Object D → Object D
  named u = record u { filename = if u.filename == "" then object_id u else u.filename }

  abbrev pub upload_name : Object D → String
  upload_name u =
      if ltb_ℤ (pos 2) u.chunks_total then u.filename ++ ("." ++ itoa u.chunk_offset) else ""

  abbrev pub upload_path : Object D → String
  upload_path u = if ltb_ℤ (pos 2) u.chunks_total then dir (join "tmp/" (eval_path u)) else ""

  abbrev pub file_path : Object D → String
  file_path u = join (upload_path u) (upload_name u)

  -- The error of io.Copy is wrapped into that of Sync, which there may be none of.
  abbrev pub failed_copy : Object D → ℤ → Error → Option Error → Answer S
  failed_copy u n e none = panicked "invalid memory address or nil pointer dereference"
  failed_copy u n e (some e') =
      answered n (remove (file_path u)) (some (wraps (foreign (error_text e')) e))

  -- After io.Copy: on its error, Sync is called for the text of its own.
  abbrev pub synced : Object D → F → (ℤ × Option Error) × S → Answer S × S
  synced u f ((n, none), b) = let (e, b') = sync f b in (answered n (remove (file_path u)) e, b')
  synced u f ((n, some e), b) = let (x, b') = sync f b in (failed_copy u n e x, b')

  abbrev pub created : Object D → Result F × S → Answer S × S
  created u (ok f, b) = synced u f (copy f u.binary b)
  created u (err e, b) = (answered (pos 0) no_rollback (some e), b)
  created u (crash msg, b) = (panicked msg, b)

  abbrev pub in_directory : Object D → Option Error × S → Answer S × S
  in_directory u (none, b) = created u (create (file_path u) b)
  in_directory u (some e, b) = (answered (pos 0) no_rollback (some e), b)

  upload_named : Object D → S → Answer S × S
  upload_named u b = in_directory u (mkdir_all (upload_path u) b)

  -- Upload
  unfoldable pub upload : Object D → S → Answer S × S
  unfolding upload_named
  upload u b = upload_named (named u) b
