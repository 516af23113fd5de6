-- ===== src/Upload/Disk/Laws.antt =====
-- When an upload to the disk fails, and what its rollback takes back.
use xhttp.Prelude.{◌≡◌, refl, ◌∙◌, String, Bool, false, Option, none, some, if◌then◌else◌}
use xhttp.Prelude.Int.{pos, ltb_ℤ}
use xhttp.Session.Action.{Error, Result, ok, err, crash}
use xhttp.Upload.Form.{Object}
use xhttp.Upload.Disk.{
  Os, Answer, answered, no_rollback, named, file_path, created, in_directory, upload_named, upload,
}

module _ {S D F : Type 0} (os : Os S D F) (object_id : Object D → String) where
  -- An answer with an error, nothing copied and nothing to roll back.
  abbrev pub IsRefused : Answer S → Type 0
  IsRefused a = (e : Error) × (a ≡ answered (pos 0) no_rollback (some e))

  created-IsRefused :
      (u : Object D) (r : Result F × S) {e : Error}
      → r.0 ≡ err e
      → IsRefused (created os object_id u r).0
  created-IsRefused u (ok f, b) h = absurd (cc)
  created-IsRefused u (err e, b) h = (e, refl)
  created-IsRefused u (crash msg, b) h = absurd (cc)

  in_directory-IsRefused :
      (u : Object D) (o : Option Error × S)
      → ((b : S) → (e : Error) × ((os.create (file_path os object_id u) b).0 ≡ err e))
      → IsRefused (in_directory os object_id u o).0
  in_directory-IsRefused u (none, b) h =
      created-IsRefused u (os.create (file_path os object_id u) b) (h b).1
  in_directory-IsRefused u (some e, b) h = (e, refl)

  at_if :
      (t : Bool) (p n : String)
      → t ≡ false
      → os.join (if t then p else "") (if t then n else "") ≡ os.join "" ""
  at_if t p n e = rw e refl

  -- An upload in two chunks or fewer is always refused, if the path of no elements is empty and no
  -- file with an empty path can be created: name and path are set for more than two chunks only.
  pub upload-IsRefused :
      (u : Object D) (b : S)
      → os.join "" "" ≡ ""
      → ((b' : S) → (e : Error) × ((os.create "" b').0 ≡ err e))
      → ltb_ℤ (pos 2) u.chunks_total ≡ false
      → IsRefused (upload os object_id u b).0
  unfolding upload upload_named
  upload-IsRefused u b empty nameless few =
      let at : file_path os object_id (named os object_id u) ≡ "" =
        at_if (ltb_ℤ (pos 2) u.chunks_total) _ _ few ∙ empty in
      in_directory-IsRefused (named os object_id u) _ (λ b'. rw at (nameless b'))
