-- ===== src/Upload/Limit/Examples.antt =====
-- A part with one file, for a back end that counts bytes.
use xhttp.Prelude.{ℕ, ap, ◌≡◌, refl, true, false, none, some, [], ◌∷◌}
use xhttp.Prelude.Dict.{lookup, insert}
use xhttp.Prelude.Int.{ℤ, pos, ◌+ℤ◌, ◌-ℤ◌, ◌≤ℤ◌}
use xhttp.Prelude.Text.{to_lower}
use xhttp.Session.Action.{ok}
use xhttp.Session.Samples.{newcomer}
use xhttp.Upload.Sets.{holds, contains, add}
use xhttp.Upload.Form.{Field, Object, Uploaded, uploaded, new_file_field, new_file}
use xhttp.Upload.Parts.{Stream, eof, part, Upload}
use xhttp.Upload.Files.{Config, mixed_files, mixed_file, identified}
use xhttp.Upload.Limit.{Counts, mixed_files-bound}
use xhttp.Upload.Examples.{toy_media, photo_part}

-- Every file has five bytes.
abbrev five : Object ℕ → ℤ → Uploaded ℤ ℕ × ℤ
five obj b = (uploaded (pos 5) (λ c. (none, c)) 0, b +ℤ pos 5)

five-Counts : Counts (λ b. b) five
five-Counts obj b n c rest e = let same : pos 5 ≡ n = cc in ap (λ m. b +ℤ m) same

abbrev config : Config ℤ
config = record { uploader_id = "u"; file_id = λ b. (ok "f1", b) }

abbrev album : Field ℤ ℕ
album = new_file_field "album" (pos 100) true true "/" (some five) ("image/png" ∷ [])

abbrev before : Upload ℤ ℕ
before = record {
  file_created = false;
  form = album ∷ [];
  cancels = [];
  session = record {
    cookie = newcomer;
    parent_cookie = newcomer;
    backends = pos 7;
    res = record { header = []; sent = none; body = [] };
  };
}

abbrev files : Stream ℕ
files = part photo_part (part photo_part eof (λ n. "") (λ n. eof)) (λ n. "") (λ n. eof)

after_files_test :
    (mixed_files toy_media config 0 album files (pos 100) before).1.session.backends ≡ pos 17
unfolding mixed_files mixed_file identified new_file_field new_file contains holds add insert lookup
    to_lower ◌+ℤ◌ ◌-ℤ◌
after_files_test = refl

mixed_files-bound_example :
    (mixed_files toy_media config 0 album files (pos 100) before).1.session.backends
    ≤ℤ pos 7 +ℤ pos 100
unfolding mixed_files mixed_file identified new_file_field new_file contains holds add insert lookup
    to_lower ◌-ℤ◌
mixed_files-bound_example =
    mixed_files-bound toy_media (λ b. b) config (λ b. refl) 0 album five refl five-Counts files
      before (mixed_files toy_media config 0 album files (pos 100) before).1 refl refl
