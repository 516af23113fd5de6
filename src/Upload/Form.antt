-- ===== src/Upload/Form.antt =====
-- handlers/chunkedupload/handler.go: Object, FileList, Field, Form, Path, and the canceler. `S` is the
-- state of all the back ends, `D` the data of a part that is still to be read.
use Prim.Native.String.{◌++◌}
use xhttp.Prelude.{
  String, Bool, true, false, Option, none, some, List, [], ◌∷◌, not, if◌then◌else◌, ◌==◌,
}
use xhttp.Prelude.{◌++◌ as append}
use xhttp.Prelude.Int.{ℤ, pos, ◌+ℤ◌}
use xhttp.Prelude.Text.{itoa}
use xhttp.Prelude.Scan.{replace_all}
use xhttp.Session.Action.{Error, foreign}
use xhttp.Upload.Sets.{Set, new_set, add}

path_from : List String → String → String
path_from [] s = s
path_from (str ∷ strs) s = path_from strs ((s ++ "/") ++ str)

-- Path
unfoldable pub path : List String → String
unfolding path_from
path strings = path_from strings ""

-- Object. The reader is limited: it has its data and the number of bytes that can be read at most.
pub record Object (D : Type 0) : Type 0 where
  pub upload_id : String
  pub uploader_id : String
  pub size : ℤ
  pub chunk_offset : ℤ
  pub chunks_total : ℤ
  pub filename : String
  pub filesize : ℤ
  pub file_uuid : String
  pub path : String
  pub content_type : String
  pub binary : Option (D × ℤ)

abbrev pub zero_object : {D : Type 0} → Object D
zero_object = record {
  upload_id = "";
  uploader_id = "";
  size = pos 0;
  chunk_offset = pos 0;
  chunks_total = pos 0;
  filename = "";
  filesize = pos 0;
  file_uuid = "";
  path = "";
  content_type = "";
  binary = none;
}

-- NewFile
unfoldable pub new_file : {D : Type 0} → D × ℤ → String → String → String → String → Object D
new_file src filename contenttype uploader uploadpath = record zero_object {
  binary = some src;
  filename = filename;
  content_type = contenttype;
  uploader_id = uploader;
  path = uploadpath;
}

-- EvalPath
unfoldable pub eval_path : {D : Type 0} → Object D → String
unfolding itoa replace_all
eval_path o =
    let p = replace_all o.path "%uploadid" o.upload_id in
    let q = replace_all p "%uploaderid" o.uploader_id in
    let r = replace_all q "%chunkoffset" (itoa o.chunk_offset) in
    replace_all r "%filename" o.filename

-- FileList.Size
unfoldable pub size : {D : Type 0} → List (Object D) → ℤ
unfolding ◌+ℤ◌
size [] = pos 0
size (file ∷ files) = file.size +ℤ size files

-- A rollback, and what an upload function answers: the number of bytes, the rollback and what is left
-- of the data, or an error.
abbrev pub Cancel : Type 0 → Type 0
Cancel S = S → Option Error × S

pub data Uploaded (S D : Type 0) : Type 0 where
  uploaded : ℤ → Cancel S → D → Uploaded S D
  refused : Error → Uploaded S D

-- Field without its validators, which is what these look at.
pub record Content (S D : Type 0) : Type 0 where
  pub name : String
  pub body : String
  pub content_type : String
  pub path : String
  pub files : Option (List (Object D))
  pub upload : Option (Object D → S → Uploaded S D × S)
  pub allowed_content_types : Set
  pub size_limit : ℤ
  pub required : Bool

-- Field
pub record Field (S D : Type 0) : Type 0 where
  pub content : Content S D
  pub validators : List (Content S D → Bool × Option Error)

-- NewField
unfoldable pub new_field : {S D : Type 0} → String → ℤ → Bool → List String → Field S D
unfolding add
new_field name sizelimit required accepted = record {
  content = record {
    name = name;
    body = "";
    content_type = "";
    path = "";
    files = none;
    upload = none;
    allowed_content_types = add accepted new_set;
    size_limit = sizelimit;
    required = required;
  };
  validators = [];
}

-- NewFileField
unfoldable pub new_file_field :
    {S D : Type 0}
    → String
    → ℤ
    → Bool
    → Bool
    → String
    → Option (Object D → S → Uploaded S D × S)
    → List String
    → Field S D
unfolding add
new_file_field name sizelimit required multiple storagepath upload_fn accepted =
    let act = add accepted new_set in
    record {
      content = record {
        name = name;
        body = "";
        content_type = "";
        path = storagepath;
        files = some (if multiple then zero_object ∷ zero_object ∷ [] else []);
        upload = upload_fn;
        allowed_content_types = if multiple then add ("multipart/mixed" ∷ []) act else act;
        size_limit = sizelimit;
        required = required;
      };
      validators = [];
    }

-- Validator
unfoldable pub validator :
    {S D : Type 0} → List (Content S D → Bool × Option Error) → Field S D → Field S D
validator v f = record f { validators = v }

abbrev first_refusal : Bool × Option Error → Bool × Option Error → Bool × Option Error
first_refusal (true, e) rest = rest
first_refusal (false, e) rest = (false, e)

valid_by :
    {S D : Type 0} → Content S D → List (Content S D → Bool × Option Error) → Bool × Option Error
valid_by c [] = (true, none)
valid_by c (v ∷ vs) = first_refusal (v c) (valid_by c vs)

-- IsValid
unfoldable pub is_valid : {S D : Type 0} → Field S D → Bool × Option Error
unfolding valid_by
is_valid f = valid_by f.content f.validators

-- expectFile
abbrev pub expect_file : {S D : Type 0} → Field S D → Bool
expect_file f = elim f.content.files [ none ↦ false | some fs ↦ true ]

abbrev found_value : {S D : Type 0} → Content S D → String × Option Error
found_value c = elim c.files [
  | none ↦ (c.body, none)
  | some fs ↦ (
    "",
    some (foreign "This is a file upload field, not a regular field. Unable to retrieve value."),
  )
]

-- Form.Get
unfoldable pub get : {S D : Type 0} → String → List (Field S D) → String × Option Error
get fieldname [] = ("", none)
get fieldname (f ∷ fs) =
    let rest = get fieldname fs in
    if not (fieldname == f.content.name) then rest else found_value f.content

-- newCanceler: a slice made with one element, the nil function.
abbrev pub new_canceler : {S : Type 0} → List (Option (Cancel S))
new_canceler = none ∷ []

-- canceler.Add
abbrev pub add_cancel :
    {S : Type 0} → Cancel S → List (Option (Cancel S)) → List (Option (Cancel S))
add_cancel f cs = append cs (some f ∷ [])

pub data Canceled (S : Type 0) : Type 0 where
  canceled : List Error → S → Canceled S
  nil_called : S → Canceled S

abbrev pub noted : Option Error → List Error → List Error
noted none es = es
noted (some e) es = append es (e ∷ [])

unfoldable pub cancel_from : {S : Type 0} → List (Option (Cancel S)) → List Error → S → Canceled S
cancel_from [] es b = canceled es b
cancel_from (none ∷ fs) es b = nil_called b
cancel_from (some f ∷ fs) es b = let (e, b') = f b in cancel_from fs (noted e es) b'

-- canceler.Cancel: the errors of the rollbacks, or the panic of a call of a nil function.
unfoldable pub cancel : {S : Type 0} → List (Option (Cancel S)) → S → Canceled S
unfolding cancel_from
cancel fs b = cancel_from fs [] b
