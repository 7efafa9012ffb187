-- ===== src/Import/App/Uploads.antt =====
-- Reading the files of an import request (gcimport/src/gcimport/app.py).
use topografisk_gdb_api.Prelude.{
  ℕ, ◌+◌, String, Option, List, [], ◌∷◌, ◌++◌, if◌then◌else◌, ltb, length, Result, ok, err, ◌>>=◌,
  ◌>>◌, raise_if,
}

-- The 413 of one file and of all files, and the 422 where there is none.
pub data UploadError : Type 0 where
  no_files file_too_large files_too_large : UploadError

-- A file of the form: its name, and the chunks that reading it yields.
pub record UploadFile : Type 0 where
  pub filename : Option String
  pub chunks : List (List ℕ)

pub record UploadedImportFile : Type 0 where
  pub filename : Option String
  pub body : List ℕ

-- The loop of `_read_bounded`: an empty chunk is the end of the file.
unfoldable pub read_bounded : ℕ → ℕ → List ℕ → List (List ℕ) → Result UploadError (List ℕ)
read_bounded max_bytes size body [] = ok body
read_bounded max_bytes size body ([] ∷ chunks) = ok body
read_bounded max_bytes size body ((byte ∷ bytes) ∷ chunks) =
    let chunk = byte ∷ bytes in
    let rest = read_bounded max_bytes (size + length chunk) (body ++ chunk) chunks in
    if ltb max_bytes (size + length chunk) then err file_too_large else rest

-- The loop of `_read_uploaded_files`.
unfoldable pub read_files : ℕ → ℕ → List UploadFile → Result UploadError (List UploadedImportFile)
unfolding read_bounded
read_files max_bytes total [] = ok []
read_files max_bytes total (file ∷ files) = read_bounded max_bytes 0 [] file.chunks >>= λ body.
    raise_if (ltb max_bytes (total + length body)) files_too_large
    >> read_files max_bytes (total + length body) files
    >>= λ rest. ok (record { filename = file.filename; body = body } ∷ rest)

-- `_request_upload_files` and `_read_uploaded_files`
unfoldable pub read_uploaded_files :
    ℕ → List UploadFile → Result UploadError (List UploadedImportFile)
unfolding read_files
read_uploaded_files max_bytes [] = err no_files
read_uploaded_files max_bytes (file ∷ files) = read_files max_bytes 0 (file ∷ files)
