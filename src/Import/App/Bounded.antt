-- ===== src/Import/App/Bounded.antt =====
-- Uploads within the bound, and beyond it (gcimport/src/gcimport/app.py).
use mathlib.Core.List.{append-nil, append_assoc}
use topografisk_gdb_api.Prelude.{
  ℕ, ◌+◌, ◌≤◌, ◌<◌, ltb, ◌≡◌, refl, ◌∙◌, false, List, [], ◌∷◌, ◌++◌, map, arith, length,
  length-append, Result, ok, err, Bool-cases, inl, inr,
}
use topografisk_gdb_api.Import.App.Uploads.{
  UploadError, no_files, file_too_large, files_too_large, UploadFile, UploadedImportFile,
  read_bounded, read_files, read_uploaded_files,
}

-- The bytes up to the first empty chunk, which is the end of the file.
abbrev pub content : List (List ℕ) → List ℕ
content [] = []
content ([] ∷ chunks) = []
content ((byte ∷ bytes) ∷ chunks) = (byte ∷ bytes) ++ content chunks

-- The file as a whole, and the number of bytes of all files.
abbrev pub whole : UploadFile → UploadedImportFile
whole file = record { filename = file.filename; body = content file.chunks }

abbrev pub total_bytes : List UploadFile → ℕ
total_bytes [] = 0
total_bytes (file ∷ files) = length (content file.chunks) + total_bytes files

abbrev pub IsTooLarge : UploadError → Type 0
IsTooLarge no_files = ⊥
IsTooLarge file_too_large = Unit
IsTooLarge files_too_large = Unit

read_bounded-whole :
    (max_bytes size : ℕ) (body : List ℕ) (chunks : List (List ℕ))
    → size + length (content chunks) ≤ max_bytes
    → read_bounded max_bytes size body chunks ≡ ok (body ++ content chunks)
unfolding read_bounded
read_bounded-whole max_bytes size body [] h = rw append-nil refl
read_bounded-whole max_bytes size body ([] ∷ chunks) h = rw append-nil refl
read_bounded-whole max_bytes size body ((byte ∷ bytes) ∷ chunks) h =
    let chunk = byte ∷ bytes in
    let split = length-append chunk (content chunks) in
    let fits : ltb max_bytes (size + length chunk) ≡ false = ground (arith, h, split) in
    rw fits (
      read_bounded-whole max_bytes (size + length chunk) (body ++ chunk) chunks
        (omega (arith, h, split))
      ∙ rw (append_assoc body chunk (content chunks)) refl)

read_bounded_over :
    (max_bytes size : ℕ) (body : List ℕ) (chunks : List (List ℕ))
    → size ≤ max_bytes
    → max_bytes < size + length (content chunks)
    → read_bounded max_bytes size body chunks ≡ err file_too_large
unfolding read_bounded
read_bounded_over max_bytes size body [] h k = absurd (omega (arith, h, k))
read_bounded_over max_bytes size body ([] ∷ chunks) h k = absurd (omega (arith, h, k))
read_bounded_over max_bytes size body ((byte ∷ bytes) ∷ chunks) h k =
    let chunk = byte ∷ bytes in
    elim (Bool-cases (ltb max_bytes (size + length chunk))) [
      | inl over ↦ rw over refl
      | inr fits ↦ rw fits (
          read_bounded_over max_bytes (size + length chunk) (body ++ chunk) chunks
            (ground (arith, fits)) (omega (arith, k, length-append chunk (content chunks))))
    ]

read_files-whole :
    (max_bytes total : ℕ) (files : List UploadFile)
    → total + total_bytes files ≤ max_bytes
    → read_files max_bytes total files ≡ ok (map whole files)
unfolding read_files
read_files-whole max_bytes total [] h = refl
read_files-whole max_bytes total (file ∷ files) h =
    let body = content file.chunks in
    let fits : ltb max_bytes (total + length body) ≡ false = ground (arith, h) in
    rw
      (
        read_bounded-whole max_bytes 0 [] file.chunks (omega (arith, h)),
        fits,
        read_files-whole max_bytes (total + length body) files (omega (arith, h)),
      )
      refl

read_files_over :
    (max_bytes total : ℕ) (files : List UploadFile)
    → total ≤ max_bytes
    → max_bytes < total + total_bytes files
    → (e : UploadError) × (read_files max_bytes total files ≡ err e) × IsTooLarge e
unfolding read_files
read_files_over max_bytes total [] h k = absurd (omega (arith, h, k))
read_files_over max_bytes total (file ∷ files) h k =
    let body = content file.chunks in
    elim (Bool-cases (ltb max_bytes (length body))) [
      | inl over ↦ (
        file_too_large,
        rw (read_bounded_over max_bytes 0 [] file.chunks (omega arith) (ground (arith, over))) refl,
        tt,
      )
      | inr small ↦
          let read = read_bounded-whole max_bytes 0 [] file.chunks (ground (arith, small)) in
          elim (Bool-cases (ltb max_bytes (total + length body))) [
            | inl over ↦ (files_too_large, rw (read, over) refl, tt)
            | inr fits ↦
                let (e, later, large) =
                  read_files_over max_bytes (total + length body) files (ground (arith, fits))
                    (omega (arith, k)) in
                (e, rw (read, fits, later) refl, large)
          ]
    ]

-- An answer to files within the bound, and to files beyond it.
abbrev pub IsBounded : ℕ → List UploadFile → Result UploadError (List UploadedImportFile) → Type 0
IsBounded max_bytes files (ok uploads) =
    (total_bytes files ≤ max_bytes) × (uploads ≡ map whole files)
IsBounded max_bytes files (err e) = (max_bytes < total_bytes files) × IsTooLarge e

-- The files of a form that has any are read whole and in their order if they have at most the
-- configured number of bytes together, however they are cut into chunks, and only then;
-- otherwise the request is refused as too large.
pub read_uploaded_files-IsBounded :
    (max_bytes : ℕ) (file : UploadFile) (files : List UploadFile)
    → IsBounded max_bytes (file ∷ files) (read_uploaded_files max_bytes (file ∷ files))
unfolding read_uploaded_files
read_uploaded_files-IsBounded max_bytes file files =
    elim (Bool-cases (ltb max_bytes (total_bytes (file ∷ files)))) [
      | inl over ↦
          let beyond : max_bytes < total_bytes (file ∷ files) = ground (arith, over) in
          let (e, refused, large) =
            read_files_over max_bytes 0 (file ∷ files) (omega arith) (omega (arith, beyond)) in
          rw refused (beyond, large)
      | inr fits ↦
          let within : total_bytes (file ∷ files) ≤ max_bytes = ground (arith, fits) in
          rw (read_files-whole max_bytes 0 (file ∷ files) (omega (arith, within))) (within, refl)
    ]
