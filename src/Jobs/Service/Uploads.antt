-- ===== src/Jobs/Service/Uploads.antt =====
-- Bounded uploads and queued imports (`_read_bounded_request_body`, `queue_import_request` and
-- `proxy_import` of gcjobs/src/gcjobs/service.py).
use topografisk_gdb_api.Prelude.{
  ℕ, ◌+◌, ◌≤◌, ltb, String, ◌≡◌, refl, ◌||◌, Option, List, [], ◌∷◌, ◌++◌, arith, if◌then◌else◌,
  length, length-append, ok, err, Bool-cases, inl, inr,
}
use mathlib.Core.List.{append-nil, append_assoc}
use topografisk_gdb_api.Prelude.Int.{ℤ}
use topografisk_gdb_api.Jobs.Service.{
  declared_content_length, too_large, exceeds, read_chunks, read_bounded_request_body,
}

-- The whole body: `b"".join(chunks)` of every chunk that the stream yields.
abbrev pub join : List (List ℕ) → List ℕ
join [] = []
join (chunk ∷ stream) = chunk ++ join stream

read_chunks-eq :
    (max_bytes total : ℕ) (chunks : List ℕ) (stream : List (List ℕ))
    → total ≤ max_bytes
    → read_chunks max_bytes total chunks stream ≡ (
        if ltb max_bytes (total + length (join stream))
        then err too_large
        else ok (chunks ++ join stream))
unfolding read_chunks
read_chunks-eq max_bytes total chunks [] h = rw append-nil (ground arith)
read_chunks-eq max_bytes total chunks (chunk ∷ stream) h =
    elim (Bool-cases (ltb max_bytes (total + length chunk))) [
      | inl over ↦ rw (over, length-append chunk (join stream)) (ground arith)
      | inr fits ↦
          rw
            (
              fits,
              read_chunks-eq max_bytes (total + length chunk) (chunks ++ chunk) stream
                  (ground arith),
              append_assoc,
              length-append chunk (join stream),
            )
            (ground arith)
    ]

-- An upload is read whole exactly if neither its declared nor its actual length exceeds the bound;
-- otherwise the answer is 413, whatever the chunks.
pub read_bounded_request_body-eq :
    (parse_int : String → Option ℤ) (header : Option String) (stream : List (List ℕ))
    (max_bytes : ℕ)
    → read_bounded_request_body parse_int header stream max_bytes ≡ (
        if exceeds (declared_content_length parse_int header) max_bytes
          || ltb max_bytes (length (join stream))
        then err too_large
        else ok (join stream))
unfolding read_bounded_request_body
read_bounded_request_body-eq parse_int header stream max_bytes =
    elim (Bool-cases (exceeds (declared_content_length parse_int header) max_bytes)) [
      | inl declared ↦ rw declared refl
      | inr small ↦ rw (small, read_chunks-eq max_bytes 0 [] stream (omega arith)) (ground arith)
    ]
