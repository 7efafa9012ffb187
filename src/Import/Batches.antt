-- ===== src/Import/Batches.antt =====
-- Upserting prepared features in batches (`import_features` of gcimport/src/gcimport/importer.py).
-- What the upstream service answers to one batch is a parameter, and so is `uuid.UUID` on a text.
pub mod Chunks
pub mod Accounting
pub mod Sized
use topografisk_gdb_api.Prelude.{
  ℕ, zero, suc, ◌+◌, String, Bool, true, false, ◌&&◌, ◌||◌, not, Option, none, some, List, [], ◌∷◌,
  ◌++◌, map, ◌==◌, if◌then◌else◌, eqb, length, set, take, drop, replicate, Result, ok, err, ◌>>=◌,
  ◌>>◌, raise_if, or_raise, any_of, leb, ltb,
}
use topografisk_gdb_api.Prelude.Dict
use topografisk_gdb_api.Prelude.Dict.{Dict}
use topografisk_gdb_api.Import.Json.{Json, Items, Fields, as_object, as_array, as_text, get_field}
use topografisk_gdb_api.Import.Feature.{PreparedFeature}

-- `UpstreamImportError`, and the message that it gives for a reason.
pub data Reason : Type 0 where
  request_failed endpoint_unavailable bad_status invalid_json wrong_count wrong_id : Reason

pub record UpstreamImportError : Type 0 where
  pub collection : String
  pub feature_id : String
  pub reason : Reason

-- A response: its status code and its body, `none` where it is no JSON.
pub record Response (N : Type 0) : Type 0 where
  pub status_code : ℕ
  pub body : Option (Json N)

-- A batch event of `on_batch`.
pub data BatchEvent : Type 0 where
  succeeded : String → ℕ → List String → BatchEvent
  failed : String → String → ℕ → Reason → BatchEvent

pub record Imported : Type 0 where
  pub collection : String
  pub id : String

abbrev pub Indexed : Type 0 → Type 0
Indexed N = ℕ × PreparedFeature N

-- `_chunked`, on the rounds of its `range`: for a positive size, as many as there are items are
-- enough.
unfoldable pub chunked_rounds {ℓ} : {A : Type ℓ} → ℕ → ℕ → List A → List (List A)
chunked_rounds zero size items = []
chunked_rounds (suc rounds) size [] = []
chunked_rounds (suc rounds) size (x ∷ items) =
    take size (x ∷ items) ∷ chunked_rounds rounds size (drop size (x ∷ items))

unfoldable pub chunked {ℓ} : {A : Type ℓ} → List A → ℕ → List (List A)
unfolding chunked_rounds
chunked items size = chunked_rounds (length items) size items

abbrev pub is_unavailable : ℕ → Bool
is_unavailable s = eqb s 404 || eqb s 405 || eqb s 415 || eqb s 501

abbrev pub is_success : ℕ → Bool
is_success s = leb 200 s && ltb s 300

-- The service's answer to a batch of a collection.
abbrev pub Upstream : Type 0 → Type 0
Upstream N = String → List (Fields N) → Option (Response N)

-- The slots of `context.imported` and the events of `on_batch`, so far.
pub record Progress : Type 0 where
  pub imported : List (Option Imported)
  pub events : List BatchEvent

module _ {N : Type 0} where
  -- `indexed_features.setdefault(feature.collection, []).append((index, feature))`
  unfoldable pub append_to : String → Indexed N → Dict (List (Indexed N)) → Dict (List (Indexed N))
  append_to key item [] = (key, item ∷ []) ∷ []
  append_to key item ((other, items) ∷ d) =
      if other == key
      then (other, items ++ item ∷ []) ∷ d
      else (other, items) ∷ append_to key item d

  unfoldable pub group_features :
      ℕ → List (PreparedFeature N) → Dict (List (Indexed N)) → Dict (List (Indexed N))
  unfolding append_to
  group_features index [] d = d
  group_features index (feature ∷ features) d =
      group_features (suc index) features (append_to feature.collection (index, feature) d)

  -- The exception that a failed batch raises: it names the batch's first feature.
  abbrev pub batch_error {ℓ} :
      {A : Type ℓ} → PreparedFeature N → Reason → Result UpstreamImportError A
  batch_error first reason =
      err (record { collection = first.collection; feature_id = first.feature_id; reason = reason })

  -- `response_body.get("features") if isinstance(response_body, dict) else None`, as an array.
  abbrev pub returned_items : Json N → Option (List (Json N))
  returned_items body = elim (as_object body) [
    | none ↦ none
    | some fields ↦ as_array (get_field "features" fields)
  ]

  abbrev pub geojson_of : List (Indexed N) → List (Fields N)
  geojson_of [] = []
  geojson_of ((i, feature) ∷ rest) = feature.geojson ∷ geojson_of rest

  abbrev pub ids_of : List (Indexed N) → List String
  ids_of [] = []
  ids_of ((i, feature) ∷ rest) = feature.feature_id ∷ ids_of rest

  -- `context.imported[index] = …` for each feature of the chunk.
  unfoldable pub fill_slots :
      List (Indexed N) → List String → List (Option Imported) → List (Option Imported)
  fill_slots [] ids slots = slots
  fill_slots ((i, feature) ∷ features) [] slots = slots
  fill_slots ((i, feature) ∷ features) (id ∷ ids) slots =
      fill_slots features ids
        (set slots i (some (record { collection = feature.collection; id = id })))

  -- The chunks of every collection, in the order of the dictionary.
  unfoldable pub all_chunks : Dict (List (Indexed N)) → ℕ → List (List (Indexed N))
  all_chunks [] size = []
  all_chunks ((key, items) ∷ d) size = chunked items size ++ all_chunks d size

module _ {N : Type 0} (parse_uuid : String → Option String) where
  -- `_parse_upstream_id`: the canonical text of the UUID.
  unfoldable pub parse_upstream_id : PreparedFeature N → Json N → Result UpstreamImportError String
  parse_upstream_id feature item = elim (as_object item) [
    | none ↦ batch_error feature wrong_id
    | some fields ↦ elim (as_text (get_field "id" fields)) [
      | none ↦ batch_error feature wrong_id
      | some id ↦ elim (parse_uuid id) [ none ↦ batch_error feature wrong_id | some uuid ↦ ok uuid ]
    ]
  ]

  -- `zip(indexed_features, items, strict=True)`, on lists of one length.
  unfoldable pub parse_ids :
      List (Indexed N) → List (Json N) → Result UpstreamImportError (List String)
  unfolding parse_upstream_id
  parse_ids [] items = ok []
  parse_ids ((i, feature) ∷ features) [] = ok []
  parse_ids ((i, feature) ∷ features) (item ∷ items) =
      parse_upstream_id feature item >>= λ id. parse_ids features items >>= λ ids. ok (id ∷ ids)

  -- What follows once the status of the response is a success.
  unfoldable pub parse_body :
      PreparedFeature N
      → List (Indexed N)
      → Option (Json N)
      → Result UpstreamImportError (List String)
  unfolding parse_ids
  parse_body first chunk none = batch_error first invalid_json
  parse_body first chunk (some body) = elim (returned_items body) [
    | none ↦ batch_error first wrong_count
    | some items ↦
        if eqb (length items) (length chunk)
        then parse_ids chunk items
        else batch_error first wrong_count
  ]

  -- `_import_feature_batch`, on the response to the batch: `none` where the request failed.
  unfoldable pub read_response :
      PreparedFeature N
      → List (Indexed N)
      → Option (Response N)
      → Result UpstreamImportError (List String)
  unfolding parse_body
  read_response first chunk none = batch_error first request_failed
  read_response first chunk (some response) =
      if is_unavailable response.status_code
      then batch_error first endpoint_unavailable
      else if not (is_success response.status_code)
      then batch_error first bad_status
      else parse_body first chunk response.body

  -- `_import_chunk`: the progress comes back beside an error too, since the event is published.
  unfoldable pub import_chunk :
      Upstream N
      → PreparedFeature N
      → List (Indexed N)
      → Progress
      → Result UpstreamImportError (Unit {0}) × Progress
  unfolding read_response fill_slots
  import_chunk upstream first chunk p =
      elim (read_response first chunk (upstream first.collection (geojson_of chunk))) [
        | err e ↦ (
          err e,
          record p {
            events = p.events ++ failed e.collection e.feature_id (length chunk) e.reason ∷ [];
          },
        )
        | ok ids ↦ (
          ok tt,
          record {
            imported = fill_slots chunk ids p.imported;
            events = p.events ++ succeeded first.collection (length chunk) (ids_of chunk) ∷ [];
          },
        )
      ]

  -- The loop over the chunks of all collections; the first failure ends it.
  unfoldable pub import_chunks :
      Upstream N
      → List (List (Indexed N))
      → Progress
      → Result UpstreamImportError (Unit {0}) × Progress
  unfolding import_chunk
  import_chunks upstream [] p = (ok tt, p)
  import_chunks upstream ([] ∷ chunks) p = import_chunks upstream chunks p
  import_chunks upstream (((i, feature) ∷ rest) ∷ chunks) p =
      let (r, p') = import_chunk upstream feature ((i, feature) ∷ rest) p in
      elim r [ err e ↦ (err e, p') | ok _ ↦ import_chunks upstream chunks p' ]

  -- `import_features`
  unfoldable pub import_features :
      Upstream N → List (PreparedFeature N) → ℕ → Result UpstreamImportError (Unit {0}) × Progress
  unfolding import_chunks all_chunks group_features chunked
  import_features upstream features size =
      import_chunks upstream (all_chunks (group_features 0 features []) size)
        (record { imported = replicate (length features) none; events = [] })
