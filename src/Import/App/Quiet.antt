-- ===== src/Import/App/Quiet.antt =====
-- The parts of a request that publish nothing where they raise nothing
-- (gcimport/src/gcimport/app.py).
use topografisk_gdb_api.Prelude.{
  String, ◌≡◌, refl, Bool, true, false, Option, none, some, List, [], ◌∷◌, ◌++◌, if◌then◌else◌,
  Result, ok, err,
}
use topografisk_gdb_api.Jobs.Event.{ImportEvent}
use topografisk_gdb_api.Import.Json.{Json}
use topografisk_gdb_api.Import.Profile.{ImportProfile}
use topografisk_gdb_api.Import.Geometry.{Failure, invalid, proj_error, missing_key, index_error}
use topografisk_gdb_api.Import.Feature.{PreparedFeature}
use topografisk_gdb_api.Import.Convert.{ConversionError}
use topografisk_gdb_api.Import.App.Uploads.{UploadedImportFile}
use topografisk_gdb_api.Import.App.{
  Services, loaded, load_import_document, is_key_error, converted, checked, has_suffix,
  prepare_import_features, prepare_uploads,
}
use topografisk_gdb_api.Import.App.Answer.{ImportError, Ran, after, and_then}

abbrev pub IsQuiet : {A : Type 0} → Ran A → Type 0
IsQuiet {A} m = (a : A) → m.outcome ≡ ok a → m.events ≡ []

module _ {A B : Type 0} where
  after_returned :
      (events : List ImportEvent) (o : Result ImportError A) (f : A → Ran B) (b : B)
      → (after events o f).outcome ≡ ok b
      → (a : A) × (o ≡ ok a)
        × ((f a).outcome ≡ ok b)
        × ((after events o f).events ≡ events ++ (f a).events)
  after_returned events (ok a) f b h = (a, refl, h, refl)
  after_returned events (err e) f b h = absurd (cc h)

  -- A result comes from both steps, and the events are those of both.
  pub and_then-returned :
      (m : Ran A) (f : A → Ran B) (b : B)
      → (and_then m f).outcome ≡ ok b
      → (a : A) × (m.outcome ≡ ok a)
        × ((f a).outcome ≡ ok b)
        × ((and_then m f).events ≡ m.events ++ (f a).events)
  and_then-returned m f b h = after_returned m.events m.outcome f b h

  and_then-IsQuiet :
      (m : Ran A) (f : A → Ran B) → IsQuiet m → ((a : A) → IsQuiet (f a)) → IsQuiet (and_then m f)
  and_then-IsQuiet m f h k b returned' =
      let (a, first, second, events) = and_then-returned m f b returned' in
      rw (events, h a first) (k a b second)

if-IsQuiet :
    {A : Type 0} (c : Bool) (m n : Ran A) → IsQuiet m → IsQuiet n → IsQuiet (if c then m else n)
if-IsQuiet true m n h k = h
if-IsQuiet false m n h k = k

module _ {N : Type 0} (k : Services N) where
  loaded-IsQuiet : (base : ImportEvent) (o : Option (Json N)) → IsQuiet (loaded k base o)
  loaded-IsQuiet base (some document) a h = refl
  loaded-IsQuiet base none a h = absurd (cc h)

  converted-IsQuiet :
      (base : ImportEvent) (r : Result ConversionError (Json N)) → IsQuiet (converted k base r)
  converted-IsQuiet base (ok document) = λ a h. refl
  converted-IsQuiet base (err e) =
      if-IsQuiet (is_key_error k e) _ _ (λ a h. refl) (λ a h. absurd (cc h))

  checked-IsQuiet :
      (base : ImportEvent) (r : Result Failure (List (PreparedFeature N)))
      → IsQuiet (checked k base r)
  checked-IsQuiet base (ok features) a h = refl
  checked-IsQuiet base (err (invalid ps)) a h = absurd (cc h)
  checked-IsQuiet base (err proj_error) a h = refl
  checked-IsQuiet base (err (missing_key name)) a h = refl
  checked-IsQuiet base (err index_error) a h = refl

  prepare_import_features-IsQuiet :
      (profile : ImportProfile N) (base : ImportEvent) (filename : Option String)
      (document : Json N)
      → IsQuiet (prepare_import_features k profile base filename document)
  unfolding prepare_import_features
  prepare_import_features-IsQuiet profile base filename document =
      and_then-IsQuiet _ _
        (if-IsQuiet (has_suffix k ".geojson" filename) _ _ (converted-IsQuiet base _) (λ a h. refl))
        (λ normalized. checked-IsQuiet base _)

  -- Uploads that are prepared publish nothing on the way.
  pub prepare_uploads-IsQuiet :
      (profile : ImportProfile N) (base : ImportEvent) (uploads : List UploadedImportFile)
      → IsQuiet (prepare_uploads k profile base uploads)
  unfolding prepare_uploads load_import_document
  prepare_uploads-IsQuiet profile base [] = λ a h. refl
  prepare_uploads-IsQuiet profile base (upload ∷ uploads) =
      and_then-IsQuiet _ _ (loaded-IsQuiet base (k.loads upload.body)) (λ document.
        and_then-IsQuiet _ _ (prepare_import_features-IsQuiet profile base upload.filename document)
          (λ features.
            and_then-IsQuiet _ _ (prepare_uploads-IsQuiet profile base uploads) (λ rest a h. refl)))
