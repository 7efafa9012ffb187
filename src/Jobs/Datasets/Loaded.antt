-- ===== src/Jobs/Datasets/Loaded.antt =====
-- What the loaded datasets guarantee (gcjobs/src/gcjobs/datasets.py).
use topografisk_gdb_api.Prelude.{
  suc, String, ◌≡◌, refl, ap, Bool, true, false, not, List, [], ◌∷◌, map, length, is_nonempty, All,
  contains, IsDistinct, ok, ◌>>◌, raise_if, or_raise, Returns, Returns-ok, Returns-bind,
  raise_if-returned,
}
use topografisk_gdb_api.Jobs.Datasets.{
  DescriptionError, duplicate_name, not_a_mapping, no_name, no_descriptions, DatasetDescription,
  DescriptionFile, directory, nonblank, described, load_files, dataset_files,
  load_dataset_descriptions,
}

abbrev pub dataset_names : List DatasetDescription → List String
dataset_names ds = map (λ (d : DatasetDescription). d.name) ds

-- Datasets under names that differ pairwise and from those seen, as many as there are files. An
-- import is enabled exactly for a dataset that a supported profile names.
pub record IsLoaded (supported seen : List String) (files : List DescriptionFile)
    (ds : List DatasetDescription) : Type 0 where
  pub distinct : IsDistinct seen (dataset_names ds)
  pub one_each : length ds ≡ length files
  pub enabled : All (λ (d : DatasetDescription). d.import_enabled ≡ contains d.name supported) ds

module _ (casefold title : String → String) where
  load_files-IsLoaded :
      (supported seen : List String) (files : List DescriptionFile)
      → Returns (IsLoaded supported seen files) (load_files casefold title supported seen files)
  unfolding load_files
  load_files-IsLoaded supported seen [] =
      Returns-ok (IsLoaded supported seen []) []
        (record { distinct = tt; one_each = refl; enabled = tt })
  load_files-IsLoaded supported seen (file ∷ files) =
      let P = IsLoaded supported seen (file ∷ files) in
      Returns-bind P (or_raise file.mapping (not_a_mapping file.file_name)) _ (λ raw _.
        Returns-bind P (or_raise (nonblank raw.name) (no_name file.file_name)) _ (λ raw_name _.
          let name = casefold raw_name in
          let later = load_files casefold title supported (name ∷ seen) files in
          Returns-bind P
            (raise_if (contains name seen) (duplicate_name file.file_name name) >> later) _
            (λ rest e.
              let (new, loaded) =
                raise_if-returned (contains name seen) (duplicate_name file.file_name name) later
                  rest e in
              let below = load_files-IsLoaded supported (name ∷ seen) files rest loaded in
              Returns-ok P (described casefold title supported name raw ∷ rest) (record {
                distinct = (new, below.distinct);
                one_each = ap suc below.one_each;
                enabled = (refl, below.enabled);
              }))))

  -- The datasets that are loaded from a directory are at least one, one for each file but the
  -- shared one, under names that differ pairwise, and imports are enabled exactly for those that a
  -- supported profile names.
  pub load_dataset_descriptions-IsLoaded :
      (profiles : List String) (files : List DescriptionFile) (ds : List DatasetDescription)
      → load_dataset_descriptions casefold title profiles (directory files) ≡ ok ds
      → IsLoaded (map casefold profiles) [] (dataset_files casefold title files) ds
        × (is_nonempty ds ≡ true)
  unfolding load_dataset_descriptions
  load_dataset_descriptions-IsLoaded profiles files =
      let supported = map casefold profiles in
      let kept = dataset_files casefold title files in
      let P =
        λ (ds : List DatasetDescription). IsLoaded supported [] kept ds × (is_nonempty ds ≡ true) in
      Returns-bind P (load_files casefold title supported [] kept) _ (λ ds loaded.
        Returns-bind P (raise_if (not (is_nonempty ds)) no_descriptions) _ (λ u some_left.
          Returns-ok P ds (
            load_files-IsLoaded supported [] kept ds loaded,
            not_raised (is_nonempty ds) no_descriptions u some_left,
          )))
    where
      not_raised :
          (b : Bool) (e : DescriptionError) (u : Unit {0}) → raise_if (not b) e ≡ ok u → b ≡ true
      not_raised true e u h = refl
      not_raised false e u h = absurd (cc h)
