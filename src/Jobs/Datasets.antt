-- ===== src/Jobs/Datasets.antt =====
-- gcjobs/src/gcjobs/datasets.py: the datasets that the job service offers. `str.casefold` and
-- `str.title` are parameters, and so is what a directory holds.
pub mod Loaded
use Prim.Native.Char.{code}
use Prim.Native.String
use topografisk_gdb_api.Prelude.{
  String, Bool, true, false, not, ◌||◌, Option, none, some, List, [], ◌∷◌, map, ◌==◌, eqb,
  if◌then◌else◌, is_nonempty, keep, contains, Result, ok, err, ◌>>=◌, ◌>>◌, raise_if, or_raise,
}
use topografisk_gdb_api.Prelude.Text.{strip, is_empty}

-- `DescriptionError`, by its message.
pub data DescriptionError : Type 0 where
  no_directory not_a_directory no_descriptions : DescriptionError
  not_a_mapping no_name : String → DescriptionError
  duplicate_name : String → String → DescriptionError

pub record DatasetDescription : Type 0 where
  pub name : String
  pub title : String
  pub description : String
  pub import_enabled : Bool

-- The keys that are read of a mapping: `none` where the value is missing or no text.
pub record RawDataset : Type 0 where
  pub name : Option String
  pub title : Option String
  pub description : Option String

-- A YAML file of the directory: its name, and its mapping, `none` where it holds none.
pub record DescriptionFile : Type 0 where
  pub file_name : String
  pub mapping : Option RawDataset

-- What the path names; the files of a directory are in the order of their paths.
pub data Directory : Type 0 where
  missing plain_file : Directory
  directory : List DescriptionFile → Directory

-- The stripped text of a text that is not blank.
abbrev pub nonblank : Option String → Option String
nonblank none = none
nonblank (some s) = if is_empty (strip s) then none else some (strip s)

-- `name.replace("_", " ")`
unfoldable pub spaced : String → String
spaced String.[] = ""
spaced (String.◌∷◌ c s) =
    let rest = spaced s in if eqb (code c) b'_' then String.◌∷◌ " " rest else String.◌∷◌ c rest

module _ (casefold title : String → String) where
  -- `_default_title`
  unfoldable pub default_title : String → String
  unfolding spaced
  default_title name = title (spaced name)

  abbrev pub text_or_blank : Option String → String
  text_or_blank none = ""
  text_or_blank (some s) = strip s

  abbrev pub described : List String → String → RawDataset → DatasetDescription
  described supported name raw = record {
    name = name;
    title = elim (nonblank raw.title) [ none ↦ default_title name | some t ↦ t ];
    description = text_or_blank raw.description;
    import_enabled = contains name supported;
  }

  -- The loop over the files, with the names that were seen.
  unfoldable pub load_files :
      List String
      → List String
      → List DescriptionFile
      → Result DescriptionError (List DatasetDescription)
  load_files supported seen [] = ok []
  load_files supported seen (file ∷ files) =
      or_raise file.mapping (not_a_mapping file.file_name) >>= λ raw.
      or_raise (nonblank raw.name) (no_name file.file_name) >>= λ raw_name.
      let name = casefold raw_name in
      raise_if (contains name seen) (duplicate_name file.file_name name)
      >> load_files supported (name ∷ seen) files
      >>= λ rest. ok (described supported name raw ∷ rest)

  abbrev pub dataset_files : List DescriptionFile → List DescriptionFile
  dataset_files files = keep (λ (f : DescriptionFile). not (f.file_name == "commons.yaml")) files

  -- `load_dataset_descriptions`
  unfoldable pub load_dataset_descriptions :
      List String → Directory → Result DescriptionError (List DatasetDescription)
  load_dataset_descriptions profiles missing = err no_directory
  load_dataset_descriptions profiles plain_file = err not_a_directory
  load_dataset_descriptions profiles (directory files) =
      load_files (map casefold profiles) [] (dataset_files files) >>= λ datasets.
      raise_if (not (is_nonempty datasets)) no_descriptions >> ok datasets
