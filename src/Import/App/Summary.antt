-- ===== src/Import/App/Summary.antt =====
-- The summary of SOSI uploads (`_aggregate_sosi_summaries` of gcimport/src/gcimport/app.py).
use topografisk_gdb_api.Prelude.{ℕ, ◌+◌, String, Bool, false, ◌||◌, Option, List, [], ◌∷◌, ◌++◌}
use topografisk_gdb_api.Prelude.Dict.{Dict}
use topografisk_gdb_api.Import.Sosi.{SosiStats, count_up}

-- What `_aggregate_sosi_summaries` returns.
pub record SosiSummary : Type 0 where
  pub total_files : ℕ
  pub has_header : Bool
  pub has_footer : Bool
  pub total_objects : ℕ
  pub coordinate_records : ℕ
  pub object_types : Dict ℕ
  pub objtypes : Dict ℕ
  pub coordinate_attribute_counts : Dict ℕ
  pub files : List (Option String × SosiStats)

-- `Counter.update`
unfoldable pub add_counts : Dict ℕ → Dict ℕ → Dict ℕ
unfolding count_up
add_counts [] d = d
add_counts ((key, n) ∷ more) d = add_counts more (count_up key n d)

-- `_aggregate_sosi_summaries`, over the summaries that are left.
unfoldable pub aggregate : List (Option String × SosiStats) → SosiSummary → SosiSummary
unfolding add_counts
aggregate [] s = s
aggregate ((filename, stats) ∷ rest) s = aggregate rest (record {
  total_files = s.total_files + 1;
  has_header = s.has_header || stats.has_header;
  has_footer = s.has_footer || stats.has_footer;
  total_objects = s.total_objects + stats.total_objects;
  coordinate_records = s.coordinate_records + stats.coordinate_records;
  object_types = add_counts stats.object_types s.object_types;
  objtypes = add_counts stats.objtypes s.objtypes;
  coordinate_attribute_counts =
      add_counts stats.coordinate_attribute_counts s.coordinate_attribute_counts;
  files = s.files ++ (filename, stats) ∷ [];
})

abbrev pub no_summary : SosiSummary
no_summary = record {
  total_files = 0;
  has_header = false;
  has_footer = false;
  total_objects = 0;
  coordinate_records = 0;
  object_types = [];
  objtypes = [];
  coordinate_attribute_counts = [];
  files = [];
}
