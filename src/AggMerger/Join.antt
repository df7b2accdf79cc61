-- ===== src/AggMerger/Join.antt =====
-- agg_merger.cpp, `main`: the work is split, each worker writes its part, and the parts are joined.
use out_of_book.Prelude.{List, [], ◌∷◌, ◌++◌, Option, none, some}
use out_of_book.Spill.{SpillRecord}
use out_of_book.AggMerger.Ranges.{
  FileRange, Split, ok, no_files, first_empty, out_of_range, split_work,
}
use out_of_book.AggMerger.Worker.{merge_worker}

-- The workers' outputs one behind the other.
unfoldable pub join : List (List FileRange) → List (List SpillRecord) → Option (List SpillRecord)
join [] files = some []
join (split ∷ splits) files = elim (merge_worker split files) [
  | none ↦ none
  | some part ↦ elim (join splits files) [ none ↦ none | some parts ↦ some (part ++ parts) ]
]

-- The output file, given the aggregates.
unfoldable pub merge_files : List (List SpillRecord) → Split (List SpillRecord)
merge_files files = elim (split_work files) [
  | ok splits ↦ elim (join splits files) [ none ↦ out_of_range | some out ↦ ok out ]
  | no_files ↦ no_files
  | first_empty ↦ first_empty
  | out_of_range ↦ out_of_range
]
