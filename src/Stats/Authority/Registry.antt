-- ===== src/Stats/Authority/Registry.antt =====
-- `ParseOwnersFromXLSX` of excel/excel_helper.go. The clone of the repository, the spreadsheet library
-- and `thor.ParseAddress` are parameters.
pub mod Shown
use thorflux.Base.{ℕ, String, Option, none, some, List, [], ◌∷◌, ◌++◌}
use thorflux.Chain.{Error, failure, Result, ok, err, ◌>>=◌, wrap}
use thorflux.Stats.Authority.{Owner}

abbrev pub owner_with_master : (network name contact : String) → Result ℕ → Option Owner
owner_with_master network name contact (err e) = none
owner_with_master network name contact (ok master) =
    some (record {
      master_address = master;
      name = name;
      point_of_contact = contact;
      network = network;
    })

unfoldable pub append_owner : List Owner → Option Owner → List Owner
append_owner owners none = owners
append_owner owners (some o) = owners ++ o ∷ []

module _ (parse_address : String → Result ℕ) where
  -- A row is left out if it has less than five columns or no master address.
  unfoldable pub owner_in_row : List String → Option Owner
  owner_in_row [] = none
  owner_in_row (a ∷ []) = none
  owner_in_row (a ∷ b ∷ []) = none
  owner_in_row (a ∷ b ∷ c ∷ []) = none
  owner_in_row (a ∷ b ∷ c ∷ d ∷ []) = none
  owner_in_row (a ∷ network ∷ master ∷ name ∷ contact ∷ more) =
      owner_with_master network name contact (parse_address master)

  -- The loop over the rows behind the first.
  unfoldable pub owners_in_rows : List Owner → List (List String) → List Owner
  unfolding owner_in_row append_owner
  owners_in_rows owners [] = owners
  owners_in_rows owners (row ∷ rows) = owners_in_rows (append_owner owners (owner_in_row row)) rows

  unfoldable pub owners_in_sheet : List (List String) → Result (List Owner)
  unfolding owners_in_rows
  owners_in_sheet [] = err (failure "empty sheet")
  owners_in_sheet (header ∷ rows) = ok (owners_in_rows [] rows)

  -- `download` is what `DownloadRegistry` returns, the path of the file.
  unfoldable pub parse_owners :
      {Path' File : Type 0} (download : Result Path') (open_file : Path' → Result File)
      (get_rows : File → Result (List (List String)))
      → Result (List Owner)
  unfolding owners_in_sheet
  parse_owners download open_file get_rows = do
    path ← wrap "failed to create temp dir" download
    file ← wrap "failed to open file" (open_file path)
    rows ← wrap "failed to get rows" (get_rows file)
    owners_in_sheet rows

-- `DownloadRegistry`, over making the directories and the clone; the last is a path below the first.
unfoldable pub download_registry :
    {Directory File : Type 0} (make_temp : Result Directory)
    (make_all : Directory → Result Directory) (clone : Directory → Result Directory)
    (in_directory : Directory → File)
    → Result File
download_registry make_temp make_all clone in_directory = do
  temp ← wrap "failed to create temp directory" make_temp
  made ← wrap "failed to create download directory" (make_all temp)
  cloned ← wrap "failed to clone repository" (clone temp)
  ok (in_directory temp)
