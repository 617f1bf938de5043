-- ===== src/Stats/Authority/Registry/Shown.antt =====
-- Which owner stats/authority/list.go shows for a proposer after the owners' file has been read.
use thorflux.Base.{
  ℕ, String, ◌≡◌, refl, sym, ap, ◌∙◌, Bool, true, false, Option, none, some, List, [], ◌∷◌, ◌++◌,
  ◌==◌, if◌then◌else◌,
}
use thorflux.Chain.{Result, ok}
use thorflux.Stats.Authority.{Owner, CandidateList, add_owners, owners_of, refresh_owners_list}
use thorflux.Stats.Authority.Points.{find_owner, name_and_contact, owner_and_contact}
use thorflux.Stats.Authority.Registry.{
  owner_in_row, append_owner, owners_in_rows, owners_in_sheet, parse_owners,
}

abbrev pub owner_if : ℕ → Option Owner → Option Owner
owner_if a none = none
owner_if a (some o) = if o.master_address == a then some o else none

abbrev pub or_else : Option Owner → Option Owner → Option Owner
or_else none o = o
or_else (some p) o = some p

-- The owner in the last row that has an owner with the master address `a`.
abbrev pub last_for : (String → Result ℕ) → ℕ → List (List String) → Option Owner
last_for parse_address a [] = none
last_for parse_address a (row ∷ rows) =
    or_else (last_for parse_address a rows) (owner_if a (owner_in_row parse_address row))

-- The last owner of three.
or_else_assoc : (p q r : Option Owner) → or_else (or_else p q) r ≡ or_else p (or_else q r)
or_else_assoc none q r = refl
or_else_assoc (some p) q r = refl

add_owners-append :
    (m : List (ℕ × Owner)) (os : List Owner) (o : Owner)
    → add_owners m (os ++ o ∷ []) ≡ (o.master_address, o) ∷ add_owners m os
unfolding add_owners
add_owners-append m [] o = refl
add_owners-append m (p ∷ os) o = add_owners-append ((p.master_address, p) ∷ m) os o

find_owner-row :
    (a : ℕ) (m : List (ℕ × Owner)) (os : List Owner) (o : Option Owner)
    → find_owner a (add_owners m (append_owner os o))
      ≡ or_else (owner_if a o) (find_owner a (add_owners m os))
unfolding append_owner find_owner
find_owner-row a m os none = refl
find_owner-row a m os (some o) = rw (add_owners-append m os o) (by_test (o.master_address == a))
  where
    by_test :
        (b : Bool)
        → (if b then some o else find_owner a (add_owners m os))
          ≡ or_else (if b then some o else none) (find_owner a (add_owners m os))
    by_test true = refl
    by_test false = refl

find_owner-rows :
    (parse_address : String → Result ℕ) (a : ℕ) (m : List (ℕ × Owner)) (os : List Owner)
    (rows : List (List String))
    → find_owner a (add_owners m (owners_in_rows parse_address os rows))
      ≡ or_else (last_for parse_address a rows) (find_owner a (add_owners m os))
unfolding owners_in_rows
find_owner-rows parse_address a m os [] = refl
find_owner-rows parse_address a m os (row ∷ rows) =
    find_owner-rows parse_address a m (append_owner os (owner_in_row parse_address row)) rows
    ∙ ap (or_else (last_for parse_address a rows))
        (find_owner-row a m os (owner_in_row parse_address row))
    ∙ sym (
        or_else_assoc (last_for parse_address a rows) (owner_if a (owner_in_row parse_address row))
          (find_owner a (add_owners m os)))

-- If the owners' file can be read and its sheet is `header ∷ rows`, then the owner and the contact
-- shown for a proposer after a refresh are those of the last well-formed row with its address; if
-- there is none, the ones shown before.
pub refresh_owners_list-last :
    (parse_address : String → Result ℕ) {Path' File : Type 0} (path : Path') (file : File)
    (open_file : Path' → Result File) (get_rows : File → Result (List (List String)))
    (header : List String) (rows : List (List String)) (l : CandidateList) (proposer : ℕ)
    → open_file path ≡ ok file
    → get_rows file ≡ ok (header ∷ rows)
    → owner_and_contact proposer
        (refresh_owners_list true (parse_owners parse_address (ok path) open_file get_rows) l)
      ≡ name_and_contact
          (or_else (last_for parse_address proposer rows) (find_owner proposer l.owners))
unfolding owner_and_contact refresh_owners_list owners_of parse_owners owners_in_sheet add_owners
refresh_owners_list-last parse_address path file open_file get_rows header rows l proposer h k =
    simp (h, k) (ap name_and_contact (find_owner-rows parse_address proposer l.owners [] rows))
