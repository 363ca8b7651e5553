-- ===== src/Shard/Entry/Spec.antt =====
-- What an insertion promises, over the value that the key had: the status that the caller sees, and
-- the value that the key has afterwards.
use candystore.Base.{Bool, true, false, Option, none, some, ◌≡◌, refl, if◌then◌else◌}
use candystore.Base.Bytes.{Bytes, bytes_eq}
use candystore.Shard.Entry.{
  InsertStatus, added, replaced, key_does_not_exist, split_needed, already_exists, InsertMode, set,
  replace, get_or_create,
}

abbrev pub spec_status : InsertMode → Option Bytes → InsertStatus
spec_status set none = added
spec_status set (some old) = replaced old
spec_status (replace expected) none = key_does_not_exist
spec_status (replace none) (some old) = replaced old
spec_status (replace (some e)) (some old) =
    if bytes_eq e old then replaced old else already_exists old
spec_status get_or_create none = added
spec_status get_or_create (some old) = already_exists old

abbrev pub spec_value : InsertMode → Bytes → Option Bytes → Option Bytes
spec_value set val old = some val
spec_value (replace expected) val none = none
spec_value (replace none) val (some old) = some val
spec_value (replace (some e)) val (some old) = if bytes_eq e old then some val else some old
spec_value get_or_create val none = some val
spec_value get_or_create val (some old) = some old

-- a row without a free cell takes no new key
abbrev pub row_status : Bool → InsertMode → Option Bytes → InsertStatus
row_status true set none = split_needed
row_status true get_or_create none = split_needed
row_status full mode old = spec_status mode old

abbrev pub row_value : Bool → InsertMode → Bytes → Option Bytes → Option Bytes
row_value true set val none = none
row_value true get_or_create val none = none
row_value full mode val old = spec_value mode val old

-- A full row matters only to a key that is not there, and then all that creates is refused.
module _ (full : Bool) (val : Bytes) where
  pub row-some :
      (mode : InsertMode) (old : Bytes)
      → (row_status full mode (some old) ≡ spec_status mode (some old))
        × (row_value full mode val (some old) ≡ spec_value mode val (some old))
  row-some mode old = split full mode
    where
      split :
          (f : Bool) (mode' : InsertMode)
          → (row_status f mode' (some old) ≡ spec_status mode' (some old))
            × (row_value f mode' val (some old) ≡ spec_value mode' val (some old))
      split true set = (refl, refl)
      split true (replace e) = (refl, refl)
      split true get_or_create = (refl, refl)
      split false mode' = (refl, refl)

  pub row-get_or_create :
      (row_status full get_or_create none ≡ row_status full set none)
      × (row_value full get_or_create val none ≡ row_value full set val none)
  row-get_or_create = split full
    where
      split :
          (f : Bool)
          → (row_status f get_or_create none ≡ row_status f set none)
            × (row_value f get_or_create val none ≡ row_value f set val none)
      split true = (refl, refl)
      split false = (refl, refl)

  pub row-replace :
      (e : Option Bytes)
      → (row_status full (replace e) none ≡ key_does_not_exist)
        × (row_value full (replace e) val none ≡ none)
  row-replace e = split full
    where
      split :
          (f : Bool)
          → (row_status f (replace e) none ≡ key_does_not_exist)
            × (row_value f (replace e) val none ≡ none)
      split true = (refl, refl)
      split false = (refl, refl)
