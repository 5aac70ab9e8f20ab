-- ===== src/Sqs/Batch.antt =====
-- core/internal/resources/sqs: what the batch calls share (application/service.go,
-- contracts/message.go).
use mildstack.Prelude.{String, ◌==◌, Bool, true, false, ◌||◌, List, [], ◌∷◌, if◌then◌else◌, trim}
use mildstack.Sqs.Service.{Error}

-- The text of an error is the error here.
pub record BatchResultErrorEntry : Type 0 where
  pub code : String
  pub id : String
  pub message : Error
  pub sender_fault : Bool

unfoldable pub batch_failure_entry_with_code :
    String → String → Error → Bool → BatchResultErrorEntry
batch_failure_entry_with_code id code message sender_fault = record {
  code = if trim code == "" then "InvalidParameterValue" else trim code;
  id = trim id;
  message = message;
  sender_fault = sender_fault;
}

unfoldable pub contains : String → List String → Bool
contains id [] = false
contains id (x ∷ xs) = x == id || contains id xs

-- `hasDuplicateBatchEntryIDsByID`: an entry with no identifier is passed over.
unfoldable pub has_duplicates : List String → List String → Bool
unfolding contains
has_duplicates seen [] = false
has_duplicates seen (raw ∷ rest) =
    let id = trim raw in
    let later = has_duplicates (if id == "" then seen else id ∷ seen) rest in
    if id == "" then later else if contains id seen then true else later

unfoldable pub has_duplicate_batch_entry_ids : List String → Bool
unfolding has_duplicates
has_duplicate_batch_entry_ids ids = has_duplicates [] ids
