-- ===== src/Documents/Tests.antt =====
-- canonical_repository: the theorems at a concrete repository.
use bhiv_masterdb_ingestion.Prelude.{◌+◌, ◌*◌, ◌≡◌, refl, true, none, some, [], ◌∷◌, Key, ok}
use bhiv_masterdb_ingestion.Prelude.Dict.{get}
use bhiv_masterdb_ingestion.Documents.{
  version_history, DocumentCategory, bcab, CanonicalDocument, DocumentVersion,
  RegisterDocumentRequest, PublishVersionRequest, Store, bcaes_editor, default_policy, new_document,
  first_version, next_version, get_version, register, publish_version, get_document, updated,
}
use bhiv_masterdb_ingestion.Documents.Service.{register_document, publish_document}
use bhiv_masterdb_ingestion.Documents.Canonical.{IsCanonical}
use bhiv_masterdb_ingestion.Documents.Operations.{
  register_document-IsCanonical, publish_document-IsCanonical,
}

abbrev hash : Key → Key → Key
hash previous content = previous * 1000 + content

abbrev template : DocumentCategory → Key
template c = 70

abbrev empty : Store
empty = record { documents = []; versions = []; category_index = []; artifact_store = some [] }

empty-IsCanonical : IsCanonical hash empty
empty-IsCanonical = record {
  named = λ id d h. cc;
  indexed = λ id d h. cc;
  index_sound = λ c id h. cc;
  chained = λ id d h. cc;
}

abbrev request : RegisterDocumentRequest
request = record {
  category = bcab;
  title = 71;
  owner = 72;
  access_policy = none;
  initial_content = none;
  change_note = 73;
}

abbrev next : PublishVersionRequest
next = record { content = 75; change_note = 76; published_by = 72 }

abbrev one : Store
one = (register_document hash template empty request (bcaes_editor ∷ []) 5 100).1

one-IsCanonical : IsCanonical hash one
one-IsCanonical =
    register_document-IsCanonical hash template empty request (bcaes_editor ∷ []) 5 100
      empty-IsCanonical refl

abbrev two : Store
two = (publish_document hash template one 5 next (bcaes_editor ∷ []) 101).1

publish_document-IsCanonical_example : IsCanonical hash two
publish_document-IsCanonical_example =
    publish_document-IsCanonical hash template one 5 next (bcaes_editor ∷ []) 101 one-IsCanonical

abbrev first : DocumentVersion
first = first_version hash 5 70 73 72 100 true

abbrev second : DocumentVersion
second = next_version hash 5 first next 101

first_there : get_version one 5 1 ≡ ok first
unfolding get_version version_history register_document register
first_there = refl

second_published : (publish_document hash template one 5 next (bcaes_editor ∷ []) 101).0 ≡ ok second
unfolding publish_document register_document register publish_version get_document
second_published = refl

abbrev document : CanonicalDocument
document = updated hash (new_document hash 5 bcab 71 72 default_policy true 100) second

two_found : get 5 two.documents ≡ some document
unfolding publish_document register_document register publish_version get_document
two_found = refl
