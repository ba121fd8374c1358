-- ===== src/Ffi/RecordEndpoints.antt =====
-- The record endpoints of shim/src/lib.rs but the counts and the deletion: each is the shared body with its
-- payload, request, frontend call and label.
use chroma_go_local.Base.{ℕ, Bool, Option, List, Result}
use chroma_go_local.Base.Int.{ℤ}
use chroma_go_local.Base.Text.{Text, text}
use chroma_go_local.Ffi.Boundary.{World, CharPtr}
use chroma_go_local.Ffi.Embedded.{Call, code_endpoint, json_endpoint}
use chroma_go_local.Ffi.Requests.{
  EmbeddedAddPayload, EmbeddedUpdatePayload, EmbeddedUpsertPayload, EmbeddedGetPayload,
  EmbeddedQueryPayload, EmbeddedIndexingStatusPayload, NewRecords, into_add, into_update,
  into_upsert, into_get, into_query, into_indexing_status,
}

module _ {S U Q A : Type 0} (parse_id : Text → Result U Text) where
  module _ {F M : Type 0} where
    unfoldable pub chroma_embedded_add :
        (Text → Result (EmbeddedAddPayload F M) Text)
        → NewRecords U (List (List F)) M Q
        → (Q → Call S A)
        → Bool
        → CharPtr
        → World S
        → ℤ × World S
    chroma_embedded_add from_str try_new add =
        code_endpoint (text "add failed: ") from_str (into_add parse_id try_new) add

    unfoldable pub chroma_embedded_update :
        (Text → Result (EmbeddedUpdatePayload F M) Text)
        → NewRecords U (Option (List (Option (List F)))) M Q
        → (Q → Call S A)
        → Bool
        → CharPtr
        → World S
        → ℤ × World S
    chroma_embedded_update from_str try_new update =
        code_endpoint (text "update records failed: ") from_str (into_update parse_id try_new)
          update

    unfoldable pub chroma_embedded_upsert :
        (Text → Result (EmbeddedUpsertPayload F M) Text)
        → NewRecords U (List (List F)) M Q
        → (Q → Call S A)
        → Bool
        → CharPtr
        → World S
        → ℤ × World S
    chroma_embedded_upsert from_str try_new upsert =
        code_endpoint (text "upsert records failed: ") from_str (into_upsert parse_id try_new)
          upsert

  module _ {V W I : Type 0} (null_value : V) (parse : V → V → Result (Option W) Text)
      (try_from : List Text → Result I Text) (default : I) where
    unfoldable pub chroma_embedded_get :
        (Text → Result (EmbeddedGetPayload V) Text)
        → (Text → Text → U → Option (List Text) → Option W → Option ℕ → ℕ → I → Result Q Text)
        → (Q → Call S A)
        → (A → Result Text Text)
        → Bool
        → CharPtr
        → World S
        → Option Text × World S
    chroma_embedded_get from_str try_new get =
        json_endpoint (text "get records failed: ") from_str
          (into_get parse_id null_value parse try_from default try_new) get

    unfoldable pub chroma_embedded_query :
        {F : Type 0}
        → (Text → Result (EmbeddedQueryPayload F V) Text)
        → (Text → Text → U → Option (List Text) → Option W → List (List F) → ℕ → I → Result Q Text)
        → (Q → Call S A)
        → (A → Result Text Text)
        → Bool
        → CharPtr
        → World S
        → Option Text × World S
    chroma_embedded_query from_str try_new query =
        json_endpoint (text "query failed: ") from_str
          (into_query parse_id null_value parse try_from default try_new) query

-- The request is the database's name and the collection's id.
unfoldable pub chroma_embedded_indexing_status :
    {S D U A : Type 0}
    → (Text → Result EmbeddedIndexingStatusPayload Text)
    → (Text → Option D)
    → (Text → Result U Text)
    → (D × U → Call S A)
    → (A → Result Text Text)
    → Bool
    → CharPtr
    → World S
    → Option Text × World S
chroma_embedded_indexing_status from_str new parse_id indexing_status =
    json_endpoint (text "indexing status failed: ") from_str (into_indexing_status parse_id new)
      indexing_status
