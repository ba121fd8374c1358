-- ===== src/Rebuild/Endpoint/Safety.antt =====
-- From the text of a rebuild request of shim/src/lib.rs down to the directories.
use chroma_go_local.Base.{
  ◌≡◌, refl, sym, ◌⊎◌, inl, inr, Bool, true, false, Bool-cases, Option, none, some, ◌∷◌, Result, ok,
  err, Result-cases, subst, arith,
}
use chroma_go_local.Base.Text.{Text, text}
use chroma_go_local.Ffi.Boundary.{
  World, CharPtr, null, invalid_utf8, utf8, check_not_null, or_return, fail_with, c_ptr_to_string,
  follow, with_ffi_panic_boundary,
}
use chroma_go_local.Ffi.Embedded.{
  Called, answered, failed, panicked, parse_json_request, lock_frontend, block_on, resolved,
  serialize_with_context,
}
use chroma_go_local.Ffi.Embedded.Held.{boundary-state, serialize_with_context-state, called-held}
use chroma_go_local.Rebuild.Host.{
  RebuildHost, RebuildCollectionIdentity, EmbeddedRebuildCollectionResponse,
}
use chroma_go_local.Rebuild.Swap.{FilePath}
use chroma_go_local.Rebuild.Run.{run_rebuild_collection}
use chroma_go_local.Rebuild.Run.Laws.{RebuildLaws}
use chroma_go_local.Rebuild.Run.Kept.{Stays, Waits}
use chroma_go_local.Rebuild.Run.Outcome.{IsKept, rebuild_keeps_old}
use chroma_go_local.Rebuild.Endpoint.{
  EmbeddedRebuildCollectionPayload, RebuildCollectionRequestParts, into_rebuild_collection,
  run_request, rebuild_body, chroma_embedded_rebuild_collection,
}

module _ (h : RebuildHost) {D : Type 0} (shown : Text)
    (from_str : Text → Result EmbeddedRebuildCollectionPayload Text) (new : Text → Option D)
    (try_new : Text → D → Text → Result h.Request Text) (persist_path : Result FilePath Text)
    (to_string : EmbeddedRebuildCollectionResponse → Result Text Text) (K : h.State → Type 0)
    (w : World h.State) (now : K w.state) (request_json : CharPtr)
    (runs : (t : Text) (p : EmbeddedRebuildCollectionPayload)
        (parts : RebuildCollectionRequestParts h.Request) (path : FilePath)
      → request_json ≡ utf8 t
      → from_str t ≡ ok p
      → into_rebuild_collection new try_new p ≡ ok parts
      → persist_path ≡ ok path
      → K
          (run_rebuild_collection h path parts.request parts.precheck parts.keep_backup
            w.state).1) where
  settled-held :
      (r : Called EmbeddedRebuildCollectionResponse × h.State)
      → K r.1
      → K
          (follow (resolved (text "rebuild collection failed: ") none w r) λ response.
            serialize_with_context
              (to_string response)
              (text "rebuild collection completed but failed to serialize response")).1.state
  unfolding resolved fail_with
  settled-held (answered a, s) k = subst K (sym (serialize_with_context-state (to_string a) _ _)) k
  settled-held (failed e, s) k = k
  settled-held (panicked p, s) k = k

  body-held :
      (is_null : Bool) (t : CharPtr)
      → request_json ≡ t
      → K (rebuild_body h shown from_str new try_new persist_path to_string is_null t w).1.state
  unfolding rebuild_body run_request check_not_null parse_json_request or_return fail_with
      lock_frontend block_on c_ptr_to_string
  body-held true p same = now
  body-held false null same = now
  body-held false invalid_utf8 same = now
  body-held false (utf8 t) same = elim (Result-cases (from_str t)) [
    | inr (e, bad) ↦ rw (bad, rebuild_body) now
    | inl (p, good) ↦ elim (Result-cases (into_rebuild_collection new try_new p)) [
      | inr (e, bad) ↦ rw (good, bad, rebuild_body) now
      | inl (parts, made) ↦ elim (Bool-cases w.poisoned) [
        | inl locked ↦ rw (good, made, locked, rebuild_body) now
        | inr free ↦ elim (Result-cases persist_path) [
          | inr (e, bad) ↦ rw (good, made, free, bad, rebuild_body, run_request) now
          | inl (path, there) ↦
              rw (good, made, free, there, rebuild_body, run_request)
                (settled-held _ (called-held K _ (runs t p parts path same good made there)))
        ]
      ]
    ]
  ]

  rebuild_collection-held :
      (is_null : Bool)
      → K
          (chroma_embedded_rebuild_collection h shown from_str new try_new persist_path to_string
            is_null request_json w).1.state
  unfolding chroma_embedded_rebuild_collection with_ffi_panic_boundary
  rebuild_collection-held is_null =
      subst K (sym (boundary-state none w _)) (body-held is_null request_json refl)

module _ (h : RebuildHost) (laws : RebuildLaws h) (name : Text) (dir : FilePath)
    (old : Option laws.Tree) where
  -- The old tree is in the index directory, or under the name of a backup.
  abbrev pub IsSafe : h.State → Type 0
  IsSafe s = Stays h laws name dir true old s ⊎ Waits h laws name dir true old s

  kept-IsSafe :
      (keep_backup : Bool) (r : Result EmbeddedRebuildCollectionResponse Text × h.State)
      → keep_backup ≡ true
      → IsKept h laws name dir keep_backup old r
      → IsSafe r.1
  kept-IsSafe false r e v = let bad : ⊥ = cc e in absurd bad
  kept-IsSafe true (ok a, s) e (inl v) = inl v.1
  kept-IsSafe true (ok a, s) e (inr v) = inr (v.1 refl)
  kept-IsSafe true (err m, s) e (inl v) = inl v
  kept-IsSafe true (err m, s) e (inr (inl v)) = inr v.1
  kept-IsSafe true (err m, s) e (inr (inr v)) = inr (v.1 refl)

  module _ {D : Type 0} (new : Text → Option D)
      (try_new : Text → D → Text → Result h.Request Text) where
    keeps_backup :
        (p : EmbeddedRebuildCollectionPayload) (parts : RebuildCollectionRequestParts h.Request)
        → into_rebuild_collection new try_new p ≡ ok parts
        → ¬ (p.keep_backup ≡ some false)
        → parts.keep_backup ≡ true
    unfolding into_rebuild_collection
    keeps_backup p parts made asked = ground arith

    -- Unless the request turns the backup off, the endpoint that rebuilds an index does not lose the
    -- one that was there: afterwards this stands in its directory or under the name of a backup, for
    -- every handle, text of a request and outcome. The handle's path is the directory of the
    -- indexes, the vector segment of the collection that the request finds, if it finds one, has the
    -- given id, and each call of the host touches only the directory that it works in, with renames
    -- that move a tree or change nothing.
    pub rebuild_collection-IsSafe :
        (shown : Text) (from_str : Text → Result EmbeddedRebuildCollectionPayload Text)
        (to_string : EmbeddedRebuildCollectionResponse → Result Text Text) (is_null : Bool)
        (request_json : CharPtr) (w : World h.State)
        → ((t : Text) (p : EmbeddedRebuildCollectionPayload)
            → request_json ≡ utf8 t
            → from_str t ≡ ok p
            → ¬ (p.keep_backup ≡ some false))
        → ((t : Text) (p : EmbeddedRebuildCollectionPayload)
              (parts : RebuildCollectionRequestParts h.Request)
              (identity : RebuildCollectionIdentity) (id : h.CollectionUuid) (s₁ s₂ : h.State)
              (segments : h.Segments)
            → request_json ≡ utf8 t
            → from_str t ≡ ok p
            → into_rebuild_collection new try_new p ≡ ok parts
            → h.get_collection parts.request w.state ≡ (ok (identity, id), s₁)
            → h.get_collection_with_segments id s₁ ≡ (ok segments, s₂)
            → h.vector_segment_id segments ≡ name)
        → laws.at w.state (name ∷ dir) ≡ old
        → IsSafe
            (chroma_embedded_rebuild_collection h shown from_str new try_new
              (ok dir)
              to_string
              is_null
              request_json
              w).1.state
    rebuild_collection-IsSafe shown from_str to_string is_null request_json w asked named stands =
        rebuild_collection-held h shown from_str new try_new (ok dir) to_string IsSafe w
          (inl stands) request_json
          (λ t p parts path here read made there.
            let same : dir ≡ path = cc there in
            kept-IsSafe parts.keep_backup _ (keeps_backup p parts made (asked t p here read)) (
              subst
                (λ d. IsKept h laws name dir parts.keep_backup old (
                  run_rebuild_collection h d parts.request parts.precheck parts.keep_backup
                    w.state))
                same
                (rebuild_keeps_old h laws name dir parts.keep_backup old parts.request
                  parts.precheck w.state
                  (λ identity id s₁ s₂ segments.
                    named t p parts identity id s₁ s₂ segments here read made)
                  stands)))
          is_null
