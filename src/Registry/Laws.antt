-- ===== src/Registry/Laws.antt =====
-- The stored artifact and the provider in use stay together, and the history says what happened.
use st0x_rest_api.Prelude.{
  ◌≡◌, sym, ap, ◌∙◌, inl, inr, true, false, none, some, List, [], ◌∷◌, ◌++◌, String, Result, ok,
  err, All, Result-cases, arith,
}
use st0x_rest_api.ApiError.{ApiError}
use st0x_rest_api.Bytes.{ByteString}
use st0x_rest_api.Text.{trim}
use st0x_rest_api.Auth.{AdminKey}
use st0x_rest_api.Registry.{
  UploadRegistryArtifactRequest, success, RegistryState, Faults, persist, restore, insert_history,
  history_row, reject, commit, update, upload, put_registry,
}

module _ (Provider : Type 0) (sha256 : ByteString → ByteString)
    (load : ByteString → Result String Provider) where
  -- What a request that is accepted has done.
  abbrev pub IsAccepted :
      UploadRegistryArtifactRequest
      → AdminKey
      → RegistryState Provider
      → RegistryState Provider
      → Type 0
  IsAccepted req admin s t =
      (load req.registry_artifact ≡ ok t.provider)
      × (t.artifact ≡ some req.registry_artifact)
      × (t.caches_valid ≡ false)
      × (t.history
          ≡ s.history
            ++ history_row Provider sha256 load
                (record req { source_commit = trim req.source_commit }) admin success none
              ∷ [])

  -- What a request that is refused leaves alone.
  abbrev pub IsUnchanged : RegistryState Provider → RegistryState Provider → Type 0
  IsUnchanged s t =
      (t.artifact ≡ s.artifact) × (t.provider ≡ s.provider) × (t.caches_valid ≡ s.caches_valid)

  commit-IsUnchanged :
      (faults : Faults) (req : UploadRegistryArtifactRequest) (admin : AdminKey) (p : Provider)
      (s t : RegistryState Provider) (e : ApiError)
      → faults.restores ≡ true
      → t.provider ≡ s.provider
      → t.caches_valid ≡ s.caches_valid
      → (commit Provider sha256 load faults req admin p s.artifact t).0 ≡ err e
      → IsUnchanged s (commit Provider sha256 load faults req admin p s.artifact t).1
  unfolding commit insert_history restore
  commit-IsUnchanged faults req admin p s t e restores hp hc h = ground arith

  update-IsUnchanged :
      (faults : Faults) (req : UploadRegistryArtifactRequest) (admin : AdminKey) (p : Provider)
      (s : RegistryState Provider) (e : ApiError)
      → faults.restores ≡ true
      → (update Provider sha256 load faults req admin p s).0 ≡ err e
      → IsUnchanged s (update Provider sha256 load faults req admin p s).1
  unfolding update persist commit insert_history restore
  update-IsUnchanged faults req admin p s e restores h = ground arith

  upload-IsUnchanged :
      (faults : Faults) (req : UploadRegistryArtifactRequest) (admin : AdminKey)
      (s : RegistryState Provider) (e : ApiError)
      → faults.restores ≡ true
      → (upload Provider sha256 load faults req admin s).0 ≡ err e
      → IsUnchanged s (upload Provider sha256 load faults req admin s).1
  unfolding upload reject insert_history update persist commit restore
  upload-IsUnchanged faults req admin s e restores h = ground arith

  upload-accepted :
      (faults : Faults) (req : UploadRegistryArtifactRequest) (admin : AdminKey)
      (s : RegistryState Provider)
      → (upload Provider sha256 load faults req admin s).0 ≡ ok tt
      → (load req.registry_artifact
          ≡ ok (upload Provider sha256 load faults req admin s).1.provider)
        × ((upload Provider sha256 load faults req admin s).1.artifact ≡ some req.registry_artifact)
        × ((upload Provider sha256 load faults req admin s).1.caches_valid ≡ false)
        × ((upload Provider sha256 load faults req admin s).1.history
            ≡ s.history ++ history_row Provider sha256 load req admin success none ∷ [])
  unfolding upload reject insert_history update persist commit restore
  upload-accepted faults req admin s h = ground arith

-- A refused upload leaves the artifact, the provider and the caches as they were, whatever fails
-- on the way, provided that a written artifact can be taken back.
pub put_registry-IsUnchanged :
    (Provider : Type 0) (sha256 : ByteString → ByteString)
    (load : ByteString → Result String Provider) (faults : Faults)
    (req : UploadRegistryArtifactRequest) (admin : AdminKey) (s : RegistryState Provider)
    (e : ApiError)
    → faults.restores ≡ true
    → (put_registry Provider sha256 load faults req admin s).0 ≡ err e
    → IsUnchanged Provider sha256 load s (put_registry Provider sha256 load faults req admin s).1
unfolding put_registry
put_registry-IsUnchanged Provider sha256 load faults req admin s e restores h =
    upload-IsUnchanged Provider sha256 load faults
      (record req { source_commit = trim req.source_commit }) admin s e restores h

-- An accepted upload has stored the artifact, put the provider that loads from it in use,
-- invalidated the caches and appended one row of success to the history.
pub put_registry-IsAccepted :
    (Provider : Type 0) (sha256 : ByteString → ByteString)
    (load : ByteString → Result String Provider) (faults : Faults)
    (req : UploadRegistryArtifactRequest) (admin : AdminKey) (s : RegistryState Provider)
    → (put_registry Provider sha256 load faults req admin s).0 ≡ ok tt
    → IsAccepted Provider sha256 load req admin s
        (put_registry Provider sha256 load faults req admin s).1
unfolding put_registry
put_registry-IsAccepted Provider sha256 load faults req admin s h =
    upload-accepted Provider sha256 load faults
      (record req { source_commit = trim req.source_commit }) admin s h

-- The provider in use is the stored artifact's.
abbrev pub IsLoaded :
    (Provider : Type 0) → (ByteString → Result String Provider) → RegistryState Provider → Type 0
IsLoaded Provider load s = (a : ByteString) × (s.artifact ≡ some a) × (load a ≡ ok s.provider)

-- Requests one after another, as the update lock has them.
abbrev pub run_uploads :
    (Provider : Type 0)
    → (ByteString → ByteString)
    → (ByteString → Result String Provider)
    → List (Faults × UploadRegistryArtifactRequest × AdminKey)
    → RegistryState Provider
    → RegistryState Provider
run_uploads Provider sha256 load [] s = s
run_uploads Provider sha256 load ((faults, req, admin) ∷ rest) s =
    run_uploads Provider sha256 load rest (put_registry Provider sha256 load faults req admin s).1

-- After any sequence of uploads, accepted or refused, in which every restoration succeeds, the
-- provider in use is still the stored artifact's.
pub run_uploads-IsLoaded :
    (Provider : Type 0) (sha256 : ByteString → ByteString)
    (load : ByteString → Result String Provider)
    (requests : List (Faults × UploadRegistryArtifactRequest × AdminKey))
    (s : RegistryState Provider)
    → All (λ r. (r.0).restores ≡ true) requests
    → IsLoaded Provider load s
    → IsLoaded Provider load (run_uploads Provider sha256 load requests s)
run_uploads-IsLoaded Provider sha256 load [] s h l = l
run_uploads-IsLoaded Provider sha256 load ((faults, req, admin) ∷ rest) s (h, hs) (a, here, now) =
    let t = (put_registry Provider sha256 load faults req admin s).1 in
    let next : IsLoaded Provider load t =
      elim (Result-cases (put_registry Provider sha256 load faults req admin s).0) [
        | inl (u, accepted) ↦
            let (loads, stored, _, _) =
              put_registry-IsAccepted Provider sha256 load faults req admin s accepted in
            (req.registry_artifact, stored, loads)
        | inr (e, refused) ↦
            let (stored, in_use, _) =
              put_registry-IsUnchanged Provider sha256 load faults req admin s e h refused in
            (a, stored ∙ here, now ∙ ap ok (sym in_use))
      ] in
    run_uploads-IsLoaded Provider sha256 load rest t hs next
