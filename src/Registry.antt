-- ===== src/Registry.antt =====
-- src/routes/admin.rs and src/registry_artifact.rs: the admin's upload of a registry. The state is
-- the stored artifact, the provider in use, the caches and the history of uploads.
pub mod Laws
mod Tests
use st0x_rest_api.Prelude.{
  ℕ, Bool, true, false, ◌&&◌, ◌||◌, not, Option, none, some, List, [], ◌∷◌, ◌++◌, String, leb, ◌==◌,
  if◌then◌else◌, length, all, is_empty, Result, ok, err, ◌>>=◌, ◌>>◌, guard,
}
use st0x_rest_api.ApiError.{ApiError, internal, bad_request}
use st0x_rest_api.Bytes.{ByteString, bytes}
use st0x_rest_api.Text.{trim, starts_with}
use st0x_rest_api.Auth.{AdminKey}

pub record UploadRegistryArtifactRequest : Type 0 where
  pub registry_artifact : ByteString
  pub source_commit : ByteString

abbrev is_ascii_hexdigit : ℕ → Bool
is_ascii_hexdigit b =
    (leb b'0' b && leb b b'9') || (leb b'a' b && leb b b'f') || (leb b'A' b && leb b b'F')

-- A commit with a character outside of ASCII fails the second test, in bytes and in code points.
unfoldable pub validate_request : UploadRegistryArtifactRequest → Result ApiError (Unit {0})
validate_request req = do
  guard (not (is_empty req.registry_artifact)) (bad_request "registry_artifact must not be empty")
  guard (starts_with (bytes "data:text/plain;base64,") req.registry_artifact)
      (bad_request "registry_artifact must be a data:text/plain;base64 URI")
  guard (not (is_empty req.source_commit)) (bad_request "source_commit must not be empty")
  guard (length req.source_commit == 40 && all is_ascii_hexdigit req.source_commit)
      (bad_request "source_commit must be a 40-character hexadecimal commit SHA")

pub data ValidationStatus : Type 0 where
  failed_validation success : ValidationStatus

-- A row of the private registry's history; the key that acts is one field.
pub record HistoryRow : Type 0 where
  pub source_commit : ByteString
  pub payload_sha256 : ByteString
  pub actor : AdminKey
  pub validation_status : ValidationStatus
  pub validation_error : Option String

-- `Provider` is the raindex client's, loaded from an artifact.
pub record RegistryState (Provider : Type 0) : Type 0 where
  pub artifact : Option ByteString
  pub provider : Provider
  pub caches_valid : Bool
  pub history : List HistoryRow

-- What the file system and the database do with one request: whether each call succeeds. The
-- first history row is that of a failed validation, the second that of a success.
pub record Faults : Type 0 where
  pub reads : Bool
  pub persists : Bool
  pub records_failure : Bool
  pub records_success : Bool
  pub restores : Bool

module _ (Provider : Type 0) (sha256 : ByteString → ByteString)
    (load : ByteString → Result String Provider) where
  -- The file is renamed into its place, so that a failed write leaves the old one.
  unfoldable pub persist :
      Bool → ByteString → RegistryState Provider → Option (RegistryState Provider)
  persist false artifact s = none
  persist true artifact s = some (record s { artifact = some artifact })

  unfoldable pub restore :
      Bool → Option ByteString → RegistryState Provider → RegistryState Provider
  restore false previous s = s
  restore true previous s = record s { artifact = previous }

  unfoldable pub insert_history :
      Bool → HistoryRow → RegistryState Provider → Option (RegistryState Provider)
  insert_history false row s = none
  insert_history true row s = some (record s { history = s.history ++ row ∷ [] })

  unfoldable pub history_row :
      UploadRegistryArtifactRequest → AdminKey → ValidationStatus → Option String → HistoryRow
  history_row req admin status validation_error = record {
    source_commit = req.source_commit;
    payload_sha256 = sha256 req.registry_artifact;
    actor = admin;
    validation_status = status;
    validation_error = validation_error;
  }

  abbrev Answer : Type 0
  Answer = Result ApiError (Unit {0}) × RegistryState Provider

  -- The failure of the provider's load.
  unfoldable pub reject :
      Faults → UploadRegistryArtifactRequest → AdminKey → String → RegistryState Provider → Answer
  reject faults req admin e s =
      elim (insert_history faults.records_failure (history_row req admin failed_validation (some e))
        s) [
          | none ↦ (err (internal "failed to persist registry history"), s)
          | some s' ↦ (err (bad_request "failed to validate registry artifact"), s')
        ]

  -- After the artifact has been written: the history, or the restoration.
  unfoldable pub commit :
      Faults
      → UploadRegistryArtifactRequest
      → AdminKey
      → Provider
      → Option ByteString
      → RegistryState Provider
      → Answer
  commit faults req admin new_provider previous s =
      elim (insert_history faults.records_success (history_row req admin success none) s) [
        | none ↦ (
          err (internal "failed to persist registry history"),
          restore faults.restores previous s,
        )
        | some s' ↦ (ok tt, record s' { provider = new_provider; caches_valid = false })
      ]

  -- Under the update lock.
  unfoldable pub update :
      Faults → UploadRegistryArtifactRequest → AdminKey → Provider → RegistryState Provider → Answer
  update faults req admin new_provider s =
      if faults.reads
      then (elim (persist faults.persists req.registry_artifact s) [
        | none ↦ (err (internal "failed to persist registry artifact"), s)
        | some s' ↦ commit faults req admin new_provider s.artifact s'
      ])
      else (err (internal "failed to persist registry artifact"), s)

  unfoldable pub upload :
      Faults → UploadRegistryArtifactRequest → AdminKey → RegistryState Provider → Answer
  upload faults req admin s = elim (validate_request req) [
    | err e ↦ (err e, s)
    | ok u ↦ elim (load req.registry_artifact) [
      | err e ↦ reject faults req admin e s
      | ok new_provider ↦ update faults req admin new_provider s
    ]
  ]

  unfoldable pub put_registry :
      Faults → UploadRegistryArtifactRequest → AdminKey → RegistryState Provider → Answer
  put_registry faults req admin s =
      upload faults (record req { source_commit = trim req.source_commit }) admin s
