-- ===== src/Registry/Tests.antt =====
-- Uploads of a registry: one accepted, one refused because the history cannot be written.
use st0x_rest_api.Prelude.{◌≡◌, refl, true, false, some, [], ◌∷◌, String, Result, ok, err}
use st0x_rest_api.ApiError.{internal}
use st0x_rest_api.Bytes.{ByteString, bytes}
use st0x_rest_api.Auth.{AdminKey}
use st0x_rest_api.Registry.{
  UploadRegistryArtifactRequest, validate_request, RegistryState, Faults, persist, insert_history,
  commit, update, upload, put_registry,
}
use st0x_rest_api.Registry.Laws.{
  IsUnchanged, IsAccepted, IsLoaded, run_uploads, put_registry-IsUnchanged, put_registry-IsAccepted,
  run_uploads-IsLoaded,
}

-- A provider that is its artifact, and a hash that is the payload.
abbrev load : ByteString → Result String ByteString
load artifact = ok artifact

abbrev sha256 : ByteString → ByteString
sha256 payload = payload

abbrev old_artifact : ByteString
old_artifact = bytes "data:text/plain;base64,b2xk"

abbrev request : UploadRegistryArtifactRequest
request = record {
  registry_artifact = bytes "data:text/plain;base64,bmV3";
  source_commit = bytes "0123456789abcdef0123456789abcdef01234567\n";
}

abbrev admin : AdminKey
admin = record {
  key = record { id = 1; key_id = bytes "root"; label = "root"; owner = "ops"; is_admin = true };
}

abbrev before : RegistryState ByteString
before = record {
  artifact = some old_artifact;
  provider = old_artifact;
  caches_valid = true;
  history = [];
}

abbrev no_faults : Faults
no_faults = record {
  reads = true;
  persists = true;
  records_failure = true;
  records_success = true;
  restores = true;
}

abbrev no_history : Faults
no_history = record no_faults { records_success = false }

accepts : (put_registry ByteString sha256 load no_faults request admin before).0 ≡ ok tt
unfolding put_registry upload validate_request update persist commit insert_history
accepts = refl

refuses :
    (put_registry ByteString sha256 load no_history request admin before).0
    ≡ err (internal "failed to persist registry history")
unfolding put_registry upload validate_request update persist commit insert_history
refuses = refl

put_registry-IsAccepted_example :
    IsAccepted ByteString sha256 load request admin before
      (put_registry ByteString sha256 load no_faults request admin before).1
put_registry-IsAccepted_example =
    put_registry-IsAccepted ByteString sha256 load no_faults request admin before accepts

put_registry-IsUnchanged_example :
    IsUnchanged ByteString sha256 load before
      (put_registry ByteString sha256 load no_history request admin before).1
put_registry-IsUnchanged_example =
    put_registry-IsUnchanged ByteString sha256 load no_history request admin before
      (internal "failed to persist registry history") refl refuses

run_uploads-IsLoaded_example : IsLoaded ByteString load (
    run_uploads ByteString sha256 load
      ((no_faults, request, admin) ∷ (no_history, request, admin) ∷ [])
      before)
run_uploads-IsLoaded_example =
    run_uploads-IsLoaded ByteString sha256 load
      ((no_faults, request, admin) ∷ (no_history, request, admin) ∷ []) before (refl, (refl, tt))
      (old_artifact, refl, refl)
