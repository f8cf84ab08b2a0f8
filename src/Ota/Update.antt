-- ===== src/Ota/Update.antt =====
-- `_cmd_update_firmware` of novena_gateway/gateway/rpc_handler.py, with its effects in order. The files
-- and the folder can be written, the directory is made before, and a status that cannot be published is
-- dropped there as it is here.
pub mod Checks
pub mod Launched
pub mod Unreported
use novena_gateway.Common.{
  ℕ, String, Bool, true, false, Option, none, some, List, [], ◌∷◌, length, str_eq, if◌then◌else◌,
  Result, ok, err, value_or,
}
use novena_gateway.Common.Int.{pos}
use novena_gateway.Json.{Value, null, str, number, get, eq_value, Fault}
use novena_gateway.Ota.{Bytes, OtaError, fault as fault_of}
use novena_gateway.Ota.Archive.{FilePath, ArchiveError, Member, validate_tarball}
use novena_gateway.Ota.Steps.{
  UpdateError, rejected, download_failed, size_mismatch, checksum_mismatch, unsafe_archive,
  unreadable_archive, name_error, helper_failed, fault, Event, status, staged, removed, saved,
  launched, Steps, after, emit, ◌>>=◌, ◌>>◌,
}
use novena_gateway.Ota.Staging.{
  Download, refused, interrupted, body, Env, read_params, verified, staging_paths,
}

-- `_publish_ota_status`
abbrev pub publish_ota_status : String → Option String → Option UpdateError → Steps (Unit {0})
publish_ota_status s version error = emit (status s version error)

abbrev pub done : Steps (Unit {0})
done = ([], ok tt)

-- An exception that is no `OtaSecurityError`.
abbrev pub built_in : OtaError → Option Fault
built_in (fault_of e) = some e
built_in _ = none

-- `except OtaSecurityError`: other exceptions pass.
unfoldable pub reject : OtaError → Option Fault → Steps (String × String)
reject e (some f) = ([], err (fault f))
reject e none = (status "failed" none (some (rejected e)) ∷ [], err (rejected e))

unfoldable pub check_manifest : Result OtaError (String × String) → Steps (String × String)
unfolding reject
check_manifest (ok r) = ([], ok r)
check_manifest (err e) = reject e (built_in e)

-- A text that `verify_manifest` has found in the manifest.
abbrev pub text_of : Value → String
text_of (str s) = s
text_of _ = ""

unfoldable pub write_download : FilePath → Download → Steps Bytes
write_download dest_tar refused = ([], err download_failed)
write_download dest_tar interrupted = (staged dest_tar [] ∷ [], err download_failed)
write_download dest_tar (body b) = (staged dest_tar b ∷ [], ok b)

-- The end of a check that fails: the archive goes, and the failure is published.
unfoldable pub discard : FilePath → String → UpdateError → Steps (Unit {0})
discard dest_tar version e =
    (removed dest_tar ∷ status "failed" (some version) (some e) ∷ [], err e)

unfoldable pub check_size : FilePath → String → Value → Bytes → Steps (Unit {0})
unfolding discard
check_size dest_tar version expected_size b =
    if eq_value (number (pos (length b))) expected_size
    then done
    else discard dest_tar version size_mismatch

unfoldable pub validated : FilePath → String → Result ArchiveError (Unit {0}) → Steps (Unit {0})
unfolding discard
validated dest_tar version (ok u) = done
validated dest_tar version (err e) = discard dest_tar version (unsafe_archive e)

unfoldable pub check_archive : FilePath → String → Option (List Member) → Steps (Unit {0})
unfolding validated
check_archive dest_tar version none = ([], err unreadable_archive)
check_archive dest_tar version (some members) =
    validated dest_tar version (validate_tarball members)

unfoldable pub helped : String → Option String → Steps String
helped version none = ([], ok version)
helped version (some stderr) =
    (status "failed" (some version) (some (helper_failed stderr)) ∷ [], err (helper_failed stderr))

module _ (g : Env) where
  unfoldable pub check_digest : FilePath → String → String → Bytes → Steps (Unit {0})
  unfolding discard
  check_digest dest_tar version expected b =
      if str_eq (g.host.lower_text (g.sha256_file b)) (g.host.lower_text expected)
      then done
      else discard dest_tar version checksum_mismatch

  -- The branch of Windows names a variable that nothing defines.
  unfoldable pub launch : FilePath → FilePath → String → Steps String
  unfolding helped
  launch dest_tar manifest_path version = if g.is_nt then ([], err name_error) else (do
    publish_ota_status "restarting" (some version) none
    emit (launched dest_tar version manifest_path)
    helped version (g.run_upgrade dest_tar version manifest_path))

  -- From the download on.
  unfoldable pub install : Value → String → String → FilePath × FilePath → Steps String
  unfolding write_download check_size check_digest check_archive launch
  install manifest version digest (dest_tar, manifest_path) = do
    publish_ota_status "downloading" (some version) none
    b ← write_download dest_tar (g.download (text_of (value_or (get manifest "artifact_url") null)))
    check_size dest_tar version (value_or (get manifest "size_bytes") null) b
    check_digest dest_tar version digest b
    check_archive dest_tar version (g.tar_members b)
    emit (saved manifest_path manifest version digest)
    publish_ota_status "verified" (some version) none
    launch dest_tar manifest_path version

  unfoldable pub stage : Value → String × String → Steps String
  unfolding install staging_paths
  stage manifest (version, digest) = do
    publish_ota_status "accepted" (some version) none
    paths ← ([], staging_paths g version)
    install manifest version digest paths

  -- `_cmd_update_firmware`
  unfoldable pub update_firmware : Value → Steps String
  unfolding read_params verified check_manifest stage
  update_firmware params = do
    (manifest, signature) ← ([], read_params params)
    trusted ← check_manifest (verified g manifest signature)
    stage manifest trusted
