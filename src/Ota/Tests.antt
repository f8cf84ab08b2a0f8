-- ===== src/Ota/Tests.antt =====
-- An update at concrete inputs: what is accepted, what is launched and what is refused.
use novena_gateway.Common.{
  ◌≡◌, refl, true, false, none, some, List, [], ◌∷◌, ◌++◌, str_eq, ok, err, any, if◌then◌else◌,
}
use novena_gateway.Common.Int.{pos, ◌-ℤ◌}
use novena_gateway.Json.{
  Value, str, obj, number, end, field, get_or, get_field, eq_value, parse_int,
}
use novena_gateway.Modbus.Range.{split}
use novena_gateway.Ota.{
  Host, is_trusted, check_signature, check_url, check_sha256, check_size as check_size_bytes,
  check_channel, check_window, parse_iso_datetime, normalised_version, version_tuple,
  validate_compatibility, check_minimum, check_maximum, parse_numbers, ltb_tuple, verify_manifest,
}
use novena_gateway.Ota.Archive.{
  Member, Part, unsafe_path, kept, parts, is_absolute, is_world_writable, validate_member,
  validate_tarball, commonpath, eq_path, child_of, resolve_child_path, safe_release_dir,
}
use novena_gateway.Ota.Archive.Contained.{AllContained, validate_tarball-Contained}
use novena_gateway.Ota.Steps.{download_failed, is_launched}
use novena_gateway.Ota.Staging.{interrupted, body, Env, read_params, verified, staging_paths}
use novena_gateway.Ota.Update.{
  check_manifest, write_download, discard, check_size, check_digest, validated, check_archive,
  helped, launch, install, stage, update_firmware,
}
use novena_gateway.Ota.Update.Unreported.{Silent, failed_download-Silent}
use novena_gateway.Ota.Update.Launched.{Launched, update_firmware-Launched}

abbrev host : Host
host = record {
  verify = some (λ signature body. true);
  b64decode = λ s. some (1 ∷ []);
  canonical_manifest_bytes = λ v. 2 ∷ [];
  parse_time = λ s. if str_eq s "issued" then some (pos 100) else some (pos 200);
  urlparse = λ s. ("https", some "vendor");
  is_version = λ s. true;
  is_sha256 = λ s. true;
  lower_text = λ s. s;
}

abbrev manifest : Value
manifest = obj (
    field "key_id" (str "novena-ota-v1") (
      field "version" (str "1.2.3") (
        field "artifact_url" (str "https://vendor/a") (
          field "artifact_sha256" (str "ab") (
            field "size_bytes" (number (pos 9)) (
              field "channel" (str "stable") (
                field "issued_at" (str "issued") (
                  field "expires_at" (str "expires")
                    (field "minimum_gateway_version" (str "1.2.0") end)))))))))

manifest_accepted :
    verify_manifest host "1.3.0" ("novena-ota-v1" ∷ []) (pos 150) manifest "sig"
    ≡ ok ("1.2.3", "ab")
unfolding verify_manifest is_trusted check_signature check_url check_sha256 check_size_bytes
    check_channel check_window parse_iso_datetime normalised_version version_tuple
    validate_compatibility check_minimum check_maximum parse_numbers ltb_tuple split parse_int
    get_or get_field eq_value ◌-ℤ◌
manifest_accepted = refl

abbrev app : Member
app = record {
  name = "./app/main.py";
  is_sym = false;
  is_lnk = false;
  is_dev = false;
  is_fifo = false;
  mode = 420;
}

abbrev outside : Member
outside = record app { name = "app/../../etc/passwd" }

app_accepted : validate_tarball (app ∷ []) ≡ ok tt
unfolding validate_tarball validate_member is_absolute parts kept split is_world_writable
app_accepted = refl

outside_refused : validate_tarball (app ∷ outside ∷ []) ≡ err unsafe_path
unfolding validate_tarball validate_member is_absolute parts kept split is_world_writable
outside_refused = refl

abbrev release_folder : List Part
release_folder = (1 ∷ []) ∷ []

validate_tarball-Contained_example : AllContained release_folder (app ∷ [])
validate_tarball-Contained_example =
    validate_tarball-Contained release_folder (app ∷ []) app_accepted

abbrev env : List Member → Env
env members = record {
  host = host;
  gateway_version = "1.3.0";
  keys = "novena-ota-v1" ∷ [];
  now = pos 150;
  update_dir = "/updates";
  install_dir = "/opt";
  resolve = λ s. s ∷ [];
  resolve_in = λ p s. p ++ s ∷ [];
  download = λ url. body (1 ∷ 2 ∷ 3 ∷ 4 ∷ 5 ∷ 6 ∷ 7 ∷ 8 ∷ 9 ∷ []);
  sha256_file = λ b. "ab";
  tar_members = λ b. some members;
  run_upgrade = λ p version m. none;
  is_nt = false;
}

abbrev request : Value
request = obj (field "manifest" manifest (field "signature" (str "sig") end))

app_launched : any is_launched (update_firmware (env (app ∷ [])) request).0 ≡ true
unfolding update_firmware read_params verified check_manifest stage staging_paths safe_release_dir
    resolve_child_path child_of commonpath eq_path install write_download check_size check_digest
    check_archive validated discard launch helped get_or get_field eq_value validate_tarball
    validate_member is_absolute parts kept split is_world_writable
app_launched = rw manifest_accepted refl

update_firmware-Launched_example : Launched (env (app ∷ [])) request release_folder
update_firmware-Launched_example =
    update_firmware-Launched (env (app ∷ [])) request release_folder app_launched

abbrev unreachable : Env
unreachable = record (env []) { download = λ url. interrupted }

unreachable_fails : (update_firmware unreachable request).1 ≡ err download_failed
unfolding update_firmware read_params verified check_manifest stage staging_paths safe_release_dir
    resolve_child_path child_of commonpath eq_path install write_download get_or get_field
unreachable_fails = rw manifest_accepted refl

failed_download-Silent_example : Silent (update_firmware unreachable request).0
failed_download-Silent_example = failed_download-Silent unreachable request unreachable_fails
