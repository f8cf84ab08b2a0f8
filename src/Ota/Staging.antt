-- ===== src/Ota/Staging.antt =====
-- The request of `_cmd_update_firmware` of novena_gateway/gateway/rpc_handler.py, its signed manifest and
-- the files it stages.
use Prim.Native.String.{◌++◌ as append}
use novena_gateway.Common.{
  String, Bool, not, ◌||◌, Option, List, Result, ok, err, ◌>>=◌, ◌>>◌, raise_if,
}
use novena_gateway.Common.Int.{ℤ}
use novena_gateway.Json.{Value, str, get, is_dict, truthy, Fault}
use novena_gateway.Ota.{
  Bytes, Host, OtaError, not_object, untrusted_key, invalid_key, not_base64, or_reject, lift,
  is_trusted, verify_manifest,
}
use novena_gateway.Ota.Archive.{
  FilePath, ArchiveError, Member, resolve_child_path, safe_release_dir,
}
use novena_gateway.Ota.Steps.{UpdateError, insecure_bypass, missing_manifest, unresolved, fault}

-- An answer of urllib: an exception before the body, one while the body is read, or the body.
pub data Download : Type 0 where
  refused interrupted : Download
  body : Bytes → Download

-- The configuration, with its defaults filled in, and what the host answers. `tar_members` is none where
-- tarfile raises, and `run_upgrade` none where the helper's result is ok, else its stderr.
pub record Env : Type 0 where
  pub host : Host
  pub gateway_version : String
  pub keys : List String
  pub now : ℤ
  pub update_dir : String
  pub install_dir : String
  pub resolve : String → FilePath
  pub resolve_in : FilePath → String → FilePath
  pub download : String → Download
  pub sha256_file : Bytes → String
  pub tar_members : Bytes → Option (List Member)
  pub run_upgrade : FilePath → String → FilePath → Option String
  pub is_nt : Bool

abbrev of_fault {ℓ} : {A : Type ℓ} → Result Fault A → Result UpdateError A
of_fault (ok a) = ok a
of_fault (err e) = err (fault e)

abbrev of_path {ℓ} : {A : Type ℓ} → Result ArchiveError A → Result UpdateError A
of_path (ok a) = ok a
of_path (err e) = err (unresolved e)

-- The manifest and the signature of a request.
unfoldable pub read_params : Value → Result UpdateError (Value × Value)
read_params params = do
  allow_insecure ← of_fault (get params "allow_insecure")
  raise_if (truthy allow_insecure) insecure_bypass
  manifest ← of_fault (get params "manifest")
  signature ← of_fault (get params "signature")
  raise_if (not (truthy manifest) || not (truthy signature)) missing_manifest
  ok (manifest, signature)

abbrev pub archive_name : String → String
archive_name version = append "firmware_" (append version ".tar.gz")

module _ (g : Env) where
  -- `verify_manifest` up to the decoding of a signature that is no text.
  unfoldable pub refuse_signature : Value → Result OtaError (String × String)
  refuse_signature manifest = do
    raise_if (not (is_dict manifest)) not_object
    key_id ← lift (get manifest "key_id")
    trusted ← lift (is_trusted key_id g.keys)
    raise_if (not trusted) untrusted_key
    verify ← or_reject g.host.verify invalid_key
    err not_base64

  unfoldable pub verified : Value → Value → Result OtaError (String × String)
  unfolding refuse_signature
  verified manifest (str s) = verify_manifest g.host g.gateway_version g.keys g.now manifest s
  verified manifest _ = refuse_signature manifest

  -- The archive's and the manifest's file in the staging folder, after the test of the release's folder.
  unfoldable pub staging_paths : String → Result UpdateError (FilePath × FilePath)
  staging_paths version = do
    release ←
        of_path
          (safe_release_dir g.resolve g.resolve_in g.install_dir (append "novena-gateway-" version))
    dest_tar ←
        of_path (resolve_child_path g.resolve g.resolve_in g.update_dir (archive_name version))
    manifest_path ← of_path (
        resolve_child_path g.resolve g.resolve_in g.update_dir
          (append "manifest_" (append version ".json")))
    ok (dest_tar, manifest_path)
