-- ===== src/Ota/Update/Unreported.antt =====
-- How an update ends whose download fails.
use novena_gateway.Common.{
  String, ◌≡◌, ◌≢◌, refl, Bool, true, false, ◌⊎◌, inl, inr, Option, none, some, List, [], any,
  arith, str_eq, Result, ok, err, value_or,
}
use novena_gateway.Json.{Value, null, get, Fault}
use novena_gateway.Ota.{Bytes, OtaError}
use novena_gateway.Ota.Archive.{FilePath, Member, ArchiveError, validate_tarball}
use novena_gateway.Ota.Steps.{UpdateError, download_failed, Event, status, Steps, after}
use novena_gateway.Ota.Staging.{
  Download, refused, interrupted, body, Env, read_params, verified, staging_paths,
}
use novena_gateway.Ota.Update.{
  reject, built_in, check_manifest, text_of, write_download, discard, check_size, check_digest,
  validated, check_archive, helped, launch, install, stage, update_firmware,
}

-- The publication of a status.
abbrev pub has_status : String → Event → Bool
has_status s (status t version e) = str_eq t s
has_status s _ = false

err_after {ℓ κ} :
    {A : Type ℓ} {B : Type κ} (es : List Event) (r : Result UpdateError A) (next : A → Steps B)
    {e : UpdateError}
    → (after es r next).1 ≡ err e
    → (r ≡ err e) ⊎ ((a : A) × (r ≡ ok a) × ((next a).1 ≡ err e))
err_after es (err e) next h = inl cc
err_after es (ok a) next h = inr (a, refl, h)

read_params-other : (params : Value) → read_params params ≢ err download_failed
unfolding read_params
read_params-other params h = ground arith

reject-other : (e : OtaError) (o : Option Fault) → (reject e o).1 ≢ err download_failed
unfolding reject
reject-other e none h = cc
reject-other e (some f) h = cc

check_manifest-other :
    (r : Result OtaError (String × String)) → (check_manifest r).1 ≢ err download_failed
unfolding check_manifest
check_manifest-other (ok x) h = cc
check_manifest-other (err e) h = reject-other e (built_in e) h

validated-other :
    (p : FilePath) (version : String) (r : Result ArchiveError (Unit {0}))
    → (validated p version r).1 ≢ err download_failed
unfolding validated discard
validated-other p version (ok u) h = cc
validated-other p version (err e) h = cc

check_archive-other :
    (p : FilePath) (version : String) (o : Option (List Member))
    → (check_archive p version o).1 ≢ err download_failed
unfolding check_archive
check_archive-other p version none h = cc
check_archive-other p version (some ms) h = validated-other p version (validate_tarball ms) h

helped-other : (version : String) (o : Option String) → (helped version o).1 ≢ err download_failed
unfolding helped
helped-other version none h = cc
helped-other version (some e) h = cc

module _ (g : Env) where
  staging_paths-other : (version : String) → staging_paths g version ≢ err download_failed
  unfolding staging_paths
  staging_paths-other version h = ground arith

  launch-other :
      (p m : FilePath) (version : String) → (launch g p m version).1 ≢ err download_failed
  unfolding launch
  launch-other p m version h = ground (arith, helped-other version (g.run_upgrade p version m))

-- Events that tell of a download and of no failure.
pub record Silent (es : List Event) : Type 0 where
  pub begun : any (has_status "downloading") es ≡ true
  pub unreported : any (has_status "failed") es ≡ false

download-events :
    (s : String) (p : FilePath) (d : Download) → any (has_status s) (write_download p d).0 ≡ false
unfolding write_download
download-events s p refused = refl
download-events s p interrupted = refl
download-events s p (body b) = refl

reject-events :
    (e : OtaError) (o : Option Fault) {x : String × String}
    → (reject e o).1 ≡ ok x
    → (reject e o).0 ≡ []
unfolding reject
reject-events e none h = cc
reject-events e (some f) h = cc

accepted-events :
    (r : Result OtaError (String × String)) {x : String × String}
    → (check_manifest r).1 ≡ ok x
    → (check_manifest r).0 ≡ []
unfolding check_manifest
accepted-events (ok y) h = refl
accepted-events (err e) h = reject-events e (built_in e) h

after-other {ℓ κ} :
    {A : Type ℓ} {B : Type κ} (es : List Event) (r : Result UpdateError A) (next : A → Steps B)
    → r ≢ err download_failed
    → ((a : A) → (next a).1 ≢ err download_failed)
    → (after es r next).1 ≢ err download_failed
after-other es r next first rest h = elim (err_after es r next h) [
  | inl failed ↦ first failed
  | inr (a, e, failed) ↦ rest a failed
]

module _ (g : Env) where
  check_size-other :
      (p : FilePath) (version : String) (v : Value) (b : Bytes)
      → (check_size p version v b).1 ≢ err download_failed
  unfolding check_size discard
  check_size-other p version v b h = ground arith

  check_digest-other :
      (p : FilePath) (version expected : String) (b : Bytes)
      → (check_digest g p version expected b).1 ≢ err download_failed
  unfolding check_digest discard
  check_digest-other p version expected b h = ground arith

  install-Silent :
      (manifest : Value) (version digest : String) (paths : FilePath × FilePath)
      → (install g manifest version digest paths).1 ≡ err download_failed
      → Silent (install g manifest version digest paths).0
  unfolding install
  install-Silent manifest version digest (dest, saved_at) h =
      let d = g.download (text_of (value_or (get manifest "artifact_url") null)) in
      elim (err_after (write_download dest d).0 (write_download dest d).1 _ h) [
        | inl failed ↦
            rw failed (record { begun = refl; unreported = download-events "failed" dest d })
        | inr (b, e, failed) ↦ absurd (
            after-other _ _ _ (check_size-other dest version _ b)
              (λ u. after-other _ _ _ (check_digest-other dest version digest b) (λ u'.
                after-other _ _ _ (check_archive-other dest version (g.tar_members b))
                  (λ u''. launch-other g dest saved_at version)))
              failed)
      ]

  stage-Silent :
      (manifest : Value) (trusted : String × String)
      → (stage g manifest trusted).1 ≡ err download_failed
      → Silent (stage g manifest trusted).0
  unfolding stage
  stage-Silent manifest (version, digest) h = elim (err_after [] (staging_paths g version) _ h) [
    | inl failed ↦ absurd (staging_paths-other g version failed)
    | inr (paths, e, failed) ↦
        let silent = install-Silent manifest version digest paths failed in
        rw e (record { begun = silent.begun; unreported = silent.unreported })
  ]

  -- An update that ends because its download has failed has published that it is downloading, and
  -- publishes no failure.
  pub failed_download-Silent :
      (params : Value)
      → (update_firmware g params).1 ≡ err download_failed
      → Silent (update_firmware g params).0
  unfolding update_firmware
  failed_download-Silent params h = elim (err_after [] (read_params params) _ h) [
    | inl failed ↦ absurd (read_params-other params failed)
    | inr ((manifest, signature), e, h1) ↦
        let r = verified g manifest signature in
        elim (err_after (check_manifest r).0 (check_manifest r).1 _ h1) [
          | inl failed ↦ absurd (check_manifest-other r failed)
          | inr (trusted, e', h2) ↦
              rw (e, e', accepted-events r e') (stage-Silent manifest trusted h2)
        ]
  ]
