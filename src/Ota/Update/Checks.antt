-- ===== src/Ota/Update/Checks.antt =====
-- What each step of an update leaves when it returns, and that none of them before the last gives the
-- helper anything.
use novena_gateway.Common.{
  String, ◌≡◌, ◌≢◌, refl, ap, ◌∙◌, true, false, Option, none, some, List, [], ◌∷◌, any, arith,
  length, Result, ok, err, value_or,
}
use novena_gateway.Common.Int.{ℤ, pos}
use novena_gateway.Json.{Value, null, str, number, get, eq_value, Fault}
use novena_gateway.Ota.{Bytes, Host, OtaError, normalised_version, check_sha256, verify_manifest}
use novena_gateway.Ota.Archive.{FilePath, Member, ArchiveError, validate_tarball}
use novena_gateway.Ota.Sound.{Verified, verify_manifest_sound}
use novena_gateway.Ota.Steps.{staged, is_launched}
use novena_gateway.Ota.Staging.{
  Download, refused, interrupted, body, Env, refuse_signature, verified,
}
use novena_gateway.Ota.Update.{
  built_in, reject, check_manifest, done, write_download, discard, check_size, validated,
  check_archive,
}

pub download-quiet : (p : FilePath) (d : Download) → any is_launched (write_download p d).0 ≡ false
unfolding write_download
download-quiet p refused = refl
download-quiet p interrupted = refl
download-quiet p (body b) = refl

pub download-ok :
    (p : FilePath) (d : Download) {b : Bytes} → (write_download p d).1 ≡ ok b → d ≡ body b
unfolding write_download
download-ok p refused h = cc
download-ok p interrupted h = cc
download-ok p (body b) h = cc

pub size-quiet :
    (p : FilePath) (version : String) (v : Value) (b : Bytes)
    → any is_launched (check_size p version v b).0 ≡ false
unfolding check_size discard
size-quiet p version v b = ground arith

pub download-done :
    (p : FilePath) (d : Download) {b : Bytes}
    → d ≡ body b
    → write_download p d ≡ (staged p b ∷ [], ok b)
unfolding write_download
download-done p d h = rw h refl

pub size-done :
    (p : FilePath) (version : String) (v : Value) (b : Bytes)
    → eq_value (number (pos (length b))) v ≡ true
    → check_size p version v b ≡ done
unfolding check_size
size-done p version v b h = rw h refl

pub archive-done :
    (p : FilePath) (version : String) (o : Option (List Member)) {ms : List Member}
    → o ≡ some ms
    → validate_tarball ms ≡ ok tt
    → check_archive p version o ≡ done
unfolding check_archive validated
archive-done p version o h k = rw (h, k) refl

pub size-ok :
    (p : FilePath) (version : String) (v : Value) (b : Bytes)
    → (check_size p version v b).1 ≡ ok tt
    → eq_value (number (pos (length b))) v ≡ true
unfolding check_size discard
size-ok p version v b h = ground arith

pub validated-quiet :
    (p : FilePath) (version : String) (r : Result ArchiveError (Unit {0}))
    → any is_launched (validated p version r).0 ≡ false
unfolding validated discard
validated-quiet p version (ok u) = refl
validated-quiet p version (err e) = refl

pub validated-ok :
    (p : FilePath) (version : String) (r : Result ArchiveError (Unit {0}))
    → (validated p version r).1 ≡ ok tt
    → r ≡ ok tt
unfolding validated discard
validated-ok p version (ok u) h = refl
validated-ok p version (err e) h = cc

pub archive-quiet :
    (p : FilePath) (version : String) (o : Option (List Member))
    → any is_launched (check_archive p version o).0 ≡ false
unfolding check_archive
archive-quiet p version none = refl
archive-quiet p version (some ms) = validated-quiet p version (validate_tarball ms)

pub archive-ok :
    (p : FilePath) (version : String) (o : Option (List Member))
    → (check_archive p version o).1 ≡ ok tt
    → (ms : List Member) × (o ≡ some ms) × (validate_tarball ms ≡ ok tt)
unfolding check_archive
archive-ok p version none h = cc
archive-ok p version (some ms) h = (ms, refl, validated-ok p version (validate_tarball ms) h)

pub reject-quiet :
    (e : OtaError) (o : Option Fault)
    → (any is_launched (reject e o).0 ≡ false) × ((x : String × String) → (reject e o).1 ≢ ok x)
unfolding reject
reject-quiet e none = (refl, λ x h. cc)
reject-quiet e (some f) = (refl, λ x h. cc)

pub manifest-quiet :
    (r : Result OtaError (String × String)) → any is_launched (check_manifest r).0 ≡ false
unfolding check_manifest
manifest-quiet (ok x) = refl
manifest-quiet (err e) = (reject-quiet e (built_in e)).0

pub manifest-ok :
    (r : Result OtaError (String × String)) {x : String × String}
    → (check_manifest r).1 ≡ ok x
    → r ≡ ok x
unfolding check_manifest
manifest-ok (ok y) h = cc
manifest-ok (err e) h = absurd ((reject-quiet e (built_in e)).1 _ h)

pub manifest-done :
    (r : Result OtaError (String × String)) {x : String × String}
    → r ≡ ok x
    → check_manifest r ≡ ([], ok x)
unfolding check_manifest
manifest-done r h = rw h refl

pub text-version : (h : Host) (v : Value) {s : String} → normalised_version h v ≡ ok s → v ≡ str s
unfolding normalised_version
text-version h (str t) e = ground arith
text-version h _ e = cc

pub text-sha256 : (h : Host) (v : Value) {s : String} → check_sha256 h v ≡ ok s → v ≡ str s
unfolding check_sha256
text-sha256 h (str t) e = ground arith
text-sha256 h _ e = cc

-- The version and the digest that are returned are the manifest's own, the digest in lower case.
pub verify_manifest-names :
    (h : Host) (gateway_version : String) (keys : List String) (now : ℤ) (manifest : Value)
    (signature : String) {version digest : String}
    → verify_manifest h gateway_version keys now manifest signature ≡ ok (version, digest)
    → (get manifest "version" ≡ ok (str version))
      × (sha256 : String) × (get manifest "artifact_sha256" ≡ ok (str sha256))
      × (digest ≡ h.lower_text sha256)
verify_manifest-names h gateway_version keys now manifest signature {version} e =
    let raw = value_or (get manifest "version") null in
    let sum = value_or (get manifest "artifact_sha256") null in
    let sha256 = value_or (check_sha256 h sum) "" in
    let named : get manifest "version" ≡ ok raw = unfold verify_manifest in ground arith in
    let normal : normalised_version h raw ≡ ok version = unfold verify_manifest in ground arith in
    let summed : get manifest "artifact_sha256" ≡ ok sum = unfold verify_manifest in ground arith in
    let hexed : check_sha256 h sum ≡ ok sha256 = unfold verify_manifest in ground arith in
    (
      named ∙ ap ok (text-version h raw normal),
      sha256,
      summed ∙ ap ok (text-sha256 h sum hexed),
      (unfold verify_manifest in ground arith),
    )

pub refuse_signature-fails :
    (g : Env) (manifest : Value) {x : String × String} → refuse_signature g manifest ≢ ok x
unfolding refuse_signature
refuse_signature-fails g manifest h = ground arith

-- Only a text is a signature.
pub verified-signed :
    (g : Env) (manifest signature : Value) {x : String × String}
    → verified g manifest signature ≡ ok x
    → (s : String) × (signature ≡ str s)
      × Verified g.host g.keys g.now manifest s
      × (get manifest "version" ≡ ok (str x.0))
      × (sha256 : String) × (get manifest "artifact_sha256" ≡ ok (str sha256))
      × (x.1 ≡ g.host.lower_text sha256)
unfolding verified
verified-signed g manifest (str s) h =
    let (named, sha256, summed, lowered) =
      verify_manifest-names g.host g.gateway_version g.keys g.now manifest s h in
    (
      s,
      refl,
      verify_manifest_sound g.host g.gateway_version g.keys g.now manifest s h,
      named,
      sha256,
      summed,
      lowered,
    )
verified-signed g manifest _ h = absurd (refuse_signature-fails g manifest h)
