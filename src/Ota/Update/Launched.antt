-- ===== src/Ota/Update/Launched.antt =====
-- What an update has shown before the privileged helper is given it.
use mathlib.Core.Path.{subst}
use novena_gateway.Common.{
  String, ◌≡◌, refl, Bool, true, false, none, some, List, [], ◌∷◌, ◌++◌, any, arith, length, str_eq,
  ok, value_or, Bool-cases, inl, inr,
}
use novena_gateway.Common.Int.{pos}
use novena_gateway.Json.{Value, null, str, number, get, eq_value}
use novena_gateway.Ota.{Bytes}
use novena_gateway.Ota.Archive.{FilePath, Member, Part, validate_tarball, resolve_child_path}
use novena_gateway.Ota.Archive.Contained.{AllContained, validate_tarball-Contained, child_of-under}
use novena_gateway.Ota.Sound.{Verified}
use novena_gateway.Ota.Steps.{
  Event, status, staged, saved, launched, after, is_launched, launched_after,
}
use novena_gateway.Ota.Staging.{body, Env, archive_name, read_params, verified, staging_paths}
use novena_gateway.Ota.Update.{
  text_of, done, write_download, discard, check_digest, helped, launch, install, stage,
  update_firmware,
}
use novena_gateway.Ota.Update.Checks.{
  download-quiet, download-ok, size-quiet, download-done, size-done, archive-done, size-ok,
  archive-quiet, archive-ok, manifest-quiet, manifest-ok, manifest-done, verified-signed,
}

-- What was downloaded is what the manifest promises, and can be extracted into any folder.
pub record Checked (g : Env) (manifest : Value) (version digest : String)
    (dest_tar manifest_path : FilePath) (base : List Part) : Type 0 where
  pub archive : Bytes
  pub from_url : g.download (text_of (value_or (get manifest "artifact_url") null)) ≡ body archive
  pub sized :
      eq_value (number (pos (length archive))) (value_or (get manifest "size_bytes") null) ≡ true
  pub digested :
      str_eq (g.host.lower_text (g.sha256_file archive)) (g.host.lower_text digest) ≡ true
  pub members : List Member
  pub listed : g.tar_members archive ≡ some members
  pub extracts : AllContained base members
  pub rest : List Event
  pub traced :
      (install g manifest version digest (dest_tar, manifest_path)).0
      ≡ status "downloading" (some version) none
        ∷ staged dest_tar archive
        ∷ saved manifest_path manifest version digest
        ∷ status "verified" (some version) none
        ∷ status "restarting" (some version) none
        ∷ launched dest_tar version manifest_path
        ∷ rest

pub record Launched (g : Env) (params : Value) (base : List Part) : Type 0 where
  pub manifest : Value
  pub signature : String
  pub requested : read_params params ≡ ok (manifest, str signature)
  pub signed : Verified g.host g.keys g.now manifest signature
  pub version : String
  pub named : get manifest "version" ≡ ok (str version)
  pub sha256 : String
  pub summed : get manifest "artifact_sha256" ≡ ok (str sha256)
  pub dest_tar : FilePath
  pub manifest_path : FilePath
  pub placed : staging_paths g version ≡ ok (dest_tar, manifest_path)
  pub under : (inner : FilePath) × (dest_tar ≡ g.resolve g.update_dir ++ inner)
  pub checked : Checked g manifest version (g.host.lower_text sha256) dest_tar manifest_path base
  pub traced :
      (update_firmware g params).0
      ≡ status "accepted" (some version) none
        ∷ (install g manifest version (g.host.lower_text sha256) (dest_tar, manifest_path)).0

module _ (g : Env) where
  digest-quiet :
      (p : FilePath) (version expected : String) (b : Bytes)
      → any is_launched (check_digest g p version expected b).0 ≡ false
  unfolding check_digest discard
  digest-quiet p version expected b = ground arith

  digest-ok :
      (p : FilePath) (version expected : String) (b : Bytes)
      → (check_digest g p version expected b).1 ≡ ok tt
      → str_eq (g.host.lower_text (g.sha256_file b)) (g.host.lower_text expected) ≡ true
  unfolding check_digest discard
  digest-ok p version expected b h = ground arith

  staging-under :
      (version : String) {dest saved_at : FilePath}
      → staging_paths g version ≡ ok (dest, saved_at)
      → (inner : FilePath) × (dest ≡ g.resolve g.update_dir ++ inner)
  unfolding staging_paths resolve_child_path
  staging-under version h =
      child_of-under g.resolve g.resolve_in (g.resolve g.update_dir) (archive_name version)
        (ground arith)

  digest-done :
      (p : FilePath) (version expected : String) (b : Bytes)
      → str_eq (g.host.lower_text (g.sha256_file b)) (g.host.lower_text expected) ≡ true
      → check_digest g p version expected b ≡ done
  unfolding check_digest
  digest-done p version expected b h = rw h refl

  launch-events :
      (dest saved_at : FilePath) (version : String)
      → any is_launched (launch g dest saved_at version).0 ≡ true
      → (rest : List Event) × ((launch g dest saved_at version).0
          ≡ status "restarting" (some version) none ∷ launched dest version saved_at ∷ rest)
  unfolding launch
  launch-events dest saved_at version h = elim (Bool-cases g.is_nt) [
    | inl windows ↦ absurd (false_launch (rw windows at h))
    | inr linux ↦ (
      (after [] (ok tt) (λ (u : Unit {0}). helped version (g.run_upgrade dest version saved_at))).0,
      rw linux refl,
    )
  ]
    where
      false_launch : ◌≡◌ {A = Bool} false true → ⊥
      false_launch e = cc

  install-traced :
      (manifest : Value) (version digest : String) (dest saved_at : FilePath) (b : Bytes)
      (ms : List Member) (rest : List Event)
      → g.download (text_of (value_or (get manifest "artifact_url") null)) ≡ body b
      → eq_value (number (pos (length b))) (value_or (get manifest "size_bytes") null) ≡ true
      → str_eq (g.host.lower_text (g.sha256_file b)) (g.host.lower_text digest) ≡ true
      → g.tar_members b ≡ some ms
      → validate_tarball ms ≡ ok tt
      → (launch g dest saved_at version).0
        ≡ status "restarting" (some version) none ∷ launched dest version saved_at ∷ rest
      → (install g manifest version digest (dest, saved_at)).0
        ≡ status "downloading" (some version) none
          ∷ staged dest b
          ∷ saved saved_at manifest version digest
          ∷ status "verified" (some version) none
          ∷ status "restarting" (some version) none
          ∷ launched dest version saved_at
          ∷ rest
  unfolding install
  install-traced manifest version digest dest saved_at b ms rest url size sum listed valid ended =
      rw
        (
          download-done dest _ url,
          size-done dest version _ b size,
          digest-done dest version digest b sum,
          archive-done dest version (g.tar_members b) listed valid,
          ended,
        )
        refl

  update-traced :
      (params manifest signature : Value) (version digest : String) (dest saved_at : FilePath)
      → read_params params ≡ ok (manifest, signature)
      → verified g manifest signature ≡ ok (version, digest)
      → staging_paths g version ≡ ok (dest, saved_at)
      → (update_firmware g params).0
        ≡ status "accepted" (some version) none
          ∷ (install g manifest version digest (dest, saved_at)).0
  unfolding update_firmware stage
  update-traced params manifest signature version digest dest saved_at asked accepted placed =
      rw (asked, manifest-done (verified g manifest signature) accepted, placed) refl

  install-Checked :
      (manifest : Value) (version digest : String) (base : List Part) (dest saved_at : FilePath)
      → any is_launched (install g manifest version digest (dest, saved_at)).0 ≡ true
      → Checked g manifest version digest dest saved_at base
  unfolding install
  install-Checked manifest version digest base dest saved_at h =
      let url = text_of (value_or (get manifest "artifact_url") null) in
      let (b, written, h1) =
        launched_after (write_download dest (g.download url)).0
          (write_download dest (g.download url)).1 _ (download-quiet dest (g.download url)) h in
      let (u1, sized, h2) = launched_after _ _ _ (size-quiet dest version _ b) h1 in
      let (u2, digested, h3) = launched_after _ _ _ (digest-quiet dest version digest b) h2 in
      let (u3, valid, h4) =
        launched_after _ _ _ (archive-quiet dest version (g.tar_members b)) h3 in
      let (ms, listed, accepted) = archive-ok dest version (g.tar_members b) valid in
      let from_url = download-ok dest (g.download url) written in
      let right_size = size-ok dest version _ b sized in
      let right_digest = digest-ok dest version digest b digested in
      let (rest, ended) = launch-events dest saved_at version h4 in
      record {
        rest = rest;
        traced =
            install-traced manifest version digest dest saved_at b ms rest from_url right_size
              right_digest listed accepted ended;
        archive = b;
        from_url = from_url;
        sized = right_size;
        digested = right_digest;
        members = ms;
        listed = listed;
        extracts = validate_tarball-Contained base ms accepted;
      }

  -- The helper is given an archive only where the manifest of the request carries the signature of a
  -- trusted key and its validity has begun and not ended; where the archive was downloaded from the
  -- manifest's URL, has its size and its digest; where each entry of the archive, extracted into
  -- whichever folder, lands in it and is neither a link, nor special, nor writable by everyone; and
  -- where the archive's own place has been resolved inside of the staging folder. What is given to the
  -- helper is the place where that download was written, the manifest's version and the place where the
  -- manifest was saved, and the effects before it are the writes of the two and the published statuses.
  pub update_firmware-Launched :
      (params : Value) (base : List Part)
      → any is_launched (update_firmware g params).0 ≡ true
      → Launched g params base
  unfolding update_firmware
  update_firmware-Launched params base h =
      let ((manifest, signature), requested, h1) =
        launched_after [] (read_params params) _ refl h in
      let ((version, digest), trusted, h2) =
        launched_after _ _ _ (manifest-quiet (verified g manifest signature)) h1 in
      let ((dest, saved_at), placed, h3) =
        launched_after [] (staging_paths g version) _ refl (unfold stage in h2) in
      let accepted = manifest-ok (verified g manifest signature) trusted in
      let (s, is_text, signed, named, sha256, summed, lowered) =
        verified-signed g manifest signature accepted in
      let checked = install-Checked manifest version digest base dest saved_at h3 in
      record {
        manifest = manifest;
        signature = s;
        requested = rw (← is_text) requested;
        signed = signed;
        version = version;
        named = named;
        sha256 = sha256;
        summed = summed;
        dest_tar = dest;
        manifest_path = saved_at;
        placed = placed;
        under = staging-under version placed;
        checked = subst (λ d. Checked g manifest version d dest saved_at base) lowered checked;
        traced =
            subst
              (λ d.
                (update_firmware g params).0
                ≡ status "accepted" (some version) none
                  ∷ (install g manifest version d (dest, saved_at)).0)
              lowered
              (update-traced params manifest signature version digest dest saved_at requested
                accepted placed);
      }
