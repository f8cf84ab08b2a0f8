-- ===== src/Publisher/Kept.antt =====
-- No event is lost without account.
use mathlib.Core.Path.{subst}
use novena_gateway.Common.{
  ℕ, ◌+◌, ◌≡◌, refl, sym, ap, String, Bool, true, false, not, ◌&&◌, ◌||◌, Option, List, [], ◌∷◌,
  ◌++◌, length, map, ◌==◌, arith, Bool-cases, inl, inr, if◌then◌else◌,
}
use novena_gateway.Json.{Value}
use novena_gateway.Storage.Buffer.{EventStorage}
use novena_gateway.Publisher.{
  Event, Wire, Publisher, event_of, give, is_foreign, publish_item, publish_first, publish,
  publish_turn,
}
use novena_gateway.Publisher.Replay.{Flags, replay_events, replay_pack, replays, replay_turn}
use novena_gateway.Publisher.Replay.Acked.{replay_events_keeps}
use novena_gateway.Publisher.Session.Apart.{on_connect-Apart, on_disconnect-Apart}
use novena_gateway.Publisher.Run.{
  Op, publish_payload, publish_next, replay_next, storage_work, connected, disconnected, step,
  IsQuietStep, AllQuiet, account, run, held, refused, item_gone, first_gone, pack_gone,
}
use novena_gateway.Publisher.Keeps.{
  tally, tally-append, Keeps, Keeps-refl, Apart-Keeps, tally-held, buffer_event-Keeps,
  enqueue-Keeps,
}

module _ {S : Type 0} (storage : EventStorage S String) (wire : Wire) where
  module _ (storable : (e : Event) → storage.IsStorable (wire.dumps e)) where
    publish-Keeps :
        (payload : Value) (topic : Option String) (s : Publisher S)
        → storage.IsValid s.storage
        → let a = account storage wire (publish_payload payload topic) s in
          Keeps storage wire s (publish storage wire payload topic s) a.taken a.gone
    unfolding publish
    publish-Keeps payload topic s v = elim (Bool-cases s.release_in_progress) [
      | inl releasing ↦ simp releasing (Keeps-refl storage wire s v)
      | inr normal ↦ elim (Bool-cases s.connected) [
        | inl online ↦
            simp (normal, online)
              (enqueue-Keeps storage wire storable (event_of payload topic s) s v)
        | inr offline ↦
            simp (normal, offline)
              (simp normal at
                (buffer_event-Keeps storage wire storable (event_of payload topic s) s v))
      ]
    ]

    publish_item-Keeps :
        (e : Event) (s : Publisher S)
        → storage.IsValid s.storage
        → Keeps storage wire s
            (publish_item storage wire e s)
            (wire.dumps e ∷ [])
            (item_gone storage wire e s)
    unfolding publish_item
    publish_item-Keeps e s v = elim (Bool-cases (is_foreign e s || s.release_in_progress)) [
      | inl skipped ↦ simp skipped (record { valid = v; balanced = λ p. refl })
      | inr meant ↦ elim (Bool-cases (s.connected && not s.bootstrap_mode)) [
        | inl online ↦ elim (Bool-cases (wire.accepts (length s.sent) e)) [
          | inl taken ↦ simp (meant, online, taken) (record { valid = v; balanced = λ p. refl })
          | inr refused ↦
              let k = buffer_event-Keeps storage wire storable e (give e s) v in
              simp (meant, online, refused) (record { valid = k.valid; balanced = k.balanced })
        ]
        | inr offline ↦ simp (meant, offline) (buffer_event-Keeps storage wire storable e s v)
      ]
    ]

    publish_first-Keeps :
        (es : List Event) (s : Publisher S)
        → s.queue ≡ es
        → storage.IsValid s.storage
        → Keeps storage wire s (publish_first storage wire es s) [] (first_gone storage wire es s)
    publish_first-Keeps [] s h v = Keeps-refl storage wire s v
    publish_first-Keeps (e ∷ es) s h v =
        let k = publish_item-Keeps e (record s { queue = es }) v in
        record {
          valid = k.valid;
          balanced = λ p. omega (
            arith,
            k.balanced p,
            ap (λ q. tally p (map wire.dumps q ++ storage.owed s.storage)) h,
          );
        }

    publish_turn-Keeps :
        (s : Publisher S)
        → storage.IsValid s.storage
        → let a = account storage wire publish_next s in
          Keeps storage wire s (publish_turn storage wire s) a.taken a.gone
    unfolding publish_turn
    publish_turn-Keeps s v = elim (Bool-cases s.stopped) [
      | inl stopped ↦ simp stopped (Keeps-refl storage wire s v)
      | inr open_still ↦ simp open_still (publish_first-Keeps s.queue s refl v)
    ]

    settled-Keeps :
        (b : Bool) (pack : List String) (s q : Publisher S)
        → storage.IsValid s.storage
        → storage.IsOut s.storage pack
        → q.storage ≡ s.storage
        → q.queue ≡ s.queue
        → Keeps storage wire s
            (if b
              then record q {
                storage = storage.event_pack_processing_done q.storage;
                last_replay_status = "success";
              }
              else record q {
                last_replay_status = "partial_failure";
                replay_failure_count = q.replay_failure_count + 1;
              })
            []
            (if b then pack else [])
    settled-Keeps true pack s q v out same_storage same_queue =
        let acked = ap storage.event_pack_processing_done same_storage in
        record {
          valid =
              subst storage.IsValid (sym acked)
                (storage.event_pack_processing_done-IsValid s.storage v);
          balanced = λ p. omega (
            arith,
            tally-held storage wire p s,
            tally-append p (map wire.dumps q.queue)
                (storage.owed (storage.event_pack_processing_done q.storage)),
            ap (λ x. tally p (map wire.dumps x)) same_queue,
            ap (λ x. tally p (storage.owed x)) acked,
            ap (tally p) (storage.event_pack_processing_done-owed s.storage pack v out),
            tally-append p pack (storage.owed (storage.event_pack_processing_done s.storage)),
          );
        }
    settled-Keeps false pack s q v out same_storage same_queue = record {
      valid = subst storage.IsValid (sym same_storage) v;
      balanced = λ p. omega (
        arith,
        tally-held storage wire p s,
        tally-held storage wire p q,
        ap (λ x. tally p (map wire.dumps x)) same_queue,
        ap (λ x. tally p (storage.owed x)) same_storage,
      );
    }

    replay_pack-Keeps :
        (flags : ℕ → Flags) (pack : List String) (s : Publisher S)
        → storage.IsValid s.storage
        → storage.IsOut s.storage pack
        → Keeps storage wire s
            (replay_pack wire storage flags pack s)
            []
            (pack_gone storage wire flags pack s)
    replay_pack-Keeps flags [] s v out = Keeps-refl storage wire s v
    replay_pack-Keeps flags (t ∷ ts) s v out =
        settled-Keeps ((replay_events wire flags 0 (t ∷ ts) s).0 == length (t ∷ ts)) (t ∷ ts) s
          (replay_events wire flags 0 (t ∷ ts) s).1 v out
          (replay_events_keeps wire (λ x. x.storage) (λ e x. refl) flags 0 (t ∷ ts) s)
          (replay_events_keeps wire (λ x. x.queue) (λ e x. refl) flags 0 (t ∷ ts) s)

    replay_turn-Keeps :
        (flags : ℕ → Flags) (s : Publisher S)
        → storage.IsValid s.storage
        → let a = account storage wire (replay_next flags) s in
          Keeps storage wire s (replay_turn wire storage flags s) a.taken a.gone
    unfolding replay_turn
    replay_turn-Keeps flags s v = elim (Bool-cases (not (replays wire storage s))) [
      | inl idle ↦ simp idle (Keeps-refl storage wire s v)
      | inr on ↦ elim (Bool-cases (storage.len s.storage == 0)) [
        | inl empty ↦ simp (on, empty) (record { valid = v; balanced = λ p. refl })
        | inr some_left ↦
            let (pack, t) = storage.get_event_pack s.storage in
            let k =
              replay_pack-Keeps flags pack (record s { storage = t })
                (storage.get_event_pack-IsValid s.storage v)
                (storage.get_event_pack-IsOut s.storage v) in
            simp (on, some_left)
              (record {
                valid = k.valid;
                balanced = λ p. omega (
                  arith,
                  k.balanced p,
                  ap (λ o. tally p (map wire.dumps s.queue ++ o))
                      (storage.get_event_pack-owed s.storage),
                );
              })
      ]
    ]

    step-Keeps :
        (op : Op storage) (s : Publisher S)
        → IsQuietStep storage wire op s
        → storage.IsValid s.storage
        → let a = account storage wire op s in
          Keeps storage wire s (step storage wire op s) a.taken a.gone
    unfolding step IsQuietStep
    step-Keeps (publish_payload payload topic) s q v = publish-Keeps payload topic s v
    step-Keeps publish_next s q v = publish_turn-Keeps s v
    step-Keeps (replay_next flags) s q v = replay_turn-Keeps flags s v
    step-Keeps (storage_work w) s q v = record {
      valid = storage.work-IsValid w s.storage q v;
      balanced = λ p. omega (
        arith,
        ap (λ o. tally p (map wire.dumps s.queue ++ o)) (storage.work-owed w s.storage q v),
      );
    }
    step-Keeps (connected reason erased) s q v =
        Apart-Keeps storage wire s _ v (on_connect-Apart reason erased s)
    step-Keeps (disconnected reason) s q v =
        Apart-Keeps storage wire s _ v (on_disconnect-Apart reason s)

    -- Over any sequence of calls of `publish`, turns of the publish loop and of the replay, callbacks of the
    -- connection, and passes of the storage that remove nothing it owes, from a valid storage and for
    -- events that it can store: by every test, as many events are held or gone on the account at the end as
    -- were held at the start or taken in. The account of a step lists an event as gone where the client
    -- accepted it out of the queue, where a replay acknowledged its pack, where it came up in the
    -- queue under another claim or during a release, where the storage refused it, and where a full queue
    -- displaced it.
    pub run-balanced :
        (ops : List (Op storage)) (s : Publisher S) (p : String → Bool)
        → AllQuiet storage wire ops s
        → storage.IsValid s.storage
        → let (s', a) = run storage wire ops s in
          tally p (held storage wire s') + tally p a.gone
          ≡ tally p (held storage wire s) + tally p a.taken
    unfolding run AllQuiet
    run-balanced [] s p q v = refl
    run-balanced (op ∷ ops) s p (q, quiet) v =
        let k = step-Keeps op s q v in
        let (s', rest) = run storage wire ops (step storage wire op s) in
        let first = account storage wire op s in
        omega (
          arith,
          k.balanced p,
          run-balanced ops (step storage wire op s) p quiet k.valid,
          tally-append p first.taken rest.taken,
          tally-append p first.gone rest.gone,
        )
