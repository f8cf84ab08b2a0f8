-- ===== src/Publisher/Replay/Acked.antt =====
-- When a pack of buffered events is acknowledged to the storage.
use mathlib.Core.Path.{subst}
use novena_gateway.Common.{
  ℕ, suc, ◌+◌, ◌≤◌, ◌≡◌, refl, ◌∙◌, String, true, false, not, ◌⊎◌, inl, inr, Option, none, some,
  List, [], ◌∷◌, length, length-append, ap, ◌==◌, arith, Bool-cases,
}
use novena_gateway.Json.{eq_value}
use novena_gateway.Publisher.{Event, Wire, Publisher, give}
use novena_gateway.Publisher.Replay.{
  Flags, other_claim, breaks, replay_read, go_on, replay_events, settle, replay_pack, replays,
  replay_turn,
}
use novena_gateway.Storage.Buffer.{EventStorage}

module _ (wire : Wire) where
  -- Each event of a pack, from the one of a place on, is of another claim than the loop reads for it, or
  -- the client accepted it as the message of its number.
  abbrev pub AllSettled : (ℕ → Flags) → ℕ → ℕ → List String → Type 0
  AllSettled flags i n [] = Unit {0}
  AllSettled flags i n (t ∷ ts) =
      (e : Event) × (wire.loads t ≡ some e)
      × (((eq_value e.claim_id (flags i).claim_id ≡ false) × AllSettled flags (suc i) n ts)
          ⊎ ((wire.accepts n e ≡ true) × AllSettled flags (suc i) (n + 1) ts))

module _ {S : Type 0} (wire : Wire) where
  read_le :
      (f : Flags) (o : Option Event) (s : Publisher S) (rest : Publisher S → ℕ × Publisher S)
      (n : ℕ)
      → ((q : Publisher S) → (rest q).0 ≤ n)
      → (go_on rest (replay_read wire f o s)).0 ≤ suc n
  read_le f none s rest n h = omega (arith, h s)
  read_le f (some e) s rest n h = elim (Bool-cases (other_claim e f.claim_id)) [
    | inl foreign ↦ simp foreign (omega (arith, h s))
    | inr ours ↦ elim (Bool-cases f.bootstrap_mode) [
      | inl booting ↦ simp (ours, booting) (omega arith)
      | inr ready ↦ elim (Bool-cases (wire.accepts (length s.sent) e)) [
        | inl taken ↦ simp (ours, ready, taken) (omega (arith, h (give e s)))
        | inr refused ↦ simp (ours, ready, refused) (omega (arith, h (give e s)))
      ]
    ]
  ]

  successes_le :
      (flags : ℕ → Flags) (i : ℕ) (pack : List String) (s : Publisher S)
      → (replay_events wire flags i pack s).0 ≤ length pack
  unfolding replay_events
  successes_le flags i [] s = omega arith
  successes_le flags i (t ∷ ts) s = elim (Bool-cases (breaks (flags i))) [
    | inl over ↦ simp over (omega arith)
    | inr on ↦ simp on (
        read_le (flags i) (wire.loads t) s (replay_events wire flags (suc i) ts) (length ts)
          (successes_le flags (suc i) ts))
  ]

  -- The first event of a pack of which all succeed, and that the others succeed after it.
  abbrev FirstSettled :
      Flags → Option Event → Publisher S → (Publisher S → ℕ × Publisher S) → ℕ → Type 0
  FirstSettled f o s rest n =
      (e : Event) × (o ≡ some e)
      × (((eq_value e.claim_id f.claim_id ≡ false) × ((rest s).0 ≡ n))
          ⊎ ((wire.accepts (length s.sent) e ≡ true) × ((rest (give e s)).0 ≡ n)))

  first_settled :
      (f : Flags) (o : Option Event) (s : Publisher S) (rest : Publisher S → ℕ × Publisher S)
      (n : ℕ)
      → ((q : Publisher S) → (rest q).0 ≤ n)
      → (go_on rest (replay_read wire f o s)).0 ≡ suc n
      → FirstSettled f o s rest n
  first_settled f none s rest n h k = absurd (omega (arith, h s, k))
  first_settled f (some e) s rest n h k = elim (Bool-cases (other_claim e f.claim_id)) [
    | inl foreign ↦
        let k' = simp foreign at k in (e, refl, inl (ground (arith, foreign), omega (arith, k')))
    | inr ours ↦ elim (Bool-cases f.bootstrap_mode) [
      | inl booting ↦ let k' = simp (ours, booting) at k in absurd (omega (arith, k'))
      | inr ready ↦ elim (Bool-cases (wire.accepts (length s.sent) e)) [
        | inl taken ↦
            let k' = simp (ours, ready, taken) at k in (e, refl, inr (taken, omega (arith, k')))
        | inr refused ↦
            let k' = simp (ours, ready, refused) at k in absurd (omega (arith, h (give e s), k'))
      ]
    ]
  ]

  pub all_settled :
      (flags : ℕ → Flags) (i : ℕ) (pack : List String) (s : Publisher S)
      → (replay_events wire flags i pack s).0 ≡ length pack
      → AllSettled wire flags i (length s.sent) pack
  unfolding replay_events
  all_settled flags i [] s h = tt
  all_settled flags i (t ∷ ts) s h = elim (Bool-cases (breaks (flags i))) [
    | inl over ↦ let none_sent = simp over at h in absurd (omega (arith, none_sent))
    | inr on ↦
        let rest = replay_events wire flags (suc i) ts in
        let (e, read, why) =
          first_settled (flags i) (wire.loads t) s rest (length ts) (successes_le flags (suc i) ts)
            (simp on at h) in
        (
          e,
          read,
          elim why [
            | inl (foreign, others) ↦ inl (foreign, all_settled flags (suc i) ts s others)
            | inr (taken, others) ↦ inr (
              taken,
              subst (λ n. AllSettled wire flags (suc i) n ts) (length-append s.sent (e ∷ []))
                  (all_settled flags (suc i) ts (give e s) others),
            )
          ],
        )
  ]

  -- Of the publisher, a pack changes only what it has sent.
  module _ {X : Type 0} (f : Publisher S → X)
      (same : (e : Event) (s : Publisher S) → f (give e s) ≡ f s) where
    read_keeps :
        (flags : Flags) (o : Option Event) (s : Publisher S) (rest : Publisher S → ℕ × Publisher S)
        → ((q : Publisher S) → f (rest q).1 ≡ f q)
        → f (go_on rest (replay_read wire flags o s)).1 ≡ f s
    read_keeps flags none s rest h = h s
    read_keeps flags (some e) s rest h = elim (Bool-cases (other_claim e flags.claim_id)) [
      | inl foreign ↦ simp foreign (h s)
      | inr ours ↦ elim (Bool-cases flags.bootstrap_mode) [
        | inl booting ↦ simp (ours, booting) refl
        | inr ready ↦ simp (ours, ready) (h (give e s) ∙ same e s)
      ]
    ]

    pub replay_events_keeps :
        (flags : ℕ → Flags) (i : ℕ) (pack : List String) (s : Publisher S)
        → f (replay_events wire flags i pack s).1 ≡ f s
    unfolding replay_events
    replay_events_keeps flags i [] s = refl
    replay_events_keeps flags i (t ∷ ts) s = elim (Bool-cases (breaks (flags i))) [
      | inl over ↦ simp over refl
      | inr on ↦ simp on (
          read_keeps (flags i) (wire.loads t) s (replay_events wire flags (suc i) ts)
            (replay_events_keeps flags (suc i) ts))
    ]

  module _ (storage : EventStorage S String) where
    settle-storage :
        (flags : ℕ → Flags) (pack : List String) (s : Publisher S)
        → let (n, s') = replay_events wire flags 0 pack s in
          let s'' = settle wire storage n pack s' in
          (s''.storage ≡ s.storage)
          ⊎ ((s''.storage ≡ storage.event_pack_processing_done s.storage)
              × AllSettled wire flags 0 (length s.sent) pack)
    settle-storage flags pack s =
        let (n, s') = replay_events wire flags 0 pack s in
        let same = replay_events_keeps (λ q. q.storage) (λ e q. refl) flags 0 pack s in
        elim (Bool-cases (n == length pack)) [
          | inl all ↦ simp all (
              inr (
                ap storage.event_pack_processing_done same,
                all_settled flags 0 pack s (ground (arith, all)),
              ))
          | inr partial ↦ simp partial (inl same)
        ]

    pack_storage :
        (flags : ℕ → Flags) (pack : List String) (t : S) (s : Publisher S)
        → let s' = replay_pack wire storage flags pack (record s { storage = t }) in
          (s'.storage ≡ s.storage)
          ⊎ ((s'.storage ≡ t)
              ⊎ ((s'.storage ≡ storage.event_pack_processing_done t)
                  × AllSettled wire flags 0 (length s.sent) pack))
    pack_storage flags [] t s = inr (inl refl)
    pack_storage flags (e ∷ es) t s = inr (settle-storage flags (e ∷ es) (record s { storage = t }))

    -- A turn of the replay leaves the storage as it was, or with a pack out, or with that pack
    -- acknowledged; the last only where each event of the pack was accepted by the client as it was
    -- handed over, or belongs to another claim than the loop read for it.
    pub replay_turn_storage :
        (flags : ℕ → Flags) (s : Publisher S)
        → let (pack, t) = storage.get_event_pack s.storage in
          let s' = replay_turn wire storage flags s in
          (s'.storage ≡ s.storage)
          ⊎ ((s'.storage ≡ t)
              ⊎ ((s'.storage ≡ storage.event_pack_processing_done t)
                  × AllSettled wire flags 0 (length s.sent) pack))
    unfolding replay_turn
    replay_turn_storage flags s = elim (Bool-cases (not (replays wire storage s))) [
      | inl idle ↦ simp idle (inl refl)
      | inr on ↦ elim (Bool-cases (storage.len s.storage == 0)) [
        | inl empty ↦ simp (on, empty) (inl refl)
        | inr some_left ↦
            simp (on, some_left)
              (pack_storage flags (storage.get_event_pack s.storage).0
                (storage.get_event_pack s.storage).1 s)
      ]
    ]
