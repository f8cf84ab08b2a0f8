-- ===== src/Publisher/Keeps.antt =====
-- The account of the events that the publisher buffers and queues.
use mathlib.Core.Path.{subst}
use mathlib.Core.List.{append-nil, map-append}
use novena_gateway.Common.{
  ℕ, ◌+◌, ◌≡◌, refl, sym, ap, ◌∙◌, String, Bool, true, false, List, [], ◌∷◌, ◌++◌, length, map,
  arith, Bool-cases, inl, inr, if◌then◌else◌,
}
use novena_gateway.Storage.Memory.{is_full}
use novena_gateway.Storage.Buffer.{EventStorage, accepted_by}
use novena_gateway.Publisher.{Event, Wire, Publisher, enqueue, tail, counted, buffer_event}
use novena_gateway.Publisher.Session.Apart.{Apart}
use novena_gateway.Publisher.Run.{held, refused, oldest, displaced}

abbrev pub weight : Bool → ℕ
weight true = 1
weight false = 0

-- How many texts of a list pass a test.
abbrev pub tally : (String → Bool) → List String → ℕ
tally p [] = 0
tally p (t ∷ ts) = weight (p t) + tally p ts

pub tally-append :
    (p : String → Bool) (ts us : List String) → tally p (ts ++ us) ≡ tally p ts + tally p us
tally-append p [] us = omega arith
tally-append p (t ∷ ts) us = omega (arith, tally-append p ts us)

module _ {S : Type 0} (storage : EventStorage S String) (wire : Wire) where
  -- Where every text of an event may be stored: a valid storage stays so, and what was held and came in
  -- is held or gone.
  pub record Keeps (s s' : Publisher S) (taken gone : List String) : Type 0 where
    pub valid : storage.IsValid s'.storage
    pub balanced :
        (p : String → Bool)
        → tally p (held storage wire s') + tally p gone
          ≡ tally p (held storage wire s) + tally p taken

  pub tally-held :
      (p : String → Bool) (s : Publisher S)
      → tally p (held storage wire s)
        ≡ tally p (map wire.dumps s.queue) + tally p (storage.owed s.storage)
  tally-held p s = tally-append p (map wire.dumps s.queue) (storage.owed s.storage)

  pub Keeps-refl : (s : Publisher S) → storage.IsValid s.storage → Keeps s s [] []
  Keeps-refl s v = record { valid = v; balanced = λ p. refl }

  pub Apart-Keeps : (s s' : Publisher S) → storage.IsValid s.storage → Apart s s' → Keeps s s' [] []
  Apart-Keeps s s' v a = record {
    valid = subst storage.IsValid (sym a.storage) v;
    balanced = λ p. omega (
      arith,
      tally-held p s,
      tally-held p s',
      ap (λ q. tally p (map wire.dumps q)) a.queue,
      ap (λ t. tally p (storage.owed t)) a.storage,
    );
  }

  counted-Keeps :
      (t : String) (r : Bool × S) (s : Publisher S)
      → storage.IsValid r.1
      → storage.owed r.1 ≡ storage.owed s.storage ++ accepted_by t r.0
      → Keeps s (counted r s) (t ∷ []) (if r.0 then [] else t ∷ [])
  counted-Keeps t (true, q) s v owes = record {
    valid = v;
    balanced = λ p. omega (
      arith,
      tally-held p s,
      tally-held p (record s { storage = q }),
      ap (tally p) owes,
      tally-append p (storage.owed s.storage) (t ∷ []),
    );
  }
  counted-Keeps t (false, q) s v owes = record {
    valid = v;
    balanced = λ p. omega (
      arith,
      tally-held p s,
      tally-held p (record s { storage = q }),
      ap (tally p) (owes ∙ append-nil (storage.owed s.storage)),
    );
  }

  module _ (storable : (e : Event) → storage.IsStorable (wire.dumps e)) where
    pub buffer_event-Keeps :
        (e : Event) (s : Publisher S)
        → storage.IsValid s.storage
        → Keeps s (buffer_event storage wire e s) (wire.dumps e ∷ []) (refused storage wire e s)
    unfolding buffer_event
    buffer_event-Keeps e s v =
        let t = wire.dumps e in
        let v' = storage.put-IsValid t s.storage (storable e) v in
        elim (Bool-cases s.release_in_progress) [
          | inl releasing ↦ simp releasing (record { valid = v; balanced = λ p. refl })
          | inr normal ↦
              simp normal
                (counted-Keeps t (storage.put t s.storage) s v' (storage.put-owed t s.storage))
        ]

    joined :
        (p : String → Bool) (e : Event) (q : List Event) (s : Publisher S)
        → tally p (map wire.dumps (q ++ e ∷ []) ++ storage.owed s.storage) + 0
          ≡ tally p (map wire.dumps q ++ storage.owed s.storage) + (weight (p (wire.dumps e)) + 0)
    joined p e q s = omega (
      arith,
      tally-append p (map wire.dumps (q ++ e ∷ [])) (storage.owed s.storage),
      tally-append p (map wire.dumps q) (storage.owed s.storage),
      ap (tally p) (map-append wire.dumps q (e ∷ [])),
      tally-append p (map wire.dumps q) (wire.dumps e ∷ []),
    )

    rotated :
        (p : String → Bool) (e : Event) (q : List Event) (s : Publisher S)
        → tally p (map wire.dumps (tail q ++ e ∷ []) ++ storage.owed s.storage)
            + tally p (oldest storage wire q)
          ≡ tally p (map wire.dumps q ++ storage.owed s.storage) + (weight (p (wire.dumps e)) + 0)
    rotated p e [] s = joined p e [] s
    rotated p e (f ∷ q) s = omega (arith, joined p e q s)

    pub enqueue-Keeps :
        (e : Event) (s : Publisher S)
        → storage.IsValid s.storage
        → Keeps s (enqueue e s) (wire.dumps e ∷ []) (displaced storage wire s)
    unfolding enqueue
    enqueue-Keeps e s v = elim (Bool-cases (is_full s.max_queue_size (length s.queue))) [
      | inl full ↦ simp full (record { valid = v; balanced = λ p. rotated p e s.queue s })
      | inr room ↦ simp room (record { valid = v; balanced = λ p. joined p e s.queue s })
    ]
