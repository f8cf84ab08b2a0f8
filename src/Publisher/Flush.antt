-- ===== src/Publisher/Flush.antt =====
-- What a disconnection makes of the messages that wait in the queue.
use novena_gateway.Common.{
  ◌≡◌, refl, true, false, not, ◌&&◌, List, [], ◌∷◌, Bool-cases, inl, inr, arith,
}
use novena_gateway.Publisher.{
  Event, Publisher, give, is_foreign, flush_items, flush_queue, disconnect,
}

module _ {S : Type 0} where
  record Emptied (s s' : Publisher S) : Type 0 where
    queue : s'.queue ≡ []
    storage : s'.storage ≡ s.storage
    dropped : s'.dropped_message_count ≡ s.dropped_message_count

  flush_items-Emptied : (es : List Event) (s : Publisher S) → Emptied s (flush_items es s)
  flush_items-Emptied [] s = record { queue = refl; storage = refl; dropped = refl }
  flush_items-Emptied (e ∷ es) s = elim (Bool-cases (is_foreign e s)) [
    | inl foreign ↦ simp foreign (flush_items-Emptied es s)
    | inr ours ↦
        let h = flush_items-Emptied es (give e s) in
        simp ours (record { queue = h.queue; storage = h.storage; dropped = h.dropped })
  ]

  -- A disconnection while the broker is reached empties the queue, whatever the client answers to the
  -- messages that it is given: a message that the client refuses is neither stored nor counted.
  pub disconnect_forgets :
      (stop : S → S) (s : Publisher S)
      → s.connected ≡ true
      → s.bootstrap_mode ≡ false
      → let s' = disconnect stop s in
        (s'.queue ≡ [])
        × (s'.storage ≡ stop s.storage)
        × (s'.dropped_message_count ≡ s.dropped_message_count)
  unfolding disconnect flush_queue
  disconnect_forgets stop s online normal =
      let h = flush_items-Emptied s.queue (record s { stopped = true; storage = stop s.storage }) in
      let open_still : (s.connected && not s.bootstrap_mode) ≡ true = ground arith in
      simp open_still (h.queue, h.storage, h.dropped)
