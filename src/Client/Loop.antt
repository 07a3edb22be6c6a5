-- ===== src/Client/Loop.antt =====
-- What `check_storage_loop` promises to its callers.
use autopush_rs.Prelude.{
  ℕ, zero, suc, ◌≤◌, ◌≡◌, refl, ◌∙◌, true, false, List, [], ◌∷◌, ◌++◌, arith, Bool-cases, inl, inr,
  map, ap, sym, append-nil, All, ◌⊎◌, is_empty,
}
use autopush_rs.Notification.{Notification, expired}
use autopush_rs.Protocol.{ServerMessage}
use autopush_rs.Services.{Services, CheckStorageResponse}
use autopush_rs.Client.{WebPushClient, Session, done, and_then, pure, and_then-eq-done}
use autopush_rs.Client.Storage.{
  do_check_storage, remove_messages, deliver, send_unexpired, unexpired, expired_topic_sort_keys,
  receive, take_batch, finish_reading, check_storage_advance, increment_storage,
  increment_if_flagged, check_msg_limit, loop_end, send_or_continue, check_storage_loop,
}
use autopush_rs.Client.Frame.{
  loop_round_checking, loop_round_finished, do_check_storage_client, client_of,
}

unexpired-All :
    (now : ℕ) (ms : List Notification) → All (λ m. expired m now ≡ false) (unexpired now ms)
unfolding unexpired
unexpired-All now [] = tt
unexpired-All now (m ∷ ms) = ground (arith, unexpired-All now ms)

module _ {s : Services} where
  -- The state in which the loop returns messages, and the one in which it returns none.
  abbrev pub LoopPost : List ServerMessage → Session s → Type 0
  LoopPost [] t =
      (t.client.flags.check_storage ≡ false) × (t.client.flags.increment_storage ≡ false)
  LoopPost (m ∷ ms) t =
      (t.client.flags.check_storage ≡ true) × (t.client.sent_from_storage ≤ s.msg_limit)

  increment_storage_flag :
      (t t' : Session s)
      → increment_storage s t ≡ done tt t'
      → (t'.client.flags.increment_storage ≡ false)
        × (t'.client.flags.check_storage ≡ t.client.flags.check_storage)
  unfolding increment_storage
  increment_storage_flag t t' h = ground arith

  loop_end-Post :
      (t t' : Session s) (smsgs : List ServerMessage)
      → t.client.flags.check_storage ≡ false
      → loop_end s t ≡ done smsgs t'
      → LoopPost smsgs t'
  unfolding loop_end increment_if_flagged increment_storage
  loop_end-Post t t' [] off h = ground arith
  loop_end-Post t t' (m ∷ ms) off h = absurd (ground arith)

  check_msg_limit-le :
      (t t' : Session s)
      → check_msg_limit s t ≡ done tt t'
      → (t'.client ≡ t.client) × (t.client.sent_from_storage ≤ s.msg_limit)
  unfolding check_msg_limit
  check_msg_limit-le t t' h = ground arith

  abbrev pub stored : Session s → List Notification
  stored t = t.client.ack_state.unacked_stored_notifs

  -- The messages go out in order, and each waits for its ack; the flag of the loop stays.
  abbrev pub Sends : List Notification → List ServerMessage → Session s → Session s → Type 0
  Sends ms smsgs t t' =
      (smsgs ≡ map ServerMessage.notification ms)
      × (stored t' ≡ stored t ++ ms)
      × (t'.client.flags.check_storage ≡ t.client.flags.check_storage)

  send_unexpired-Sends :
      (ms : List Notification) (t t' : Session s) (smsgs : List ServerMessage)
      → send_unexpired s ms t ≡ done smsgs t'
      → Sends ms smsgs t t'
  unfolding send_unexpired
  send_unexpired-Sends [] t t' smsgs h = ground (arith, append-nil (stored t))
  send_unexpired-Sends (m ∷ ms) t t' smsgs h = ground arith

  deliver-Sends :
      (r : CheckStorageResponse) (t t' : Session s) (smsgs : List ServerMessage)
      → deliver s r t ≡ done smsgs t'
      → Sends (unexpired (s.sec_since_epoch t.world).0 r.messages) smsgs t t'
  unfolding deliver
  deliver-Sends r t t' smsgs h =
      let now = (s.sec_since_epoch t.world).0 in
      let t1 : Session s = record t { world = (s.sec_since_epoch t.world).1 } in
      let keys = expired_topic_sort_keys s now r.messages in
      let (_, t2, e, k) = and_then-eq-done (remove_messages s t.client.uaid keys t1) _ h in
      send_unexpired-Sends (unexpired now r.messages) _ t' smsgs k

  -- What a batch has of the messages that storage gave: those which had not expired at the reading of
  -- the clock that follows the read.
  abbrev IsFresh : List Notification → CheckStorageResponse → Session s → Type 0
  IsFresh ms r t =
      (ms ≡ unexpired (s.sec_since_epoch t.world).0 r.messages)
      × All (λ m. expired m (s.sec_since_epoch t.world).0 ≡ false) ms

  -- How a round that ends with a result goes on from a response: it is empty, and the loop is over; or
  -- what of it is fresh is sent.
  abbrev Takes : CheckStorageResponse → List ServerMessage → Session s → Session s → Type 0
  Takes r smsgs t t' =
      ((smsgs ≡ []) × (stored t' ≡ stored t) × (t'.client.flags.check_storage ≡ false))
      ⊎ ((ms : List Notification) × Sends ms smsgs t t' × IsFresh ms r t)

  take_batch-Takes :
      (r : CheckStorageResponse) (t t' : Session s) (smsgs : List ServerMessage)
      → take_batch s r t ≡ done smsgs t'
      → Takes r smsgs t t'
  unfolding take_batch finish_reading
  take_batch-Takes r t t' smsgs h = elim (Bool-cases (is_empty r.messages)) [
    | inl e ↦ inl (ground arith)
    | inr e ↦
        let t1 : Session s = record t { client = receive r t.client } in
        let k : deliver s r t1 ≡ done smsgs t' = ground arith in
        inr (
          unexpired (s.sec_since_epoch t.world).0 r.messages,
          deliver-Sends r t1 t' smsgs k,
          (refl, unexpired-All (s.sec_since_epoch t.world).0 r.messages),
        )
  ]

  -- A round: the read of storage, and what is done with the response.
  abbrev Advances : List ServerMessage → Session s → Session s → Type 0
  Advances smsgs t t' =
      (r : CheckStorageResponse) × (t1 : Session s) × (do_check_storage s t ≡ done r t1)
      × (t1.client ≡ t.client)
      × Takes r smsgs t1 t'

  check_storage_advance-Advances :
      (t t' : Session s) (smsgs : List ServerMessage)
      → check_storage_advance s t ≡ done smsgs t'
      → Advances smsgs t t'
  unfolding check_storage_advance
  check_storage_advance-Advances t t' smsgs h =
      let (r, t1, e, k) = and_then-eq-done (do_check_storage s t) _ h in
      (r, t1, e, sym (client_of e) ∙ do_check_storage_client t, take_batch-Takes r t1 t' smsgs k)

  -- Rounds that send nothing, one after another.
  pub data Rounds : Session s → Session s → Type 0 where
    here : (t : Session s) → Rounds t t
    next :
        (t t1 t2 : Session s) → check_storage_advance s t ≡ done [] t1 → Rounds t1 t2 → Rounds t t2

  -- The batch comes from a read that follows such rounds, and the time is that of the clock right
  -- after the read.
  abbrev pub IsRead : List Notification → Session s → Type 0
  IsRead ms t =
      (t1 : Session s) × (r : CheckStorageResponse) × (t2 : Session s) × Rounds t t1
      × (do_check_storage s t1 ≡ done r t2)
      × (ms ≡ unexpired (s.sec_since_epoch t2.world).0 r.messages)
      × All (λ m. expired m (s.sec_since_epoch t2.world).0 ≡ false) ms

  -- What the loop sent: nothing, or the fresh messages of a read, appended to the notifications that
  -- wait for acks.
  abbrev pub Batch : List ServerMessage → Session s → Session s → Type 0
  Batch smsgs t t' =
      (ms : List Notification) × (smsgs ≡ map ServerMessage.notification ms)
      × (stored t' ≡ stored t ++ ms)
      × ((ms ≡ []) ⊎ IsRead ms t)

  Batch-nil : (t t' : Session s) → stored t' ≡ stored t → Batch [] t t'
  Batch-nil t t' e = ([], refl, ground (arith, append-nil (stored t)), inl refl)

  Takes-stored :
      (r : CheckStorageResponse) (t t' : Session s) → Takes r [] t t' → stored t' ≡ stored t
  Takes-stored r t t' (inl a) = a.1
  Takes-stored r t t' (inr ([], sends, u)) = sends.1 ∙ append-nil (stored t)
  Takes-stored r t t' (inr (m ∷ ms, sends, u)) = absurd (cc)

  Advances-stored : (t t' : Session s) → Advances [] t t' → stored t' ≡ stored t
  Advances-stored t t' (r, t1, e, same, takes) =
      Takes-stored r t1 t' takes
      ∙ ap (λ (c : WebPushClient). c.ack_state.unacked_stored_notifs) same

  -- A round before that sent nothing.
  IsRead-after :
      (ms : List Notification) (t t1 : Session s)
      → check_storage_advance s t ≡ done [] t1
      → ((ms ≡ []) ⊎ IsRead ms t1)
      → ((ms ≡ []) ⊎ IsRead ms t)
  IsRead-after ms t t1 e (inl nil) = inl nil
  IsRead-after ms t t1 e (inr (t2, r, t3, rounds, read, all, fresh)) =
      inr (t2, r, t3, next t t1 t2 e rounds, read, all, fresh)

  loop_end_result :
      (t t' : Session s) (smsgs : List ServerMessage)
      → t.client.flags.check_storage ≡ false
      → loop_end s t ≡ done smsgs t'
      → LoopPost smsgs t' × Batch smsgs t t'
  unfolding loop_end increment_if_flagged increment_storage
  loop_end_result t t' smsgs off h =
      let out : smsgs ≡ [] = ground arith in
      rw out (
        loop_end-Post t t' [] off (h ∙ ap (λ (x : List ServerMessage). done x t') out),
        Batch-nil t t' (ground arith),
      )

  -- The end of a round that has read messages, and of one that has not.
  sent_post :
      (t t1 t' : Session s) (r : CheckStorageResponse) (t2 : Session s) (b : ServerMessage)
      (bs smsgs : List ServerMessage)
      → t.client.flags.check_storage ≡ true
      → do_check_storage s t ≡ done r t2
      → t2.client ≡ t.client
      → Takes r (b ∷ bs) t2 t1
      → and_then (check_msg_limit s t1) (λ _. pure (b ∷ bs)) ≡ done smsgs t'
      → LoopPost smsgs t' × Batch smsgs t t'
  sent_post t t1 t' r t2 b bs smsgs on e same (inl a) h = absurd (cc)
  sent_post t t1 t' r t2 b bs smsgs on e same (inr (ms, sends, fresh)) h =
      let (_, t3, f, k) = and_then-eq-done (check_msg_limit s t1) _ h in
      let (kept, low) = check_msg_limit-le t1 t3 f in
      let out : smsgs ≡ b ∷ bs = ground arith in
      let acks = ap (λ (c : WebPushClient). c.ack_state.unacked_stored_notifs) same in
      let flag = ap (λ (c : WebPushClient). c.flags.check_storage) same in
      let world : t3 ≡ t' = ground arith in
      let waits =
        sym (ap stored world)
        ∙ ap (λ (c : WebPushClient). c.ack_state.unacked_stored_notifs) kept
        ∙ sends.1
        ∙ ap (λ (ns : List Notification). ns ++ ms) acks in
      rw out (ground arith, (ms, sends.0, waits, inr (t, r, t2, here t, e, fresh.0, fresh.1)))

  continue_post :
      (fuel : ℕ) (t t1 t' : Session s) (batch smsgs : List ServerMessage)
      → t.client.flags.check_storage ≡ true
      → check_storage_advance s t ≡ done batch t1
      → send_or_continue s (check_storage_loop s fuel) batch t1 ≡ done smsgs t'
      → (check_storage_loop s fuel t1 ≡ done smsgs t' → LoopPost smsgs t' × Batch smsgs t1 t')
      → LoopPost smsgs t' × Batch smsgs t t'
  unfolding send_or_continue
  continue_post fuel t t1 t' [] smsgs on a h ih =
      let (post, (ms, out, acks, source)) = ih h in
      let quiet = Advances-stored t t1 (check_storage_advance-Advances t t1 [] a) in
      (post, (ms, out, ground (arith, quiet), IsRead-after ms t t1 a source))
  continue_post fuel t t1 t' (b ∷ bs) smsgs on a h ih =
      let (r, t2, e, same, takes) = check_storage_advance-Advances t t1 (b ∷ bs) a in
      sent_post t t1 t' r t2 b bs smsgs on e same takes h

  -- The loop ends in one of two ways. Either nothing is sent and both flags of storage are off; or a batch was sent, within the limit on messages, with the flag still on. In
  -- each case what is sent is exactly what was appended to the unacked stored notifications. A batch
  -- is what had not expired, at the reading of the clock right after it, of a read of storage, which
  -- comes after rounds that sent nothing.
  pub check_storage_loop-post :
      (fuel : ℕ) (t t' : Session s) (smsgs : List ServerMessage)
      → check_storage_loop s fuel t ≡ done smsgs t'
      → LoopPost smsgs t' × Batch smsgs t t'
  unfolding check_storage_loop
  check_storage_loop-post zero t t' smsgs h = absurd (cc)
  check_storage_loop-post (suc fuel) t t' smsgs h = elim (Bool-cases t.client.flags.check_storage) [
    | inl e ↦
        let k = sym (loop_round_checking (check_storage_loop s fuel) t e) ∙ h in
        let (batch, t1, f, l) = and_then-eq-done (check_storage_advance s t) _ k in
        continue_post fuel t t1 t' batch smsgs e f l (check_storage_loop-post fuel t1 t' smsgs)
    | inr e ↦
        let k = sym (loop_round_finished (check_storage_loop s fuel) t e) ∙ h in
        loop_end_result t t' smsgs e k
  ]
