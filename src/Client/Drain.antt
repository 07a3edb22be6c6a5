-- ===== src/Client/Drain.antt =====
-- What `check_storage_loop` needs of the database to end, and what is left for it to read.
pub mod Removal
pub mod Fetch
pub mod Termination
use autopush_rs.Prelude.{
  ℕ, ◌+◌, ◌≤◌, ◌<◌, ◌≡◌, Bool, true, false, Option, none, some, List, Text, length, is_empty,
  or_else, contains, text_key, All, if◌then◌else◌,
}
use autopush_rs.Notification.{Notification, chidmessageid}
use autopush_rs.Services.{Services, Result, ok, FetchMessageResponse}
use autopush_rs.Client.{Session}

-- A database to which nobody else writes meanwhile, with what each user has in it. A fetch of topic
-- messages returns stored ones of the user, which have no sort key, and a removal deletes what it
-- names; a fetch of timestamp messages returns how far it has read, and fewer are pending from there.
-- What a call for one user does to another one does not matter.
pub record IsDrainable (s : Services) : Type 0 where
  pub topic_keys : s.World → ℕ → List Text
  pub pending : s.World → ℕ → Option ℕ → ℕ
  pub pending_all : (w : s.World) (uaid : ℕ) (p : Option ℕ) → pending w uaid p ≤ pending w uaid none
  pub clock :
      (w : s.World) (uaid : ℕ) (p : Option ℕ)
      → (topic_keys (s.sec_since_epoch w).1 uaid ≡ topic_keys w uaid)
        × (pending (s.sec_since_epoch w).1 uaid p ≡ pending w uaid p)
  pub fetch_topic :
      (uaid limit : ℕ) (w w' : s.World) (r : FetchMessageResponse)
      → s.fetch_topic_messages uaid limit w ≡ (ok r, w')
      → (topic_keys w' uaid ≡ topic_keys w uaid)
        × ((p : Option ℕ) → pending w' uaid p ≡ pending w uaid p)
        × All
            (λ m.
              (m.sortkey_timestamp ≡ none)
              × (contains (topic_keys w uaid) (chidmessageid s.as_hyphenated 0 m) ≡ true))
            r.messages
  pub fetch_timestamp :
      (uaid limit : ℕ) (p : Option ℕ) (w w' : s.World) (r : FetchMessageResponse)
      → s.fetch_timestamp_messages uaid p limit w ≡ (ok r, w')
      → is_empty r.messages ≡ false
      → (q : ℕ) × (r.timestamp ≡ some q) × (pending w' uaid (some q) < pending w uaid p)
  pub remove :
      (uaid : ℕ) (key : Text) (w w' : s.World)
      → s.remove_message uaid key w ≡ (ok tt, w')
      → (length (topic_keys w' uaid) ≤ length (topic_keys w uaid))
        × (contains (topic_keys w uaid) key ≡ true
            → length (topic_keys w' uaid) < length (topic_keys w uaid))
        × ((p : Option ℕ) → pending w' uaid p ≤ pending w uaid p)

module _ {s : Services} (d : IsDrainable s) where
  -- What is left to read for a client.
  abbrev pub left : Session s → ℕ
  left t =
      if t.client.flags.include_topic
      then length (d.topic_keys t.world t.client.uaid) + d.pending t.world t.client.uaid none + 1
      else d.pending t.world t.client.uaid
          (or_else t.client.ack_state.unacked_stored_highest t.client.current_timestamp)

  -- A stored topic message of the user.
  abbrev pub IsTopic : ℕ → s.World → Notification → Type 0
  IsTopic uaid w m =
      (m.sortkey_timestamp ≡ none)
      × (contains (d.topic_keys w uaid) (chidmessageid s.as_hyphenated 0 m) ≡ true)
