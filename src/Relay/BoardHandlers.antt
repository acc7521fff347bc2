-- ===== src/Relay/BoardHandlers.antt =====
-- The board of relay.py: its calls, its events and the handlers of its frames.
use the_grid.Prelude.{
  ℕ, suc, ◌-◌, ◌*◌, ◌/◌, Bool, true, false, ◌&&◌, not, Option, none, some, List, [], ◌∷◌, length,
  drop, ltb, leb, ◌==◌, ℕ_eq, list_eq, if◌then◌else◌, option_is, is_none,
}
use the_grid.Prelude.Dict.{lookup}
use the_grid.Prelude.Result.{
  Error, Result, ok, err, frame_error, invalid, too_large, board_store_error, duplicate_message,
}
use the_grid.Bytes.{Bytes}
use the_grid.Text.{Text, codes}
use the_grid.Hub.Store.{
  EncryptedBoardRecord, StoredBoardRecord, BoardPostResult, make_encrypted_board_record,
  board_capacity, board_cooldown_seconds, post, list_current,
}
use the_grid.Protocol.Frames.{
  Value, boolean, number, string, array, Items, end, item, Frame, make_frame, require_frame_int,
  require_frame_bytes, default_maximum,
}
use the_grid.Protocol.Json.{encode_outer_frame}
use the_grid.Relay.State.{
  RelayServer, Action, ◌>>=◌, ◌>>◌, return, lift, get, modify, raise_if, set_connection,
}
use the_grid.Relay.Events.{send_response}
use the_grid.Relay.Lifecycle.{stored_record_mapping, broadcast_board_update, broadcast_board_remove}

-- `board_list` of the server: the removed messages are announced, then the records and the sequence.
unfoldable pub board_list : ℕ → Action (List StoredBoardRecord × ℕ)
unfolding broadcast_board_remove
board_list now = do
  s ← get
  modify (λ u. record u { board = (list_current s.board (now / 1000)).0 })
  (records, removed) ← lift ((list_current s.board (now / 1000)).1)
  broadcast_board_remove removed
  after ← get
  return (records, after.board_sequence)

unfoldable pub announce_stored : Bool → Option StoredBoardRecord → Action (Unit {0})
unfolding broadcast_board_update
announce_stored true (some stored) = broadcast_board_update stored
announce_stored true none = return tt
announce_stored false stored = return tt

-- `board_post` of the server
unfoldable pub board_post : ℕ → ℕ → EncryptedBoardRecord → Action BoardPostResult
unfolding announce_stored broadcast_board_remove option_is
board_post c now encrypted = do
  s ← get
  raise_if (not (option_is ((s.heap c).display_token) encrypted.display_token))
      (frame_error invalid)
  modify (λ u. record u { board = (post s.board encrypted (now / 1000)).0 })
  result ← lift ((post s.board encrypted (now / 1000)).1)
  broadcast_board_remove result.removed_message_ids
  announce_stored result.accepted result.stored
  return result

-- `subscribe_board` of the server
unfoldable pub subscribe_board : ℕ → ℕ → RelayServer → RelayServer × Bool
unfolding set_connection
subscribe_board c after_sequence s =
    if after_sequence == s.board_sequence
    then (set_connection c (record (s.heap c) { board_subscribed = true }) s, true)
    else (s, false)

optional_int : Frame → Text → ℕ → Result (Option ℕ)
unfolding lookup require_frame_int
optional_int frame name maximum = elim (lookup name frame) [
  | none ↦ ok none
  | some value ↦ elim (require_frame_int frame name 0 maximum) [
    | err e ↦ err e
    | ok n ↦ ok (some n)
  ]
]

or_zero : Option ℕ → ℕ
or_zero none = 0
or_zero (some n) = n

append_item : Items → Value → Items
append_item end value = item value end
append_item (item v items) value = item v (append_item items value)

page_fields : ℕ → Bool → ℕ → ℕ → Bool → Items → Frame
page_fields sequence restart offset next_offset done records =
    (codes "sequence", number sequence)
    ∷ (codes "restart", boolean restart)
    ∷ (codes "offset", number offset)
    ∷ (codes "next_offset", number next_offset)
    ∷ (codes "done", boolean done)
    ∷ (codes "records", array records)
    ∷ []

-- Whether the candidate frame of the paging loop can be encoded; too large is false, and another
-- error goes on.
candidate_fits : ℕ → Text → ℕ → ℕ → ℕ → Bool → Items → Result Bool
unfolding make_frame page_fields encode_outer_frame
candidate_fits max_bytes request_id sequence offset next done records =
    elim (make_frame (codes "board_list") (
      (codes "request_id", string request_id)
      ∷ page_fields sequence false offset next done records)) [
        | err e ↦ err e
        | ok candidate ↦ elim (encode_outer_frame candidate max_bytes) [
          | ok encoded ↦ ok true
          | err (frame_error too_large) ↦ ok false
          | err e ↦ err e
        ]
      ]

-- The paging loop: the records that follow `page`, as long as the frame fits. `next` counts the
-- records before them.
unfoldable pub fill_page :
    ℕ → Text → ℕ → ℕ → ℕ → List StoredBoardRecord → Items → Result (Items × ℕ)
unfolding candidate_fits append_item stored_record_mapping
fill_page max_bytes request_id sequence offset next [] page = ok (page, next)
fill_page max_bytes request_id sequence offset next (stored ∷ records) page =
    let candidate = append_item page (stored_record_mapping stored) in
    let more = fill_page max_bytes request_id sequence offset (suc next) records candidate in
    elim (candidate_fits max_bytes request_id sequence offset (suc next) (records_end records)
      candidate) [ err e ↦ err e | ok true ↦ more | ok false ↦ ok (page, next) ]
  where
    records_end : List StoredBoardRecord → Bool
    records_end [] = true
    records_end (r ∷ rest) = false

unfoldable pub handle_board_list : ℕ → ℕ → Frame → Text → Action Bool
unfolding optional_int or_zero board_list page_fields fill_page send_response
handle_board_list c now frame request_id = do
  wanted ← lift (optional_int frame (codes "offset") board_capacity)
  snapshot ← lift (optional_int frame (codes "snapshot_sequence") default_maximum)
  (records, sequence) ← board_list now
  let offset = or_zero wanted
  if not (is_none snapshot) && not (option_is snapshot sequence)
      then (do
        send_response c request_id (codes "board_list") (page_fields sequence true 0 0 false end)
        return true)
      else (do
        raise_if (ltb (length records) offset) (frame_error invalid)
        s ← get
        (page, next) ← lift (
            fill_page s.limits.max_frame_bytes request_id sequence offset offset
              (drop offset records) end)
        raise_if (ltb next (length records) && next == offset) (frame_error too_large)
        send_response c request_id (codes "board_list")
            (page_fields sequence false offset next (leb (length records) next) page)
        return true)

unfoldable pub handle_board_subscribe : ℕ → Frame → Text → Action Bool
unfolding require_frame_int subscribe_board send_response
handle_board_subscribe c frame request_id = do
  after ← lift (require_frame_int frame (codes "after_sequence") 0 default_maximum)
  s ← get
  modify (λ u. (subscribe_board c after u).0)
  send_response c request_id (codes "board_subscribe") (
      (codes "ok", boolean (subscribe_board c after s).1)
      ∷ (codes "sequence", number s.board_sequence)
      ∷ [])
  return true

record_of_fields : Result Bytes → Result Bytes → Result Bytes → Result EncryptedBoardRecord
record_of_fields (err e) token ciphertext = err e
record_of_fields (ok id) (err e) ciphertext = err e
record_of_fields (ok id) (ok token) (err e) = err e
record_of_fields (ok id) (ok token) (ok ciphertext) =
    make_encrypted_board_record id token ciphertext

unfoldable pub board_record : Frame → Result EncryptedBoardRecord
unfolding record_of_fields require_frame_bytes
board_record frame =
    record_of_fields (require_frame_bytes frame (codes "message_id") (some 16) none)
      (require_frame_bytes frame (codes "display_token") (some 16) none)
      (require_frame_bytes frame (codes "ciphertext") none (some (8 * 1024)))

unfoldable pub answer_post : ℕ → Text → Frame → Action Bool
unfolding send_response
answer_post c request_id fields = do
  send_response c request_id (codes "board_post") fields
  return true

-- The answer to a post that the board did not raise on.
unfoldable pub answer_result : ℕ → ℕ → Text → BoardPostResult → Action Bool
unfolding answer_post or_zero
answer_result c now request_id result =
    if result.accepted
    then answer_post c request_id
        ((codes "ok", boolean true) ∷ (codes "remaining", number board_cooldown_seconds) ∷ [])
    else answer_post c request_id (
        (codes "ok", boolean false)
        ∷ (codes "reason", string (codes "cooldown"))
        ∷ (codes "remaining", number (or_zero result.next_post_at - now / 1000))
        ∷ [])

unfoldable pub is_duplicate : Error → Bool
is_duplicate (board_store_error duplicate_message) = true
is_duplicate e = false

abbrev pub duplicate_fields : Frame
duplicate_fields =
    (codes "ok", boolean false)
    ∷ (codes "reason", string (codes "duplicate_message"))
    ∷ (codes "remaining", number 0)
    ∷ []

-- The answer to what `board_post` returned or raised: a duplicate is answered, other errors go on.
unfoldable pub settle :
    ℕ → ℕ → Text → RelayServer × Result BoardPostResult → RelayServer × Result Bool
unfolding answer_result answer_post is_duplicate
settle c now request_id (s, ok result) = answer_result c now request_id result s
settle c now request_id (s, err e) =
    if is_duplicate e then answer_post c request_id duplicate_fields s else (s, err e)

unfoldable pub handle_board_post : ℕ → ℕ → Frame → Text → Action Bool
unfolding board_record board_post settle
handle_board_post c now frame request_id = do
  encrypted ← lift (board_record frame)
  λ s. settle c now request_id (board_post c now encrypted s)
