-- ===== src/Relay/Consistency/Serving.antt =====
-- The handlers of the board keep the references.
use the_grid.Prelude.{
  ℕ, refl, Bool, true, false, Option, none, some, List, [], ◌∷◌, ◌==◌, ℕ_eq, list_eq,
}
use the_grid.Prelude.Result.{Result, ok, err}
use the_grid.Bytes.{Bytes}
use the_grid.Text.{Text}
use the_grid.Hub.Store.{BoardPostResult, StoredBoardRecord, EncryptedBoardRecord}
use the_grid.Protocol.Frames.{Frame}
use the_grid.Relay.State.{RelayServer}
use the_grid.Relay.Lifecycle.{
  broadcast_board_update, broadcast_board_remove, announce_removed, next_sequence,
}
use the_grid.Relay.BoardHandlers.{
  board_list, announce_stored, board_post, subscribe_board, handle_board_list,
  handle_board_subscribe, answer_post, answer_result, settle, is_duplicate, duplicate_fields,
  board_record, handle_board_post,
}
use the_grid.Relay.Keeps.{
  Keeps, >>=-Keeps, lift-Keeps, return-Keeps, get-Keeps, modify-Keeps, if-Keeps, check-keeps,
  if-keeps,
}
use the_grid.Relay.Consistency.{IsConsistent, assign-IsConsistent}
use the_grid.Relay.Consistency.Running.{
  board-IsConsistent, sequence-IsConsistent, respond-IsConsistent, broadcast-IsConsistent,
}

update-IsConsistent :
    (stored : StoredBoardRecord) → Keeps IsConsistent (broadcast_board_update stored)
unfolding broadcast_board_update next_sequence
update-IsConsistent stored =
    search
      (
        >>=-Keeps, lift-Keeps, get-Keeps, modify-Keeps, sequence-IsConsistent,
        broadcast-IsConsistent,
      )
      depth 20

pub remove-IsConsistent :
    (message_ids : List Bytes) → Keeps IsConsistent (broadcast_board_remove message_ids)
unfolding broadcast_board_remove announce_removed next_sequence
remove-IsConsistent [] = λ s h. h
remove-IsConsistent (id ∷ message_ids) =
    search
      (
        >>=-Keeps, lift-Keeps, get-Keeps, modify-Keeps, sequence-IsConsistent,
        broadcast-IsConsistent,
      )
      depth 20

announce-IsConsistent :
    (accepted : Bool) (stored : Option StoredBoardRecord)
    → Keeps IsConsistent (announce_stored accepted stored)
unfolding announce_stored
announce-IsConsistent true (some stored) = update-IsConsistent stored
announce-IsConsistent true none = λ s h. h
announce-IsConsistent false stored = λ s h. h

board_list-IsConsistent : (now : ℕ) → Keeps IsConsistent (board_list now)
unfolding board_list
board_list-IsConsistent now =
    search
      (
        >>=-Keeps, lift-Keeps, get-Keeps, return-Keeps, modify-Keeps, board-IsConsistent,
        remove-IsConsistent,
      )
      depth 20

board_post-IsConsistent :
    (c now : ℕ) (r : EncryptedBoardRecord) → Keeps IsConsistent (board_post c now r)
unfolding board_post
board_post-IsConsistent c now r =
    search
      (
        >>=-Keeps, lift-Keeps, get-Keeps, return-Keeps, modify-Keeps, board-IsConsistent,
        remove-IsConsistent, announce-IsConsistent,
      )
      depth 30

subscribe-IsConsistent :
    (c after : ℕ) (s : RelayServer) → IsConsistent s → IsConsistent (subscribe_board c after s).0
unfolding subscribe_board
subscribe-IsConsistent c after s h =
    if-keeps IsConsistent (after == s.board_sequence) (_, true) (s, false)
      (assign-IsConsistent c (record (s.heap c) { board_subscribed = true }) s h refl refl) h

pub list-IsConsistent :
    (c now : ℕ) (frame : Frame) (request_id : Text)
    → Keeps IsConsistent (handle_board_list c now frame request_id)
unfolding handle_board_list
list-IsConsistent c now frame request_id =
    search
      (
        >>=-Keeps, lift-Keeps, get-Keeps, return-Keeps, if-Keeps, board_list-IsConsistent,
        respond-IsConsistent,
      )
      depth 40

pub subscription-IsConsistent :
    (c : ℕ) (frame : Frame) (request_id : Text)
    → Keeps IsConsistent (handle_board_subscribe c frame request_id)
unfolding handle_board_subscribe
subscription-IsConsistent c frame request_id =
    search
      (
        >>=-Keeps, lift-Keeps, get-Keeps, return-Keeps, modify-Keeps, subscribe-IsConsistent,
        respond-IsConsistent,
      )
      depth 30

answer_post-IsConsistent :
    (c : ℕ) (request_id : Text) (fields : Frame)
    → Keeps IsConsistent (answer_post c request_id fields)
unfolding answer_post
answer_post-IsConsistent c request_id fields =
    search (>>=-Keeps, return-Keeps, respond-IsConsistent) depth 9

answer_result-IsConsistent :
    (c now : ℕ) (request_id : Text) (result : BoardPostResult)
    → Keeps IsConsistent (answer_result c now request_id result)
unfolding answer_result
answer_result-IsConsistent c now request_id result =
    search (if-Keeps, answer_post-IsConsistent) depth 9

settle-IsConsistent :
    (c now : ℕ) (request_id : Text) (done : RelayServer × Result BoardPostResult)
    → IsConsistent done.0
    → IsConsistent (settle c now request_id done).0
unfolding settle
settle-IsConsistent c now request_id (s, ok result) h =
    answer_result-IsConsistent c now request_id result s h
settle-IsConsistent c now request_id (s, err e) h =
    if-keeps IsConsistent (is_duplicate e) (answer_post c request_id duplicate_fields s) (s, err e)
      (answer_post-IsConsistent c request_id duplicate_fields s h) h

pub post-IsConsistent :
    (c now : ℕ) (frame : Frame) (request_id : Text)
    → Keeps IsConsistent (handle_board_post c now frame request_id)
unfolding handle_board_post
post-IsConsistent c now frame request_id s h =
    check-keeps IsConsistent (board_record frame)
      (λ r t. settle c now request_id (board_post c now r t)) s h
      (λ r.
        settle-IsConsistent c now request_id (board_post c now r s)
          (board_post-IsConsistent c now r s h))
