-- ===== src/Relay/Consistency/Rooms.antt =====
-- Opening and closing a waiting room keep the references.
use the_grid.Prelude.{
  ℕ, ◌≡◌, refl, false, ◌||◌, Option, none, some, List, [], ◌∷◌, ◌==◌, ℕ_eq, list_eq, if◌then◌else◌,
  arith, Bool-cases, inl, inr, sym, ◌∙◌, ap, is_none, option_is, option_is-eq, option_is-eq,
  list_beq_iff, nat_eq_iff,
}
use the_grid.Prelude.Dict.{lookup, insert, remove, lookup-insert, lookup-remove}
use the_grid.Bytes.{Bytes}
use the_grid.Sessions.Handshake.{HandshakeHello}
use the_grid.Relay.State.{RelayServer, WaitingRoom, set_connection}
use the_grid.Relay.Routing.{
  drop_room, drop_rooms, is_over, cleanup_sessions, create_waiting_room, cancel_waiting_room,
  cancel_own, cancel_room, forget_room, is_engaged, is_taken,
}
use the_grid.Relay.Consistency.{IsConsistent, remove_room-IsConsistent}

-- A connection forgets its room when no room has it as its creator.
forget-IsConsistent :
    (c : ℕ) (s : RelayServer)
    → IsConsistent s
    → ((id : Bytes) (room : WaitingRoom)
        → lookup id s.waiting_rooms ≡ some room
        → (room.room_creator == c) ≡ false)
    → IsConsistent (set_connection c (record (s.heap c) { waiting_room_id = none }) s)
unfolding set_connection
forget-IsConsistent c s h gone = record {
  rooms = λ id room found. ground (arith, gone id room found, h.rooms id room found);
  routes = λ id route found. ground (
    arith,
    h.routes id route found,
    nat_eq_iff route.route_creator c,
    nat_eq_iff route.route_joiner c,
  );
}

-- What is left of the rooms when the one that the connection refers to goes.
pub other_creator :
    (c : ℕ) (id : Bytes) (s : RelayServer)
    → IsConsistent s
    → (s.heap c).waiting_room_id ≡ some id
    → (j : Bytes) (room : WaitingRoom) → lookup j (remove id s.waiting_rooms) ≡ some room
    → (room.room_creator == c) ≡ false
other_creator c id s h w j room found = elim (Bool-cases (room.room_creator == c)) [
  | inr other ↦ other
  | inl same ↦
      let (waits, _) = h.rooms j room (ground (arith, found, lookup-remove id j s.waiting_rooms)) in
      let at : room.room_creator ≡ c = (nat_eq_iff room.room_creator c).0 same in
      let names : some j ≡ some id = sym waits ∙ ap (λ x. (s.heap x).waiting_room_id) at ∙ w in
      absurd (ground (arith, found, lookup-remove id j s.waiting_rooms, list_beq_iff id j, names))
]

cut_room-IsConsistent :
    (c : ℕ) (id : Bytes) (s : RelayServer)
    → IsConsistent s
    → (s.heap c).waiting_room_id ≡ some id
    → IsConsistent (
        set_connection c
          (record (s.heap c) { waiting_room_id = none })
          (record s { waiting_rooms = remove id s.waiting_rooms }))
cut_room-IsConsistent c id s h w =
    forget-IsConsistent c (record s { waiting_rooms = remove id s.waiting_rooms })
      (remove_room-IsConsistent id s h) (other_creator c id s h w)

pub drop_room-IsConsistent :
    (id : Bytes) (room : WaitingRoom) (s : RelayServer)
    → IsConsistent s
    → IsConsistent (drop_room id room s)
unfolding drop_room option_is
drop_room-IsConsistent id room s h =
    elim (Bool-cases (option_is (s.heap room.room_creator).waiting_room_id id)) [
      | inr other ↦ rw other (remove_room-IsConsistent id s h)
      | inl same ↦ rw same (
          cut_room-IsConsistent room.room_creator id s h
            (option_is-eq (s.heap room.room_creator).waiting_room_id id same))
    ]

pub drop_rooms-IsConsistent :
    (now : ℕ) (rooms : List (Bytes × WaitingRoom)) (s : RelayServer)
    → IsConsistent s
    → IsConsistent (drop_rooms now rooms s)
unfolding drop_rooms
drop_rooms-IsConsistent now [] s h = h
drop_rooms-IsConsistent now ((id, room) ∷ rooms) s h =
    drop_rooms-IsConsistent now rooms (if is_over now room s then drop_room id room s else s)
      (elim (Bool-cases (is_over now room s)) [
        | inl over ↦ rw over (drop_room-IsConsistent id room s h)
        | inr stays ↦ rw stays h
      ])

-- The room that a connection refers to is not its own, or is gone.
no_creator :
    (c : ℕ) (id : Bytes) (s : RelayServer)
    → IsConsistent s
    → (s.heap c).waiting_room_id ≡ some id
    → ((room : WaitingRoom)
        → lookup id s.waiting_rooms ≡ some room
        → (room.room_creator == c) ≡ false)
    → (j : Bytes) (room : WaitingRoom) → lookup j s.waiting_rooms ≡ some room
    → (room.room_creator == c) ≡ false
no_creator c id s h w own j room found = elim (Bool-cases (room.room_creator == c)) [
  | inr other ↦ other
  | inl same ↦
      let (waits, _) = h.rooms j room found in
      let at : room.room_creator ≡ c = (nat_eq_iff room.room_creator c).0 same in
      let names : some j ≡ some id = sym waits ∙ ap (λ x. (s.heap x).waiting_room_id) at ∙ w in
      let key : j ≡ id = ground (arith, names) in
      own room (ap (λ k. lookup k s.waiting_rooms) (sym key) ∙ found)
]

cancel_room-IsConsistent :
    (c : ℕ) (id : Bytes) (found : Option WaitingRoom) (s : RelayServer)
    → IsConsistent s
    → (s.heap c).waiting_room_id ≡ some id
    → lookup id s.waiting_rooms ≡ found
    → IsConsistent (cancel_room c id found s).0
unfolding cancel_room forget_room
cancel_room-IsConsistent c id none s h w e =
    forget-IsConsistent c s h (no_creator c id s h w (λ room found. ground (arith, e, found)))
cancel_room-IsConsistent c id (some room) s h w e = elim (Bool-cases (room.room_creator == c)) [
  | inl own ↦ rw own (cut_room-IsConsistent c id s h w)
  | inr other ↦ rw other (
      forget-IsConsistent c s h
        (no_creator c id s h w (λ r found. ground (arith, e, found, other))))
]

cancel_own-IsConsistent :
    (c : ℕ) (own : Option Bytes) (s : RelayServer)
    → IsConsistent s
    → (s.heap c).waiting_room_id ≡ own
    → IsConsistent (cancel_own c own s).0
unfolding cancel_own
cancel_own-IsConsistent c none s h w = h
cancel_own-IsConsistent c (some id) s h w =
    cancel_room-IsConsistent c id (lookup id s.waiting_rooms) s h w refl

pub cancel_waiting_room-IsConsistent :
    (c : ℕ) (s : RelayServer) → IsConsistent s → IsConsistent (cancel_waiting_room c s).0
unfolding cancel_waiting_room
cancel_waiting_room-IsConsistent c s h =
    cancel_own-IsConsistent c (s.heap c).waiting_room_id s h refl

open_room-IsConsistent :
    (c : ℕ) (id : Bytes) (room : WaitingRoom) (s : RelayServer)
    → IsConsistent s
    → (s.heap c).waiting_room_id ≡ none
    → (s.heap c).pair_id ≡ none
    → room.room_creator ≡ c
    → IsConsistent (
        set_connection c
          (record (s.heap c) { waiting_room_id = some id })
          (record s { waiting_rooms = insert id room s.waiting_rooms }))
unfolding set_connection
open_room-IsConsistent c id room s h w p own = record {
  rooms = λ j r found. ground (
    arith,
    found,
    own,
    w,
    p,
    lookup-insert id j room s.waiting_rooms,
    list_beq_iff id j,
    h.rooms j r,
    nat_eq_iff r.room_creator c,
  );
  routes = λ j r found.
      ground
        (arith, p, h.routes j r found, nat_eq_iff r.route_creator c, nat_eq_iff r.route_joiner c);
}

-- A connection that waits for nobody opens a room.
pub create_waiting_room-IsConsistent :
    (c now : ℕ) (id : Bytes) (hello : HandshakeHello) (s : RelayServer)
    → IsConsistent s
    → IsConsistent (create_waiting_room c now id hello s).0
unfolding create_waiting_room cleanup_sessions is_engaged is_none
create_waiting_room-IsConsistent c now id hello s h =
    let t = cleanup_sessions now s in
    let clean : IsConsistent t = drop_rooms-IsConsistent now s.waiting_rooms s h in
    elim (Bool-cases (is_engaged (t.heap c) || is_taken id t)) [
      | inl busy ↦ rw busy clean
      | inr free ↦
          rw free (
            open_room-IsConsistent c id _ t clean (ground (arith, free)) (ground (arith, free))
              refl)
    ]
