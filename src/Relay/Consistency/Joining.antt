-- ===== src/Relay/Consistency/Joining.antt =====
-- Pairing two connections keeps the references.
use the_grid.Prelude.{
  ℕ, ◌≡◌, refl, Bool, true, false, not, ◌||◌, Option, none, some, List, [], ◌∷◌, ◌==◌, ℕ_eq,
  list_eq, if◌then◌else◌, arith, Bool-cases, inl, inr, ◌∙◌, ap, is_none, list_beq_iff, nat_eq_iff,
}
use the_grid.Prelude.Dict.{lookup, remove, lookup-insert, lookup-remove}
use the_grid.Prelude.Result.{Result, ok, err}
use the_grid.Bytes.{Bytes}
use the_grid.Sessions.Handshake.{HandshakeHello}
use the_grid.Relay.State.{RelayServer, WaitingRoom, set_connection}
use the_grid.Relay.Routing.{
  drop_room, drop_rooms, is_over, cleanup_sessions, join_room, join_waiting_room, pair_with,
  join_counted, join_recorded, is_engaged,
}
use the_grid.Relay.RateLimiter.{WindowRateLimiter, retry_after, record_event}
use the_grid.Relay.Keeps.{if-keeps}
use the_grid.Relay.Consistency.{IsConsistent, remove_room-IsConsistent}
use the_grid.Relay.Consistency.Rooms.{other_creator, drop_rooms-IsConsistent}

apart :
    (c d : ℕ) (s : RelayServer)
    → (s.heap c).waiting_room_id ≡ none
    → is_none (s.heap d).waiting_room_id ≡ false
    → (d == c) ≡ false
unfolding is_none
apart c d s w waits = elim (Bool-cases (d == c)) [
  | inr other ↦ other
  | inl same ↦
      let at : d ≡ c = (nat_eq_iff d c).0 same in
      absurd (ground (arith, waits, ap (λ x. (s.heap x).waiting_room_id) at, w))
]

-- Two connections are paired: the creator's room has just been taken out, and the pair id is new.
pair_with-IsConsistent :
    (c now : ℕ) (pair_id id : Bytes) (hello : HandshakeHello) (room : WaitingRoom) (s : RelayServer)
    → IsConsistent s
    → (s.heap c).waiting_room_id ≡ none
    → (s.heap c).pair_id ≡ none
    → lookup id s.waiting_rooms ≡ some room
    → lookup pair_id s.routes ≡ none
    → IsConsistent
        (pair_with c now pair_id id hello room
          (record s { waiting_rooms = remove id s.waiting_rooms })).0
unfolding pair_with set_connection is_none
pair_with-IsConsistent c now pair_id id hello room s h w p found new =
    let (waits, free) = h.rooms id room found in
    let route = (pair_with c now pair_id id hello room s).1 in
    record {
      rooms = λ j r found'. ground (
        arith,
        w,
        p,
        waits,
        free,
        h.rooms j r (ground (arith, found', lookup-remove id j s.waiting_rooms)),
        other_creator room.room_creator id s h waits j r found',
        nat_eq_iff r.room_creator c,
      );
      routes = λ j r found'. elim (Bool-cases (pair_id == j)) [
        | inr old ↦ ground (
          arith,
          p,
          free,
          h.routes j r (ground (arith, found', old, lookup-insert pair_id j route s.routes)),
          nat_eq_iff r.route_creator c,
          nat_eq_iff r.route_joiner c,
          nat_eq_iff r.route_creator room.room_creator,
          nat_eq_iff r.route_joiner room.room_creator,
        )
        | inl this ↦
            let same : route ≡ r =
              ground (arith, found', this, lookup-insert pair_id j route s.routes) in
            let key : pair_id ≡ j = (list_beq_iff pair_id j).0 this in
            let left : room.room_creator ≡ r.route_creator = ap (λ x. x.route_creator) same in
            let right : c ≡ r.route_joiner = ap (λ x. x.route_joiner) same in
            rw (← left, ← right, ← key)
              (ground (
                arith,
                apart c room.room_creator s w (ap is_none waits),
                nat_eq_iff room.room_creator c,
              ))
      ];
    }

join_room-IsConsistent :
    (c now : ℕ) (pair_id id : Bytes) (hello : HandshakeHello) (found : Option WaitingRoom)
    (s : RelayServer)
    → IsConsistent s
    → (s.heap c).waiting_room_id ≡ none
    → (s.heap c).pair_id ≡ none
    → lookup id s.waiting_rooms ≡ found
    → lookup pair_id s.routes ≡ none
    → IsConsistent
        (join_room c now pair_id id hello found
          (record s { waiting_rooms = remove id s.waiting_rooms })).0
unfolding join_room
join_room-IsConsistent c now pair_id id hello none s h w p e new = remove_room-IsConsistent id s h
join_room-IsConsistent c now pair_id id hello (some room) s h w p e new =
    if-keeps IsConsistent
      ((s.heap room.room_creator).closed || not (is_none (s.heap room.room_creator).pair_id))
      (record s { waiting_rooms = remove id s.waiting_rooms }, none) _
      (remove_room-IsConsistent id s h)
      (pair_with-IsConsistent c now pair_id id hello room s h w p e new)

dropped-routes :
    (over : Bool) (id : Bytes) (room : WaitingRoom) (s : RelayServer)
    → (if over then drop_room id room s else s).routes ≡ s.routes
unfolding drop_room set_connection
dropped-routes true id room s = ground arith
dropped-routes false id room s = refl

drop_rooms-routes :
    (now : ℕ) (rooms : List (Bytes × WaitingRoom)) (s : RelayServer)
    → (drop_rooms now rooms s).routes ≡ s.routes
unfolding drop_rooms
drop_rooms-routes now [] s = refl
drop_rooms-routes now ((id, room) ∷ rooms) s =
    drop_rooms-routes now rooms (if is_over now room s then drop_room id room s else s)
    ∙ dropped-routes (is_over now room s) id room s

join_counted-IsConsistent :
    (c now : ℕ) (pair_id id : Bytes) (hello : HandshakeHello) (s : RelayServer)
    → IsConsistent s
    → lookup pair_id s.routes ≡ none
    → IsConsistent (join_counted c now pair_id id hello s).0
unfolding join_counted cleanup_sessions is_engaged is_none
join_counted-IsConsistent c now pair_id id hello s h new =
    let t = cleanup_sessions now s in
    let clean : IsConsistent t = drop_rooms-IsConsistent now s.waiting_rooms s h in
    let still : lookup pair_id t.routes ≡ none =
      ap (lookup pair_id) (drop_rooms-routes now s.waiting_rooms s) ∙ new in
    elim (Bool-cases (is_engaged (t.heap c))) [
      | inl busy ↦ rw busy clean
      | inr free ↦ rw free (
          join_room-IsConsistent c now pair_id id hello (lookup id t.waiting_rooms) t clean
            (ground (arith, free)) (ground (arith, free)) refl still)
    ]

join_recorded-IsConsistent :
    (c now : ℕ) (pair_id id : Bytes) (hello : HandshakeHello) (recorded : Result ℕ)
    (s : RelayServer)
    → IsConsistent s
    → lookup pair_id s.routes ≡ none
    → IsConsistent (join_recorded c now pair_id id hello recorded s).0
unfolding join_recorded
join_recorded-IsConsistent c now pair_id id hello (err e) s h new = h
join_recorded-IsConsistent c now pair_id id hello (ok retry) s h new =
    join_counted-IsConsistent c now pair_id id hello s h new

limit-IsConsistent :
    (s : RelayServer) (l : WindowRateLimiter)
    → IsConsistent s
    → IsConsistent (record s { join_limiter = l })
limit-IsConsistent s l h = record { rooms = h.rooms; routes = h.routes }

-- Pairing keeps the references, if the pair id that is drawn is new.
pub join_waiting_room-IsConsistent :
    (c now : ℕ) (pair_id id : Bytes) (hello : HandshakeHello) (s : RelayServer)
    → IsConsistent s
    → lookup pair_id s.routes ≡ none
    → IsConsistent (join_waiting_room c now pair_id id hello s).0
unfolding join_waiting_room
join_waiting_room-IsConsistent c now pair_id id hello s h new =
    let key = (s.heap c).peer_key in
    let (checked, retry) = retry_after s.join_limiter now key in
    let (limiter, recorded) = record_event checked now key in
    if-keeps IsConsistent (retry == 0)
      (join_recorded c now pair_id id hello recorded (record s { join_limiter = limiter }))
      (record s { join_limiter = checked }, ok none)
      (join_recorded-IsConsistent c now pair_id id hello recorded
        (record s { join_limiter = limiter }) (limit-IsConsistent s limiter h) new)
      (limit-IsConsistent s checked h)
