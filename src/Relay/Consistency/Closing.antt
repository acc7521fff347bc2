-- ===== src/Relay/Consistency/Closing.antt =====
-- The end of a route, and what runs over it, keep the references.
use the_grid.Prelude.{
  ℕ, ◌≡◌, refl, Bool, true, false, Option, none, some, List, [], ◌∷◌, ◌==◌, ℕ_eq, list_eq,
  if◌then◌else◌, arith, Bool-cases, inl, inr, sym, ◌∙◌, ap, option_is, list_beq_iff, nat_eq_iff,
  ltb,
}
use the_grid.Prelude.Dict.{lookup, remove, lookup-insert, lookup-remove}
use the_grid.Prelude.Result.{Result, ok, err}
use the_grid.Bytes.{Bytes}
use the_grid.Text.{Text, codes}
use the_grid.Protocol.Frames.{Frame}
use the_grid.Sessions.Types.{SessionRole, creator, joiner, SessionDirection}
use the_grid.Relay.State.{
  RelayServer, SessionRoute, set_connection, Action, lift, ◌>>=◌, ◌>>◌, modify, role_of,
}
use the_grid.Relay.Events.{send_event, try_send}
use the_grid.Relay.Checks.{route_for, mark_proof, data_route, close_frame, proof_frame, data_frame}
use the_grid.Relay.Routes.{
  leave_route, notify, end_route, close_route, refuse_late, deadline_passed, set_route, forward,
  mark_handshake_proof, route_session_data, close_session_route,
}
use the_grid.Relay.Routes.Delivery.{data_route-eq-ok, route_for-eq-ok}
use the_grid.Relay.Keeps.{
  Keeps, IgnoresQueue, queue, >>=-Keeps, lift-Keeps, send_event-Keeps, check-keeps, found-keeps,
}
use the_grid.Relay.Consistency.{IsConsistent, assign-IsConsistent}

pub queue-IsConsistent : (c : ℕ) → IgnoresQueue c IsConsistent
unfolding queue
queue-IsConsistent c outbound requested s h = assign-IsConsistent c _ s h refl refl

pub send-IsConsistent : (c : ℕ) (frame : Frame) → Keeps IsConsistent (send_event c frame)
send-IsConsistent c frame = send_event-Keeps IsConsistent c (queue-IsConsistent c) frame

notify-IsConsistent :
    (made : Result Frame) (source : Option ℕ) (cs : List ℕ) (s : RelayServer)
    → IsConsistent s
    → IsConsistent (notify made source cs s)
unfolding notify try_send
notify-IsConsistent (err e) source cs s h = h
notify-IsConsistent (ok frame) source [] s h = h
notify-IsConsistent (ok frame) source (c ∷ cs) s h =
    notify-IsConsistent (ok frame) source cs (if option_is source c then s else try_send c frame s)
      (elim (Bool-cases (option_is source c)) [
        | inl skipped ↦ rw skipped h
        | inr told ↦ rw told (send-IsConsistent c frame s h)
      ])

stranger :
    (c d : ℕ) (j id : Bytes) (s : RelayServer)
    → (s.heap c).pair_id ≡ some j
    → (s.heap d).pair_id ≡ some id
    → (id == j) ≡ false
    → (c == d) ≡ false
stranger c d j id s p q other = elim (Bool-cases (c == d)) [
  | inr differ ↦ differ
  | inl same ↦
      let at : c ≡ d = (nat_eq_iff c d).0 same in
      let names : some j ≡ some id = sym p ∙ ap (λ x. (s.heap x).pair_id) at ∙ q in
      absurd (ground (arith, names, other, list_beq_iff id j))
]

-- A route goes, and both its ends forget it.
leave-IsConsistent :
    (id : Bytes) (route : SessionRoute) (s : RelayServer)
    → IsConsistent s
    → lookup id s.routes ≡ some route
    → IsConsistent (
        leave_route route.route_joiner
          (leave_route route.route_creator (record s { routes = remove id s.routes })))
unfolding leave_route set_connection
leave-IsConsistent id route s h found =
    let (left, right, _) = h.routes id route found in
    record {
      rooms = λ j room waiting. ground (
        arith,
        h.rooms j room waiting,
        nat_eq_iff room.room_creator route.route_creator,
        nat_eq_iff room.room_creator route.route_joiner,
      );
      routes = λ j r kept.
          let there : lookup j s.routes ≡ some r =
            ground (arith, kept, lookup-remove id j s.routes) in
          let other : (id == j) ≡ false = ground (arith, kept, lookup-remove id j s.routes) in
          let (near, far, apart) = h.routes j r there in
          ground (
            arith,
            near,
            far,
            apart,
            stranger r.route_creator route.route_creator j id s near left other,
            stranger r.route_creator route.route_joiner j id s near right other,
            stranger r.route_joiner route.route_creator j id s far left other,
            stranger r.route_joiner route.route_joiner j id s far right other,
          );
    }

end_route-IsConsistent :
    (id : Bytes) (reason : Text) (source : Option ℕ) (found : Option SessionRoute) (s : RelayServer)
    → IsConsistent s
    → lookup id s.routes ≡ found
    → IsConsistent (end_route id reason source found (record s { routes = remove id s.routes }))
unfolding end_route
end_route-IsConsistent id reason source none s h e = record {
  rooms = h.rooms;
  routes = λ j r kept. h.routes j r (ground (arith, kept, lookup-remove id j s.routes));
}
end_route-IsConsistent id reason source (some route) s h e =
    notify-IsConsistent (close_frame id reason) source
      (route.route_creator ∷ route.route_joiner ∷ []) _ (leave-IsConsistent id route s h e)

pub close_route-IsConsistent :
    (id : Bytes) (reason : Text) (source : Option ℕ) (s : RelayServer)
    → IsConsistent s
    → IsConsistent (close_route id reason source s)
unfolding close_route
close_route-IsConsistent id reason source s h =
    end_route-IsConsistent id reason source (lookup id s.routes) s h refl

-- A route changes, but not its ends.
set_route-IsConsistent :
    (id : Bytes) (route changed : SessionRoute) (s : RelayServer)
    → IsConsistent s
    → lookup id s.routes ≡ some route
    → changed.route_creator ≡ route.route_creator
    → changed.route_joiner ≡ route.route_joiner
    → IsConsistent (set_route id changed s)
unfolding set_route
set_route-IsConsistent id route changed s h found a b = record {
  rooms = h.rooms;
  routes = λ j r kept. elim (Bool-cases (id == j)) [
    | inr other ↦ h.routes j r (ground (arith, kept, other, lookup-insert id j changed s.routes))
    | inl this ↦
        let same : changed ≡ r = ground (arith, kept, this, lookup-insert id j changed s.routes) in
        let key : id ≡ j = (list_beq_iff id j).0 this in
        rw (← same, ← key, a, b) (h.routes id route found)
  ];
}

forward-IsConsistent :
    (c : ℕ) (route : SessionRoute) (made : Result Frame) → Keeps IsConsistent (forward c route made)
unfolding forward
forward-IsConsistent c route made = search (>>=-Keeps, lift-Keeps, send-IsConsistent) depth 9

mark_proof-ends :
    (role : SessionRole) (route marked : SessionRoute)
    → mark_proof role route ≡ ok marked
    → (marked.route_creator ≡ route.route_creator) × (marked.route_joiner ≡ route.route_joiner)
unfolding mark_proof
mark_proof-ends creator route marked h = ground (arith, h)
mark_proof-ends joiner route marked h = ground (arith, h)

-- Past the deadline the route is closed, and before it nothing happens.
refuse_late-keeps :
    {B : Type 0} (late : Bool) (id : Bytes) (next : Action B) (s : RelayServer)
    → IsConsistent s
    → IsConsistent (next s).0
    → IsConsistent ((refuse_late late id >> next) s).0
unfolding refuse_late
refuse_late-keeps true id next s h k =
    close_route-IsConsistent id (codes "handshake_timeout") none s h
refuse_late-keeps false id next s h k = k

marked-IsConsistent :
    (c : ℕ) (id proof : Bytes) (route : SessionRoute) (role : SessionRole) (s : RelayServer)
    → IsConsistent s
    → lookup id s.routes ≡ some route
    → IsConsistent
        ((lift (mark_proof role route) >>= λ marked.
            modify (set_route id marked) >> forward c route (proof_frame id role proof))
          s).0
marked-IsConsistent c id proof route role s h found =
    found-keeps IsConsistent (mark_proof role route)
      (λ marked. modify (set_route id marked) >> forward c route (proof_frame id role proof)) s h
      (λ marked e.
        let (a, b) = mark_proof-ends role route marked e in
        forward-IsConsistent c route (proof_frame id role proof) (set_route id marked s)
          (set_route-IsConsistent id route marked s h found a b))

pub mark_handshake_proof-IsConsistent :
    (c now : ℕ) (id proof : Bytes) → Keeps IsConsistent (mark_handshake_proof c now id proof)
unfolding mark_handshake_proof deadline_passed
mark_handshake_proof-IsConsistent c now id proof s h =
    let rest : SessionRoute → SessionRole → Action (Unit {0}) = λ route role.
      lift (mark_proof role route) >>= λ marked.
      modify (set_route id marked) >> forward c route (proof_frame id role proof) in
    found-keeps IsConsistent (route_for c id s)
      (λ route. deadline_passed now id route >> (lift (role_of route c) >>= rest route)) s h
      (λ route e.
        refuse_late-keeps (ltb route.handshake_deadline now) id
          (lift (role_of route c) >>= rest route) s h
          (check-keeps IsConsistent (role_of route c) (rest route) s h (λ role.
            marked-IsConsistent c id proof route role s h (route_for-eq-ok c id s route e))))

pub route_session_data-IsConsistent :
    (c : ℕ) (id session_id : Bytes) (direction : SessionDirection) (counter : ℕ) (body : Bytes)
    → Keeps IsConsistent (route_session_data c id session_id direction counter body)
unfolding route_session_data
route_session_data-IsConsistent c id session_id direction counter body s h =
    let made = data_frame id session_id direction counter body in
    found-keeps IsConsistent (data_route c id session_id direction s)
      (λ bound. modify (set_route id bound) >> forward c bound made) s h
      (λ bound e.
        let (route, _, found, _, _, _, _, value) =
          data_route-eq-ok c id session_id direction s bound e in
        forward-IsConsistent c bound made (set_route id bound s) (
          set_route-IsConsistent id route bound s h found (ap (λ x. x.route_creator) value)
            (ap (λ x. x.route_joiner) value)))

pub close_session_route-IsConsistent :
    (c : ℕ) (id : Bytes) → Keeps IsConsistent (close_session_route c id)
unfolding close_session_route
close_session_route-IsConsistent c id s h =
    check-keeps IsConsistent (route_for c id s)
      (λ route. modify (close_route id (codes "peer_close") (some c))) s h
      (λ route. close_route-IsConsistent id (codes "peer_close") (some c) s h)
