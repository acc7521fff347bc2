-- ===== src/Relay/Routes/Delivery.antt =====
-- What a route delivers, and to whom.
use the_grid.Prelude.{
  ℕ, ◌≡◌, true, ◌||◌, not, some, ◌==◌, ℕ_eq, list_eq, option_is, is_none, arith, list_beq_iff, inl,
  inr, Option-cases, Bool-cases, ap, sym, ◌∙◌,
}
use the_grid.Prelude.Dict.{lookup}
use the_grid.Prelude.Result.{Result, ok, frame_error, invalid, >>=-eq-ok, raise_if-eq-ok}
use the_grid.Bytes.{Bytes}
use the_grid.Sessions.Types.{SessionDirection, SessionRole, same_direction}
use the_grid.Relay.State.{RelayServer, SessionRoute, active, role_of}
use the_grid.Relay.Checks.{route_for, bind_session, expected_direction, data_route}

pub route_for-eq-ok :
    (c : ℕ) (pair_id : Bytes) (s : RelayServer) (route : SessionRoute)
    → route_for c pair_id s ≡ ok route
    → lookup pair_id s.routes ≡ some route
unfolding route_for
route_for-eq-ok c pair_id s route h = ground (arith, h)

bind_session-eq-ok :
    (session_id : Bytes) (route bound : SessionRoute)
    → bind_session session_id route ≡ ok bound
    → (bound ≡ record route { session_id = some session_id })
      × ((is_none route.session_id || option_is route.session_id session_id) ≡ true)
unfolding bind_session is_none option_is
bind_session-eq-ok session_id route bound h = elim (Option-cases route.session_id) [
  | inl e ↦ ground (arith, h, e)
  | inr (x, e) ↦ elim (Bool-cases (x == session_id)) [
    | inr other ↦ absurd (ground (arith, h, e, other))
    | inl same ↦
        let path : route.session_id ≡ some session_id =
          e ∙ ap some ((list_beq_iff x session_id).0 same) in
        let kept : route ≡ bound = ground (arith, h, e, same) in
        (sym kept ∙ ap (λ o. record route { session_id = o }) path, ground (arith, e, same))
  ]
]

pub data_route-eq-ok :
    (c : ℕ) (pair_id session_id : Bytes) (direction : SessionDirection) (s : RelayServer)
    (bound : SessionRoute)
    → data_route c pair_id session_id direction s ≡ ok bound
    → (route : SessionRoute) × (role : SessionRole) × (lookup pair_id s.routes ≡ some route)
      × (active route ≡ true)
      × (role_of route c ≡ ok role)
      × (same_direction direction (expected_direction role) ≡ true)
      × ((is_none route.session_id || option_is route.session_id session_id) ≡ true)
      × (bound ≡ record route { session_id = some session_id })
unfolding data_route
data_route-eq-ok c pair_id session_id direction s bound h =
    let (route, e₁, h₁) = >>=-eq-ok (route_for c pair_id s) _ h in
    let (is_active, h₂) = raise_if-eq-ok (not (active route)) (frame_error invalid) _ h₁ in
    let (role, e₂, h₃) = >>=-eq-ok (role_of route c) _ h₂ in
    let (right, h₄) =
      raise_if-eq-ok (not (same_direction direction (expected_direction role)))
        (frame_error invalid) _ h₃ in
    let (value, fits) = bind_session-eq-ok session_id route bound h₄ in
    (
      route,
      role,
      route_for-eq-ok c pair_id s route e₁,
      ground (arith, is_active),
      e₂,
      ground (arith, right),
      fits,
      value,
    )
