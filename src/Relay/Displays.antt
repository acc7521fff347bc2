-- ===== src/Relay/Displays.antt =====
-- The reservations of display tokens in relay.py.
use the_grid.Prelude.{
  ℕ, ◌+◌, Bool, true, false, not, Option, none, some, leb, ℕ_eq, list_eq, if◌then◌else◌, option_is,
}
use the_grid.Prelude.Dict.{lookup, insert, retain}
use the_grid.Bytes.{Bytes}
use the_grid.Relay.State.{DisplayReservation, RelayServer}

is_lapsed : ℕ → DisplayReservation → Bool
is_lapsed now r = elim (r.connection) [ some c ↦ false | none ↦ leb r.expires_at now ]

-- `_prune_reservations`
unfoldable pub prune_reservations : ℕ → RelayServer → RelayServer
unfolding retain is_lapsed
prune_reservations now s = record s {
  reservations = retain (λ _ r. not (is_lapsed now r)) s.reservations;
}

unfoldable pub lease : ℕ → ℕ → Bytes → RelayServer → RelayServer
unfolding insert
lease c now token s = record s {
  reservations =
      insert token
        (record { connection = some c; expires_at = now + s.limits.display_lease_timeout })
        s.reservations;
}

-- `reserve_display` with the reservation that the token has.
unfoldable pub reserve_over :
    ℕ → ℕ → Bytes → Option DisplayReservation → RelayServer → RelayServer × Bool
unfolding lease option_is
reserve_over c now token none s = (lease c now token s, true)
reserve_over c now token (some existing) s =
    if option_is existing.connection c then (lease c now token s, true) else (s, false)

unfoldable pub reserve_display : ℕ → ℕ → Bytes → RelayServer → RelayServer × Bool
unfolding prune_reservations reserve_over lookup
reserve_display c now token s =
    let pruned = prune_reservations now s in
    reserve_over c now token (lookup token pruned.reservations) pruned

-- The reservation of the connection's own token, if it holds it.
unfoldable pub own_reservation : ℕ → RelayServer → Option (Bytes × DisplayReservation)
unfolding lookup option_is
own_reservation c s = elim ((s.heap c).display_token) [
  | none ↦ none
  | some token ↦ elim (lookup token s.reservations) [
    | none ↦ none
    | some r ↦ if option_is r.connection c then some (token, r) else none
  ]
]

unfoldable pub renew : ℕ → ℕ → Option (Bytes × DisplayReservation) → RelayServer → RelayServer
unfolding lease
renew c now none s = s
renew c now (some (token, r)) s = lease c now token s

unfoldable pub touch_display : ℕ → ℕ → RelayServer → RelayServer
unfolding own_reservation renew
touch_display c now s = renew c now (own_reservation c s) s

unfoldable pub release : ℕ → Option (Bytes × DisplayReservation) → RelayServer → RelayServer
unfolding insert
release now none s = s
release now (some (token, r)) s = record s {
  reservations =
      insert token (record { connection = none; expires_at = now + s.limits.display_lease_timeout })
        s.reservations;
}

-- The first part of `_connection_closed`: the lease of a closed connection runs out.
unfoldable pub release_display : ℕ → ℕ → RelayServer → RelayServer
unfolding own_reservation release
release_display c now s = release now (own_reservation c s) s
