-- ===== src/Relay/Keeps.antt =====
-- Properties of the server that an action keeps, whether it returns or raises.
use the_grid.Prelude.{
  ℕ, ◌≡◌, refl, Bool, true, false, Option, List, [], ◌∷◌, ◌&&◌, not, ◌++◌, inl, inr, Bool-cases,
  if◌then◌else◌, some, ltb, length,
}
use the_grid.Prelude.Result.{Result, ok, err}
use the_grid.Text.{Text}
use the_grid.Protocol.Frames.{Frame}
use the_grid.Relay.State.{RelayServer, Action, ◌>>=◌, return, lift, get, modify, set_connection}
use the_grid.Relay.Events.{send_event, send_response, send_error, broadcast, try_send}

abbrev pub Keeps {κ ℓ} : (RelayServer → Type κ) → {A : Type ℓ} → Action A → Type κ
Keeps P m = (s : RelayServer) → P s → P (m s).0

-- The outbound queue of a connection, and the request to close it, are changed.
unfoldable pub queue : ℕ → List (Option Frame) → Bool → RelayServer → RelayServer
unfolding set_connection
queue c outbound requested s =
    set_connection c (record (s.heap c) { outbound = outbound; close_requested = requested }) s

-- A property that does not speak of the queue of a connection.
abbrev pub IgnoresQueue {κ} : ℕ → (RelayServer → Type κ) → Type κ
IgnoresQueue c P =
    (outbound : List (Option Frame)) (requested : Bool) (s : RelayServer)
    → P s
    → P (queue c outbound requested s)

module _ {κ} (P : RelayServer → Type κ) where
  follow-Keeps {ℓ μ} :
      {A : Type ℓ} {B : Type μ} (r : Result A) (t : RelayServer) (next : A → Action B)
      → P t
      → ((a : A) → Keeps P (next a))
      → P (((λ _. (t, r)) >>= next) t).0
  follow-Keeps (ok a) t next q k = k a t q
  follow-Keeps (err e) t next q k = q

  pub >>=-Keeps {ℓ μ} :
      {A : Type ℓ} {B : Type μ} (m : Action A) (next : A → Action B)
      → Keeps P m
      → ((a : A) → Keeps P (next a))
      → Keeps P (m >>= next)
  >>=-Keeps m next h k s p = follow-Keeps (m s).1 (m s).0 next (h s p) k

  pub lift-Keeps {ℓ} : {A : Type ℓ} (r : Result A) → Keeps P (lift r)
  lift-Keeps r s p = p

  -- A check changes nothing, so what follows starts where it started.
  pub check-keeps {ℓ μ} :
      {A : Type ℓ} {B : Type μ} (r : Result A) (next : A → Action B) (s : RelayServer)
      → P s
      → ((a : A) → P (next a s).0)
      → P ((lift r >>= next) s).0
  check-keeps (ok a) next s p k = k a
  check-keeps (err e) next s p k = p

  -- The same with what the check has found.
  pub found-keeps {ℓ μ} :
      {A : Type ℓ} {B : Type μ} (r : Result A) (next : A → Action B) (s : RelayServer)
      → P s
      → ((a : A) → r ≡ ok a → P (next a s).0)
      → P ((lift r >>= next) s).0
  found-keeps (ok a) next s p k = k a refl
  found-keeps (err e) next s p k = p

  pub return-Keeps {ℓ} : {A : Type ℓ} (a : A) → Keeps P (return a)
  return-Keeps a s p = p

  pub get-Keeps : Keeps P get
  get-Keeps s p = p

  pub modify-Keeps :
      (f : RelayServer → RelayServer) → ((s : RelayServer) → P s → P (f s)) → Keeps P (modify f)
  modify-Keeps f h s p = h s p

  pub if-Keeps {ℓ} :
      {A : Type ℓ} (b : Bool) (m n : Action A)
      → Keeps P m
      → Keeps P n
      → Keeps P (if b then m else n)
  if-Keeps true m n h k = h
  if-Keeps false m n h k = k

  pub if-keeps {ℓ} :
      {A : Type ℓ} (b : Bool) (x y : RelayServer × A) → P x.0 → P y.0 → P (if b then x else y).0
  if-keeps true x y h k = h
  if-keeps false x y h k = k

  pub branch-keeps {ℓ} :
      {A : Type ℓ} (b : Bool) (m n : Action A) (s : RelayServer)
      → P (m s).0
      → P (n s).0
      → P ((if b then m else n) s).0
  branch-keeps true m n s h k = h
  branch-keeps false m n s h k = k

  module _ (c : ℕ) (ignores : IgnoresQueue c P) where
    pub send_event-Keeps : (frame : Frame) → Keeps P (send_event c frame)
    unfolding send_event queue set_connection
    send_event-Keeps frame s p = if-keeps (s.heap c).closed _ _ p (
        if-keeps (ltb (length (s.heap c).outbound) s.limits.outbound_queue) _ _
          (ignores ((s.heap c).outbound ++ some frame ∷ []) (s.heap c).close_requested s p)
          (ignores (s.heap c).outbound true s p))

    pub send_response-Keeps :
        (request_id frame_type : Text) (fields : Frame)
        → Keeps P (send_response c request_id frame_type fields)
    unfolding send_response
    send_response-Keeps request_id frame_type fields =
        search (>>=-Keeps, lift-Keeps, send_event-Keeps) depth 9

    pub send_error-Keeps :
        (request_id : Option Text) (code : Text) → Keeps P (send_error c request_id code)
    unfolding send_error
    send_error-Keeps request_id code = search (>>=-Keeps, lift-Keeps, send_event-Keeps) depth 9

  pub broadcast-Keeps :
      (ignores : (c : ℕ) → IgnoresQueue c P) (frame : Frame) (cs : List ℕ) (s : RelayServer)
      → P s
      → P (broadcast frame cs s)
  unfolding broadcast try_send
  broadcast-Keeps ignores frame [] s p = p
  broadcast-Keeps ignores frame (c ∷ cs) s p =
      broadcast-Keeps ignores frame cs
        (if (s.heap c).board_subscribed && not (s.heap c).closed then try_send c frame s else s)
        (elim (Bool-cases ((s.heap c).board_subscribed && not (s.heap c).closed)) [
          | inl wanted ↦ rw wanted (send_event-Keeps c (ignores c) frame s p)
          | inr unwanted ↦ rw unwanted p
        ])
